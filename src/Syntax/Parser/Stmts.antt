-- ===== src/Syntax/Parser/Stmts.antt =====
use yidika.Syntax.Parser.Names.{ident}
use yidika.Syntax.Parser.Patterns.{list_destruct_pattern, any_ident, ident_text, drop_type}
use yidika.Syntax.Parser.{
  kind, Parse, peek, or_back, accept, ◌>>=◌, advance, step, stuck, eat, pure, is, fresh_id,
  opt_semicolon, ◌>>◌, tok, take_opt, at_token, eat_gt,
}
use yidika.Syntax.Token.{Token}
use yidika.Base.{
  List, Option, ℕ, Text, ◌∷◌, Bool, zero, suc, [], none, some, true, false, ◌||◌, if◌then◌else◌,
  match_option,
}
use yidika.Diagnostics.{Span, merge}
use yidika.Syntax.Ast.{
  StmtList, ExprNode, StmtNode, TypeNode, PatternFields, Pattern, Stmt, Expr, OptStmts, OptExpr,
  snode,
}
use yidika.Syntax.Parser.Loops.{Parsers, when_accepted, stmt_node, expr_node, expr_span, no_span}

-- src/syntax/parser.rs: `block_stmts`, `stmt`, `decl_stmt`, `if_stmt` and `for_stmt`.

abbrev pub stmts_of : List StmtNode → StmtList
stmts_of [] = StmtList.snil
stmts_of (s ∷ ss) = StmtList.scons s (stmts_of ss)

abbrev pub push_stmt : StmtList → StmtNode → StmtList
push_stmt StmtList.snil s = StmtList.scons s StmtList.snil
push_stmt (StmtList.scons t ts) s = StmtList.scons t (push_stmt ts s)

-- The names of a destructuring, each bound to itself.
abbrev bound_fields : List Text → PatternFields
bound_fields [] = PatternFields.end
bound_fields (x ∷ xs) = PatternFields.field x (Pattern.ident x) (bound_fields xs)

abbrev merge_type : Span → Option TypeNode → Span
merge_type s none = s
merge_type s (some t) = merge s t.span

module _ (r : Parsers) where
  -- `( expr )`
  unfoldable pub paren_expr : Parse ExprNode
  paren_expr = eat Token.l_paren >> r.expr 0 >>= λ c. eat Token.r_paren >> pure c

  unfoldable pub expr_stmt : Parse StmtNode
  expr_stmt = r.expr 0 >>= λ e. opt_semicolon >> stmt_node (expr_span e) (Stmt.expr e)

  -- `if_stmt`
  unfoldable pub parse_if : Parse StmtNode
  parse_if = advance λ _ _. paren_expr >>= λ c. r.block_stmts >>= λ body.
      accept Token.else_ >>= λ b.
      if b
      then (at_token Token.if_ >>= λ again.
          if again
          then (r.if_stmt >>= λ s.
              stmt_node no_span
                (Stmt.if_do c body (OptStmts.some_stmts (StmtList.scons s StmtList.snil))))
          else r.block_stmts >>= λ other.
              stmt_node no_span (Stmt.if_do c body (OptStmts.some_stmts other)))
      else stmt_node no_span (Stmt.if_do c body OptStmts.no_stmts)

  -- What follows the first `;` of a `for` of three parts.
  unfoldable pub counted_for : Parse StmtNode
  counted_for = r.expr 0 >>= λ c. eat Token.semicolon >> r.expr 0 >>= λ inc.
      eat Token.r_paren >> r.block_stmts >>= λ body. stmt_node no_span (Stmt.expr inc) >>= λ last.
      stmt_node no_span (Stmt.while_do c (push_stmt body last))

  unfoldable pub initialized_for : Parse StmtNode
  initialized_for = r.expr 0 >>= λ first. eat Token.semicolon >> counted_for

  unfoldable pub loop_over : Text → Bool → Parse StmtNode
  loop_over x of_ = step >> r.expr 0 >>= λ e.
      eat Token.r_paren >> r.block_stmts >>= λ body. stmt_node no_span (Stmt.for x e body of_)

  unfoldable pub over_or_none : Parse (Option StmtNode)
  unfolding kind
  over_or_none = ident >>= λ x. peek >>= λ t.
      if is Token.in_ t.0
      then (loop_over x false >>= λ s. pure (some s))
      else if is Token.colon t.0
      then (loop_over x true >>= λ s. pure (some s))
      else pure none

  -- What follows the `(` of a `for`.
  unfoldable pub for_parts : Token → Parse StmtNode
  unfolding kind
  for_parts t =
      if is Token.semicolon t
      then step >> counted_for
      else if is any_ident t
      then or_back over_or_none initialized_for
      else initialized_for

  -- `for_stmt`
  unfoldable pub for_stmt : Parse StmtNode
  unfolding for_parts
  for_stmt = advance λ _ _. eat Token.l_paren >> peek >>= λ t. for_parts t.0

  -- `const`, `const<T>`, or a type.
  unfoldable pub decl_type : Parse (Bool × Option TypeNode)
  decl_type = accept Token.const >>= λ constant.
      if constant
      then (when_accepted Token.lt (r.type_ >>= λ t. eat_gt >> pure t) >>= λ t. pure (true, t))
      else r.type_ >>= λ t. pure (false, some t)

  unfoldable pub as_constant : ExprNode → Parse ExprNode
  as_constant e = accept Token.as_ >>= λ b.
      if b then eat Token.const >> expr_node (expr_span e) (Expr.as_const e) else pure e

  -- `decl_stmt`
  unfoldable pub decl_stmt : Text → Span → Parse StmtNode
  unfolding merge
  decl_stmt x start = decl_type >>= λ d. accept Token.eq >>= λ b.
      if b
      then (r.expr 0 >>= λ e. as_constant e >>= λ v.
          opt_semicolon >> stmt_node (merge start (expr_span v)) (Stmt.decl x d.1 v d.0))
      else opt_semicolon >> expr_node start Expr.lit_null >>= λ v.
          stmt_node (merge_type start d.1) (Stmt.decl x d.1 v d.0)

  -- A declaration, an assignment, or neither.
  unfoldable pub named_stmt : Span → Parse (Option StmtNode)
  unfolding merge
  named_stmt start = ident >>= λ x. accept Token.colon >>= λ colon.
      if colon
      then (decl_stmt x start >>= λ s. pure (some s))
      else accept Token.eq >>= λ equals.
          if equals
          then (r.expr 0 >>= λ e.
              opt_semicolon >> stmt_node (merge start (expr_span e)) (Stmt.assign_to x e) >>= λ s.
              pure (some s))
          else pure none

  -- The names up to `}`, which is passed, or nothing.
  unfoldable pub destruct_names : ℕ → Parse (Option (List Text))
  destruct_names zero = stuck
  destruct_names (suc n) = accept Token.r_brace >>= λ close.
      if close
      then pure (some [])
      else take_opt ident_text >>= λ o. match_option o (pure none) λ x.
        drop_type r >> accept Token.comma >>= λ comma. at_token Token.r_brace >>= λ last.
        if comma || last
        then (destruct_names n >>= λ xs. pure (match_option xs none λ ys. some (x ∷ ys)))
        else pure none

  unfoldable pub destruct_stmt : Parse (Option StmtNode)
  destruct_stmt = step >> destruct_names r.fuel >>= λ o. match_option o (pure none) λ xs.
      accept Token.eq >>= λ b.
      if b
      then (r.expr 0 >>= λ e.
          opt_semicolon
          >> stmt_node no_span (Stmt.destruct (Pattern.destruct (bound_fields xs)) e)
          >>= λ s. pure (some s))
      else pure none

  unfoldable pub block_stmt : Parse StmtNode
  block_stmt = r.block_stmts >>= λ b. fresh_id >>= λ id.
      expr_node no_span (Expr.block b) >>= λ e. pure (snode id no_span (Stmt.expr e) [])

  unfoldable pub list_stmt : Parse StmtNode
  list_stmt = list_destruct_pattern r >>= λ p.
      eat Token.eq >> r.expr 0 >>= λ e. opt_semicolon >> stmt_node no_span (Stmt.destruct p e)

  unfoldable pub return_stmt : Parse StmtNode
  return_stmt = step >> accept Token.semicolon >>= λ b.
      if b
      then stmt_node no_span (Stmt.return OptExpr.no_expr)
      else r.expr 0 >>= λ e. opt_semicolon >> stmt_node no_span (Stmt.return (OptExpr.an_expr e))

  unfoldable pub named_or_expr : Span → Parse StmtNode
  named_or_expr s = or_back (named_stmt s) expr_stmt

  unfoldable pub stmt_of : Token → Span → Parse StmtNode
  stmt_of Token.if_ s = r.if_stmt
  stmt_of Token.for s = for_stmt
  stmt_of Token.while s =
      step >> paren_expr >>= λ c. r.block_stmts >>= λ b. stmt_node no_span (Stmt.while_do c b)
  stmt_of Token.loop s = step >> r.block_stmts >>= λ b. stmt_node no_span (Stmt.loop_do b)
  stmt_of Token.infiny s = step >> r.block_stmts >>= λ b. stmt_node no_span (Stmt.loop_do b)
  stmt_of Token.return s = return_stmt
  stmt_of Token.l_brace s = or_back destruct_stmt block_stmt
  stmt_of Token.l_bracket s = list_stmt
  stmt_of (Token.ident x) s = named_or_expr s
  stmt_of Token.data_ s = named_or_expr s
  stmt_of Token.open_ s = named_or_expr s
  stmt_of Token.abstract s = named_or_expr s
  stmt_of Token.init s = named_or_expr s
  stmt_of Token.super s = named_or_expr s
  stmt_of Token.override s = named_or_expr s
  stmt_of Token.final s = named_or_expr s
  stmt_of _ s = expr_stmt

  -- `stmt`
  unfoldable pub parse_stmt : Parse StmtNode
  unfolding stmt_of
  parse_stmt = peek >>= λ t. stmt_of t.0 t.1

  abbrev pub ends_block : Token → Bool
  ends_block t = is Token.r_brace t || is Token.eof t

  unfoldable pub stmts_until : ℕ → Parse (List StmtNode)
  unfolding kind
  stmts_until zero = stuck
  stmts_until (suc n) = tok >>= λ t.
      if ends_block t
      then pure []
      else parse_stmt >>= λ s. stmts_until n >>= λ rest. pure (s ∷ rest)

  -- `block_stmts`
  unfoldable pub parse_block : Parse StmtList
  parse_block =
      eat Token.l_brace >> stmts_until r.fuel >>= λ ss. eat Token.r_brace >> pure (stmts_of ss)
