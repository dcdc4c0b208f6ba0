-- ===== src/Syntax/Parser/Good/Stmts.antt =====
-- src/syntax/parser.rs: that statements and blocks stay inside of the tokens.
use yidika.Syntax.Parser.Good.Patterns.{Good-take_ident, Good-drop_type, Good-list_destruct_pattern}
use yidika.Syntax.Parser.Patterns.{ident_text, drop_type}
use yidika.Syntax.Parser.Good.Moves.{Good-peek, Live-advance, Good-eat, Good-tok, Good-accept}
use yidika.Syntax.Parser.Good.Guards.{lives, guards, Good-assoc, Good-at_token_if}
use yidika.Syntax.Parser.Good.{
  Good, Live, Good-stuck, NotEof, Live-Good, Good-bind, Good-if, Live-bind,
}
use yidika.Diagnostics.{Span}
use yidika.Syntax.Ast.{ExprNode, StmtNode}
use yidika.Syntax.Token.{Token}
use yidika.Syntax.Parser.Stmts.{
  parse_block, named_or_expr, decl_stmt, loop_over, block_stmt, parse_stmt, initialized_for,
  list_stmt, parse_if, named_stmt, counted_for, destruct_names, destruct_stmt, paren_expr,
  return_stmt, stmt_of, over_or_none, as_constant, expr_stmt, stmts_until, decl_type, for_stmt,
  for_parts, ends_block,
}
use yidika.Syntax.Parser.Good.Turns.{GoodParsers, Live-or_back, Good-stmt_node}
use yidika.Syntax.Parser.Loops.{Parsers}
use yidika.Syntax.Parser.{pure, kind, accept, Parse, ◌>>=◌, tok, take_opt, ◌>>◌, at_token}
use yidika.Base.{
  zero, suc, [], ◌∷◌, none, some, ℕ, Text, Bool, List, Option, if◌then◌else◌, match_option, ◌||◌,
}

module _ (r : Parsers) (g : GoodParsers r) where
  pub Good-paren_expr : Good (paren_expr r)
  unfolding paren_expr
  Good-paren_expr = search (guards) depth 24

  Good-expr_stmt : Good (expr_stmt r)
  unfolding expr_stmt
  Good-expr_stmt = search (guards) depth 24

  pub Live-parse_if : Live (parse_if r)
  unfolding parse_if
  Live-parse_if = Live-advance _ λ t s p e. Good-bind _ _ Good-paren_expr λ c.
      Good-bind _ _ g.block_stmts λ body. Good-bind _ _ (Good-accept _ tt) λ b.
        Good-if b _ _
          (Good-at_token_if _ _ _ tt (Live-bind _ _ g.if_stmt λ s. Good-stmt_node _ _)
            (search guards depth 12))
          (Good-stmt_node _ _)

  Good-counted_for : Good (counted_for r)
  unfolding counted_for
  Good-counted_for = search (guards) depth 24

  Good-initialized_for : Good (initialized_for r)
  unfolding initialized_for
  Good-initialized_for = search (guards, Good-counted_for) depth 24

  Live-loop_over : (x : Text) (of_ : Bool) → Live (loop_over r x of_)
  unfolding loop_over
  Live-loop_over x of_ = search (lives) depth 24

  Good-over_or_none : Good (over_or_none r)
  unfolding over_or_none kind
  Good-over_or_none = search (lives, Good-peek, Live-loop_over) depth 24

  for_head : (t : Token) → NotEof t → Live (for_parts r t)
  unfolding for_parts kind
  for_head t e = search (lives, Good-counted_for, Good-initialized_for, Good-over_or_none) depth 24

  Live-for_stmt : Live (for_stmt r)
  unfolding for_stmt for_parts kind
  Live-for_stmt = Live-advance _ λ t s p e. Good-assoc _ _ _ (
      Good-bind _ _ (Good-eat _ tt)
        λ _. Good-peek _ (λ u v h k. for_head u k) λ v. Good-initialized_for)

  Good-decl_type : Good (decl_type r)
  unfolding decl_type
  Good-decl_type = search (guards) depth 24

  Good-as_constant : (e : ExprNode) → Good (as_constant r e)
  unfolding as_constant
  Good-as_constant e = search (guards) depth 24

  Good-decl_stmt : (x : Text) (start : Span) → Good (decl_stmt r x start)
  unfolding decl_stmt
  Good-decl_stmt x start = search (guards, Good-decl_type, Good-as_constant) depth 24

  Good-named_stmt : (start : Span) → Good (named_stmt r start)
  unfolding named_stmt
  Good-named_stmt start = search (guards, Good-decl_stmt) depth 24

  Good-destruct_names : (n : ℕ) → Good (destruct_names r n)
  unfolding destruct_names
  Good-destruct_names zero = Good-stuck
  Good-destruct_names (suc n) = turn (destruct_names r n) (Good-destruct_names n)
    where
      turn :
          (again : Parse (Option (List Text)))
          → Good again
          → Good (
              accept Token.r_brace >>= λ close.
              if close
              then pure (some [])
              else take_opt ident_text >>= λ o. match_option o (pure none) λ x.
                drop_type r >> accept Token.comma >>= λ comma. at_token Token.r_brace >>= λ last.
                if comma || last
                then (again >>= λ xs. pure (match_option xs none λ ys. some (x ∷ ys)))
                else pure none)
      turn again h = search (guards, Good-take_ident, Good-drop_type) depth 24

  Live-destruct_stmt : Live (destruct_stmt r)
  unfolding destruct_stmt
  Live-destruct_stmt = search (lives, Good-destruct_names) depth 24

  Good-block_stmt : Good (block_stmt r)
  unfolding block_stmt
  Good-block_stmt = search (guards) depth 24

  Good-list_stmt : Good (list_stmt r)
  unfolding list_stmt
  Good-list_stmt = search (guards, Good-list_destruct_pattern) depth 24

  Live-return_stmt : Live (return_stmt r)
  unfolding return_stmt
  Live-return_stmt = search (lives) depth 24

  Good-named_or_expr : (s : Span) → Good (named_or_expr r s)
  unfolding named_or_expr
  Good-named_or_expr s = search (guards, Good-expr_stmt, Good-named_stmt) depth 24

  Live-stmt_of : (t : Token) (s : Span) → Live (stmt_of r t s)
  unfolding stmt_of
  Live-stmt_of Token.if_ s = g.if_stmt
  Live-stmt_of Token.for s = Live-for_stmt
  Live-stmt_of Token.while s = search (lives, Good-paren_expr) depth 24
  Live-stmt_of Token.loop s = search lives depth 24
  Live-stmt_of Token.infiny s = search lives depth 24
  Live-stmt_of Token.return s = Live-return_stmt
  Live-stmt_of Token.l_brace s = Live-or_back _ _ Live-destruct_stmt Good-block_stmt
  Live-stmt_of Token.l_bracket s = Live-Good _ Good-list_stmt
  Live-stmt_of (Token.ident x) s = Live-Good _ (Good-named_or_expr s)
  Live-stmt_of Token.data_ s = Live-Good _ (Good-named_or_expr s)
  Live-stmt_of Token.open_ s = Live-Good _ (Good-named_or_expr s)
  Live-stmt_of Token.abstract s = Live-Good _ (Good-named_or_expr s)
  Live-stmt_of Token.init s = Live-Good _ (Good-named_or_expr s)
  Live-stmt_of Token.super s = Live-Good _ (Good-named_or_expr s)
  Live-stmt_of Token.override s = Live-Good _ (Good-named_or_expr s)
  Live-stmt_of Token.final s = Live-Good _ (Good-named_or_expr s)
  Live-stmt_of _ s = Live-Good _ Good-expr_stmt

  Good-parse_stmt : Good (parse_stmt r)
  unfolding parse_stmt stmt_of
  Good-parse_stmt = Good-peek _ (λ t s p e. Live-stmt_of t s) λ s. Good-expr_stmt

  Good-stmts_until : (n : ℕ) → Good (stmts_until r n)
  unfolding stmts_until
  Good-stmts_until zero = Good-stuck
  Good-stmts_until (suc n) = turn (stmts_until r n) (Good-stmts_until n)
    where
      turn :
          (again : Parse (List StmtNode))
          → Good again
          → Good (
              tok >>= λ t.
              if ends_block r t
              then pure []
              else parse_stmt r >>= λ s. again >>= λ rest. pure (s ∷ rest))
      turn again h = search (lives, Good-tok, Good-parse_stmt) depth 24

  pub Good-parse_block : Good (parse_block r)
  unfolding parse_block
  Good-parse_block = search (guards, Good-stmts_until) depth 24
