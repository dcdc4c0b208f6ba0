-- ===== src/Syntax/Parser/Literals.antt =====
use yidika.Syntax.Parser.Names.{ident}
use yidika.Syntax.Parser.Patterns.{any_ident}
use yidika.Diagnostics.{Span}
use yidika.Syntax.Token.{Token}
use yidika.Syntax.Parser.Loops.{
  Parsers, braced_list, expr_node, expr_value, comma_list, closes, no_span, when_accepted,
}
use yidika.Syntax.Ast.{Pattern, Expr, OptExpr, ArmList, ExprNode, FieldList, ExprList, PairList}
use yidika.Syntax.Parser.{
  kind, Parse, ◌>>=◌, eat, tok, advance, at_token, is, get_no_struct, accept, ◌>>◌, set_no_struct,
  lookahead, pure, step_back, stuck,
}
use yidika.Base.{
  ℕ, List, Option, if◌then◌else◌, Text, Bool, match_option, ◌∷◌, some, false, suc, true, ◌||◌, ◌==◌,
  none, ◌-◌, ◌&&◌, zero, [],
}

-- src/syntax/parser.rs: `call`, `set_lit`, `tuple_lit`, `map_lit`, `struct_lit`, `parse_match`,
-- `parse_expr`, `parse_fstring`, and what a `{` begins.

abbrev pub exprs_of : List ExprNode → ExprList
exprs_of [] = ExprList.enil
exprs_of (e ∷ es) = ExprList.econs e (exprs_of es)

abbrev pairs_of : List (ExprNode × ExprNode) → PairList
pairs_of [] = PairList.pnil
pairs_of (e ∷ es) = PairList.pcons e.0 e.1 (pairs_of es)

abbrev struct_fields : List (Text × ExprNode) → FieldList
struct_fields [] = FieldList.fnil
struct_fields (f ∷ fs) = FieldList.fcons f.0 f.1 (struct_fields fs)

pub record Arm : Type 0 where
  pub pattern : Pattern
  pub guard : OptExpr
  pub body : ExprNode

abbrev arms_of : List Arm → ArmList
arms_of [] = ArmList.anil
arms_of (a ∷ arms) = ArmList.acons a.pattern a.guard a.body (arms_of arms)

abbrev pub opt_expr : Option ExprNode → OptExpr
opt_expr none = OptExpr.no_expr
opt_expr (some e) = OptExpr.an_expr e

abbrev first_is : Token → List (Token × Span) → Bool
first_is t [] = false
first_is t (x ∷ xs) = is t x.0

abbrev ends_shorthand : List (Token × Span) → Bool
ends_shorthand ts = first_is Token.comma ts || first_is Token.r_brace ts

-- Whether the first `]` of the next `n` tokens stands before a `:`.
unfoldable pub bracket_colon : ℕ → List (Token × Span) → Bool
unfolding kind
bracket_colon zero ts = false
bracket_colon (suc n) [] = false
bracket_colon (suc n) (t ∷ ts) =
    let later = bracket_colon n ts in
    if is Token.r_bracket t.0 then first_is Token.colon ts else later

-- `is_map`, of the token after the `{` and of what follows it.
unfoldable pub is_map : Token → List (Token × Span) → Bool
unfolding kind bracket_colon
is_map Token.r_brace ts = true
is_map (Token.ident x) ts = first_is Token.colon ts || ends_shorthand ts
is_map (Token.str_lit x) ts = first_is Token.colon ts
is_map (Token.int_lit x) ts = first_is Token.colon ts
is_map (Token.real_lit x) ts = first_is Token.colon ts
is_map Token.l_bracket ts = bracket_colon 19 ts
is_map _ ts = false

-- A depth of `d` stands as `100 + d`: it is below 0 after a closing bracket too many.
abbrev level : ℕ
level = 100

abbrev opens : Token → Bool
opens t = is Token.l_paren t || is Token.l_bracket t || is Token.l_brace t

abbrev shuts : Token → Bool
shuts t = is Token.r_paren t || is Token.r_bracket t || is Token.r_brace t

abbrev deeper : Token → ℕ → ℕ
deeper t depth = if opens t then suc depth else if shuts t then depth - 1 else depth

-- `is_set`: a comma at depth 0 among the next `n` tokens.
unfoldable pub is_set : ℕ → ℕ → List (Token × Span) → Bool
unfolding kind
is_set zero depth ts = false
is_set (suc n) depth [] = false
is_set (suc n) depth (t ∷ ts) =
    let later = is_set n (deeper t.0 depth) ts in
    if depth == level && is Token.r_brace t.0
    then false
    else if depth == level && is Token.comma t.0
    then true
    else later

abbrev name_of : Expr → Option Text
name_of (Expr.ident x) = some x
name_of _ = none

module _ (r : Parsers) where
  -- Arguments, after the `(`.
  unfoldable pub call_args : Parse ExprList
  unfolding kind
  call_args = comma_list closes (r.expr 0) r.fuel >>= λ es. eat Token.r_paren >> pure (exprs_of es)

  -- `call`
  unfoldable pub call : Text → Span → Parse ExprNode
  call x s = eat Token.l_paren >> call_args >>= λ es.
      expr_node s (Expr.ident x) >>= λ f. expr_node s (Expr.call f es)

  unfoldable pub items_to : Token → Parse (List ExprNode)
  items_to close = braced_list close (r.expr 0) r.fuel

  -- `set_lit`
  unfoldable pub set_lit : Span → Parse ExprNode
  set_lit s = at_token Token.l_paren >>= λ use_paren. advance λ _ _.
      (if use_paren then items_to Token.r_paren else items_to Token.r_brace) >>= λ es.
      expr_node s (Expr.set_lit (exprs_of es))

  -- `tuple_lit`
  unfoldable pub tuple_lit : Span → Parse ExprNode
  tuple_lit s =
      advance λ _ _. items_to Token.r_brace >>= λ es. expr_node s (Expr.tuple_lit (exprs_of es))

  unfoldable pub computed_pair : Parse (ExprNode × ExprNode)
  computed_pair =
      r.expr 0 >>= λ k. eat Token.r_bracket >> eat Token.colon >> r.expr 0 >>= λ v. pure (k, v)

  unfoldable pub shorthand_pair : Parse (ExprNode × ExprNode)
  shorthand_pair = ident >>= λ x. expr_node no_span (Expr.lit_str x) >>= λ k.
      expr_node no_span (Expr.ident x) >>= λ v. pure (k, v)

  -- A key that is a name stands for the string.
  unfoldable pub key_node : ExprNode → Parse ExprNode
  key_node k =
      match_option (name_of (expr_value k)) (pure k) λ x. expr_node no_span (Expr.lit_str x)

  unfoldable pub keyed_pair : Parse (ExprNode × ExprNode)
  keyed_pair =
      r.expr 0 >>= λ e. eat Token.colon >> key_node e >>= λ k. r.expr 0 >>= λ v. pure (k, v)

  unfoldable pub map_pair : Parse (ExprNode × ExprNode)
  unfolding kind
  map_pair = accept Token.l_bracket >>= λ bracket.
      if bracket
      then computed_pair
      else tok >>= λ t. lookahead >>= λ ts.
          if is any_ident t && ends_shorthand ts then shorthand_pair else keyed_pair

  unfoldable pub map_pairs : Span → Parse ExprNode
  map_pairs s =
      braced_list Token.r_brace map_pair r.fuel >>= λ ps. expr_node s (Expr.map_lit (pairs_of ps))

  -- `map_lit`
  unfoldable pub map_lit : Span → Parse ExprNode
  map_lit s = advance λ _ _. map_pairs s

  unfoldable pub struct_field : Parse (Text × ExprNode)
  struct_field = ident >>= λ x. eat Token.colon >> r.expr 0 >>= λ e. pure (x, e)

  -- `struct_lit`
  unfoldable pub struct_lit : Text → Span → Parse ExprNode
  struct_lit x s = advance λ _ _. braced_list Token.r_brace struct_field r.fuel >>= λ fs.
      expr_node s (Expr.struct_lit x (struct_fields fs))

  unfoldable pub match_arm : Parse Arm
  match_arm = r.pattern >>= λ p. when_accepted Token.if_ (r.expr 0) >>= λ g.
      eat Token.fat_arrow >> r.expr 0 >>= λ e.
      accept Token.comma >> pure (record { pattern = p; guard = opt_expr g; body = e })

  unfoldable pub match_arms : ℕ → Parse (List Arm)
  match_arms zero = stuck
  match_arms (suc n) = accept Token.r_brace >>= λ close.
      if close then pure [] else match_arm >>= λ a. match_arms n >>= λ arms. pure (a ∷ arms)

  -- `parse_match`
  unfoldable pub parse_match : Span → Parse ExprNode
  parse_match s = get_no_struct >>= λ saved. set_no_struct true >> r.expr 0 >>= λ e.
      set_no_struct saved >> eat Token.l_brace >> match_arms r.fuel >>= λ arms.
      expr_node s (Expr.match_ e (arms_of arms))

  -- The `{` of an expression: a map, a set, or a block.
  unfoldable pub brace_lit : Span → Parse ExprNode
  unfolding is_map is_set
  brace_lit s = tok >>= λ t. lookahead >>= λ ts.
      if is_map t ts
      then map_pairs s
      else if is_set 100 level ts
      then (items_to Token.r_brace >>= λ es. expr_node s (Expr.set_lit (exprs_of es)))
      else step_back >> r.block_stmts >>= λ b. expr_node s (Expr.block b)
