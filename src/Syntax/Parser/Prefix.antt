-- ===== src/Syntax/Parser/Prefix.antt =====
use yidika.Syntax.Types.{TypeExpr}
use yidika.Syntax.Parser.Formats.{parse_fstring}
use yidika.Syntax.Parser.Stmts.{paren_expr}
use yidika.Syntax.Parser.Literals.{
  exprs_of, opt_expr, call_args, brace_lit, parse_match, call, set_lit, tuple_lit, map_lit,
  struct_lit,
}
use yidika.Diagnostics.{Span}
use yidika.Syntax.Token.{Token}
use yidika.Syntax.Parser.{
  Parse, kind, at_token, advance, get_no_struct, ◌>>=◌, eat, accept, stuck, ◌>>◌, is, tok, pure,
  fail,
}
use yidika.Syntax.Parser.Names.{
  keyword_to_ident, unquoted, sliced, parse_i64, or_number, or_panic, unescape_str, ident,
}
use yidika.Syntax.Ast.{ExprNode, Expr, UnOp, RowList, Param, ExprList, enode}
use yidika.Base.{
  Text, List, match_option, [], Option, Bool, text_eq, false, ℕ, some, codes, if◌then◌else◌, ◌&&◌,
  suc, none, ◌∷◌, ◌||◌, not, true, zero,
}
use yidika.Syntax.Parser.Loops.{
  Parsers, comma_list, expr_node, expr_value, when_accepted, each, type_node, ends_params, no_span,
}

-- src/syntax/parser.rs: `prefix`.

abbrev ident_or_empty : Expr → Text
ident_or_empty (Expr.ident x) = x
ident_or_empty _ = []

abbrev list_items : ExprNode → Option ExprList
list_items (enode id s (Expr.list_lit es) ds) = some es
list_items _ = none

-- The rows, if every item is a list.
abbrev rows_of : List ExprNode → Option RowList
rows_of [] = some RowList.rnil
rows_of (e ∷ es) =
    match_option (list_items e) none
      λ row. match_option (rows_of es) none λ rows. some (RowList.rcons row rows)

abbrev tuple_or_matrix : List ExprNode → Expr
tuple_or_matrix es =
    match_option (rows_of es) (Expr.tuple_lit (exprs_of es)) λ rows. Expr.matrix_lit rows

unfoldable pub inferred_param : Text → Parse Param
inferred_param x = type_node no_span TypeExpr.infer >>= λ t.
    pure (record { name = x; type_expr = t; is_ref = false })

unfoldable pub closure_param : ExprNode → Parse Param
closure_param e = inferred_param (ident_or_empty (expr_value e))

module _ (r : Parsers) where
  -- `body` after a `=>`.
  unfoldable pub closure_body : Span → Parse ExprNode
  closure_body s = at_token Token.l_brace >>= λ brace.
      if brace then (r.block_stmts >>= λ b. expr_node s (Expr.block b)) else r.expr 0

  unfoldable pub closure : Span → List ExprNode → Parse ExprNode
  closure s es = closure_body s >>= λ body.
      each closure_param es >>= λ params. expr_node s (Expr.closure params body)

  -- `loop { advance; if `)` { break }; push(expr); if not separator { break } }`
  unfoldable pub items_after : Token → ℕ → Parse (List ExprNode)
  items_after separator zero = stuck
  items_after separator (suc n) = advance λ _ _. at_token Token.r_paren >>= λ close.
      if close
      then pure []
      else r.expr 0 >>= λ e. at_token separator >>= λ more.
          if more then (items_after separator n >>= λ es. pure (e ∷ es)) else pure (e ∷ [])

  unfoldable pub vector_lit : ExprNode → Span → Parse ExprNode
  vector_lit e s = items_after Token.colon r.fuel >>= λ es.
      eat Token.r_paren >> expr_node s (Expr.vector_lit (exprs_of (e ∷ es)))

  unfoldable pub tuple_or_closure : ExprNode → Span → Parse ExprNode
  unfolding match_option
  tuple_or_closure e s = items_after Token.comma r.fuel >>= λ es.
      eat Token.r_paren >> accept Token.fat_arrow >>= λ arrow.
      if arrow then closure s (e ∷ es) else expr_node s (tuple_or_matrix (e ∷ es))

  -- After a `(`.
  unfoldable pub paren : Span → Parse ExprNode
  unfolding kind
  paren s = accept Token.r_paren >>= λ empty.
      if empty
      then (accept Token.fat_arrow >>= λ arrow.
          if arrow then closure s [] else expr_node s (Expr.tuple_lit ExprList.enil))
      else r.expr 0 >>= λ e. tok >>= λ t.
          if is Token.colon t
          then vector_lit e s
          else if is Token.comma t
          then tuple_or_closure e s
          else eat Token.r_paren >> accept Token.fat_arrow >>= λ arrow.
              if arrow then closure s (e ∷ []) else pure e

  unfoldable pub variant_lit : Text → Span → Parse ExprNode
  variant_lit x s = ident >>= λ v. accept Token.l_paren >>= λ b.
      (if b then call_args r else pure ExprList.enil) >>= λ es. expr_node s (Expr.variant x v es)

  -- A struct where one may stand, or the name.
  unfoldable pub struct_or_name : Text → Span → Parse ExprNode
  struct_or_name x s = get_no_struct >>= λ forbidden. at_token Token.l_brace >>= λ brace.
      if brace && not forbidden then struct_lit r x s else expr_node s (Expr.ident x)

  abbrev is_map_name : Text → Bool
  is_map_name x = text_eq x (codes "map") || text_eq x (codes "Map")

  unfoldable pub named_expr : Text → Span → Parse ExprNode
  unfolding kind text_eq
  named_expr x s = accept Token.double_colon >>= λ path.
      if path
      then variant_lit x s
      else tok >>= λ t.
          if text_eq x (codes "set") && is Token.l_brace t
          then set_lit r s
          else if text_eq x (codes "tuple") && is Token.l_brace t
          then tuple_lit r s
          else if is_map_name x && is Token.l_brace t
          then map_lit r s
          else if is Token.l_paren t
          then call r x s
          else struct_or_name x s

  unfoldable pub keyword_expr : Text → Span → Parse ExprNode
  unfolding kind text_eq
  keyword_expr x s = tok >>= λ t.
      if is Token.l_paren t
      then call r x s
      else if is_map_name x && is Token.l_brace t
      then map_lit r s
      else struct_or_name x s

  unfoldable pub unary : UnOp → Span → Parse ExprNode
  unary op s = r.expr_inner 13 false >>= λ e. expr_node s (Expr.un_op op e)

  unfoldable pub wrapped : (ExprNode → Expr) → Span → Parse ExprNode
  wrapped c s = r.expr 0 >>= λ e. expr_node s (c e)

  unfoldable pub imaginary : Expr → Expr → Span → Parse ExprNode
  imaginary zero_ value s =
      expr_node s zero_ >>= λ re. expr_node s value >>= λ im. expr_node s (Expr.lit_complex re im)

  unfoldable pub fn_param : Parse Param
  fn_param = ident >>= λ x. when_accepted Token.colon r.type_ >>= λ o.
      match_option o (inferred_param x)
        λ t. pure (record { name = x; type_expr = t; is_ref = false })

  unfoldable pub fn_lit : Span → Parse ExprNode
  unfolding kind
  fn_lit s = eat Token.l_paren >> comma_list ends_params fn_param r.fuel >>= λ params.
      eat Token.r_paren >> when_accepted Token.arrow r.type_ >>= λ ret.
      eat Token.l_brace >> r.expr 0 >>= λ body.
      eat Token.r_brace >> expr_node s (Expr.fn_lit params ret body)

  unfoldable pub list_lit : Span → Parse ExprNode
  unfolding kind
  list_lit s = comma_list (is Token.r_bracket) (r.expr 0) r.fuel >>= λ es.
      eat Token.r_bracket >> expr_node s (Expr.list_lit (exprs_of es))

  unfoldable pub if_expr : Span → Parse ExprNode
  if_expr s = paren_expr r >>= λ c. r.expr 0 >>= λ e.
      when_accepted Token.else_ (r.expr 0) >>= λ o. expr_node s (Expr.if_ c e (opt_expr o))

  unfoldable pub try_expr : Span → Parse ExprNode
  try_expr s = r.block_stmts >>= λ body. eat Token.catch >> eat Token.l_paren >> ident >>= λ x.
      eat Token.r_paren >> r.block_stmts >>= λ handler. expr_node s (Expr.try_catch body x handler)

  -- The expression that begins with a token, which is passed.
  unfoldable pub prefix_of : Token → Span → Parse ExprNode
  unfolding keyword_to_ident unquoted sliced parse_i64
  prefix_of (Token.int_lit x) s = expr_node s (Expr.lit_int (or_number (parse_i64 10 x) 0))
  prefix_of (Token.hex_lit x) s =
      or_panic (sliced 2 x) >>= λ y. expr_node s (Expr.lit_hex (or_number (parse_i64 16 y) 0))
  prefix_of (Token.real_lit x) s = expr_node s (Expr.lit_real (or_number (r.parse_f64 x) 0))
  prefix_of (Token.imag_int x) s =
      imaginary (Expr.lit_int 0) (Expr.lit_int (or_number (parse_i64 10 x) 0)) s
  prefix_of (Token.imag_real x) s =
      imaginary (Expr.lit_real 0) (Expr.lit_real (or_number (r.parse_f64 x) 0)) s
  prefix_of (Token.str_lit x) s =
      or_panic (unquoted x) >>= λ y. expr_node s (Expr.lit_str (unescape_str y))
  prefix_of Token.true_ s = expr_node s (Expr.lit_bool true)
  prefix_of Token.false_ s = expr_node s (Expr.lit_bool false)
  prefix_of Token.null s = expr_node s Expr.lit_null
  prefix_of Token.none_ s = expr_node s Expr.lit_none
  prefix_of (Token.symbol_lit x) s = or_panic (sliced 1 x) >>= λ y. expr_node s (Expr.lit_symbol y)
  prefix_of (Token.char_lit c) s = expr_node s (Expr.lit_char c)
  prefix_of (Token.ident x) s = named_expr x s
  prefix_of (Token.t_int w) s = keyword_expr (keyword_to_ident (Token.t_int w)) s
  prefix_of (Token.t_rint w) s = keyword_expr (keyword_to_ident (Token.t_rint w)) s
  prefix_of (Token.t_real w) s = keyword_expr (keyword_to_ident (Token.t_real w)) s
  prefix_of Token.t_complex s = keyword_expr (keyword_to_ident Token.t_complex) s
  prefix_of Token.t_bool s = keyword_expr (keyword_to_ident Token.t_bool) s
  prefix_of Token.t_str s = keyword_expr (keyword_to_ident Token.t_str) s
  prefix_of Token.t_symbol s = keyword_expr (keyword_to_ident Token.t_symbol) s
  prefix_of Token.t_vector s = keyword_expr (keyword_to_ident Token.t_vector) s
  prefix_of Token.t_matrix s = keyword_expr (keyword_to_ident Token.t_matrix) s
  prefix_of Token.t_map s = keyword_expr (keyword_to_ident Token.t_map) s
  prefix_of Token.infiny s = keyword_expr (keyword_to_ident Token.infiny) s
  prefix_of Token.open_ s = keyword_expr (keyword_to_ident Token.open_) s
  prefix_of Token.abstract s = keyword_expr (keyword_to_ident Token.abstract) s
  prefix_of Token.data_ s = keyword_expr (keyword_to_ident Token.data_) s
  prefix_of Token.init s = keyword_expr (keyword_to_ident Token.init) s
  prefix_of Token.super s = keyword_expr (keyword_to_ident Token.super) s
  prefix_of Token.override s = keyword_expr (keyword_to_ident Token.override) s
  prefix_of Token.final s = keyword_expr (keyword_to_ident Token.final) s
  prefix_of Token.minus s = unary UnOp.neg s
  prefix_of Token.bang s = unary UnOp.not s
  prefix_of Token.tilde s = unary UnOp.bit_not s
  prefix_of Token.l_paren s = paren s
  prefix_of Token.l_brace s = brace_lit r s
  prefix_of Token.fn s = fn_lit s
  prefix_of Token.l_bracket s = list_lit s
  prefix_of Token.ok_kw s = wrapped Expr.result_ok s
  prefix_of Token.error_kw s = wrapped Expr.result_err s
  prefix_of Token.spawn s = wrapped Expr.spawn s
  prefix_of Token.await s = wrapped Expr.await s
  prefix_of Token.if_ s = if_expr s
  prefix_of Token.match_ s = parse_match r s
  prefix_of Token.try s = try_expr s
  prefix_of (Token.backtick_str x) s = expr_node s (Expr.lit_str x)
  prefix_of (Token.f_str_lit x) s = parse_fstring r x s
  prefix_of _ s = fail s

  -- `prefix`
  unfoldable pub parse_prefix : Parse ExprNode
  unfolding prefix_of
  parse_prefix = advance prefix_of
