-- ===== src/Syntax/Parser/Infix.antt =====
use yidika.Syntax.Parser.Literals.{call_args}
use yidika.Syntax.Parser.Prefix.{parse_prefix, inferred_param}
use yidika.Syntax.Parser.Names.{sliced, or_panic, field_ident, ident}
use yidika.Syntax.Parser.{Parse, kind, accept, step, eat, ◌>>=◌, stuck, ◌>>◌, pure, is, tok}
use yidika.Syntax.Ast.{ExprList, BinOp, ExprNode, Expr, enode, OptExpr}
use yidika.Syntax.Token.{Token}
use yidika.Syntax.Parser.Loops.{
  Parsers, expr_node, expr_value, expr_span, no_span, comma_list, ends_params,
}
use yidika.Base.{
  List, contains, Text, Option, Bool, codes, ℕ, some, false, true, ◌&&◌, ◌∷◌, if◌then◌else◌, [],
  ◌+◌, ◌==◌, none, suc, match_option, ltb, zero,
}

-- src/syntax/parser.rs: `expr`, `expr_inner`, `op_prec` and `is_method_call`.

-- `op_prec`
unfoldable pub op_prec : BinOp → ℕ
op_prec BinOp.assign = 1
op_prec BinOp.or = 2
op_prec BinOp.and = 3
op_prec BinOp.bit_or = 4
op_prec BinOp.bit_xor = 5
op_prec BinOp.bit_and = 6
op_prec BinOp.eq = 7
op_prec BinOp.ne = 7
op_prec BinOp.lt = 8
op_prec BinOp.gt = 8
op_prec BinOp.le = 8
op_prec BinOp.ge = 8
op_prec BinOp.shl = 9
op_prec BinOp.shr = 9
op_prec BinOp.add = 10
op_prec BinOp.sub = 10
op_prec BinOp.mul = 11
op_prec BinOp.div = 11
op_prec BinOp.mod_ = 11
op_prec BinOp.pow = 12

abbrev pub is_pow : BinOp → Bool
is_pow BinOp.pow = true
is_pow _ = false

-- `rhs_prec`
unfoldable pub rhs_prec : BinOp → ℕ
unfolding op_prec
rhs_prec op = if is_pow op then op_prec op else op_prec op + 1

unfoldable pub infix_op : Token → Option BinOp
infix_op Token.plus = some BinOp.add
infix_op Token.minus = some BinOp.sub
infix_op Token.star = some BinOp.mul
infix_op Token.slash = some BinOp.div
infix_op Token.percent = some BinOp.mod_
infix_op Token.star_star = some BinOp.pow
infix_op Token.ref = some BinOp.bit_and
infix_op Token.pipe = some BinOp.bit_or
infix_op Token.caret = some BinOp.bit_xor
infix_op Token.shl = some BinOp.shl
infix_op Token.shr = some BinOp.shr
infix_op Token.eq_eq = some BinOp.eq
infix_op Token.not_eq = some BinOp.ne
infix_op Token.lt = some BinOp.lt
infix_op Token.gt = some BinOp.gt
infix_op Token.lt_eq = some BinOp.le
infix_op Token.gt_eq = some BinOp.ge
infix_op Token.and = some BinOp.and
infix_op Token.or = some BinOp.or
infix_op Token.eq = some BinOp.assign
infix_op _ = none

unfoldable pub compound_op : Token → Option BinOp
compound_op Token.plus_eq = some BinOp.add
compound_op Token.minus_eq = some BinOp.sub
compound_op Token.star_eq = some BinOp.mul
compound_op Token.slash_eq = some BinOp.div
compound_op Token.percent_eq = some BinOp.mod_
compound_op Token.star_star_eq = some BinOp.pow
compound_op Token.pipe_eq = some BinOp.bit_or
compound_op Token.ref_eq = some BinOp.bit_and
compound_op Token.caret_eq = some BinOp.bit_xor
compound_op Token.shl_eq = some BinOp.shl
compound_op Token.shr_eq = some BinOp.shr
compound_op _ = none

abbrev is_name : ExprNode → Bool
is_name (enode id s (Expr.ident x) ds) = true
is_name _ = false

-- `is_method_call`
unfoldable pub is_method_call : Expr → List Text → Bool
unfolding contains
is_method_call (Expr.field e x) methods = is_name e && contains x methods
is_method_call _ methods = false

abbrev server_methods : List Text
server_methods =
    codes "get"
    ∷ codes "post"
    ∷ codes "put"
    ∷ codes "delete"
    ∷ codes "patch"
    ∷ codes "ws"
    ∷ codes "serve"
    ∷ []

abbrev push_expr : ExprList → ExprNode → ExprList
push_expr ExprList.enil e = ExprList.econs e ExprList.enil
push_expr (ExprList.econs d ds) e = ExprList.econs d (push_expr ds e)

abbrev pub starts_with_dot : Text → Bool
starts_with_dot [] = false
starts_with_dot (c ∷ cs) = c == b'.'

-- A node of which the value is made from an expression, at its span.
unfoldable pub over : ExprNode → (ExprNode → Expr) → Parse ExprNode
over lhs c = expr_node (expr_span lhs) (c lhs)

module _ (r : Parsers) where
  unfoldable pub field_after : ExprNode → Text → Parse (Option ExprNode)
  unfolding sliced
  field_after lhs x =
      if starts_with_dot x
      then (step >> or_panic (sliced 1 x) >>= λ y.
          over lhs (λ e. Expr.field e y) >>= λ e. pure (some e))
      else pure none

  -- What follows an expression, or nothing.
  unfoldable pub postfix_of : ExprNode → Token → Parse (Option ExprNode)
  postfix_of lhs Token.l_bracket = step >> r.expr 0 >>= λ i.
      eat Token.r_bracket >> over lhs (λ e. Expr.index e i) >>= λ e. pure (some e)
  postfix_of lhs Token.dot =
      step >> field_ident >>= λ x. over lhs (λ e. Expr.field e x) >>= λ e. pure (some e)
  postfix_of lhs Token.question_dot =
      step >> field_ident >>= λ x. over lhs (λ e. Expr.safe_call e x) >>= λ e. pure (some e)
  postfix_of lhs (Token.real_lit x) = field_after lhs x
  postfix_of lhs (Token.imag_real x) = field_after lhs x
  postfix_of lhs Token.l_paren =
      step >> call_args r >>= λ es. over lhs (λ e. Expr.call e es) >>= λ e. pure (some e)
  postfix_of lhs Token.inc = step >> over lhs Expr.post_inc >>= λ e. pure (some e)
  postfix_of lhs Token.dec = step >> over lhs Expr.post_dec >>= λ e. pure (some e)
  postfix_of lhs Token.question = step >> over lhs Expr.try >>= λ e. pure (some e)
  postfix_of lhs _ = pure none

  unfoldable pub postfix_loop : ℕ → ExprNode → Parse ExprNode
  unfolding postfix_of
  postfix_loop zero lhs = stuck
  postfix_loop (suc n) lhs =
      tok >>= λ t. postfix_of lhs t >>= λ o. match_option o (pure lhs) λ e. postfix_loop n e

  -- After `as`.
  unfoldable pub cast : ExprNode → Parse ExprNode
  cast lhs = accept Token.const >>= λ constant.
      if constant then over lhs Expr.as_const else r.type_ >>= λ t. over lhs (λ e. Expr.as_ e t)

  -- `a op= b`, after `a`.
  unfoldable pub compound : ExprNode → BinOp → Parse ExprNode
  compound lhs op = step >> r.expr 1 >>= λ rhs.
      over lhs (λ e. Expr.bin_op e op rhs) >>= λ v. over lhs (λ e. Expr.bin_op e BinOp.assign v)

  unfoldable pub binary : ExprNode → BinOp → Parse ExprNode
  unfolding rhs_prec
  binary lhs op = step >> r.expr (rhs_prec op) >>= λ rhs. over lhs (λ e. Expr.bin_op e op rhs)

  -- What an operator makes of the expression before it, or nothing.
  unfoldable pub infix_of : ℕ → Bool → ExprNode → Token → Parse (Option ExprNode)
  unfolding kind infix_op compound_op op_prec
  infix_of min_prec allow_as lhs t =
      if allow_as && is Token.as_ t
      then (step >> cast lhs >>= λ e. pure (some e))
      else match_option (infix_op t)
          (match_option (compound_op t) (pure none) λ op. compound lhs op >>= λ e. pure (some e))
          λ op.
            if ltb (op_prec op) min_prec then pure none else binary lhs op >>= λ e. pure (some e)

  unfoldable pub infix_loop : ℕ → ℕ → Bool → ExprNode → Parse ExprNode
  infix_loop zero min_prec allow_as lhs = stuck
  infix_loop (suc n) min_prec allow_as lhs = tok >>= λ t. infix_of min_prec allow_as lhs t >>= λ o.
      match_option o (pure lhs) λ e. infix_loop n min_prec allow_as e

  -- `? :`
  unfoldable pub ternary : ExprNode → Parse ExprNode
  ternary lhs = accept Token.question >>= λ b.
      if b
      then (r.expr 0 >>= λ e.
          eat Token.colon >> r.expr 0 >>= λ o. over lhs λ c. Expr.if_ c e (OptExpr.an_expr o))
      else pure lhs

  -- `?:`
  unfoldable pub elvis : ℕ → ExprNode → Parse ExprNode
  elvis min_prec lhs = accept Token.elvis >>= λ b.
      if b then (r.expr min_prec >>= λ rhs. over lhs λ e. Expr.elvis e rhs) else pure lhs

  -- `call(..):(params) { body }`
  unfoldable pub closure_arg : Parse ExprNode
  unfolding kind
  closure_arg =
      eat Token.l_paren >> comma_list ends_params (ident >>= inferred_param) r.fuel >>= λ params.
      eat Token.r_paren >> eat Token.l_brace >> r.expr 0 >>= λ body.
      eat Token.r_brace >> expr_node no_span (Expr.closure params body)

  unfoldable pub trailing_closure : ExprNode → Parse ExprNode
  trailing_closure (enode id s (Expr.call f es) ds) = accept Token.colon >>= λ b.
      if b
      then (closure_arg >>= λ e. pure (enode id s (Expr.call f (push_expr es e)) ds))
      else pure (enode id s (Expr.call f es) ds)
  trailing_closure lhs = tok >> pure lhs

  -- `app.get(..) { body }`
  unfoldable pub block_arg : Parse ExprNode
  block_arg = r.expr 0 >>= λ body. eat Token.r_brace >> expr_node no_span (Expr.closure [] body)

  unfoldable pub trailing_block : ExprNode → Parse ExprNode
  unfolding is_method_call
  trailing_block (enode id s (Expr.call f es) ds) =
      if is_method_call (expr_value f) server_methods
      then (accept Token.l_brace >>= λ b.
          if b
          then (block_arg >>= λ e. pure (enode id s (Expr.call f (push_expr es e)) ds))
          else pure (enode id s (Expr.call f es) ds))
      else tok >> pure (enode id s (Expr.call f es) ds)
  trailing_block lhs = tok >> pure lhs

  -- `expr_inner`
  unfoldable pub parse_expr_inner : ℕ → Bool → Parse ExprNode
  parse_expr_inner min_prec allow_as = parse_prefix r >>= λ e.
      postfix_loop r.fuel e
      >>= infix_loop r.fuel min_prec allow_as
      >>= ternary
      >>= elvis min_prec
      >>= trailing_closure
      >>= trailing_block

  -- `expr`
  unfoldable pub parse_expr_range : ℕ → Parse ExprNode
  parse_expr_range min_prec = r.expr_inner min_prec true >>= λ e. accept Token.dot_dot >>= λ b.
      if b then (r.expr min_prec >>= λ rhs. over e λ lhs. Expr.range lhs rhs) else pure e
