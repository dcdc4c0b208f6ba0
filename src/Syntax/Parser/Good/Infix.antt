-- ===== src/Syntax/Parser/Good/Infix.antt =====
use yidika.Syntax.Parser.Good.Moves.{Good-tok, Live-step}
use yidika.Syntax.Parser.Good.Literals.{Good-call_args}
use yidika.Syntax.Parser.Good.Prefix.{Good-parse_prefix, Good-inferred_param}
use yidika.Syntax.Parser.Good.Guards.{guards, lives, Good-unless}
use yidika.Syntax.Parser.{tok, kind, ◌>>◌, pure, Parse}
use yidika.Syntax.Token.{Token}
use yidika.Syntax.Parser.Good.{
  Good, Live, Good-stuck, Live-Good, Live-bind, Good-pure, Good-option, Good-bind,
}
use yidika.Syntax.Parser.Good.Turns.{GoodParsers, Good-expr_node, Good-or_panic}
use yidika.Base.{
  match_option, Text, ℕ, Bool, ◌≡◌, true, suc, false, ◌∷◌, none, zero, [], refl, ==_iff, subst, sym,
  if◌then◌else◌,
}
use yidika.Syntax.Ast.{ExprNode, Expr, BinOp, enode}
use yidika.Syntax.Parser.Infix.{
  over, infix_of, field_after, binary, infix_loop, block_arg, ternary, compound, trailing_block,
  closure_arg, postfix_of, cast, postfix_loop, parse_expr_range, trailing_closure, parse_expr_inner,
  starts_with_dot, infix_op, compound_op, elvis,
}
use yidika.Syntax.Parser.Names.{sliced}
use yidika.Syntax.Parser.Loops.{Parsers}

-- src/syntax/parser.rs: that `expr` and `expr_inner` stay inside of the tokens.

Good-over : (lhs : ExprNode) (c : ExprNode → Expr) → Good (over lhs c)
unfolding over
Good-over lhs c = Good-expr_node _ _

Good-dot_slice :
    (x : Text) → starts_with_dot x ≡ true → match_option (sliced 1 x) false (λ _. true) ≡ true
unfolding sliced match_option
Good-dot_slice [] h = absurd (cc)
Good-dot_slice (c ∷ cs) h =
    let e = (==_iff c b'.').0 h in
    subst (λ d. match_option (sliced 1 (d ∷ cs)) false (λ _. true) ≡ true) (sym e) refl

Live-if_when :
    {A : Type 0} (b : Bool) (m n : Parse A)
    → (b ≡ true → Live m)
    → Live n
    → Live (if b then m else n)
Live-if_when true m n lm ln = lm refl
Live-if_when false m n lm ln = ln

module _ (r : Parsers) (g : GoodParsers r) where
  Live-field_after : (lhs : ExprNode) (x : Text) → Live (field_after r lhs x)
  unfolding field_after
  Live-field_after lhs x =
      Live-if_when (starts_with_dot x) _ _
        (λ h.
          Live-bind _ _ (Live-bind _ _ Live-step λ _. Good-or_panic _ (Good-dot_slice x h))
            λ y. Good-bind _ _ (Good-over lhs _) λ e. Good-pure _)
        (Live-Good _ (Good-pure none))

  Live-postfix_of : (lhs : ExprNode) (t : Token) → Live (postfix_of r lhs t)
  unfolding postfix_of
  Live-postfix_of lhs Token.l_bracket = search (lives, Good-over) depth 24
  Live-postfix_of lhs Token.dot = search (lives, Good-over) depth 24
  Live-postfix_of lhs Token.question_dot = search (lives, Good-over) depth 24
  Live-postfix_of lhs (Token.real_lit x) = Live-field_after lhs x
  Live-postfix_of lhs (Token.imag_real x) = Live-field_after lhs x
  Live-postfix_of lhs Token.l_paren = search (lives, Good-over, Good-call_args) depth 24
  Live-postfix_of lhs Token.inc = search (lives, Good-over) depth 24
  Live-postfix_of lhs Token.dec = search (lives, Good-over) depth 24
  Live-postfix_of lhs Token.question = search (lives, Good-over) depth 24
  Live-postfix_of lhs _ = Live-Good _ (Good-pure none)

  Good-postfix_loop : (n : ℕ) (lhs : ExprNode) → Good (postfix_loop r n lhs)
  unfolding postfix_loop postfix_of match_option
  Good-postfix_loop zero lhs = Good-stuck
  Good-postfix_loop (suc n) lhs =
      Good-tok _
        (λ t p e.
          Live-bind _ _ (Live-postfix_of lhs t)
            λ o. Good-option o _ _ (Good-pure lhs) λ e. Good-postfix_loop n e)
        (Good-bind _ _ (Good-pure none)
          λ o. Good-option o _ _ (Good-pure lhs) λ e. Good-postfix_loop n e)

  Good-cast : (lhs : ExprNode) → Good (cast r lhs)
  unfolding cast
  Good-cast lhs = search (guards, Good-over) depth 24

  pub Live-compound : (lhs : ExprNode) (op : BinOp) → Live (compound r lhs op)
  unfolding compound
  Live-compound lhs op = search (lives, Good-over) depth 24

  pub Live-binary : (lhs : ExprNode) (op : BinOp) → Live (binary r lhs op)
  unfolding binary
  Live-binary lhs op = search (lives, Good-over) depth 24

  Live-infix_of :
      (min_prec : ℕ) (allow_as : Bool) (lhs : ExprNode) (t : Token)
      → Live (infix_of r min_prec allow_as lhs t)
  unfolding infix_of
  Live-infix_of min_prec allow_as lhs t =
      search (lives, Good-cast, Live-compound, Live-binary) depth 24

  infix_eof :
      (min_prec : ℕ) (allow_as : Bool) (lhs : ExprNode)
      → Good (infix_of r min_prec allow_as lhs Token.eof)
  unfolding infix_of kind infix_op compound_op match_option
  infix_eof min_prec allow_as lhs = Good-unless allow_as _ _ (Good-pure none)

  Good-infix_loop :
      (n min_prec : ℕ) (allow_as : Bool) (lhs : ExprNode)
      → Good (infix_loop r n min_prec allow_as lhs)
  unfolding infix_loop
  Good-infix_loop zero min_prec allow_as lhs = Good-stuck
  Good-infix_loop (suc n) min_prec allow_as lhs =
      Good-tok _
        (λ t p e.
          Live-bind _ _ (Live-infix_of min_prec allow_as lhs t)
            λ o. Good-option o _ _ (Good-pure lhs) λ e. Good-infix_loop n min_prec allow_as e)
        (Good-bind _ _ (infix_eof min_prec allow_as lhs)
          λ o. Good-option o _ _ (Good-pure lhs) λ e. Good-infix_loop n min_prec allow_as e)

  pub Good-ternary : (lhs : ExprNode) → Good (ternary r lhs)
  unfolding ternary
  Good-ternary lhs = search (guards, Good-over) depth 24

  pub Good-elvis : (min_prec : ℕ) (lhs : ExprNode) → Good (elvis r min_prec lhs)
  unfolding elvis
  Good-elvis min_prec lhs = search (guards, Good-over) depth 24

  pub Good-closure_arg : Good (closure_arg r)
  unfolding closure_arg
  Good-closure_arg = search (guards, Good-inferred_param) depth 24

  pub Good-block_arg : Good (block_arg r)
  unfolding block_arg
  Good-block_arg = search (guards) depth 24

  peeked_only : (lhs : ExprNode) → Good (tok >> pure lhs)
  peeked_only lhs = Good-tok _ (λ t p e. Live-Good _ (Good-pure lhs)) (Good-pure lhs)

  Good-trailing_closure : (lhs : ExprNode) → Good (trailing_closure r lhs)
  unfolding trailing_closure
  Good-trailing_closure (enode id s (Expr.call f es) ds) =
      search (guards, Good-closure_arg) depth 24
  Good-trailing_closure lhs = peeked_only lhs

  Good-trailing_block : (lhs : ExprNode) → Good (trailing_block r lhs)
  unfolding trailing_block
  Good-trailing_block (enode id s (Expr.call f es) ds) =
      search (guards, Good-block_arg, peeked_only) depth 24
  Good-trailing_block lhs = peeked_only lhs

  pub Good-parse_expr_inner :
      (min_prec : ℕ) (allow_as : Bool) → Good (parse_expr_inner r min_prec allow_as)
  unfolding parse_expr_inner
  Good-parse_expr_inner min_prec allow_as =
      search
        (
          guards, Good-parse_prefix, Good-postfix_loop, Good-infix_loop, Good-ternary, Good-elvis,
          Good-trailing_closure, Good-trailing_block,
        )
        depth 24

  pub Good-parse_expr_range : (min_prec : ℕ) → Good (parse_expr_range r min_prec)
  unfolding parse_expr_range
  Good-parse_expr_range min_prec = search (guards, Good-over) depth 24
