-- ===== src/Semantic/Borrowck/Branches.antt =====
-- Branches and loops are walked as straight-line code: what follows from it for a call that moves a
-- variable.
use yidika.Base.{◌≡◌, refl, inl, inr, some, List, [], Text, text_eq_refl}
use yidika.Syntax.Ast.{
  Param, ExprNode, Expr, StmtNode, StmtList, enode, snode, call, enil, econs, expr, if_do, snil,
  scons, some_stmts,
}
use yidika.Diagnostics.{Span}
use yidika.Semantic.Borrowck.{live, BorrowChecker, check_function}
use yidika.Semantic.Borrowck.Events.{names, of_stmts}
use yidika.Semantic.Borrowck.Sound.{In, param_state, In-check_function}

abbrev pub ident_at : Text → Span → ExprNode
ident_at x span = enode 0 span (Expr.ident x) []

-- The statement `f(x);` with `f` and `x` at the given places.
abbrev pub passing : Text → Text → Span → Span → StmtNode
passing f x sf sx =
    snode 0 sf (expr (enode 0 sf (call (ident_at f sf) (econs (ident_at x sx) enil)) [])) []

abbrev pub one : StmtNode → StmtList
one s = scons s snil

module _ (ps : List Param) (c : BorrowChecker) (f x : Text) where
  -- For a live parameter `x`, the statement `if y { f(x); } else { f(x); }` is reported: the use in
  -- the second branch, although only one of the branches runs.
  pub check_function-both_branches :
      (y : Text) (sy s₁ s₂ s₃ s₄ : Span)
      → param_state (names ps) x ≡ some live
      → In
          (record { span = s₄; name = x })
          (check_function ps
            (one (
              snode 0 sy
                (if_do
                  (ident_at y sy)
                  (one (passing f x s₁ s₂))
                  (some_stmts (one (passing f x s₃ s₄))))
                []))
            c).1
  unfolding of_stmts
  check_function-both_branches y sy s₁ s₂ s₃ s₄ start =
      (In-check_function ps _ c _).1
        (inr (inr (inr (inr (inr (inl (rw (text_eq_refl x, start) refl, refl, refl)))))))
