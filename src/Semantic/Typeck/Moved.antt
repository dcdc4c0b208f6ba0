-- ===== src/Semantic/Typeck/Moved.antt =====
-- What the type checker knows of a variable over a sequence of statements, and what it forgets.
use yidika.Semantic.Typeck.Runs.{then_pure, Ran-bind, scoped_vars, then_scoped, scope_of_checked}
use yidika.Semantic.Typeck.Grows.{Good-stmts}
use yidika.Semantic.Typeck.Keeps.{Keeps, AllKept}
use yidika.Syntax.Types.{TypeExpr, none_, infer}
use yidika.Diagnostics.{Span}
use yidika.Semantic.Typeck.Values.{check_ident, field_type}
use yidika.Syntax.Ast.{Stmt, ExprNode, StmtList, OptStmts, if_do, while_do, snode, enode, for, Expr}
use yidika.Semantic.Typeck.{
  Context, Scope, ◌>>=◌, get_vars, checked, fail, VarInfo, failed, used_after_move, ◌>>◌, scoped,
  pure, Check, YkError,
}
use yidika.Semantic.Typeck.Check.{check_expr, check_stmt, check_stmts, check_else}
use yidika.Base.{
  ℕ, ◌≡◌, refl, Text, List, some, true, Bool, subst, ◌∙◌, ap, sym, text_eq, codes, ◌||◌, false,
  Bool-cases, inl, arith, inr,
}

-- After the statements of a body check, each variable that was there before has its type, is
-- constant if it was, and is moved if it was.
pub check_stmts-Keeps :
    (k : Context) (b : StmtList) (s t : Scope)
    → check_stmts k b s ≡ checked tt t
    → Keeps s.vars t.vars
check_stmts-Keeps k b s t h = subst (AllKept s.vars) h ((Good-stmts k b).kept s)

field_type-failed :
    (f : Text) (m : Check TypeExpr) (t : Scope) (e : YkError)
    → (text_eq f (codes "length") || text_eq f (codes "toString")) ≡ true
    → m t ≡ failed e
    → field_type f m t ≡ failed e
unfolding field_type ◌>>=◌
field_type-failed f m t e watched refused = elim (Bool-cases (text_eq f (codes "length"))) [
  | inl h ↦ rw (h, field_type) (rw (refused, ◌>>=◌) refl)
  | inr h ↦ elim (Bool-cases (text_eq f (codes "toString"))) [
    | inl h' ↦ rw (h, field_type) (rw h' (rw (refused, ◌>>=◌) refl))
    | inr h' ↦ absurd (ground arith)
  ]
]

field_type-checked :
    (f : Text) (m : Check TypeExpr) (t : Scope)
    → (text_eq f (codes "length") || text_eq f (codes "toString")) ≡ false
    → field_type f m t ≡ checked infer t
unfolding field_type pure
field_type-checked f m t other = elim (Bool-cases (text_eq f (codes "length"))) [
  | inl h ↦ absurd (ground arith)
  | inr h ↦ elim (Bool-cases (text_eq f (codes "toString"))) [
    | inl h' ↦ absurd (ground arith)
    | inr h' ↦ rw (h, field_type) (rw h' refl)
  ]
]

-- A variable that is moved is still moved after any statements that check, an assignment to it among
-- them: its name as an expression is refused there, and so are its fields `length` and `toString`. A
-- field of any other name is accepted, for the checker does not look at what it is a field of.
pub check_expr-check_stmts :
    (k : Context) (b : StmtList) (s t : Scope) (x : Text) (a : VarInfo) (i j : ℕ) (p q : Span)
    (ds es : List Text)
    → s.vars x ≡ some a
    → a.moved ≡ true
    → check_stmts k b s ≡ checked tt t
    → (check_expr k (enode i p (Expr.ident x) ds) t
        ≡ failed (record { span = p; complaint = used_after_move x }))
      × ((f : Text)
          → (text_eq f (codes "length") || text_eq f (codes "toString")) ≡ true
          → check_expr k (enode j q (Expr.field (enode i p (Expr.ident x) ds) f) es) t
            ≡ failed (record { span = p; complaint = used_after_move x }))
      × ((f : Text)
          → (text_eq f (codes "length") || text_eq f (codes "toString")) ≡ false
          → check_expr k (enode j q (Expr.field (enode i p (Expr.ident x) ds) f) es) t
            ≡ checked infer t)
unfolding check_expr check_ident ◌>>=◌ get_vars fail
check_expr-check_stmts k b s t x a i j p q ds es known moved done =
    let (c, found, later) = check_stmts-Keeps k b s t done x a known in
    let refused : check_expr k (enode i p (Expr.ident x) ds) t
        ≡ failed (record { span = p; complaint = used_after_move x }) =
      rw (found, later.moved_kept moved) refl in
    (
      refused,
      λ f watched. field_type-failed f _ t _ watched refused,
      λ f other. field_type-checked f _ t other,
    )

-- The statements with a body that is left after a condition or a sequence has been checked.
pub data Guarded : Stmt → ExprNode → Type 0 where
  by_if : (c : ExprNode) (a : StmtList) (e : OptStmts) → Guarded (if_do c a e) c
  by_while : (c : ExprNode) (b : StmtList) → Guarded (while_do c b) c
  by_for :
      (x : Text) (c : ExprNode) (b : StmtList) (is_for_of : Bool) → Guarded (for x c b is_for_of) c

-- The variables after an `if`, a `while` or a `for` that passes are those after its condition, or
-- the sequence of the `for`: whatever a body moves can be used again.
pub check_stmt-Guarded :
    (k : Context) (st : Stmt) (c : ExprNode) (id : ℕ) (span : Span) (ds : List Text) (s w t : Scope)
    (v u : TypeExpr)
    → Guarded st c
    → check_expr k c s ≡ checked v w
    → check_stmt k (snode id span st ds) s ≡ checked u t
    → t.vars ≡ w.vars
unfolding check_stmt
check_stmt-Guarded k _ _ id span ds s w t v u (by_if c a e) hc h =
    let (x, h1) =
      then_pure (check_expr k c >> scoped (check_stmts k a) >> scoped (check_else k e)) none_ u s t
        h in
    let r = Ran-bind (check_expr k c >> scoped (check_stmts k a)) _ s x t h1 in
    scoped_vars (check_else k e) r.between x t r.second
    ∙ then_scoped (check_expr k c) (check_stmts k a) s w r.between v r.value hc r.first
check_stmt-Guarded k _ _ id span ds s w t v u (by_while c b) hc h =
    let (x, h1) = then_pure (check_expr k c >> scoped (check_stmts k b)) none_ u s t h in
    then_scoped (check_expr k c) (check_stmts k b) s w t v x hc h1
check_stmt-Guarded k _ _ id span ds s w t v u (by_for x c b is_for_of) hc h =
    let r = Ran-bind (check_expr k c) _ s u t h in
    let (y, h1) = then_pure _ none_ u r.between t r.second in
    scoped_vars _ r.between y t h1
    ∙ ap (λ (z : Scope). z.vars) (scope_of_checked r.value v r.between w (sym r.first ∙ hc))
