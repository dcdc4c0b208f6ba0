-- ===== src/Semantic/Typeck/Declared.antt =====
-- Declarations and assignments that the type checker lets pass.
use yidika.Semantic.Typeck.Runs.{value_of_checked, scope_of_checked, Ran-bind}
use yidika.Syntax.Types.{TypeExpr}
use yidika.Diagnostics.{Span}
use yidika.Syntax.Ast.{ExprNode, TypeNode, snode, decl, enode, Expr}
use yidika.Semantic.Typeck.Values.{check_ident}
use yidika.Semantic.Typeck.{
  ◌>>=◌, insert_var, get_vars, pure, Context, VarInfo, Scope, ◌>>◌, checked, require,
  already_declared, mark_moved, Check,
}
use yidika.Semantic.Typeck.Check.{check_stmt, check_expr, check_annotated}
use yidika.Semantic.Typeck.Statements.{declared_type, declares_const}
use yidika.Base.{
  ℕ, ◌≡◌, refl, Text, List, false, Bool, Option, put, not, has_key, subst, text_eq_refl, ap, ◌∙◌,
}

insert_ran :
    {A : Type 0} (x : Text) (info : VarInfo) (b c : A) (s t : Scope)
    → (insert_var x info >> pure b) s ≡ checked c t
    → (b ≡ c) × (record s { vars = put x info s.vars } ≡ t)
unfolding ◌>>=◌ insert_var pure
insert_ran x info b c s t h = (value_of_checked b c _ t h, scope_of_checked b c _ t h)

-- The scope after a declaration.
abbrev with_var : Text → VarInfo → Scope → Scope
with_var x info s = record s { vars = put x info s.vars }

use_inserted :
    (k : Context) (x : Text) (info : VarInfo) (s : Scope) (j : ℕ) (q : Span) (es : List Text)
    → info.moved ≡ false
    → check_expr k (enode j q (Expr.ident x) es) (with_var x info s)
      ≡ checked info.type_expr (with_var x info s)
unfolding check_expr check_ident get_vars ◌>>=◌ pure
use_inserted k x info s j q es h = rw (text_eq_refl x, h) refl

-- A declaration that passes gives its variable the type that the statement has: the variable can be
-- used right after it, with that type.
pub check_expr-check_stmt :
    (k : Context) (x : Text) (te : Option TypeNode) (a : ExprNode) (is_const : Bool) (i j : ℕ)
    (p q : Span) (ds es : List Text) (s t : Scope) (u : TypeExpr)
    → check_stmt k (snode i p (decl x te a is_const) ds) s ≡ checked u t
    → check_expr k (enode j q (Expr.ident x) es) t ≡ checked u t
unfolding check_stmt get_vars ◌>>=◌
check_expr-check_stmt k x te a is_const i j p q ds es s t u h =
    let r = Ran-bind (require (not (has_key x s.vars)) p (already_declared x)) _ s u t h in
    let w =
      Ran-bind (check_expr k a >>= λ v. declared_type k p x te a v (λ o. check_annotated k p o a)) _
        r.between u t r.second in
    let info : VarInfo = record {
      type_expr = w.value;
      is_const = declares_const te a is_const;
      moved = false;
    } in
    let (same, last) = insert_ran x info w.value u w.between t w.second in
    subst (λ (z : Scope). check_expr k (enode j q (Expr.ident x) es) z ≡ checked u z) last
      (use_inserted k x info w.between j q es refl
        ∙ ap (λ v. checked v (with_var x info w.between)) same)

-- The scope after the value of an assignment has been moved.
abbrev after_move : ExprNode → TypeExpr → Scope → Scope
after_move a v s = record s { vars = mark_moved a v s.vars }
