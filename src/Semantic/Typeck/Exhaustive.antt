-- ===== src/Semantic/Typeck/Exhaustive.antt =====
-- When `check_match_exhaustive` lets a match pass, and a match whose arm uses what its pattern names.
use yidika.Semantic.Typeck.Runs.{Ran-bind, require_ran, bind_runs, bind_fails}
use yidika.Diagnostics.{Span}
use yidika.Syntax.Items.{EnumVariant}
use yidika.Semantic.Typeck.{
  require, Context, get_vars, Scope, ◌>>=◌, pure, checked, fail, find_fn, missing_variant, failed,
  variable_not_found, ◌>>◌,
}
use yidika.Semantic.Typeck.Check.{check_expr, check_arms}
use yidika.Semantic.Typeck.Values.{
  cover, check_match_exhaustive, any_arm, check_ident, is_variant, is_catch_all,
}
use yidika.Syntax.Ast.{
  anil, acons, ArmList, Pattern, OptExpr, Patterns, ExprNode, enode, match_, no_expr, Expr,
}
use yidika.Syntax.Types.{TypeExpr}
use yidika.Base.{
  ℕ, ◌≡◌, refl, Text, List, some, true, false, [], ◌∷◌, if◌then◌else◌, none, Bool-cases, subst,
  text_eq_refl, arith, inl, sym, ◌↔◌, inr, text_eq_iff, ◌∙◌,
}

-- The name of a pattern for a variant.
pub data NamesVariant (x : Text) : Pattern → Type 0 where
  names_variant : (ps : Patterns) → NamesVariant x (Pattern.variant x ps)

-- Some arm has a pattern with the property.
pub data SomeArm (Fits : Pattern → Type 0) : ArmList → Type 0 where
  this_arm :
      (p : Pattern) (g : OptExpr) (b : ExprNode) (r : ArmList)
      → Fits p
      → SomeArm Fits (acons p g b r)
  later_arm :
      (p : Pattern) (g : OptExpr) (b : ExprNode) (r : ArmList)
      → SomeArm Fits r
      → SomeArm Fits (acons p g b r)

-- Each variant of an enumeration has an arm.
pub data EachNamed (arms : ArmList) : List EnumVariant → Type 0 where
  no_variant : EachNamed arms []
  a_variant :
      (v : EnumVariant) (vs : List EnumVariant)
      → SomeArm (NamesVariant v.name) arms
      → EachNamed arms vs
      → EachNamed arms (v ∷ vs)

is_variant_sound : (x : Text) (p : Pattern) → is_variant x p ≡ true → NamesVariant x p
is_variant_sound x (Pattern.variant y ps) h =
    subst (λ z. NamesVariant x (Pattern.variant z ps)) (sym ((text_eq_iff y x).0 h))
      (names_variant ps)
is_variant_sound x (Pattern.ident y) h = absurd (ground arith)
is_variant_sound x (Pattern.rest y) h = absurd (ground arith)
is_variant_sound x (Pattern.destruct fs) h = absurd (ground arith)
is_variant_sound x (Pattern.list_destruct ps) h = absurd (ground arith)
is_variant_sound x (Pattern.lit_int n) h = absurd (ground arith)
is_variant_sound x (Pattern.lit_real n) h = absurd (ground arith)
is_variant_sound x (Pattern.lit_str y) h = absurd (ground arith)
is_variant_sound x (Pattern.lit_bool b) h = absurd (ground arith)
is_variant_sound x Pattern.ignore h = absurd (ground arith)

module _ (x : Text) where
  any_arm_sound :
      (arms : ArmList) → any_arm (is_variant x) arms ≡ true → SomeArm (NamesVariant x) arms
  any_arm_sound anil h = absurd (ground arith)
  any_arm_sound (acons p g b r) h = elim (Bool-cases (is_variant x p)) [
    | inl e ↦ this_arm p g b r (is_variant_sound x p e)
    | inr e ↦
        later_arm p g b r
          (any_arm_sound r (subst (λ c. (if c then true else any_arm (is_variant x) r) ≡ true) e h))
  ]

  any_arm_complete :
      (arms : ArmList) → SomeArm (NamesVariant x) arms → any_arm (is_variant x) arms ≡ true
  any_arm_complete _ (this_arm _ g b r (names_variant ps)) = rw (text_eq_refl x) refl
  any_arm_complete _ (later_arm p g b r h) = elim (Bool-cases (is_variant x p)) [
    | inl e ↦ rw e refl
    | inr e ↦ rw e (any_arm_complete r h)
  ]

cover_sound :
    (span : Span) (x : Text) (arms : ArmList) (vs : List EnumVariant) (s t : Scope)
    → cover span x arms vs s ≡ checked tt t
    → EachNamed arms vs
unfolding cover
cover_sound span x arms [] s t h = no_variant
cover_sound span x arms (v ∷ vs) s t h =
    let r =
      Ran-bind (require (any_arm (is_variant v.name) arms) span (missing_variant x v.name)) _ s tt t
        h in
    let (found, same) = require_ran _ _ _ s r.between r.first in
    a_variant v vs (any_arm_sound v.name arms found)
      (cover_sound span x arms vs r.between t r.second)

cover_complete :
    (span : Span) (x : Text) (arms : ArmList) (vs : List EnumVariant) (s : Scope)
    → EachNamed arms vs
    → cover span x arms vs s ≡ checked tt s
unfolding cover require ◌>>=◌ pure
cover_complete span x arms _ s no_variant = refl
cover_complete span x arms _ s (a_variant v vs here rest) =
    rw (any_arm_complete v.name arms here) (cover_complete span x arms vs s rest)

-- Without a pattern that matches everything, a match on an enumeration passes the check exactly if
-- each of its variants has an arm that names it.
pub check_match_exhaustive-EachNamed :
    (k : Context) (x : Text) (vs : List EnumVariant) (arms : ArmList) (span : Span) (s : Scope)
    → k.env.enums x ≡ some vs
    → any_arm is_catch_all arms ≡ false
    → (check_match_exhaustive k (TypeExpr.named x) arms span s ≡ checked tt s) ↔ EachNamed arms vs
unfolding check_match_exhaustive
check_match_exhaustive-EachNamed k x vs arms span s known open_ =
    rw (open_, known) ((λ h. cover_sound span x arms vs s s h), cover_complete span x arms vs s)

missing :
    (k : Context) (y : Text) (j : ℕ) (q : Span) (es : List Text) (w : Scope)
    → w.vars y ≡ none
    → find_fn k y ≡ none
    → check_expr k (enode j q (Expr.ident y) es) w
      ≡ failed (record { span = q; complaint = variable_not_found y })
unfolding check_expr check_ident get_vars ◌>>=◌ fail
missing k y j q es w hv hf = rw (hv, hf) refl

-- The pattern of an arm binds nothing for its body: if what is matched on passes, a match whose first
-- arm has no guard, names a variable and gives it back is refused, unless a variable or function of
-- that name is there already.
pub check_expr-variable_not_found :
    (k : Context) (a : ExprNode) (y : Text) (r : ArmList) (i j : ℕ) (p q : Span) (ds es : List Text)
    (s w : Scope) (t : TypeExpr)
    → check_expr k a s ≡ checked t w
    → w.vars y ≡ none
    → find_fn k y ≡ none
    → check_expr k
        (enode i p (match_ a (acons (Pattern.ident y) no_expr (enode j q (Expr.ident y) es) r)) ds)
        s
      ≡ failed (record { span = q; complaint = variable_not_found y })
unfolding check_expr check_match_exhaustive ◌>>=◌ pure
check_expr-variable_not_found k a y r i j p q ds es s w t ha hv hf =
    bind_runs (check_expr k a) _ s t w ha
    ∙ bind_fails (check_expr k (enode j q (Expr.ident y) es)) (λ u. check_arms k r >> pure u) w _
        (missing k y j q es w hv hf)
