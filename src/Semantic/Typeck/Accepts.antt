-- ===== src/Semantic/Typeck/Accepts.antt =====
-- When the arguments of a call pass.
use yidika.Semantic.Compat.{is_copy_type, types_compatible}
use yidika.Semantic.Typeck.Runs.{Ran-bind, require_ran, then_pure, bind_runs}
use yidika.Semantic.Env.{FnSig}
use yidika.Diagnostics.{Span}
use yidika.Semantic.Compat.Rules.{Compatible, types_compatible-Compatible}
use yidika.Semantic.Typeck.Calls.{pass_args, call_fn, move_unless}
use yidika.Semantic.Typeck.{
  move_expr, pure, Context, Complaint, require, Scope, checked, mark_moved, function_parameter,
  ◌>>◌,
}
use yidika.Syntax.Ast.{enil, econs, ExprList, ExprNode}
use yidika.Syntax.Types.{nil, cons, TypeExpr, TypeList}
use yidika.Base.{
  ℕ, ◌≡◌, refl, Text, List, true, false, Bool, [], ◌∷◌, none, match_option, ◌↔◌, suc, ◌∙◌, arith,
}

-- Each argument that has a parameter has a type that the parameter accepts. Arguments without a
-- parameter and parameters without an argument are not looked at.
pub data Accepts : List TypeExpr → TypeList → Type 0 where
  no_more_params : (ts : TypeList) → Accepts [] ts
  no_more_args : (p : TypeExpr) (ps : List TypeExpr) → Accepts (p ∷ ps) nil
  accepted :
      (p t : TypeExpr) (ps : List TypeExpr) (ts : TypeList)
      → Compatible p t
      → Accepts ps ts
      → Accepts (p ∷ ps) (cons t ts)

-- As many arguments as types.
pub data SameLength : ExprList → TypeList → Type 0 where
  both_empty : SameLength enil nil
  both_more :
      (a : ExprNode) (r : ExprList) (t : TypeExpr) (ts : TypeList)
      → SameLength r ts
      → SameLength (econs a r) (cons t ts)

pass_sound :
    (span : Span) (what : ℕ → TypeExpr → TypeExpr → Complaint) (i : ℕ) (ps : List TypeExpr)
    (xs : ExprList) (ts : TypeList) (s t : Scope)
    → SameLength xs ts
    → pass_args span what i ps xs ts s ≡ checked tt t
    → Accepts ps ts
unfolding pass_args
pass_sound span what i [] xs ts s t n h = no_more_params ts
pass_sound span what i (p ∷ ps) _ _ s t both_empty h = no_more_args p ps
pass_sound span what i (p ∷ ps) _ _ s t (both_more a r u ts n) h =
    let f =
      Ran-bind
        (require (types_compatible p u) span (what i p u) >> move_unless (is_copy_type p) a u) _ s
        tt t h in
    let g =
      Ran-bind (require (types_compatible p u) span (what i p u)) _ s f.value f.between f.first in
    let (fits, same) = require_ran _ _ _ s g.between g.first in
    accepted p u ps ts ((types_compatible-Compatible p u).0 fits)
      (pass_sound span what (suc i) ps r ts f.between t n f.second)

move_passes :
    (copied : Bool) (a : ExprNode) (t : TypeExpr) (s : Scope)
    → (w : Scope) × (move_unless copied a t s ≡ checked tt w)
unfolding move_expr pure
move_passes true a t s = (s, refl)
move_passes false a t s = (record s { vars = mark_moved a t s.vars }, refl)

require_runs :
    (b : Bool) (span : Span) (what : Complaint) (s : Scope)
    → b ≡ true
    → require b span what s ≡ checked tt s
unfolding require pure
require_runs true span what s h = refl
require_runs false span what s h = absurd (ground arith)

pass_complete :
    (span : Span) (what : ℕ → TypeExpr → TypeExpr → Complaint) (i : ℕ) (ps : List TypeExpr)
    (xs : ExprList) (ts : TypeList) (s : Scope)
    → SameLength xs ts
    → Accepts ps ts
    → (t : Scope) × (pass_args span what i ps xs ts s ≡ checked tt t)
unfolding pass_args pure
pass_complete span what i _ _ _ s n (no_more_params ts) = (s, refl)
pass_complete span what i _ _ _ s both_empty (no_more_args p ps) = (s, refl)
pass_complete span what i _ _ _ s (both_more a r _ _ n) (accepted p u ps ts fits rest) =
    let (w, moved) = move_passes (is_copy_type p) a u s in
    let (t, done) = pass_complete span what (suc i) ps r ts w n rest in
    let step = require (types_compatible p u) span (what i p u) in
    (
      t,
      bind_runs (step >> move_unless (is_copy_type p) a u)
            (λ _. pass_args span what (suc i) ps r ts) s tt w
            (bind_runs step (λ _. move_unless (is_copy_type p) a u) s tt s
                (require_runs _ span _ s ((types_compatible-Compatible p u).1 fits))
              ∙ moved)
          ∙ done,
    )

-- Once the arguments have types, a call of a function without generic parameters passes exactly if
-- each argument that has a parameter is compatible with it; the numbers of arguments and of
-- parameters are not compared.
pub call_fn-Accepts :
    (k : Context) (span : Span) (x : Text) (sig : FnSig) (xs : ExprList) (ts : TypeList) (s : Scope)
    → k.fn_generics x ≡ none
    → SameLength xs ts
    → ((t : Scope) × (call_fn k span x sig xs ts s ≡ checked sig.ret_type t))
      ↔ Accepts sig.params ts
unfolding call_fn match_option pure
call_fn-Accepts k span x sig xs ts s plain n = rw plain (forth, back)
  where
    forth :
        ((t : Scope) × ((pass_args span (λ i. function_parameter i x) 0 sig.params xs ts
                >> pure sig.ret_type)
              s
            ≡ checked sig.ret_type t))
        → Accepts sig.params ts
    forth (t, h) =
        let (u, h1) =
          then_pure (pass_args span (λ i. function_parameter i x) 0 sig.params xs ts) _ _ s t h in
        pass_sound span (λ i. function_parameter i x) 0 sig.params xs ts s t n h1

    back :
        Accepts sig.params ts
        → (t : Scope) × ((pass_args span (λ i. function_parameter i x) 0 sig.params xs ts
                >> pure sig.ret_type)
              s
            ≡ checked sig.ret_type t)
    back h =
        let (t, h1) = pass_complete span (λ i. function_parameter i x) 0 sig.params xs ts s n h in
        (
          t,
          bind_runs (pass_args span (λ i. function_parameter i x) 0 sig.params xs ts)
              (λ _. pure sig.ret_type) s tt t h1,
        )
