-- ===== src/Semantic/Typeck/Runs.antt =====
-- What the success of a composed check says of its parts.
use yidika.Diagnostics.{Span}
use yidika.Semantic.Typeck.{
  scoped, pure, Check, require, Scope, ◌>>=◌, checked, fail, YkError, failed, Checked, Complaint,
  restore, ◌>>◌,
}
use yidika.Base.{◌≡◌, refl, true, false, Bool, ap, arith, sym, ◌∙◌}

-- The two parts of a sequence.
pub record Ran {A B : Type 0} (m : Check A) (f : A → Check B) (s : Scope) (b : B) (t : Scope)
    : Type 0 where
  pub value : A
  pub between : Scope
  pub first : m s ≡ checked value between
  pub second : f value between ≡ checked b t

pub checked≢failed : {A : Type 0} (a : A) (s : Scope) (e : YkError) → ¬ (failed e ≡ checked a s)
checked≢failed a s e h = ground arith

pub Ran-bind :
    {A B : Type 0} (m : Check A) (f : A → Check B) (s : Scope) (b : B) (t : Scope)
    → (m >>= f) s ≡ checked b t
    → Ran m f s b t
unfolding ◌>>=◌
Ran-bind {A = A} {B = B} m f s b t h = after (m s) refl h
  where
    after :
        (r : Checked A)
        → m s ≡ r
        → (elim r [ checked a w ↦ f a w | failed e ↦ failed e ]) ≡ checked b t
        → Ran m f s b t
    after (checked a w) e h = record { value = a; between = w; first = e; second = h }
    after (failed x) e h = absurd (checked≢failed b t x h)

pub value_of_checked : {A : Type 0} (a b : A) (s t : Scope) → checked a s ≡ checked b t → a ≡ b
value_of_checked a b s t h = ap (λ r. elim r [ checked c w ↦ c | failed e ↦ a ]) h

pub scope_of_checked : {A : Type 0} (a b : A) (s t : Scope) → checked a s ≡ checked b t → s ≡ t
scope_of_checked a b s t h = ap (λ r. elim r [ checked c w ↦ w | failed e ↦ s ]) h

pub pure_scope : {A : Type 0} (a b : A) (s t : Scope) → pure a s ≡ checked b t → s ≡ t
unfolding pure
pure_scope a b s t h = scope_of_checked a b s t h

pub scoped_vars :
    {A : Type 0} (m : Check A) (s : Scope) (a : A) (t : Scope)
    → scoped m s ≡ checked a t
    → t.vars ≡ s.vars
unfolding scoped
scoped_vars {A = A} m s a t h = after (m s) h
  where
    after : (r : Checked A) → restore s.vars r ≡ checked a t → t.vars ≡ s.vars
    after (checked b w) e = ap (λ (z : Scope). z.vars) (sym (scope_of_checked b a _ t e))
    after (failed x) e = absurd (checked≢failed a t x e)

pub require_ran :
    (b : Bool) (span : Span) (what : Complaint) (s t : Scope)
    → require b span what s ≡ checked tt t
    → (b ≡ true) × (s ≡ t)
unfolding require pure fail
require_ran true span what s t h = (refl, scope_of_checked tt tt s t h)
require_ran false span what s t h = absurd (checked≢failed tt t _ h)

pub then_pure :
    {A B : Type 0} (m : Check A) (b c : B) (s t : Scope)
    → (m >> pure b) s ≡ checked c t
    → (a : A) × (m s ≡ checked a t)
then_pure m b c s t h =
    let r = Ran-bind m (λ a. pure b) s c t h in
    (r.value, r.first ∙ ap (checked r.value) (pure_scope b c r.between t r.second))

pub then_scoped :
    {A B : Type 0} (m : Check A) (n : Check B) (s w t : Scope) (v : A) (b : B)
    → m s ≡ checked v w
    → (m >> scoped n) s ≡ checked b t
    → t.vars ≡ w.vars
then_scoped m n s w t v b hm h =
    let r = Ran-bind m (λ a. scoped n) s b t h in
    scoped_vars n r.between b t r.second
    ∙ ap (λ (z : Scope). z.vars) (scope_of_checked r.value v r.between w (sym r.first ∙ hm))

pub then_pure_value :
    {A B : Type 0} (m : Check A) (b c : B) (s t : Scope) → (m >> pure b) s ≡ checked c t → b ≡ c
unfolding pure
then_pure_value m b c s t h =
    let r = Ran-bind m (λ a. pure b) s c t h in value_of_checked b c r.between t r.second

pub bind_runs :
    {A B : Type 0} (m : Check A) (f : A → Check B) (s : Scope) (a : A) (t : Scope)
    → m s ≡ checked a t
    → (m >>= f) s ≡ f a t
unfolding ◌>>=◌
bind_runs m f s a t h = ap (λ r. elim r [ checked b w ↦ f b w | failed e ↦ failed e ]) h

pub bind_fails :
    {A B : Type 0} (m : Check A) (f : A → Check B) (s : Scope) (x : YkError)
    → m s ≡ failed x
    → (m >>= f) s ≡ failed x
unfolding ◌>>=◌
bind_fails m f s x h = ap (λ r. elim r [ checked b w ↦ f b w | failed e ↦ failed e ]) h
