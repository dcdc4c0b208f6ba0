-- ===== src/Semantic/Compat/Rules.antt =====
-- The rules of compatibility, which `types_compatible` decides.
use mathlib.Core.Bool.{decide}
use yidika.Base.{
  ℕ, Bool, true, false, not, ◌&&◌, ◌||◌, ◌≡◌, refl, sym, ◌↔◌, ◌⊎◌, inl, inr, arith, Text, codes,
  text_eq, text_eq_iff, text_eq_refl, subst,
}
use yidika.Syntax.Types.{
  TypeExpr, named, int, rint, real, complex, union, generic, nullable, null, infer, TypeList, nil,
  cons, TypeExpr-discrete,
}
use yidika.Semantic.Compat.{
  type_eq, is_infer, is_null, is_auto, same_base, at_once, is_int, is_rint, is_union, complex_arms,
  compatible_by, expected_arms, types_compatible, any_compatible, all_compatible,
}

-- The type is a union: then the rule for unions of actual types does not apply.
abbrev pub IsUnion : TypeExpr → Type 0
IsUnion (union ts) = Unit {0}
IsUnion _ = ⊥

mutual
  -- `Compatible e a`: a value of type `a` can stand where `e` is expected.
  pub data Compatible : TypeExpr → TypeExpr → Type 0 where
    to_infer : {a : TypeExpr} → Compatible infer a
    from_infer : {e : TypeExpr} → Compatible e infer
    from_null : {e : TypeExpr} → Compatible e null
    to_auto : {a : TypeExpr} → Compatible (named (codes "auto")) a
    from_auto : {e : TypeExpr} → Compatible e (named (codes "auto"))
    same : {e : TypeExpr} → Compatible e e
    to_generic : {x : Text} {ts : TypeList} → Compatible (generic x ts) (named x)
    from_generic : {x : Text} {ts : TypeList} → Compatible (named x) (generic x ts)
    rint_int : {w v : ℕ} → Compatible (rint w) (int v)
    real_int : {w v : ℕ} → Compatible (real w) (int v)
    real_rint : {w v : ℕ} → Compatible (real w) (rint v)
    complex_int : {r i : TypeExpr} {v : ℕ} → Compatible (complex r i) (int v)
    complex_rint : {r i : TypeExpr} {v : ℕ} → Compatible (complex r i) (rint v)
    complex_real : {r i : TypeExpr} {v : ℕ} → Compatible (complex r i) (real v)
    both_complex :
        {er ei ar ai : TypeExpr}
        → Compatible er ar
        → Compatible ei ai
        → Compatible (complex er ei) (complex ar ai)
    to_nullable : {e a : TypeExpr} → Compatible e a → Compatible (nullable e) a
    to_union : {es : TypeList} {a : TypeExpr} → Some es a → Compatible (union es) a
    from_union : {e : TypeExpr} {ts : TypeList} → ¬ IsUnion e → Every e ts → Compatible e (union ts)

  pub data Some : TypeList → TypeExpr → Type 0 where
    first : {e a : TypeExpr} {es : TypeList} → Compatible e a → Some (cons e es) a
    later : {e a : TypeExpr} {es : TypeList} → Some es a → Some (cons e es) a

  pub data Every : TypeExpr → TypeList → Type 0 where
    none : {e : TypeExpr} → Every e nil
    also : {e a : TypeExpr} {ts : TypeList} → Compatible e a → Every e ts → Every e (cons a ts)

pub type_eq_iff : (t u : TypeExpr) → (type_eq t u ≡ true) ↔ (t ≡ u)
unfolding type_eq decide
type_eq_iff t u = elim (TypeExpr-discrete t u) as (λ d. (decide d ≡ true) ↔ (t ≡ u)) [
  | yes p ↦ (λ _. p, λ _. refl)
  | no n ↦ (λ h. absurd (cc), λ p. absurd (n p))
]

pub or_cases : (a b : Bool) → (a || b) ≡ true → (a ≡ true) ⊎ (b ≡ true)
or_cases true b h = inl refl
or_cases false b h = inr h

or_left : (a b : Bool) → a ≡ true → (a || b) ≡ true
or_left true b h = refl
or_left false b h = absurd (cc)

or_right : (a b : Bool) → b ≡ true → (a || b) ≡ true
or_right true b h = refl
or_right false b h = h

pub and_cases : (a b : Bool) → (a && b) ≡ true → (a ≡ true) × (b ≡ true)
and_cases true b h = (refl, h)
and_cases false b h = absurd (cc)

and_both : (a b : Bool) → a ≡ true → b ≡ true → (a && b) ≡ true
and_both true b h k = k
and_both false b h k = absurd (cc)

infer_sound : (e a : TypeExpr) → (is_infer e ≡ true) → Compatible e a
infer_sound infer a h = to_infer
infer_sound _ a h = absurd (cc)

infer_sound_right : (e a : TypeExpr) → (is_infer a ≡ true) → Compatible e a
infer_sound_right e infer h = from_infer
infer_sound_right e _ h = absurd (cc)

null_sound : (e a : TypeExpr) → (is_null a ≡ true) → Compatible e a
null_sound e null h = from_null
null_sound e _ h = absurd (cc)

auto_sound : (e a : TypeExpr) → is_auto e ≡ true → Compatible e a
auto_sound (named x) a h =
    subst (λ y. Compatible (named y) a) (sym ((text_eq_iff x (codes "auto")).0 h)) to_auto
auto_sound _ a h = absurd (cc)

auto_sound_right : (e a : TypeExpr) → is_auto a ≡ true → Compatible e a
auto_sound_right e (named x) h =
    subst (λ y. Compatible e (named y)) (sym ((text_eq_iff x (codes "auto")).0 h)) from_auto
auto_sound_right e _ h = absurd (cc)

base_sound : (e a : TypeExpr) → same_base e a ≡ true → Compatible e a
base_sound (generic x ts) (named y) h =
    subst (λ z. Compatible (generic x ts) (named z)) ((text_eq_iff x y).0 h) to_generic
base_sound (named x) (generic y ts) h =
    subst (λ z. Compatible (named x) (generic z ts)) ((text_eq_iff x y).0 h) from_generic
base_sound _ _ h = absurd (cc)

at_once_sound : (e a : TypeExpr) → at_once e a ≡ true → Compatible e a
unfolding at_once
at_once_sound e a h = elim (or_cases _ _ h) [
  | inl k ↦ infer_sound e a k
  | inr h ↦ elim (or_cases _ _ h) [
    | inl k ↦ infer_sound_right e a k
    | inr h ↦ elim (or_cases _ _ h) [
      | inl k ↦ null_sound e a k
      | inr h ↦ elim (or_cases _ _ h) [
        | inl k ↦ auto_sound e a k
        | inr h ↦ elim (or_cases _ _ h) [
          | inl k ↦ auto_sound_right e a k
          | inr h ↦ elim (or_cases _ _ h) [
            | inl k ↦ subst (Compatible e) ((type_eq_iff e a).0 k) same
            | inr k ↦ base_sound e a k
          ]
        ]
      ]
    ]
  ]
]

int_cases : (a : TypeExpr) → is_int a ≡ true → (v : ℕ) × (a ≡ int v)
int_cases (int v) h = (v, refl)
int_cases _ h = absurd (cc)

rint_cases : (a : TypeExpr) → is_rint a ≡ true → (v : ℕ) × (a ≡ rint v)
rint_cases (rint v) h = (v, refl)
rint_cases _ h = absurd (cc)

-- What a test of compatibility with `e` is good for.
abbrev Sound : TypeExpr → (TypeExpr → Bool) → Type 0
Sound e f = (a : TypeExpr) → f a ≡ true → Compatible e a

not-IsUnion : (e : TypeExpr) → not (is_union e) ≡ true → ¬ IsUnion e
not-IsUnion (union ts) h k = absurd (cc)
not-IsUnion _ h k = k

mutual
  unfolding compatible_by

  by-Sound : (e : TypeExpr) (arms : TypeExpr → Bool) → Sound e arms → Sound e (compatible_by e arms)
  by-Sound e arms s (union ts) h = elim (or_cases _ _ h) [
    | inl k ↦ at_once_sound e (union ts) k
    | inr h ↦ elim (or_cases _ _ h) [
      | inl k ↦ s (union ts) k
      | inr k ↦
          let (p, q) = and_cases (not (is_union e)) (all_compatible e arms ts) k in
          from_union (not-IsUnion e p) (all-Sound e arms s ts q)
    ]
  ]
  by-Sound e arms s a h = elim (or_cases (at_once e a) (arms a) h) [
    | inl k ↦ at_once_sound e a k
    | inr k ↦ s a k
  ]

  all-Sound :
      (e : TypeExpr) (arms : TypeExpr → Bool)
      → Sound e arms
      → (ts : TypeList) → all_compatible e arms ts ≡ true
      → Every e ts
  all-Sound e arms s nil h = none
  all-Sound e arms s (cons a ts) h =
      let (p, q) = and_cases (compatible_by e arms a) (all_compatible e arms ts) h in
      also (by-Sound e arms s a p) (all-Sound e arms s ts q)

complex-Sound :
    (r i : TypeExpr) (re im : TypeExpr → Bool)
    → Sound r re
    → Sound i im
    → Sound (complex r i) (complex_arms re im)
complex-Sound r i re im sr si (complex ar ai) h =
    let (p, q) = and_cases (re ar) (im ai) h in both_complex (sr ar p) (si ai q)
complex-Sound r i re im sr si (int v) h = complex_int
complex-Sound r i re im sr si (rint v) h = complex_rint
complex-Sound r i re im sr si (real v) h = complex_real
complex-Sound r i re im sr si _ h = absurd (cc)

mutual
  unfolding expected_arms

  arms-Sound : (e : TypeExpr) → Sound e (expected_arms e)
  arms-Sound (rint w) a h =
      let (v, k) = int_cases a h in subst (Compatible (rint w)) (sym k) rint_int
  arms-Sound (real w) a h = elim (or_cases (is_int a) (is_rint a) h) [
    | inl p ↦ let (v, k) = int_cases a p in subst (Compatible (real w)) (sym k) real_int
    | inr p ↦ let (v, k) = rint_cases a p in subst (Compatible (real w)) (sym k) real_rint
  ]
  arms-Sound (complex r i) a h =
      complex-Sound r i _ _ (by-Sound r (expected_arms r) (arms-Sound r))
        (by-Sound i (expected_arms i) (arms-Sound i)) a h
  arms-Sound (nullable e) a h = to_nullable (by-Sound e (expected_arms e) (arms-Sound e) a h)
  arms-Sound (union es) a h = to_union (any_sound es a h)
  arms-Sound _ a h = absurd (cc)

  any_sound : (es : TypeList) (a : TypeExpr) → any_compatible es a ≡ true → Some es a
  any_sound nil a h = absurd (cc)
  any_sound (cons e es) a h =
      elim (or_cases (compatible_by e (expected_arms e) a) (any_compatible es a) h) [
        | inl k ↦ first (by-Sound e (expected_arms e) (arms-Sound e) a k)
        | inr k ↦ later (any_sound es a k)
      ]

-- The other direction: every rule is tried.
at_once_by :
    (e a : TypeExpr) (arms : TypeExpr → Bool) → at_once e a ≡ true → compatible_by e arms a ≡ true
unfolding compatible_by
at_once_by e (union ts) arms h = or_left _ _ h
at_once_by e _ arms h = or_left _ _ h

arms_by : (e a : TypeExpr) (arms : TypeExpr → Bool) → arms a ≡ true → compatible_by e arms a ≡ true
unfolding compatible_by
arms_by e (union ts) arms h = or_right _ _ (or_left _ _ h)
arms_by e _ arms h = or_right _ _ h

pub at_once_complete : (e a : TypeExpr) → at_once e a ≡ true → types_compatible e a ≡ true
unfolding types_compatible
at_once_complete e a h = at_once_by e a (expected_arms e) h

arms_complete : (e a : TypeExpr) → expected_arms e a ≡ true → types_compatible e a ≡ true
unfolding types_compatible
arms_complete e a h = arms_by e a (expected_arms e) h

is_not_union : (e : TypeExpr) → ¬ IsUnion e → not (is_union e) ≡ true
is_not_union (union ts) h = absurd (h tt)
is_not_union _ h = refl

at_once_eq : (e : TypeExpr) → at_once e e ≡ true
unfolding at_once
at_once_eq e = ground (arith, (type_eq_iff e e).1 refl)

at_once_infer : (e : TypeExpr) → at_once e infer ≡ true
unfolding at_once
at_once_infer e = ground arith

at_once_null : (e : TypeExpr) → at_once e null ≡ true
unfolding at_once
at_once_null e = ground arith

at_once_to_auto : (a : TypeExpr) → at_once (named (codes "auto")) a ≡ true
unfolding at_once text_eq
at_once_to_auto a = ground arith

at_once_from_auto : (e : TypeExpr) → at_once e (named (codes "auto")) ≡ true
unfolding at_once text_eq
at_once_from_auto e = ground arith

at_once_base : (e a : TypeExpr) → same_base e a ≡ true → at_once e a ≡ true
unfolding at_once
at_once_base e a h = ground arith

mutual
  unfolding types_compatible

  complete : {e a : TypeExpr} → Compatible e a → types_compatible e a ≡ true
  complete {a = a} to_infer = at_once_complete infer a refl
  complete {e = e} from_infer = at_once_complete e infer (at_once_infer e)
  complete {e = e} from_null = at_once_complete e null (at_once_null e)
  complete {a = a} to_auto = at_once_complete (named (codes "auto")) a (at_once_to_auto a)
  complete {e = e} from_auto = at_once_complete e (named (codes "auto")) (at_once_from_auto e)
  complete {e = e} same = at_once_complete e e (at_once_eq e)
  complete (to_generic {x} {ts}) =
      at_once_complete (generic x ts) (named x)
        (at_once_base (generic x ts) (named x) (text_eq_refl x))
  complete (from_generic {x} {ts}) =
      at_once_complete (named x) (generic x ts)
        (at_once_base (named x) (generic x ts) (text_eq_refl x))
  complete (rint_int {w} {v}) = arms_complete (rint w) (int v) refl
  complete (real_int {w} {v}) = arms_complete (real w) (int v) refl
  complete (real_rint {w} {v}) = arms_complete (real w) (rint v) refl
  complete (complex_int {r} {i} {v}) = arms_complete (complex r i) (int v) refl
  complete (complex_rint {r} {i} {v}) = arms_complete (complex r i) (rint v) refl
  complete (complex_real {r} {i} {v}) = arms_complete (complex r i) (real v) refl
  complete (both_complex {er} {ei} {ar} {ai} p q) =
      arms_complete (complex er ei) (complex ar ai) (and_both _ _ (complete p) (complete q))
  complete (to_nullable {e} {a} p) = arms_complete (nullable e) a (complete p)
  complete (to_union {es} {a} p) = arms_complete (union es) a (some_complete p)
  complete (from_union {e} {ts} n p) =
      or_right _ _ (or_right _ _ (and_both _ _ (is_not_union e n) (Every-complete p)))

  some_complete : {es : TypeList} {a : TypeExpr} → Some es a → any_compatible es a ≡ true
  some_complete (first p) = or_left _ _ (complete p)
  some_complete (later p) = or_right _ _ (some_complete p)

  Every-complete :
      {e : TypeExpr} {ts : TypeList} → Every e ts → all_compatible e (expected_arms e) ts ≡ true
  Every-complete none = refl
  Every-complete (also p q) = and_both _ _ (complete p) (Every-complete q)

pub types_compatible-Compatible : (e a : TypeExpr) → (types_compatible e a ≡ true) ↔ Compatible e a
unfolding types_compatible
types_compatible-Compatible e a = (by-Sound e (expected_arms e) (arms-Sound e) a, complete)

pub any_compatible-Some : (es : TypeList) (a : TypeExpr) → (any_compatible es a ≡ true) ↔ Some es a
any_compatible-Some es a = (any_sound es a, some_complete)
