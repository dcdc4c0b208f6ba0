-- ===== src/Semantic/Infer/Recover.antt =====
-- The inference of type arguments finds the arguments that a type was made with.
use yidika.Base.{
  true, false, ◌≡◌, refl, sym, ap, ◌∙◌, inl, inr, none, some, List, if◌then◌else◌, Bool-cases,
  Option-cases, Text, text_eq, text_eq_iff, text_eq_refl, contains,
}
use yidika.Syntax.Types.{
  TypeExpr, named, complex, vector, matrix, list, set, map, union, tuple, fn, generic, nullable,
  const, TypeList, nil, cons, TypeArgs, unwrap_or, substitute_type, substitute_types,
}
use yidika.Semantic.Infer.{or_insert, infer_type_args, infer_each}

-- A parameter's type in which the inference sees every name: it looks into none of the others.
abbrev mutual
  pub Inferable : TypeExpr → Type 0
  Inferable (list t) = Inferable t
  Inferable (set t) = Inferable t
  Inferable (vector t) = Inferable t
  Inferable (matrix t) = Inferable t
  Inferable (nullable t) = Inferable t
  Inferable (map k v) = Inferable k × Inferable v
  Inferable (tuple ts) = AllInferable ts
  Inferable (generic x ts) = AllInferable ts
  Inferable (complex r i) = ⊥
  Inferable (union ts) = ⊥
  Inferable (fn ts t) = ⊥
  Inferable (const t) = ⊥
  Inferable _ = Unit {0}

  pub AllInferable : TypeList → Type 0
  AllInferable nil = Unit {0}
  AllInferable (cons t ts) = Inferable t × AllInferable ts

module _ (gs : List Text) (σ : TypeArgs) where
  -- The type argument for a name.
  abbrev actual : Text → TypeExpr
  actual x = unwrap_or (σ x) (named x)

  -- Only generic parameters are bound, each to its argument.
  abbrev Agrees : TypeArgs → Type 0
  Agrees m = (x : Text) (t : TypeExpr) → m x ≡ some t → (contains x gs ≡ true) × (t ≡ actual x)

  abbrev Extends : TypeArgs → TypeArgs → Type 0
  Extends m n = (x : Text) (t : TypeExpr) → m x ≡ some t → n x ≡ some t

  or_insert-Agrees :
      (x : Text) (m : TypeArgs)
      → contains x gs ≡ true
      → Agrees m
      → Agrees (or_insert x (actual x) m)
  unfolding or_insert
  or_insert-Agrees x m g a y t e = elim (Bool-cases (text_eq x y)) [
    | inr other ↦ a y t (rw other at e)
    | inl same ↦
        let is : x ≡ y = (text_eq_iff x y).0 same in
        elim (Option-cases (m x)) [
          | inl fresh ↦ (
            ap (λ z. contains z gs) (sym is) ∙ g,
            some_eq (sym (rw fresh at (rw same at e))) ∙ ap actual is,
          )
          | inr (u, bound) ↦ a y t (ap m (sym is) ∙ bound ∙ (rw bound at (rw same at e)))
        ]
  ]
    where
      some_eq : {a b : TypeExpr} → some a ≡ some b → a ≡ b
      some_eq h = cc

  or_insert-Extends : (x : Text) (u : TypeExpr) (m : TypeArgs) → Extends m (or_insert x u m)
  unfolding or_insert
  or_insert-Extends x u m y t e = elim (Bool-cases (text_eq x y)) [
    | inr other ↦ rw other e
    | inl same ↦ rw same (ap (λ z. some (unwrap_or z u)) (ap m ((text_eq_iff x y).0 same) ∙ e))
  ]

  or_insert-bound :
      (x : Text) (u : TypeExpr) (m : TypeArgs) → (t : TypeExpr) × (or_insert x u m x ≡ some t)
  unfolding or_insert
  or_insert-bound x u m = (unwrap_or (m x) u, rw (text_eq_refl x) refl)

  -- The generic parameters that occur are bound.
  abbrev mutual
    Binds : TypeArgs → TypeExpr → Type 0
    Binds m (named x) = contains x gs ≡ true → (t : TypeExpr) × (m x ≡ some t)
    Binds m (list t) = Binds m t
    Binds m (set t) = Binds m t
    Binds m (vector t) = Binds m t
    Binds m (matrix t) = Binds m t
    Binds m (nullable t) = Binds m t
    Binds m (map k v) = Binds m k × Binds m v
    Binds m (tuple ts) = BindsAll m ts
    Binds m (generic x ts) = BindsAll m ts
    Binds m _ = Unit {0}

    BindsAll : TypeArgs → TypeList → Type 0
    BindsAll m nil = Unit {0}
    BindsAll m (cons t ts) = Binds m t × BindsAll m ts

  mutual
    more_Binds : (m n : TypeArgs) → Extends m n → (p : TypeExpr) → Binds m p → Binds n p
    more_Binds m n k (named x) b = λ g. let (t, e) = b g in (t, k x t e)
    more_Binds m n k (list t) b = more_Binds m n k t b
    more_Binds m n k (set t) b = more_Binds m n k t b
    more_Binds m n k (vector t) b = more_Binds m n k t b
    more_Binds m n k (matrix t) b = more_Binds m n k t b
    more_Binds m n k (nullable t) b = more_Binds m n k t b
    more_Binds m n k (map p q) b = (more_Binds m n k p b.0, more_Binds m n k q b.1)
    more_Binds m n k (tuple ts) b = more_BindsAll m n k ts b
    more_Binds m n k (generic x ts) b = more_BindsAll m n k ts b
    more_Binds m n k _ b = tt

    more_BindsAll : (m n : TypeArgs) → Extends m n → (ps : TypeList) → BindsAll m ps → BindsAll n ps
    more_BindsAll m n k nil b = tt
    more_BindsAll m n k (cons t ts) b = (more_Binds m n k t b.0, more_BindsAll m n k ts b.1)

  -- One call on a type and its instance: what is known of the bindings before and after it.
  record Infers (m n : TypeArgs) : Type 0 where
    agrees : Agrees n
    extends : Extends m n

  same_Infers : (m : TypeArgs) → Agrees m → Infers m m
  same_Infers m a = record { agrees = a; extends = λ x t e. e }

  then_Infers : (m n o : TypeArgs) → Infers m n → Infers n o → Infers m o
  then_Infers m n o p q = record {
    agrees = q.agrees;
    extends = λ x t e. q.extends x t (p.extends x t e);
  }

  infer_name :
      (x : Text) (m : TypeArgs)
      → Agrees m
      → Infers m (if contains x gs then or_insert x (actual x) m else m)
  infer_name x m a = elim (Bool-cases (contains x gs)) [
    | inl g ↦
        rw g
          (record { agrees = or_insert-Agrees x m g a; extends = or_insert-Extends x (actual x) m })
    | inr g ↦ rw g (same_Infers m a)
  ]

  mutual
    unfolding infer_type_args substitute_type

    infer_Infers :
        (p : TypeExpr) (m : TypeArgs)
        → Agrees m
        → Infers m (infer_type_args p (substitute_type σ p) gs m)
    infer_Infers (named x) m a = infer_name x m a
    infer_Infers (list t) m a = infer_Infers t m a
    infer_Infers (set t) m a = infer_Infers t m a
    infer_Infers (vector t) m a = infer_Infers t m a
    infer_Infers (matrix t) m a = infer_Infers t m a
    infer_Infers (nullable t) m a = infer_Infers t m a
    infer_Infers (map k v) m a =
        let first = infer_Infers k m a in
        then_Infers m _ _ first
          (infer_Infers v (infer_type_args k (substitute_type σ k) gs m) first.agrees)
    infer_Infers (tuple ts) m a = each_Infers ts m a
    infer_Infers (generic x ts) m a = rw (text_eq_refl x) (each_Infers ts m a)
    infer_Infers _ m a = same_Infers m a

    each_Infers :
        (ps : TypeList) (m : TypeArgs)
        → Agrees m
        → Infers m (infer_each ps (substitute_types σ ps) gs m)
    each_Infers nil m a = same_Infers m a
    each_Infers (cons t ts) m a =
        let first = infer_Infers t m a in
        then_Infers m _ _ first
          (each_Infers ts (infer_type_args t (substitute_type σ t) gs m) first.agrees)

  mutual
    unfolding infer_type_args substitute_type

    infer_Binds :
        (p : TypeExpr) (m : TypeArgs)
        → Agrees m
        → Binds (infer_type_args p (substitute_type σ p) gs m) p
    infer_Binds (named x) m a = λ g. rw g (or_insert-bound x (actual x) m)
    infer_Binds (list t) m a = infer_Binds t m a
    infer_Binds (set t) m a = infer_Binds t m a
    infer_Binds (vector t) m a = infer_Binds t m a
    infer_Binds (matrix t) m a = infer_Binds t m a
    infer_Binds (nullable t) m a = infer_Binds t m a
    infer_Binds (map k v) m a =
        let m' = infer_type_args k (substitute_type σ k) gs m in
        let a' = (infer_Infers k m a).agrees in
        (more_Binds m' _ (infer_Infers v m' a').extends k (infer_Binds k m a), infer_Binds v m' a')
    infer_Binds (tuple ts) m a = each_Binds ts m a
    infer_Binds (generic x ts) m a = rw (text_eq_refl x) (each_Binds ts m a)
    infer_Binds _ m a = tt

    each_Binds :
        (ps : TypeList) (m : TypeArgs)
        → Agrees m
        → BindsAll (infer_each ps (substitute_types σ ps) gs m) ps
    each_Binds nil m a = tt
    each_Binds (cons t ts) m a =
        let m' = infer_type_args t (substitute_type σ t) gs m in
        let a' = (infer_Infers t m a).agrees in
        (more_Binds m' _ (each_Infers ts m' a').extends t (infer_Binds t m a), each_Binds ts m' a')

  module _ (only : (x : Text) → contains x gs ≡ false → σ x ≡ none) (m : TypeArgs)
      (agrees : Agrees m) where
    same_name :
        (x : Text)
        → (contains x gs ≡ true → (t : TypeExpr) × (m x ≡ some t))
        → unwrap_or (m x) (named x) ≡ actual x
    same_name x b = elim (Bool-cases (contains x gs)) [
      | inl g ↦ let (t, e) = b g in rw e (agrees x t e).1
      | inr g ↦ elim (Option-cases (m x)) [
        | inl e ↦ rw (e, only x g) refl
        | inr (t, e) ↦ absurd (cc ((agrees x t e).0, g))
      ]
    ]

    mutual
      unfolding substitute_type

      same_type :
          (p : TypeExpr) → Inferable p → Binds m p → substitute_type m p ≡ substitute_type σ p
      same_type (named x) i b = same_name x b
      same_type (list t) i b = ap list (same_type t i b)
      same_type (set t) i b = ap set (same_type t i b)
      same_type (vector t) i b = ap vector (same_type t i b)
      same_type (matrix t) i b = ap matrix (same_type t i b)
      same_type (nullable t) i b = ap nullable (same_type t i b)
      same_type (map k v) i b = cc (same_type k i.0 b.0, same_type v i.1 b.1)
      same_type (tuple ts) i b = ap tuple (same_types ts i b)
      same_type (generic x ts) i b = ap (generic x) (same_types ts i b)
      same_type (complex r j) i b = absurd i
      same_type (union ts) i b = absurd i
      same_type (fn ts t) i b = absurd i
      same_type (const t) i b = absurd i
      same_type _ i b = refl

      same_types :
          (ps : TypeList)
          → AllInferable ps
          → BindsAll m ps
          → substitute_types m ps ≡ substitute_types σ ps
      same_types nil i b = refl
      same_types (cons t ts) i b = cc (same_type t i.0 b.0, same_types ts i.1 b.1)

-- For a parameter's type in which the inference sees every name, the type arguments that it infers
-- from an instance of the type give that instance again. The instance replaces no name but the
-- generic parameters.
pub substitute_type-infer_type_args :
    (gs : List Text) (σ : TypeArgs) (p : TypeExpr)
    → ((x : Text) → contains x gs ≡ false → σ x ≡ none)
    → Inferable p
    → substitute_type (infer_type_args p (substitute_type σ p) gs (λ x. none)) p
      ≡ substitute_type σ p
substitute_type-infer_type_args gs σ p only i =
    let empty : Agrees gs σ (λ x. none) = λ x t e. absurd (cc) in
    same_type gs σ only (infer_type_args p (substitute_type σ p) gs (λ x. none))
      (infer_Infers gs σ p (λ x. none) empty).agrees p i (infer_Binds gs σ p (λ x. none) empty)
