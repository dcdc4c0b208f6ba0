-- ===== src/Syntax/Types/Laws.antt =====
-- The substitution of type arguments: what it leaves alone, and how two substitutions compose.
use yidika.Base.{Option, none, some, ◌≡◌, refl, ap, Text, ◌↔◌, ◌⊎◌, inl, inr}
use yidika.Syntax.Types.{
  TypeExpr, named, complex, vector, matrix, list, set, map, union, tuple, fn, generic, nullable,
  const, TypeList, nil, cons, TypeArgs, unwrap_or, substitute_type, substitute_types,
}

-- First `σ`, then `τ` on what it has put in, and on the names that it leaves alone.
abbrev pub compose : TypeArgs → TypeArgs → TypeArgs
compose σ τ x = elim (σ x) [ none ↦ τ x | some t ↦ some (substitute_type τ t) ]

compose_named :
    (σ τ : TypeArgs) (x : Text) (o : Option TypeExpr)
    → σ x ≡ o
    → substitute_type τ (unwrap_or o (named x)) ≡ unwrap_or (compose σ τ x) (named x)
unfolding substitute_type
compose_named σ τ x none e = rw (e, compose)
compose_named σ τ x (some t) e = rw (e, compose)

mutual
  unfolding substitute_type

  compose_type :
      (σ τ : TypeArgs) (t : TypeExpr)
      → substitute_type τ (substitute_type σ t) ≡ substitute_type (compose σ τ) t
  compose_type σ τ (named x) = compose_named σ τ x (σ x) refl
  compose_type σ τ (generic x ts) = ap (generic x) (compose_types σ τ ts)
  compose_type σ τ (list t) = ap list (compose_type σ τ t)
  compose_type σ τ (set t) = ap set (compose_type σ τ t)
  compose_type σ τ (vector t) = ap vector (compose_type σ τ t)
  compose_type σ τ (matrix t) = ap matrix (compose_type σ τ t)
  compose_type σ τ (complex r i) = cc (compose_type σ τ r, compose_type σ τ i)
  compose_type σ τ (map k v) = cc (compose_type σ τ k, compose_type σ τ v)
  compose_type σ τ (union ts) = ap union (compose_types σ τ ts)
  compose_type σ τ (tuple ts) = ap tuple (compose_types σ τ ts)
  compose_type σ τ (fn ps r) = cc (compose_types σ τ ps, compose_type σ τ r)
  compose_type σ τ (nullable t) = ap nullable (compose_type σ τ t)
  compose_type σ τ _ = refl

  compose_types :
      (σ τ : TypeArgs) (ts : TypeList)
      → substitute_types τ (substitute_types σ ts) ≡ substitute_types (compose σ τ) ts
  compose_types σ τ nil = refl
  compose_types σ τ (cons t ts) = cc (compose_type σ τ t, compose_types σ τ ts)

-- Substituting twice is substituting once by the composed map.
pub substitute_type-substitute_type :
    (σ τ : TypeArgs) (t : TypeExpr)
    → substitute_type τ (substitute_type σ t) ≡ substitute_type (compose σ τ) t
substitute_type-substitute_type = compose_type

-- The name stands somewhere in the type, as a type of its own.
abbrev mutual
  pub Occurs : Text → TypeExpr → Type 0
  Occurs x (named y) = x ≡ y
  Occurs x (generic y ts) = OccursIn x ts
  Occurs x (list t) = Occurs x t
  Occurs x (set t) = Occurs x t
  Occurs x (vector t) = Occurs x t
  Occurs x (matrix t) = Occurs x t
  Occurs x (complex r i) = Occurs x r ⊎ Occurs x i
  Occurs x (map k v) = Occurs x k ⊎ Occurs x v
  Occurs x (union ts) = OccursIn x ts
  Occurs x (tuple ts) = OccursIn x ts
  Occurs x (fn ps r) = OccursIn x ps ⊎ Occurs x r
  Occurs x (nullable t) = Occurs x t
  Occurs x (const t) = Occurs x t
  Occurs x _ = ⊥

  pub OccursIn : Text → TypeList → Type 0
  OccursIn x nil = ⊥
  OccursIn x (cons t ts) = Occurs x t ⊎ OccursIn x ts

-- The name stands below a `const<…>` of the type.
abbrev mutual
  pub UnderConst : Text → TypeExpr → Type 0
  UnderConst x (generic y ts) = UnderConstIn x ts
  UnderConst x (list t) = UnderConst x t
  UnderConst x (set t) = UnderConst x t
  UnderConst x (vector t) = UnderConst x t
  UnderConst x (matrix t) = UnderConst x t
  UnderConst x (complex r i) = UnderConst x r ⊎ UnderConst x i
  UnderConst x (map k v) = UnderConst x k ⊎ UnderConst x v
  UnderConst x (union ts) = UnderConstIn x ts
  UnderConst x (tuple ts) = UnderConstIn x ts
  UnderConst x (fn ps r) = UnderConstIn x ps ⊎ UnderConst x r
  UnderConst x (nullable t) = UnderConst x t
  UnderConst x (const t) = Occurs x t
  UnderConst x _ = ⊥

  pub UnderConstIn : Text → TypeList → Type 0
  UnderConstIn x nil = ⊥
  UnderConstIn x (cons t ts) = UnderConst x t ⊎ UnderConstIn x ts

sum_map : {A B C D : Type 0} → (A → C) → (B → D) → A ⊎ B → C ⊎ D
sum_map f g (inl a) = inl (f a)
sum_map f g (inr b) = inr (g b)

module _ (σ : TypeArgs) (x : Text) (u : TypeExpr) (bound : σ x ≡ some u)
    (closed : (y : Text) (v : TypeExpr) → σ y ≡ some v → ¬ Occurs x v) where
  left_named : (y : Text) (o : Option TypeExpr) → σ y ≡ o → Occurs x (unwrap_or o (named y)) → ⊥
  left_named y none e h = absurd (cc (bound, ap σ h, e))
  left_named y (some v) e h = closed y v e h

  mutual
    unfolding substitute_type

    left : (t : TypeExpr) → Occurs x (substitute_type σ t) → UnderConst x t
    left (named y) h = left_named y (σ y) refl h
    left (generic y ts) h = left_in ts h
    left (list t) h = left t h
    left (set t) h = left t h
    left (vector t) h = left t h
    left (matrix t) h = left t h
    left (complex r i) h = sum_map (left r) (left i) h
    left (map k v) h = sum_map (left k) (left v) h
    left (union ts) h = left_in ts h
    left (tuple ts) h = left_in ts h
    left (fn ps r) h = sum_map (left_in ps) (left r) h
    left (nullable t) h = left t h
    left (const t) h = h
    left _ h = absurd h

    left_in : (ts : TypeList) → OccursIn x (substitute_types σ ts) → UnderConstIn x ts
    left_in nil h = h
    left_in (cons t ts) h = sum_map (left t) (left_in ts) h

  mutual
    unfolding substitute_type

    kept : (t : TypeExpr) → UnderConst x t → Occurs x (substitute_type σ t)
    kept (named y) h = absurd h
    kept (generic y ts) h = kept_in ts h
    kept (list t) h = kept t h
    kept (set t) h = kept t h
    kept (vector t) h = kept t h
    kept (matrix t) h = kept t h
    kept (complex r i) h = sum_map (kept r) (kept i) h
    kept (map k v) h = sum_map (kept k) (kept v) h
    kept (union ts) h = kept_in ts h
    kept (tuple ts) h = kept_in ts h
    kept (fn ps r) h = sum_map (kept_in ps) (kept r) h
    kept (nullable t) h = kept t h
    kept (const t) h = h
    kept _ h = absurd h

    kept_in : (ts : TypeList) → UnderConstIn x ts → OccursIn x (substitute_types σ ts)
    kept_in nil h = h
    kept_in (cons t ts) h = sum_map (kept t) (kept_in ts) h

  -- A type parameter that the map binds, by types that do not mention it, is left in the result
  -- exactly if it stands below a `const<…>` of the type.
  pub Occurs-substitute_type : (t : TypeExpr) → Occurs x (substitute_type σ t) ↔ UnderConst x t
  Occurs-substitute_type t = (left t, kept t)
