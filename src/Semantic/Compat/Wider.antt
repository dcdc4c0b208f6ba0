-- ===== src/Semantic/Compat/Wider.antt =====
-- What the wider of two types accepts, and how unions compare.
use yidika.Base.{true, ◌≡◌, ◌↔◌, ◌⊎◌, inl, inr, arith, Bool-cases}
use yidika.Syntax.Types.{TypeExpr, union, TypeList}
use yidika.Semantic.Compat.{
  type_eq, at_once, types_compatible, any_compatible, wider_type, compatible_by, expected_arms,
}
use yidika.Semantic.Compat.Rules.{
  same, Some, any_compatible-Some, type_eq_iff, types_compatible-Compatible,
}

accepts_itself : (t : TypeExpr) → types_compatible t t ≡ true
accepts_itself t = (types_compatible-Compatible t t).1 same

-- If one of two types accepts the other, as for the operands of an arithmetic operator that the
-- checker lets pass, then their wider type accepts both.
pub wider_type-accepts :
    (a b : TypeExpr)
    → (types_compatible a b ≡ true) ⊎ (types_compatible b a ≡ true)
    → (types_compatible (wider_type a b) a ≡ true) × (types_compatible (wider_type a b) b ≡ true)
unfolding wider_type
wider_type-accepts a b h = elim (Bool-cases (types_compatible a b)) [
  | inl yes_ab ↦ rw (yes_ab, wider_type) (accepts_itself a, yes_ab)
  | inr no_ab ↦ elim h [
    | inl k ↦ absurd (cc)
    | inr k ↦ rw (no_ab, wider_type) (rw k (k, accepts_itself b))
  ]
]

-- A union accepts another union only if they are equal, with the members in the same order, or if
-- one member accepts the whole of the other union.
pub types_compatible-union :
    (es ts : TypeList)
    → (types_compatible (union es) (union ts) ≡ true) ↔ ((union es ≡ union ts) ⊎ Some es (union ts))
unfolding types_compatible compatible_by expected_arms at_once
types_compatible-union es ts = (forth, back)
  where
    forth :
        types_compatible (union es) (union ts) ≡ true → (union es ≡ union ts) ⊎ Some es (union ts)
    forth h = elim (Bool-cases (type_eq (union es) (union ts))) [
      | inl e ↦ inl ((type_eq_iff (union es) (union ts)).0 e)
      | inr e ↦ elim (Bool-cases (any_compatible es (union ts))) [
        | inl k ↦ inr ((any_compatible-Some es (union ts)).0 k)
        | inr k ↦ absurd (ground arith)
      ]
    ]

    back :
        (union es ≡ union ts) ⊎ Some es (union ts) → types_compatible (union es) (union ts) ≡ true
    back (inl e) = ground (arith, (type_eq_iff (union es) (union ts)).1 e)
    back (inr k) = ground (arith, (any_compatible-Some es (union ts)).1 k)
