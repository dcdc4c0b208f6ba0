-- ===== src/Semantic/Compat.antt =====
-- src/semantic/typeck.rs: which types are compatible, the wider of two types, and the types that are
-- copied.
use mathlib.Core.Bool.{decide}
use native.Mathlib.Decide.{ℕ_discrete}
pub mod Rules
pub mod Wider
mod Tests
use yidika.Base.{
  ℕ, Bool, true, false, not, ◌&&◌, ◌||◌, ◌≡◌, ◌↔◌, List, [], ◌∷◌, if◌then◌else◌, ◌==◌, Text, codes,
  text_eq, length,
}
use yidika.Syntax.Types.{
  TypeExpr, named, int, rint, real, bool, str, symbol, complex, vector, matrix, list, set, map,
  union, tuple, fn, generic, nullable, const, null, none_, infer, TypeList, nil, cons,
  TypeExpr-discrete,
}

-- The derived `PartialEq` of `TypeExpr`.
unfoldable pub type_eq : TypeExpr → TypeExpr → Bool
unfolding TypeExpr-discrete decide
type_eq t u = decide (TypeExpr-discrete t u)

abbrev pub is_infer : TypeExpr → Bool
is_infer infer = true
is_infer _ = false

abbrev pub is_null : TypeExpr → Bool
is_null null = true
is_null _ = false

-- `matches!(t, TypeExpr::Named(n) if n == "auto")`
abbrev pub is_auto : TypeExpr → Bool
is_auto (named x) = text_eq x (codes "auto")
is_auto _ = false

-- A generic type and a named type of the same name, in either order.
abbrev pub same_base : TypeExpr → TypeExpr → Bool
same_base (generic x ts) (named y) = text_eq x y
same_base (named x) (generic y ts) = text_eq x y
same_base _ _ = false

-- The tests of `types_compatible` that return at once.
unfoldable pub at_once : TypeExpr → TypeExpr → Bool
unfolding type_eq text_eq
at_once e a =
    is_infer e
    || (is_infer a || (is_null a || (is_auto e || (is_auto a || (type_eq e a || same_base e a)))))

abbrev pub is_int : TypeExpr → Bool
is_int (int w) = true
is_int _ = false

abbrev pub is_rint : TypeExpr → Bool
is_rint (rint w) = true
is_rint _ = false

abbrev pub is_real : TypeExpr → Bool
is_real (real w) = true
is_real _ = false

abbrev pub is_complex : TypeExpr → Bool
is_complex (complex r i) = true
is_complex _ = false

abbrev pub is_union : TypeExpr → Bool
is_union (union ts) = true
is_union _ = false

-- The arms of the `match` for an expected complex type, by what is compatible with its parts.
abbrev pub complex_arms : (TypeExpr → Bool) → (TypeExpr → Bool) → TypeExpr → Bool
complex_arms re im (complex r i) = re r && im i
complex_arms re im a = is_int a || (is_rint a || is_real a)

-- `types_compatible(e, a)`, by recursion on `a`: `arms` are the arms of its `match` that look into the
-- expected type `e`, and the arm for a union `a` is tried after them, unless `e` is a union.
unfoldable mutual
  unfolding at_once

  pub compatible_by : TypeExpr → (TypeExpr → Bool) → TypeExpr → Bool
  compatible_by e arms (union ts) =
      at_once e (union ts) || (arms (union ts) || (not (is_union e) && all_compatible e arms ts))
  compatible_by e arms a = at_once e a || arms a

  pub all_compatible : TypeExpr → (TypeExpr → Bool) → TypeList → Bool
  all_compatible e arms nil = true
  all_compatible e arms (cons a ts) = compatible_by e arms a && all_compatible e arms ts

unfoldable mutual
  unfolding compatible_by

  -- The arms that look into the expected type.
  pub expected_arms : TypeExpr → TypeExpr → Bool
  expected_arms (rint w) a = is_int a
  expected_arms (real w) a = is_int a || is_rint a
  expected_arms (complex r i) a =
      complex_arms (compatible_by r (expected_arms r)) (compatible_by i (expected_arms i)) a
  expected_arms (nullable e) a = compatible_by e (expected_arms e) a
  expected_arms (union es) a = any_compatible es a
  expected_arms _ a = false

  pub any_compatible : TypeList → TypeExpr → Bool
  any_compatible nil a = false
  any_compatible (cons e es) a = compatible_by e (expected_arms e) a || any_compatible es a

unfoldable pub types_compatible : TypeExpr → TypeExpr → Bool
unfolding expected_arms
types_compatible e a = compatible_by e (expected_arms e) a

-- `types_compatible_params`
unfoldable pub types_compatible_params : List TypeExpr → List TypeExpr → Bool
unfolding types_compatible
types_compatible_params [] [] = true
types_compatible_params (e ∷ es) (a ∷ ts) = types_compatible e a && types_compatible_params es ts
types_compatible_params _ _ = false

-- `wider_type`
unfoldable pub wider_type : TypeExpr → TypeExpr → TypeExpr
unfolding types_compatible
wider_type a b =
    if types_compatible a b
    then a
    else if types_compatible b a
    then b
    else if is_complex a || is_complex b
    then complex (real 0) (real 0)
    else if is_real a || is_real b
    then real 0
    else if is_rint a || is_rint b
    then rint 0
    else a

-- `is_copy_type`
unfoldable pub is_copy_type : TypeExpr → Bool
is_copy_type (int w) = true
is_copy_type (rint w) = true
is_copy_type (real w) = true
is_copy_type bool = true
is_copy_type symbol = true
is_copy_type null = true
is_copy_type none_ = true
is_copy_type (complex r i) = true
is_copy_type _ = false
