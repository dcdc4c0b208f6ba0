-- ===== src/Semantic/Compat/Tests.antt =====
-- Compatibility on small types.
use yidika.Base.{◌≡◌, refl, true}
use yidika.Syntax.Types.{TypeExpr, int, real, null, nullable, union, nil, cons}
use yidika.Semantic.Compat.{types_compatible}

abbrev int_or_null : TypeExpr
int_or_null = union (cons (int 8) (cons null nil))

maybe_real : types_compatible (nullable (real 0)) int_or_null ≡ true
unfolding types_compatible
maybe_real = refl
