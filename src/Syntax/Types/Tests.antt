-- ===== src/Syntax/Types/Tests.antt =====
-- The substitution of type arguments on small types.
use yidika.Base.{subst, ◌≡◌, refl, ◌↔◌, Option, none, some, Text, codes, if◌then◌else◌, text_eq}
use yidika.Syntax.Types.{TypeExpr, TypeArgs, named, int, list, map, const, substitute_type}
use yidika.Syntax.Types.Laws.{Occurs, UnderConst, Occurs-substitute_type}

-- `T` stands for `List<U>`.
abbrev first : TypeArgs
first x = if text_eq x (codes "T") then some (list (named (codes "U"))) else none

-- Every name stands for `int32`.
abbrev all_int : TypeArgs
all_int x = some (int 32)

-- `Map<T, const<T>>`
abbrev pair : TypeExpr
pair = map (named (codes "T")) (const (named (codes "T")))

substituted :
    substitute_type all_int (substitute_type first pair)
    ≡ map (list (int 32)) (const (named (codes "T")))
unfolding substitute_type text_eq
substituted = refl

int_closed : (y : Text) (v : TypeExpr) → all_int y ≡ some v → ¬ Occurs (codes "T") v
int_closed y v e h = subst (λ (o : Option TypeExpr). Clear o) e (λ k. k) h
  where
    Clear : Option TypeExpr → Type 0
    Clear none = Unit {0}
    Clear (some v) = ¬ Occurs (codes "T") v

Occurs-substitute_type_example :
    Occurs (codes "T") (substitute_type all_int pair) ↔ UnderConst (codes "T") pair
Occurs-substitute_type_example =
    Occurs-substitute_type all_int (codes "T") (int 32) refl int_closed pair
