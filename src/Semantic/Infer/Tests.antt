-- ===== src/Semantic/Infer/Tests.antt =====
-- The inference of the argument of `map<str, list<T>>`.
use yidika.Base.{◌≡◌, false, some, none, Text, codes, [], ◌∷◌, contains, if◌then◌else◌, arith}
use yidika.Syntax.Types.{TypeExpr, named, int, str, list, map, TypeArgs, substitute_type}
use yidika.Semantic.Infer.{infer_type_args}
use yidika.Semantic.Infer.Recover.{substitute_type-infer_type_args}

abbrev lists_of_t : TypeExpr
lists_of_t = map str (list (named (codes "T")))

abbrev t_is_int : TypeArgs
t_is_int x = if contains x (codes "T" ∷ []) then some (int 8) else none

only_t : (x : Text) → contains x (codes "T" ∷ []) ≡ false → t_is_int x ≡ none
only_t x h = ground arith

substitute_type-infer_type_args_example :
    substitute_type
      (infer_type_args lists_of_t
        (substitute_type t_is_int lists_of_t)
        (codes "T" ∷ [])
        (λ x. none))
      lists_of_t
    ≡ substitute_type t_is_int lists_of_t
substitute_type-infer_type_args_example =
    substitute_type-infer_type_args (codes "T" ∷ []) t_is_int lists_of_t only_t (tt, tt)
