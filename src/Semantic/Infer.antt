-- ===== src/Semantic/Infer.antt =====
-- src/semantic/typeck.rs: `infer_type_args`.
pub mod Recover
mod Tests
use yidika.Base.{Bool, Option, none, some, List, if◌then◌else◌, Text, text_eq, contains}
use yidika.Syntax.Types.{
  TypeExpr, named, int, rint, real, bool, str, symbol, complex, vector, matrix, list, set, map,
  union, tuple, fn, generic, nullable, const, null, none_, infer, TypeList, nil, cons, TypeArgs,
  unwrap_or,
}

-- `inferred.entry(name).or_insert_with(..)`
unfoldable pub or_insert : Text → TypeExpr → TypeArgs → TypeArgs
unfolding text_eq
or_insert x t m y = if text_eq x y then some (unwrap_or (m x) t) else m y

unfoldable mutual
  unfolding or_insert contains

  pub infer_type_args : TypeExpr → TypeExpr → List Text → TypeArgs → TypeArgs
  infer_type_args (named x) a gs m = if contains x gs then or_insert x a m else m
  infer_type_args (list p) (list a) gs m = infer_type_args p a gs m
  infer_type_args (set p) (set a) gs m = infer_type_args p a gs m
  infer_type_args (vector p) (vector a) gs m = infer_type_args p a gs m
  infer_type_args (matrix p) (matrix a) gs m = infer_type_args p a gs m
  infer_type_args (nullable p) (nullable a) gs m = infer_type_args p a gs m
  infer_type_args (map pk pv) (map ak av) gs m =
      infer_type_args pv av gs (infer_type_args pk ak gs m)
  infer_type_args (tuple ps) (tuple ts) gs m = infer_each ps ts gs m
  infer_type_args (generic x ps) (generic y ts) gs m =
      if text_eq x y then infer_each ps ts gs m else m
  infer_type_args _ a gs m = m

  pub infer_each : TypeList → TypeList → List Text → TypeArgs → TypeArgs
  infer_each (cons p ps) (cons a ts) gs m = infer_each ps ts gs (infer_type_args p a gs m)
  infer_each _ ts gs m = m
