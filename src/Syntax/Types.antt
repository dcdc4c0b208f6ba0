-- ===== src/Syntax/Types.antt =====
-- src/syntax/ast.rs: `TypeExpr` and `substitute_type`. A `Vec<TypeExpr>` is the type `TypeList` of
-- the same block. The widths are the `u8` that the lexer stores.
pub mod Laws
mod Tests
use native.Mathlib.Decide.{ℕ_discrete}
use yidika.Base.{ℕ, Option, none, some, Text}

mutual
  pub data TypeExpr : Type 0 where
    named : Text → TypeExpr
    int rint real : ℕ → TypeExpr
    bool str symbol : TypeExpr
    complex : TypeExpr → TypeExpr → TypeExpr
    vector matrix list set : TypeExpr → TypeExpr
    map : TypeExpr → TypeExpr → TypeExpr
    union tuple : TypeList → TypeExpr
    fn : TypeList → TypeExpr → TypeExpr
    generic : Text → TypeList → TypeExpr
    nullable const : TypeExpr → TypeExpr
    null none_ infer : TypeExpr

  pub data TypeList : Type 0 where
    nil : TypeList
    cons : TypeExpr → TypeList → TypeList

unfoldable pub TypeExpr-discrete : Discrete TypeExpr
TypeExpr-discrete = hlevel ℕ_discrete

-- `HashMap<String, TypeExpr>`, which the substitution only reads.
abbrev pub TypeArgs : Type 0
TypeArgs = Text → Option TypeExpr

-- `type_args.get(name).cloned().unwrap_or_else(..)`
abbrev pub unwrap_or : Option TypeExpr → TypeExpr → TypeExpr
unwrap_or none d = d
unwrap_or (some t) d = t

unfoldable mutual
  pub substitute_type : TypeArgs → TypeExpr → TypeExpr
  substitute_type σ (named x) = unwrap_or (σ x) (named x)
  substitute_type σ (generic x ts) = generic x (substitute_types σ ts)
  substitute_type σ (list t) = list (substitute_type σ t)
  substitute_type σ (set t) = set (substitute_type σ t)
  substitute_type σ (vector t) = vector (substitute_type σ t)
  substitute_type σ (matrix t) = matrix (substitute_type σ t)
  substitute_type σ (complex r i) = complex (substitute_type σ r) (substitute_type σ i)
  substitute_type σ (map k v) = map (substitute_type σ k) (substitute_type σ v)
  substitute_type σ (union ts) = union (substitute_types σ ts)
  substitute_type σ (tuple ts) = tuple (substitute_types σ ts)
  substitute_type σ (fn ps r) = fn (substitute_types σ ps) (substitute_type σ r)
  substitute_type σ (nullable t) = nullable (substitute_type σ t)
  substitute_type σ (int w) = int w
  substitute_type σ (rint w) = rint w
  substitute_type σ (real w) = real w
  substitute_type σ bool = bool
  substitute_type σ str = str
  substitute_type σ symbol = symbol
  substitute_type σ (const t) = const t
  substitute_type σ null = null
  substitute_type σ none_ = none_
  substitute_type σ infer = infer

  pub substitute_types : TypeArgs → TypeList → TypeList
  substitute_types σ nil = nil
  substitute_types σ (cons t ts) = cons (substitute_type σ t) (substitute_types σ ts)
