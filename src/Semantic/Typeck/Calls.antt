-- ===== src/Semantic/Typeck/Calls.antt =====
-- src/semantic/typeck.rs: the calls of `check_expr`, once the types of the arguments are known.
use yidika.Diagnostics.{Span}
use yidika.Semantic.Compat.{types_compatible, is_copy_type}
use yidika.Syntax.Types.{
  TypeExpr, substitute_type, infer, TypeList, TypeArgs, str, none_, named, list, real, int, bool,
  nil, cons,
}
use yidika.Syntax.Ast.{ExprNode, ExprList, econs, Param, enil}
use Prim.Native.String.{String}
use yidika.Semantic.Env.{FnSig}
use yidika.Semantic.Infer.{infer_type_args}
use yidika.Semantic.Typeck.{
  ◌>>=◌, pure, require, Check, move_expr, or_type, fail, Context, get_vars, function_parameter,
  ◌>>◌, find_fn, Complaint, function_not_found, constructor_parameter,
}
use yidika.Base.{
  Bool, List, contains, Option, text_eq, Text, map, codes, none, ◌∷◌, some, [], ℕ, no_entries, suc,
  if◌then◌else◌, has_key, match_option,
}

-- The arms of a `match` on a name: the first row that lists the name gives the type.
unfoldable pub result_of : Text → List (List Text × TypeExpr) → Option TypeExpr
unfolding contains
result_of x [] = none
result_of x ((names, t) ∷ rows) = if contains x names then some t else result_of x rows

abbrev maths : List Text
maths = map codes (
    "cos" ∷ "sin" ∷ "sqrt" ∷ "abs" ∷ "floor" ∷ "ceil" ∷ "round" ∷ "max" ∷ "min" ∷ "pow" ∷ "rand"
    ∷ [])

abbrev clock : List Text
clock = map codes ("year" ∷ "month" ∷ "day" ∷ "hour" ∷ "minute" ∷ "second" ∷ [])

abbrev paths : List Text
paths = map codes ("join" ∷ "dirname" ∷ "basename" ∷ "extension" ∷ [])

abbrev row : List String → TypeExpr → List Text × TypeExpr
row names t = (map codes names, t)

-- A call of a built-in name by itself.
unfoldable pub builtin_result : Text → Option TypeExpr
unfolding result_of
builtin_result x = result_of x (
    row ("print" ∷ "println" ∷ "input" ∷ "typeof" ∷ []) none_
    ∷ (maths, real 0)
    ∷ row ("now" ∷ "utc" ∷ []) str
    ∷ row ("timestamp" ∷ []) (int 0)
    ∷ row ("format" ∷ []) str
    ∷ row ("parse" ∷ []) (int 0)
    ∷ row ("sleep" ∷ []) none_
    ∷ (clock, int 0)
    ∷ (paths, str)
    ∷ row ("is_absolute" ∷ []) bool
    ∷ row ("encode" ∷ "decode" ∷ "stringify" ∷ "fetch" ∷ []) str
    ∷ row ("find" ∷ "split" ∷ []) (list str)
    ∷ row ("replace" ∷ []) str
    ∷ row ("match" ∷ []) bool
    ∷ row ("str" ∷ []) str
    ∷ row ("int" ∷ []) (int 0)
    ∷ row ("real" ∷ []) (real 0)
    ∷ row ("bool" ∷ []) bool
    ∷ row ("len" ∷ []) (int 0)
    ∷ [])

-- The functions of the built-in modules.
unfoldable pub module_rows : List (Text × List (List Text × TypeExpr))
module_rows =
    (
      codes "fs",
      row ("read" ∷ "exists" ∷ "is_dir" ∷ "is_file" ∷ []) str
          ∷ row ("write" ∷ "append" ∷ "remove" ∷ []) none_
          ∷ row ("list" ∷ []) (list str)
          ∷ [],
    )
    ∷ (
      codes "sys",
      row ("env" ∷ "cwd" ∷ "platform" ∷ []) str
          ∷ row ("args" ∷ []) (list str)
          ∷ row ("pid" ∷ []) (int 0)
          ∷ row ("exit" ∷ "sleep" ∷ []) none_
          ∷ [],
    )
    ∷ (codes "math", (maths, real 0) ∷ [])
    ∷ (
      codes "time",
      row ("now" ∷ "utc" ∷ []) str
          ∷ row ("timestamp" ∷ []) (int 0)
          ∷ row ("format" ∷ []) str
          ∷ row ("parse" ∷ []) (int 0)
          ∷ row ("sleep" ∷ []) none_
          ∷ (clock, int 0)
          ∷ [],
    )
    ∷ (codes "json", row ("parse" ∷ []) (named (codes "auto")) ∷ row ("stringify" ∷ []) str ∷ [])
    ∷ (
      codes "datetime",
      row ("now" ∷ "utc" ∷ []) str
          ∷ row ("format" ∷ []) str
          ∷ row ("parse" ∷ []) (int 0)
          ∷ row ("timestamp" ∷ []) (int 0)
          ∷ (clock, int 0)
          ∷ [],
    )
    ∷ (codes "path", (paths, str) ∷ row ("is_absolute" ∷ []) bool ∷ [])
    ∷ (codes "base64", row ("encode" ∷ "decode" ∷ []) str ∷ [])
    ∷ (
      codes "regex",
      row ("match" ∷ []) bool
          ∷ row ("find" ∷ "split" ∷ []) (list str)
          ∷ row ("replace" ∷ []) str
          ∷ [],
    )
    ∷ []

unfoldable pub rows_of :
    Text → List (Text × List (List Text × TypeExpr)) → List (List Text × TypeExpr)
unfolding text_eq
rows_of x [] = []
rows_of x ((name, rows) ∷ rest) = if text_eq x name then rows else rows_of x rest

unfoldable pub module_result : Text → Text → TypeExpr
unfolding result_of module_rows rows_of
module_result m f = or_type (result_of f (rows_of m module_rows)) infer

-- `for (a, t) in args.iter().zip(arg_types.iter()) { self.mark_moved(a, t); }`
unfoldable pub move_args : ExprList → TypeList → Check (Unit {0})
move_args (econs a r) (cons t ts) = move_expr a t >> move_args r ts
move_args enil ts = pure tt
move_args (econs a r) nil = pure tt

abbrev pub move_unless : Bool → ExprNode → TypeExpr → Check (Unit {0})
move_unless copied a t = if copied then pure tt else move_expr a t

-- The loop over arguments with a parameter: each type is compared, and what is not copied is moved.
unfoldable pub pass_args :
    Span
    → (ℕ → TypeExpr → TypeExpr → Complaint)
    → ℕ
    → List TypeExpr
    → ExprList
    → TypeList
    → Check (Unit {0})
unfolding types_compatible is_copy_type
pass_args span what i (p ∷ ps) (econs a r) (cons t ts) =
    require (types_compatible p t) span (what i p t)
    >> move_unless (is_copy_type p) a t
    >> pass_args span what (suc i) ps r ts
pass_args span what i [] args ts = pure tt
pass_args span what i (p ∷ ps) enil ts = pure tt
pass_args span what i (p ∷ ps) (econs a r) nil = pure tt

-- The loop over the arguments of a constructor, which moves nothing.
unfoldable pub compare_args : Span → Text → ℕ → List Param → TypeList → Check (Unit {0})
unfolding types_compatible
compare_args span x i (p ∷ ps) (cons t ts) =
    require (types_compatible p.type_expr.value t) span
      (constructor_parameter i x p.type_expr.value t)
    >> compare_args span x (suc i) ps ts
compare_args span x i [] ts = pure tt
compare_args span x i (p ∷ ps) nil = pure tt

unfoldable pub infer_params : List TypeExpr → TypeList → List Text → TypeArgs → TypeArgs
unfolding infer_type_args
infer_params (p ∷ ps) (cons t ts) gs σ = infer_params ps ts gs (infer_type_args p t gs σ)
infer_params [] ts gs σ = σ
infer_params (p ∷ ps) nil gs σ = σ

unfoldable pub call_fn : Context → Span → Text → FnSig → ExprList → TypeList → Check TypeExpr
unfolding infer_params substitute_type
call_fn k span x sig args ts =
    match_option (k.fn_generics x)
      (pass_args span (λ i. function_parameter i x) 0 sig.params args ts >> pure sig.ret_type)
      (λ gs.
        let σ = infer_params sig.params ts gs no_entries in
        pass_args span (λ i. function_parameter i x) 0 (map (substitute_type σ) sig.params) args ts
        >> pure (substitute_type σ sig.ret_type))

abbrev pub returned : Option FnSig → TypeExpr
returned none = infer
returned (some sig) = sig.ret_type

unfoldable pub call_builtin : Context → Text → ExprList → TypeList → Check TypeExpr
unfolding builtin_result
call_builtin k x args ts =
    match_option (builtin_result x) (move_args args ts >> pure (returned (find_fn k x)))
      (λ t. pure t)

unfoldable pub call_constructor : Context → Span → Text → TypeList → Check TypeExpr
call_constructor k span x ts =
    match_option (k.env.classes x) (fail span (function_not_found x))
      (λ cls. compare_args span x 0 cls.fields ts >> pure (named x))

-- `Expr::Ident(name)` as the callee.
unfoldable pub call_named : Context → Span → Text → ExprList → TypeList → Check TypeExpr
unfolding contains
call_named k span x args ts =
    if contains x k.builtin_modules
    then call_builtin k x args ts
    else match_option (find_fn k x)
        (get_vars >>= λ vars. if has_key x vars then pure infer else call_constructor k span x ts)
        (λ sig. call_fn k span x sig args ts)
