-- ===== src/Semantic/Typeck/Methods.antt =====
-- src/semantic/typeck.rs: the calls of `check_expr` whose callee is a field: functions of built-in
-- modules and methods of classes.
use yidika.Semantic.Typeck.Calls.{call_named, pass_args, module_result}
use yidika.Syntax.Types.{TypeExpr, TypeArgs, generic, named, TypeList, substitute_type, infer}
use yidika.Base.{
  Option, Text, codes, text_eq, some, List, contains, no_entries, none, map, drop, if◌then◌else◌,
  ◌||◌, ◌&&◌, match_option,
}
use yidika.Syntax.Ast.{ExprNode, ExprList, Expr, Param, enode}
use yidika.Semantic.Env.{ClassDef, MethodDef}
use yidika.Diagnostics.{Span}
use yidika.Semantic.Typeck.{
  ◌>>=◌, pure, bind_args, VarInfo, fail, get_vars, attempt, Context, Check, method_parameter, ◌>>◌,
  no_method,
}

abbrev std : Text
std = codes "std"

-- The module that the callee `obj.field` names; with none the call is not checked.
abbrev pub called_module : ExprNode → Option Text
called_module (enode id span (Expr.ident m) ds) = some m
called_module (enode id span (Expr.field (enode i p (Expr.ident x) es) f) ds) =
    if text_eq x std then some f else none
called_module _ = none

abbrev pub known_type : Option VarInfo → Option TypeExpr → Option TypeExpr → Option TypeExpr
known_type (some info) o p = some info.type_expr
known_type none (some t) p = some t
known_type none none p = p

-- The type of the object; `check_obj` is its check by `check_expr`.
unfoldable pub object_type : Context → ExprNode → Check TypeExpr → Check (Option TypeExpr)
object_type k (enode id span (Expr.ident x) ds) check_obj =
    get_vars >>= λ vars. pure (known_type (vars x) (k.types x) (k.env.types x))
object_type k _ check_obj = attempt check_obj

abbrev pub class_name : TypeExpr → Option Text
class_name (named x) = some x
class_name (generic x ts) = some x
class_name _ = none

abbrev pub class_args : ClassDef → TypeExpr → TypeArgs
class_args cls (generic x ts) = bind_args cls.generics ts no_entries
class_args cls _ = no_entries

-- The parameters of a method but the receiver.
abbrev pub method_params : TypeArgs → MethodDef → List TypeExpr
method_params σ method =
    map (λ p. substitute_type σ (Param.type_expr p).value) (drop 1 method.params)

unfoldable pub call_in_class :
    Span → Text → ClassDef → TypeArgs → Text → ExprList → TypeList → Check TypeExpr
unfolding substitute_type
call_in_class span cls_name cls σ f args ts =
    match_option (cls.methods f) (fail span (no_method cls_name f)) (λ method.
      pass_args span (λ i. method_parameter i f) 0 (method_params σ method) args ts
      >> pure (substitute_type σ method.ret_type))

abbrev pub call_of_class :
    Span → Text → TypeExpr → Option ClassDef → Text → ExprList → TypeList → Check TypeExpr
call_of_class span cls_name t none f args ts = pure infer
call_of_class span cls_name t (some cls) f args ts =
    call_in_class span cls_name cls (class_args cls t) f args ts

unfoldable pub call_on_type :
    Context → Span → Option TypeExpr → Text → ExprList → TypeList → Check TypeExpr
unfolding bind_args
call_on_type k span none f args ts = pure infer
call_on_type k span (some t) f args ts =
    match_option (class_name t) (pure infer)
      (λ x. call_of_class span x t (k.env.classes x) f args ts)

-- `Expr::Field(obj, field)` as the callee.
unfoldable pub call_field :
    Context → Span → ExprNode → Text → Check TypeExpr → ExprList → TypeList → Check TypeExpr
unfolding text_eq contains module_result
call_field k span obj f check_obj args ts = match_option (called_module obj) (pure infer) (λ m.
    if contains m k.builtin_modules || (k.std_imported && text_eq m std)
    then pure (module_result m f)
    else object_type k obj check_obj >>= λ o. call_on_type k span o f args ts)

-- `Expr::Call`, after the arguments.
unfoldable pub call_value :
    Context → Span → Expr → Check TypeExpr → ExprList → TypeList → Check TypeExpr
call_value k span (Expr.ident x) check_obj args ts = call_named k span x args ts
call_value k span (Expr.field obj f) check_obj args ts = call_field k span obj f check_obj args ts
call_value k span _ check_obj args ts = pure infer
