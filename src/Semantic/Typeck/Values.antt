-- ===== src/Semantic/Typeck/Values.antt =====
-- src/semantic/typeck.rs: what `check_expr` and `check_stmt` do once the parts have been checked.
use yidika.Semantic.Compat.{types_compatible, wider_type, is_infer}
use yidika.Syntax.Items.{EnumVariant}
use yidika.Semantic.Env.{StructDef, FnSig}
use yidika.Semantic.Typeck.{
  ◌>>=◌, pure, Context, move_expr, bind_args, Check, VarInfo, fail, require, cannot_cast,
  unknown_field, missing_arm, resolve_type, get_vars, used_after_move, missing_variant, find_fn,
  ◌>>◌, insert_var, variable_not_found, field_other, operands_differ,
}
use yidika.Diagnostics.{Span}
use yidika.Syntax.Ast.{
  BinOp, UnOp, add, sub, mul, div, mod_, pow, bit_and, bit_or, bit_xor, shl, shr, assign, neg,
  Pattern, anil, acons, ArmList, Param, TypeNode, ExprNode,
}
use yidika.Syntax.Types.{
  nil, cons, bool, real, map, set, list, infer, str, generic, TypeList, TypeExpr, int, named,
  TypeArgs, rint, substitute_type, symbol,
}
use yidika.Base.{
  if◌then◌else◌, text_eq, List, Bool, Option, Text, false, true, some, not, codes, ◌∷◌, none,
  no_entries, ◌||◌, [], match_option,
}

abbrev pub fresh : TypeExpr → VarInfo
fresh t = record { type_expr = t; is_const = false; moved = false }

abbrev pub ident_type : Context → Span → Text → Option VarInfo → Option FnSig → Check TypeExpr
ident_type k span x (some info) o =
    if info.moved then fail span (used_after_move x) else pure info.type_expr
ident_type k span x none (some sig) = pure sig.ret_type
ident_type k span x none none = fail span (variable_not_found x)

-- `Expr::Ident`
unfoldable pub check_ident : Context → Span → Text → Check TypeExpr
check_ident k span x = get_vars >>= λ vars. ident_type k span x (vars x) (find_fn k x)

abbrev pub is_arithmetic : BinOp → Bool
is_arithmetic add = true
is_arithmetic sub = true
is_arithmetic mul = true
is_arithmetic div = true
is_arithmetic mod_ = true
is_arithmetic pow = true
is_arithmetic bit_and = true
is_arithmetic bit_or = true
is_arithmetic bit_xor = true
is_arithmetic shl = true
is_arithmetic shr = true
is_arithmetic _ = false

abbrev pub is_assign : BinOp → Bool
is_assign assign = true
is_assign _ = false

unfoldable pub arithmetic : Span → BinOp → TypeExpr → TypeExpr → Check TypeExpr
unfolding types_compatible wider_type
arithmetic span op lt rt =
    if is_infer lt
    then pure rt
    else if is_infer rt
    then pure lt
    else if types_compatible lt rt || types_compatible rt lt
    then pure (wider_type lt rt)
    else fail span (operands_differ op lt rt)

-- `Expr::BinOp`, after the operands; `again` is another check of the right one.
unfoldable pub operate :
    Span → BinOp → TypeExpr → TypeExpr → ExprNode → Check TypeExpr → Check TypeExpr
operate span op lt rt r again =
    if is_assign op
    then (again >>= λ t. move_expr r t >> pure t)
    else if is_arithmetic op
    then arithmetic span op lt rt
    else pure bool

-- `Expr::UnOp`
abbrev pub un_type : UnOp → TypeExpr → TypeExpr
un_type neg (int w) = rint 0
un_type op t = t

abbrev number_cast : TypeExpr → Option TypeExpr
number_cast str = some str
number_cast (int w) = some (int 0)
number_cast _ = none

abbrev bool_cast : TypeExpr → Option TypeExpr
bool_cast str = some str
bool_cast _ = none

abbrev str_cast : TypeExpr → Option TypeExpr
str_cast (named x) = if text_eq x (codes "symbol") then some symbol else none
str_cast _ = none

-- `Expr::As`: the type of a cast that is allowed.
unfoldable pub cast_type : TypeExpr → TypeExpr → Option TypeExpr
unfolding text_eq
cast_type (named x) target = some target
cast_type (int w) target = number_cast target
cast_type (rint w) target = number_cast target
cast_type (real w) target = number_cast target
cast_type bool target = bool_cast target
cast_type str target = str_cast target
cast_type _ target = none

unfoldable pub cast : Span → TypeExpr → TypeExpr → Check TypeExpr
unfolding cast_type
cast span t target =
    match_option (cast_type t target) (fail span (cannot_cast t target)) (λ u. pure u)

abbrev pub length_type : TypeExpr → TypeExpr
length_type str = int 0
length_type (list t) = int 0
length_type (set t) = int 0
length_type (map k v) = int 0
length_type _ = infer

-- `Expr::Field` outside of a call; `check_obj` is the check of the object.
unfoldable pub field_type : Text → Check TypeExpr → Check TypeExpr
unfolding text_eq
field_type f check_obj =
    if text_eq f (codes "length")
    then (check_obj >>= λ t. pure (length_type t))
    else if text_eq f (codes "toString")
    then (check_obj >> pure str)
    else pure infer

abbrev pub insert_params : Context → List Param → Check (Unit {0})
insert_params k [] = pure tt
insert_params k (p ∷ ps) =
    insert_var p.name (fresh (resolve_type k p.type_expr.value)) >> insert_params k ps

abbrev pub param_types : Context → List Param → TypeList
param_types k [] = nil
param_types k (p ∷ ps) = cons (resolve_type k p.type_expr.value) (param_types k ps)

abbrev pub annotated : Context → Option TypeNode → TypeExpr
annotated k none = infer
annotated k (some t) = resolve_type k t.value

abbrev pub any_arm : (Pattern → Bool) → ArmList → Bool
any_arm test anil = false
any_arm test (acons p g b r) = if test p then true else any_arm test r

abbrev pub is_catch_all : Pattern → Bool
is_catch_all Pattern.ignore = true
is_catch_all (Pattern.ident x) = true
is_catch_all (Pattern.rest x) = true
is_catch_all _ = false

abbrev is_lit_true : Pattern → Bool
is_lit_true (Pattern.lit_bool b) = b
is_lit_true _ = false

abbrev is_lit_false : Pattern → Bool
is_lit_false (Pattern.lit_bool b) = not b
is_lit_false _ = false

abbrev pub is_variant : Text → Pattern → Bool
is_variant x (Pattern.variant y ps) = text_eq y x
is_variant x _ = false

unfoldable pub cover : Span → Text → ArmList → List EnumVariant → Check (Unit {0})
unfolding text_eq
cover span x arms [] = pure tt
cover span x arms (v ∷ vs) =
    require (any_arm (is_variant v.name) arms) span (missing_variant x v.name)
    >> cover span x arms vs

abbrev pub cover_enum : Span → Text → ArmList → Option (List EnumVariant) → Check (Unit {0})
cover_enum span x arms none = pure tt
cover_enum span x arms (some vs) = cover span x arms vs

abbrev pub cover_type : Context → TypeExpr → ArmList → Span → Check (Unit {0})
cover_type k bool arms span =
    require (any_arm is_lit_true arms) span (missing_arm true)
    >> require (any_arm is_lit_false arms) span (missing_arm false)
cover_type k (named x) arms span = cover_enum span x arms (k.env.enums x)
cover_type k _ arms span = pure tt

-- `check_match_exhaustive`
unfoldable pub check_match_exhaustive : Context → TypeExpr → ArmList → Span → Check (Unit {0})
check_match_exhaustive k t arms span =
    if any_arm is_catch_all arms then pure tt else cover_type k t arms span

unfoldable pub find_field : Text → List Param → Option Param
unfolding text_eq
find_field f [] = none
find_field f (p ∷ ps) = if text_eq p.name f then some p else find_field f ps

-- A field of a struct literal, once its value is checked.
unfoldable pub known_field : Span → Text → Option StructDef → Text → Check (Unit {0})
unfolding find_field
known_field span x none f = pure tt
known_field span x (some def) f =
    match_option (find_field f def.fields) (fail span (unknown_field f x)) (λ p. pure tt)

abbrev pub struct_type : Text → Option StructDef → TypeExpr
struct_type x none = infer
struct_type x (some def) = named x

abbrev is_empty : List Text → TypeList → Bool
is_empty [] ts = true
is_empty gs nil = true
is_empty gs _ = false

abbrev with_args : TypeList → Option StructDef → Option (StructDef × TypeArgs)
with_args ts none = none
with_args ts (some def) =
    if is_empty def.generics ts then none else some (def, bind_args def.generics ts no_entries)

-- The type arguments that an annotation gives to a struct literal, unless there are none.
unfoldable pub literal_args : Context → Text → TypeExpr → Option (StructDef × TypeArgs)
unfolding text_eq bind_args
literal_args k x (generic y ts) = if text_eq y x then with_args ts (k.env.structs x) else none
literal_args k x _ = none

-- A field of an annotated struct literal; `check_field` is the check of its value.
unfoldable pub compare_field :
    Span → Text → Text → TypeArgs → Option Param → Check TypeExpr → Check (Unit {0})
unfolding types_compatible substitute_type
compare_field span x f σ none check_field = pure tt
compare_field span x f σ (some p) check_field =
    let e = substitute_type σ p.type_expr.value in
    check_field >>= λ t. require (types_compatible e t) span (field_other f x e t)
