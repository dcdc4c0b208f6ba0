-- ===== src/Semantic/Typeck/Statements.antt =====
-- src/semantic/typeck.rs: the steps of `check_stmt`, given the checks of the parts.
use yidika.Semantic.Typeck.Values.{fresh}
use yidika.Semantic.Compat.{types_compatible, is_infer}
use yidika.Semantic.Typeck.{
  ◌>>=◌, Context, pure, fail, require, get_ret, move_expr, resolve_type, insert_var, set_ret, Check,
  Complaint, ◌>>◌, VarInfo, declared_as, assigned_const, assigned_other,
}
use yidika.Base.{
  none, some, Option, if◌then◌else◌, ◌||◌, true, false, Bool, Text, List, contains, match_option,
}
use yidika.Diagnostics.{Span}
use yidika.Syntax.Types.{TypeExpr, int, map, list, set, named, const}
use yidika.Syntax.Ast.{TypeNode, ExprNode, Expr, enode, as_const}

abbrev pub loop_type : TypeExpr → Bool → TypeExpr
loop_type (list t) true = t
loop_type (list t) false = int 0
loop_type (set t) is_for_of = t
loop_type (map k v) true = v
loop_type (map k v) false = k
loop_type _ is_for_of = int 0

abbrev implementing : Text → Option (List Text) → Bool
implementing x none = false
implementing x (some names) = contains x names

-- The class of a value may implement the interface that its declaration names.
unfoldable pub implements_iface : Context → TypeExpr → TypeExpr → Bool
unfolding contains
implements_iface k (named x) (named y) = implementing x (k.env.class_interfaces y)
implements_iface k _ _ = false

abbrev pub declares_const : Option TypeNode → ExprNode → Bool → Bool
declares_const te value is_const = is_const || (is_as_const value || names_const te)
  where
    is_as_const : ExprNode → Bool
    is_as_const (enode id span (as_const a) ds) = true
    is_as_const _ = false

    const_type : TypeExpr → Bool
    const_type (const t) = true
    const_type _ = false

    names_const : Option TypeNode → Bool
    names_const none = false
    names_const (some n) = const_type n.value

-- A declaration, once its value has the type `t`; `recheck` checks the fields of a struct literal.
unfoldable pub declared_type :
    Context
    → Span
    → Text
    → Option TypeNode
    → ExprNode
    → TypeExpr
    → (TypeExpr → Check (Unit {0}))
    → Check TypeExpr
unfolding resolve_type types_compatible implements_iface
declared_type k span x none value t recheck = move_expr value t >> pure t
declared_type k span x (some te) value t recheck =
    let u = resolve_type k te.value in
    move_expr value u
    >> require (types_compatible u t || implements_iface k u t) span (declared_as x u t)
    >> recheck u
    >> pure u

-- The comparison of a returned type with that of the function.
unfoldable pub give_back : Span → TypeExpr → (TypeExpr → Complaint) → Check (Unit {0})
unfolding types_compatible
give_back span t what = get_ret >>= λ r.
    match_option r (pure tt)
      (λ u. if is_infer u then set_ret t else require (types_compatible u t) span (what u))

-- `Stmt::Assign`; `check_value` is the check of the assigned expression.
unfoldable pub assign : Span → Text → ExprNode → Check TypeExpr → Option VarInfo → Check TypeExpr
unfolding types_compatible
assign span x a check_a none =
    (check_a >>= λ t. move_expr a t >> pure t) >>= λ t. insert_var x (fresh t) >> pure t
assign span x a check_a (some info) =
    if info.is_const
    then fail span (assigned_const x)
    else check_a >>= λ t.
        move_expr a t
        >> require (types_compatible info.type_expr t) span (assigned_other x info.type_expr t)
        >> pure t

abbrev pub value_of : ExprNode → Expr
value_of (enode id span v ds) = v
