-- ===== src/Semantic/Typeck/Classes.antt =====
-- src/semantic/typeck.rs: the class items of `check_item`.
use yidika.Semantic.Typeck.{
  Context, Complaint, Scope, resolve_type, interface_not_found, parent_not_found, YkError,
  not_implemented, return_differs, parameters_differ,
}
use yidika.Semantic.Compat.{types_compatible, types_compatible_params}
use yidika.Syntax.Ast.{Param, TypeNode}
use yidika.Base.{
  none, some, Option, if◌then◌else◌, Text, List, [], ◌∷◌, no_entries, put, match_option, ◌++◌, map,
  text_eq, Table,
}
use yidika.Diagnostics.{Span}
use yidika.Syntax.Types.{TypeExpr, none_}
use yidika.Syntax.Items.{Items, no_items, an_item, fn_item}
use yidika.Semantic.Env.{
  FnSig, MethodDef, ClassDef, InterfaceDef, add_class, add_class_interface, Env,
}

-- What the check of an item leaves. After an error nothing of the context or the scope is used.
pub data Outcome : Type 0 where
  went_on : Context → Scope → Outcome
  stopped : YkError → Outcome

abbrev pub declared : Context → TypeExpr → Option TypeNode → TypeExpr
declared k d none = d
declared k d (some t) = resolve_type k t.value

abbrev pub resolve_params : Context → List Param → List TypeExpr
resolve_params k ps = map (λ p. resolve_type k (Param.type_expr p).value) ps

-- The methods of a class item; its other items are passed over.
abbrev pub add_methods : Context → Items → Table MethodDef → Table MethodDef
add_methods k no_items m = m
add_methods k (an_item (fn_item x ps ret body is_async gs flags) r) m =
    add_methods k r
      (put x (record { params = ps; ret_type = declared k none_ ret; generics = gs }) m)
add_methods k (an_item i r) m = add_methods k r m

abbrev pub or_complaint : Option Complaint → Option Complaint → Option Complaint
or_complaint none o = o
or_complaint (some c) o = some c

-- What is wrong with the method of a class that implements a method of an interface.
unfoldable pub unmet_method :
    Context → Text → Text → Text → FnSig → Option MethodDef → Option Complaint
unfolding types_compatible types_compatible_params resolve_type
unmet_method k cls iface f sig none = some (not_implemented cls f iface)
unmet_method k cls iface f sig (some def) =
    if types_compatible_params (map (resolve_type k) sig.params) (resolve_params k def.params)
    then if types_compatible sig.ret_type def.ret_type
      then none
      else some (return_differs cls f iface)
    else some (parameters_differ cls f iface)

-- The first of the methods of an interface that a class does not implement.
unfoldable pub unmet_methods :
    Context → Text → Text → Table MethodDef → List (Text × FnSig) → Option Complaint
unfolding unmet_method
unmet_methods k cls iface m [] = none
unmet_methods k cls iface m ((f, sig) ∷ rest) =
    or_complaint (unmet_method k cls iface f sig (m f)) (unmet_methods k cls iface m rest)

abbrev pub unmet_interface :
    Context → Text → Text → Table MethodDef → Option InterfaceDef → Option Complaint
unmet_interface k cls iface m none = some (interface_not_found iface)
unmet_interface k cls iface m (some def) = unmet_methods k cls iface m def.methods

unfoldable pub unmet : Context → Text → Table MethodDef → List Text → Option Complaint
unfolding unmet_methods
unmet k cls m [] = none
unmet k cls m (iface ∷ rest) =
    or_complaint (unmet_interface k cls iface m (k.env.interfaces iface)) (unmet k cls m rest)

abbrev add_class_interfaces : Text → List Text → Env → Env
add_class_interfaces cls [] env = env
add_class_interfaces cls (iface ∷ rest) env =
    add_class_interfaces cls rest (add_class_interface cls iface env)

abbrev pub finish_class : Text → ClassDef → Span → Context → Scope → Option Complaint → Outcome
finish_class x def span k s (some what) = stopped (record { span = span; complaint = what })
finish_class x def span k s none =
    went_on (record k { env = add_class x def (add_class_interfaces x def.interfaces k.env) }) s

-- A class item, with the definition of its parent.
abbrev with_parent :
    Text
    → Option Text
    → List Text
    → List Param
    → Items
    → List Text
    → Span
    → Context
    → Scope
    → ClassDef
    → Outcome
with_parent x parent ifaces fields methods gs span k s parent_cls =
    let m = add_methods k methods parent_cls.methods in
    finish_class x
      (record {
        fields = parent_cls.fields ++ fields;
        methods = m;
        generics = gs;
        interfaces = ifaces;
        extends = parent;
      })
      span k s (unmet k x m ifaces)

abbrev pub no_parent : ClassDef
no_parent = record {
  fields = [];
  methods = no_entries;
  generics = [];
  interfaces = [];
  extends = none;
}

-- `ItemKind::Class`
unfoldable pub check_class :
    Text
    → Option Text
    → List Text
    → List Param
    → Items
    → List Text
    → Span
    → Context
    → Scope
    → Outcome
unfolding unmet text_eq match_option
check_class x none ifaces fields methods gs span k s =
    with_parent x none ifaces fields methods gs span k s no_parent
check_class x (some p) ifaces fields methods gs span k s =
    match_option (k.env.classes p)
      (stopped (record { span = span; complaint = parent_not_found p }))
      (with_parent x (some p) ifaces fields methods gs span k s)
