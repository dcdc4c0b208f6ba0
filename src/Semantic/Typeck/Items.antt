-- ===== src/Semantic/Typeck/Items.antt =====
-- src/semantic/typeck.rs: `check_item`, which writes the context as well as the scope.
use yidika.Semantic.Typeck.Values.{insert_params, param_types}
use yidika.Semantic.Typeck.Check.{check_stmts}
use yidika.Semantic.Typeck.{
  Context, Scope, resolve_type, Checked, ◌>>=◌, checked, pure, failed, insert_var, ◌>>◌,
}
use yidika.Semantic.Compat.{is_infer}
use yidika.Syntax.Ast.{Param, StmtList, TypeNode}
use yidika.Base.{
  Bool, true, false, ◌||◌, none, some, Option, if◌then◌else◌, Text, List, [], ◌∷◌, no_entries, put,
  contains, text_eq, codes,
}
use yidika.Diagnostics.{Span}
use yidika.Syntax.Types.{TypeExpr, infer, none_, named, union}
use yidika.Syntax.Items.{
  ItemKind, Items, ItemNode, no_items, an_item, fn_item, struct_item, class_item, interface_item,
  enum_item, object_item, union_item, type_alias, const_item,
}
use yidika.Semantic.Env.{FnSig, add_type, add_fn, add_struct, add_enum}
use yidika.Semantic.Typeck.Classes.{
  Outcome, went_on, stopped, declared, resolve_params, check_class,
}

abbrev first_is_ref : List Param → Bool
first_is_ref [] = false
first_is_ref (p ∷ ps) = p.is_ref

abbrev pub signature : Context → List Param → Option TypeNode → FnSig
signature k ps ret = record {
  params = resolve_params k ps;
  ret_type = declared k none_ ret;
  self_is_ref = first_is_ref ps;
}

-- `self.types.insert(..)`
abbrev pub insert_type : Text → TypeExpr → Context → Context
insert_type x t k = record k { types = put x t k.types }

-- `if is_exported { self.env.add_type(..) }`, then `self.types.insert(..)`.
abbrev pub name_type : Bool → Text → TypeExpr → Context → Context
name_type is_exported x t k =
    insert_type x t (if is_exported then record k { env = add_type x t k.env } else k)

abbrev export_fn : Bool → Text → FnSig → Context → Context
export_fn is_exported x sig k = if is_exported then record k { env = add_fn x sig k.env } else k

abbrev add_generics : Text → List Text → Context → Context
add_generics x [] k = k
add_generics x gs k = record k { fn_generics = put x gs k.fn_generics }

-- What a function item makes known before its body is checked.
unfoldable pub enter_fn : Bool → Text → List Text → FnSig → Context → Context
unfolding text_eq
enter_fn is_exported x gs sig k =
    let k1 = add_generics x gs k in
    export_fn is_exported x sig (record k1 { local_fns = put x sig k1.local_fns })

abbrev unannotated : Option TypeNode → Bool
unannotated none = true
unannotated (some t) = is_infer t.value

abbrev inferred : Option TypeExpr → TypeExpr
inferred none = none_
inferred (some infer) = none_
inferred (some t) = t

-- The return type that the body has shown, for a function without an annotation.
unfoldable pub leave_fn :
    Bool → Text → Option TypeNode → FnSig → Option TypeExpr → Context → Context
unfolding text_eq
leave_fn is_exported x ret sig found k =
    let sig1 = record sig { ret_type = inferred found } in
    if unannotated ret
    then export_fn is_exported x sig1 (record k { local_fns = put x sig1 k.local_fns })
    else k

abbrev fn_outcome : (Option TypeExpr → Context) → Checked (Unit {0}) → Outcome
fn_outcome k (checked a t) = went_on (k t.ret_type) (record t { ret_type = none })
fn_outcome k (failed e) = stopped e

-- `ItemKind::Fn`
unfoldable pub check_fn :
    Bool → Text → List Param → Option TypeNode → StmtList → List Text → Context → Scope → Outcome
unfolding enter_fn leave_fn check_stmts resolve_type ◌>>=◌ pure insert_var
check_fn is_exported x ps ret body gs k s =
    let sig = signature k ps ret in
    let k1 = enter_fn is_exported x gs sig k in
    fn_outcome (λ found. leave_fn is_exported x ret sig found k1)
      ((insert_params k1 ps >> check_stmts k1 body)
        (record s { vars = no_entries; ret_type = some (declared k1 infer ret) }))

abbrev pub and_then : Outcome → (Context → Scope → Outcome) → Outcome
and_then (went_on k s) f = f k s
and_then (stopped e) f = stopped e

abbrev after_init : Context → Checked (Unit {0}) → (Context → Scope → Outcome) → Outcome
after_init k (checked a t) f = f k t
after_init k (failed e) f = stopped e

abbrev no_span : Span
no_span = record { start = 0; end = 0 }

unfoldable mutual
  unfolding check_fn check_class check_stmts resolve_type text_eq ◌>>=◌ pure insert_var

  -- `check_item`, once it is known whether the item is exported.
  pub check_kind : ItemKind → Span → Bool → Context → Scope → Outcome
  check_kind (fn_item x ps ret body is_async gs flags) span is_exported k s =
      check_fn is_exported x ps ret body gs k s
  check_kind (struct_item x fields gs) span is_exported k s =
      let k1 = name_type is_exported x (named x) k in
      went_on (record k1 { env = add_struct x (record { fields = fields; generics = gs }) k1.env })
        s
  check_kind (class_item x parent super_args ifaces fields methods gs ctor init flags) span
        is_exported k s =
      check_class x parent ifaces fields methods gs span (name_type is_exported x (named x) k) s
  check_kind (interface_item x methods) span is_exported k s = went_on k s
  check_kind (enum_item x variants) span is_exported k s =
      went_on (name_type is_exported x (named x) (record k { env = add_enum x variants k.env })) s
  check_kind (object_item x fields methods init) span is_exported k s =
      let k1 = name_type is_exported x (named x) k in
      after_init k1 ((insert_params k1 fields >> check_stmts k1 init) s) λ k2 t.
        and_then (check_methods methods k2 t) λ k3 u. went_on k3 (record u { vars = s.vars })
  check_kind (union_item x variants) span is_exported k s =
      went_on (name_type is_exported x (union (param_types k variants)) k) s
  check_kind (type_alias x t) span is_exported k s =
      went_on (name_type is_exported x (resolve_type k t.value) k) s
  check_kind (const_item x t value) span is_exported k s =
      let u = resolve_type k t.value in
      went_on (if is_exported then record k { env = add_type x u k.env } else k) (record s {
        vars = put x (record { type_expr = u; is_const = true; moved = false }) s.vars;
      })

  -- The methods of an object, which are never exported.
  pub check_methods : Items → Context → Scope → Outcome
  check_methods no_items k s = went_on k s
  check_methods (an_item i r) k s = and_then (check_kind i no_span false k s) (check_methods r)

-- `item_name`
abbrev pub item_name : ItemKind → Text
item_name (fn_item x ps ret body is_async gs flags) = x
item_name (struct_item x fields gs) = x
item_name (class_item x parent super_args ifaces fields methods gs ctor init flags) = x
item_name (interface_item x methods) = x
item_name (enum_item x variants) = x
item_name (object_item x fields methods init) = x
item_name (union_item x variants) = x
item_name (type_alias x t) = x
item_name (const_item x t value) = x

unfoldable pub check_item : ItemNode → List Text → Context → Scope → Outcome
unfolding check_kind contains
check_item item exported =
    check_kind item.value item.span
      (contains (codes "export") item.decorators || contains (item_name item.value) exported)
