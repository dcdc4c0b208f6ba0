-- ===== src/Syntax/Parser/Items.antt =====
use yidika.Syntax.Types.{TypeExpr}
use yidika.Syntax.Parser.Literals.{call_args}
use yidika.Diagnostics.{Span}
use yidika.Syntax.Parser.Names.{sliced, or_panic, ident}
use yidika.Syntax.Parser.{
  Parse, step, eat, accept, ◌>>=◌, fresh_id, is, kind, peek, stuck, pure, tok, ◌>>◌, eat_gt,
  opt_semicolon, next_span, ahead, fail,
}
use yidika.Syntax.Ast.{Expr, StmtList, Param, ExprList, TypeNode}
use yidika.Syntax.Parser.Loops.{
  Parsers, comma_list1, when_accepted, separated, no_span, type_node, until_list, ends_params,
  expr_value,
}
use yidika.Syntax.Token.{Token}
use yidika.Syntax.Items.{
  ItemKind, FnFlags, ItemNode, EnumVariant, Items, ClassFlags, InterfaceMethod,
}
use yidika.Base.{
  List, Option, ℕ, Bool, text_eq, some, false, if◌then◌else◌, Text, none, codes, ltb, ◌&&◌, [],
  ◌++◌, ◌+◌, ◌||◌, ◌%◌, ◌∷◌, match_option, true, suc, ◌^◌, ◌-◌, ◌/◌, zero,
}

-- src/syntax/parser.rs: `item`, `fn_item`, `parse_class`, `generics` and the parameter lists.

abbrev is_self : Token → Bool
is_self (Token.ident x) = text_eq x (codes "self")
is_self _ = false

abbrev pub is_ref_self : Token → Option Token → Bool
is_ref_self t none = false
is_ref_self t (some next) = is Token.ref t && is_self next

abbrev stops_params : Token → Bool
stops_params t = is Token.r_brace t || ends_params t

-- `if self.tok() == &Comma || self.tok() == &Semicolon { self.advance(); }`, as the test.
unfoldable pub comma_or_semicolon : Parse Bool
comma_or_semicolon = accept Token.comma >>= λ b. if b then pure true else accept Token.semicolon

unfoldable pub item_node : ItemKind → Parse ItemNode
item_node k =
    fresh_id >>= λ id. pure (record { id = id; span = no_span; value = k; decorators = [] })

abbrev pub decorated : ItemNode → Text → ItemNode
decorated i x = record i { decorators = i.decorators ++ x ∷ [] }

-- What stands in the body of a class or of an object.
pub data Member : Type 0 where
  separator_member : Member
  init_member : StmtList → Member
  method_member : ItemKind → Member
  field_member : Param → Member

abbrev field_members : List Member → List Param
field_members [] = []
field_members (field_member p ∷ ms) = p ∷ field_members ms
field_members (_ ∷ ms) = field_members ms

abbrev method_members : List Member → Items
method_members [] = Items.no_items
method_members (method_member k ∷ ms) = Items.an_item k (method_members ms)
method_members (_ ∷ ms) = method_members ms

abbrev append_stmts : StmtList → StmtList → StmtList
append_stmts StmtList.snil ts = ts
append_stmts (StmtList.scons s ss) ts = StmtList.scons s (append_stmts ss ts)

abbrev init_members : List Member → StmtList
init_members [] = StmtList.snil
init_members (init_member b ∷ ms) = append_stmts b (init_members ms)
init_members (_ ∷ ms) = init_members ms

abbrev no_flags : FnFlags
no_flags = record {
  is_open = false;
  is_override = false;
  is_final = false;
  is_abstract_method = false;
}

abbrev class_flags : Bool → Bool → Bool → ClassFlags
class_flags o a d = record { is_open = o; is_abstract = a; is_data = d }

-- A number in decimal; `fuel` is at least the number of its digits less one.
abbrev show_digits : ℕ → ℕ → Text
show_digits zero n = (48 + n % 10) ∷ []
show_digits (suc fuel) n =
    let front = show_digits fuel (n / 10) in
    if ltb n 10 then (48 + n) ∷ [] else front ++ (48 + n % 10) ∷ []

-- An `i64` of a 64-bit pattern, in decimal.
abbrev show_i64 : ℕ → Text
show_i64 n = if ltb n (2 ^ 63) then show_digits 19 n else b'-' ∷ show_digits 19 (2 ^ 64 - n)

abbrev int_value : Expr → Option ℕ
int_value (Expr.lit_int n) = some n
int_value _ = none

abbrev or_no_params : Option (List Param) → List Param
or_no_params none = []
or_no_params (some ps) = ps

abbrev or_no_exprs : Option ExprList → ExprList
or_no_exprs none = ExprList.enil
or_no_exprs (some es) = es

abbrev or_no_names : Option (List Text) → List Text
or_no_names none = []
or_no_names (some xs) = xs

-- A parent class, its arguments and interfaces.
pub record Parent : Type 0 where
  pub extends : Option Text
  pub super_args : ExprList
  pub implements : List Text

abbrev no_parent : Option Text → Parent
no_parent base = record { extends = base; super_args = ExprList.enil; implements = [] }

module _ (r : Parsers) where
  unfoldable pub names : Parse (List Text)
  names = comma_list1 ident r.fuel

  -- `generics`
  unfoldable pub generics : Parse (List Text)
  generics =
      when_accepted Token.lt (names >>= λ xs. eat_gt >> pure xs) >>= λ o. pure (or_no_names o)

  -- `param`
  unfoldable pub param : Parse Param
  param = ident >>= λ x.
      eat Token.colon >> r.type_ >>= λ t. pure (record { name = x; type_expr = t; is_ref = false })

  -- `params`
  unfoldable pub params : Parse (List Param)
  unfolding kind
  params = separated stops_params comma_or_semicolon param r.fuel

  unfoldable pub self_param : Bool → Parse Param
  self_param by_ref = ident >>= λ x. type_node no_span TypeExpr.infer >>= λ t.
      pure (record { name = x; type_expr = t; is_ref = by_ref })

  unfoldable pub method_param : Parse Param
  unfolding kind text_eq
  method_param = tok >>= λ t. ahead >>= λ next.
      if is_self t
      then self_param false
      else if is_ref_self t next
      then step >> self_param true
      else param

  -- `method_params`
  unfoldable pub method_params : ℕ → Parse (List Param)
  unfolding kind
  method_params zero = stuck
  method_params (suc n) = tok >>= λ t.
      if ends_params t
      then pure []
      else method_param >>= λ a. accept Token.comma >> method_params n >>= λ rest. pure (a ∷ rest)

  unfoldable pub ret_type : Parse (Option TypeNode)
  ret_type = when_accepted Token.arrow r.type_

  -- `fn_item`
  unfoldable pub parse_fn : Bool → Parse ItemNode
  parse_fn is_async = eat Token.fn >> ident >>= λ x. generics >>= λ g.
      eat Token.l_paren >> params >>= λ ps. eat Token.r_paren >> ret_type >>= λ t.
      r.block_stmts >>= λ b. item_node (ItemKind.fn_item x ps t b is_async g no_flags)

  unfoldable pub method_body : Bool → Parse StmtList
  method_body is_abstract =
      if is_abstract then eat Token.semicolon >> pure StmtList.snil else r.block_stmts

  unfoldable pub class_method : Parse Member
  class_method = accept Token.override >>= λ ov. accept Token.final >>= λ fi.
      accept Token.open_ >>= λ op. accept Token.abstract >>= λ ab. eat Token.fn >> ident >>= λ x.
      generics >>= λ g. eat Token.l_paren >> method_params r.fuel >>= λ ps.
      eat Token.r_paren >> ret_type >>= λ t. method_body ab >>= λ b. pure (
        method_member (
          ItemKind.fn_item x ps t b false g
            (record { is_open = op; is_override = ov; is_final = fi; is_abstract_method = ab })))

  unfoldable pub init_block : Parse Member
  init_block = step >> r.block_stmts >>= λ b. pure (init_member b)

  unfoldable pub field_of_body : Parse Member
  field_of_body = param >>= λ p. pure (field_member p)

  unfoldable pub class_member : Token → Parse Member
  class_member Token.semicolon = step >> pure separator_member
  class_member Token.init = init_block
  class_member Token.override = class_method
  class_member Token.final = class_method
  class_member Token.open_ = class_method
  class_member Token.abstract = class_method
  class_member Token.fn = class_method
  class_member _ = field_of_body

  unfoldable pub uses : Parse (List Text)
  uses = when_accepted Token.use_ names >>= λ o. pure (or_no_names o)

  unfoldable pub super_call : Parse ExprList
  super_call = when_accepted Token.l_paren (call_args r) >>= λ o. pure (or_no_exprs o)

  unfoldable pub parent_of : Option Text → Parse Parent
  parent_of base = accept Token.colon >>= λ b.
      if b
      then (ident >>= λ x. super_call >>= λ es.
          uses >>= λ xs. pure (record { extends = some x; super_args = es; implements = xs }))
      else pure (no_parent base)

  -- `parse_class`
  unfoldable pub parse_class : Option Text → Bool → Bool → Bool → Parse ItemNode
  unfolding class_member
  parse_class base is_open is_abstract is_data = ident >>= λ x. generics >>= λ g.
      when_accepted Token.l_paren (params >>= λ ps. eat Token.r_paren >> pure ps) >>= λ ctor.
      parent_of base >>= λ parent. uses >>= λ more.
      eat Token.l_brace >> until_list Token.r_brace (tok >>= class_member) r.fuel >>= λ ms.
      eat Token.r_brace
      >> item_node (
          ItemKind.class_item x parent.extends parent.super_args (parent.implements ++ more)
            (field_members ms) (method_members ms) g (or_no_params ctor) (init_members ms)
            (class_flags is_open is_abstract is_data))

  unfoldable pub struct_item : Parse ItemNode
  struct_item = step >> ident >>= λ x. generics >>= λ g. eat Token.l_brace >> params >>= λ ps.
      eat Token.r_brace >> item_node (ItemKind.struct_item x ps g)

  unfoldable pub interface_method : Parse InterfaceMethod
  interface_method = eat Token.fn >> ident >>= λ x.
      eat Token.l_paren >> method_params r.fuel >>= λ ps. eat Token.r_paren >> ret_type >>= λ t.
      eat Token.semicolon >> pure (record { name = x; params = ps; ret_type = t })

  unfoldable pub interface_item : Parse ItemNode
  interface_item = step >> ident >>= λ x.
      eat Token.l_brace >> until_list Token.r_brace interface_method r.fuel >>= λ ms.
      eat Token.r_brace >> item_node (ItemKind.interface_item x ms)

  unfoldable pub union_item : Parse ItemNode
  union_item = step >> ident >>= λ x. eat Token.l_brace >> params >>= λ ps.
      eat Token.r_brace >> item_node (ItemKind.union_item x ps)

  unfoldable pub enum_variant : Parse EnumVariant
  enum_variant = ident >>= λ x.
      when_accepted Token.l_paren (params >>= λ ps. eat Token.r_paren >> pure ps) >>= λ o.
      comma_or_semicolon >> pure (record { name = x; fields = or_no_params o })

  unfoldable pub enum_item : Parse ItemNode
  enum_item = step >> ident >>= λ x.
      eat Token.l_brace >> until_list Token.r_brace enum_variant r.fuel >>= λ vs.
      eat Token.r_brace >> item_node (ItemKind.enum_item x vs)

  unfoldable pub object_method : Parse Member
  object_method = step >> ident >>= λ x. eat Token.l_paren >> method_params r.fuel >>= λ ps.
      eat Token.r_paren >> ret_type >>= λ t.
      r.block_stmts >>= λ b. pure (method_member (ItemKind.fn_item x ps t b false [] no_flags))

  unfoldable pub object_member : Token → Parse Member
  object_member Token.semicolon = step >> pure separator_member
  object_member Token.init = init_block
  object_member Token.fn = object_method
  object_member _ = field_of_body

  unfoldable pub object_item : Parse ItemNode
  unfolding object_member
  object_item = step >> ident >>= λ x.
      eat Token.l_brace >> until_list Token.r_brace (tok >>= object_member) r.fuel >>= λ ms.
      eat Token.r_brace
      >> item_node (ItemKind.object_item x (field_members ms) (method_members ms) (init_members ms))

  unfoldable pub type_item : Parse ItemNode
  type_item = step >> ident >>= λ x.
      eat Token.eq >> r.type_ >>= λ t. opt_semicolon >> item_node (ItemKind.type_alias x t)

  unfoldable pub const_item : Parse ItemNode
  const_item = step >> ident >>= λ x. eat Token.colon >> r.type_ >>= λ t.
      eat Token.eq >> r.expr 0 >>= λ e. opt_semicolon >> item_node (ItemKind.const_item x t e)

  unfoldable pub decorated_item : Text → Parse ItemNode
  decorated_item x = eat Token.r_paren >> r.item >>= λ i. pure (decorated i x)

  unfoldable pub align_item : Parse ItemNode
  align_item = eat Token.l_paren >> r.expr 0 >>= λ e.
      match_option (int_value (expr_value e)) (next_span >>= λ s. fail s)
        λ n. decorated_item (codes "align(" ++ show_i64 n ++ codes ")")

  -- After a decorator, which is passed.
  unfoldable pub decorator : Text → Parse ItemNode
  unfolding text_eq
  decorator x =
      if text_eq x (codes "use")
      then (eat Token.l_paren >> r.expr 0 >>= λ e. decorated_item (codes "use"))
      else if text_eq x (codes "align")
      then align_item
      else next_span >>= λ s. fail s

  unfoldable pub class_after : Bool → Bool → Bool → Parse ItemNode
  class_after o a d = step >> eat Token.class >> parse_class none o a d

  unfoldable pub item_of : Token → Span → Parse ItemNode
  unfolding sliced
  item_of (Token.symbol_lit x) s = or_panic (sliced 1 x) >>= λ y. step >> decorator y
  item_of Token.fn s = parse_fn false
  item_of Token.async s = step >> parse_fn true
  item_of Token.struct s = struct_item
  item_of Token.open_ s = class_after true false false
  item_of Token.abstract s = class_after false true false
  item_of Token.data_ s = class_after false false true
  item_of Token.class s = step >> parse_class none false false false
  item_of Token.interface s = interface_item
  item_of Token.union s = union_item
  item_of Token.enum s = enum_item
  item_of Token.object s = object_item
  item_of Token.type s = type_item
  item_of Token.const s = const_item
  item_of _ s = fail s

  -- `item`
  unfoldable pub parse_item : Parse ItemNode
  unfolding item_of
  parse_item = peek >>= λ t. item_of t.0 t.1
