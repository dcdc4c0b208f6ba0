-- ===== src/Syntax/Parser/Good/Items.antt =====
use yidika.Syntax.Items.{ItemKind}
use yidika.Syntax.Ast.{Param}
use yidika.Syntax.Parser.Names.{sliced}
use yidika.Diagnostics.{Span}
use yidika.Syntax.Parser.Good.Literals.{Good-call_args}
use yidika.Base.{
  ℕ, Text, Bool, Option, if◌then◌else◌, suc, List, true, some, false, [], ◌∷◌, zero, none,
}
use yidika.Syntax.Token.{Token}
use yidika.Syntax.Parser.Good.Moves.{Good-peek, Good-tok, Good-ahead, Live-step}
use yidika.Syntax.Parser.{kind, tok, ◌>>=◌, step, Parse, ◌>>◌, pure, accept}
use yidika.Syntax.Parser.Good.Guards.{guards, lives, Live-or_panic}
use yidika.Syntax.Parser.Good.{
  Good, Live, Plain, Good-stuck, Good-fail, Good-bind, Live-Good, Live-bind,
}
use yidika.Syntax.Parser.Good.Turns.{GoodParsers}
use yidika.Syntax.Parser.Loops.{Parsers, ends_params}
use yidika.Syntax.Parser.Items.{
  item_node, comma_or_semicolon, object_member, type_item, align_item, self_param, parse_item,
  field_of_body, init_block, item_of, enum_variant, uses, interface_method, decorator,
  decorated_item, super_call, parse_fn, generics, method_body, class_after, method_param, parent_of,
  param, method_params, object_method, class_member, class_method, parse_class, is_ref_self, names,
  params, ret_type, struct_item, interface_item, union_item, enum_item, object_item, const_item,
}

-- src/syntax/parser.rs: that items stay inside of the tokens.

Good-comma_or_semicolon : Good comma_or_semicolon
unfolding comma_or_semicolon
Good-comma_or_semicolon = search (guards) depth 24

Good-item_node : (k : ItemKind) → Good (item_node k)
unfolding item_node
Good-item_node k = search (guards) depth 24

module _ (r : Parsers) (g : GoodParsers r) where
  Good-names : Good (names r)
  unfolding names
  Good-names = search (guards) depth 24

  Good-generics : Good (generics r)
  unfolding generics
  Good-generics = search (guards, Good-names) depth 24

  Good-param : Good (param r)
  unfolding param
  Good-param = search (guards) depth 24

  Good-params : Good (params r)
  unfolding params
  Good-params = search (guards, Good-comma_or_semicolon, Good-param) depth 24

  Good-self_param : (by_ref : Bool) → Good (self_param r by_ref)
  unfolding self_param
  Good-self_param by_ref = search (guards) depth 24

  no_ref_self :
      (next : Option Token)
      → Good (if is_ref_self Token.eof next then step >> self_param r true else param r)
  unfolding kind
  no_ref_self none = Good-param
  no_ref_self (some t) = Good-param

  Good-method_param : Good (method_param r)
  unfolding method_param
  Good-method_param =
      Good-tok _ (λ t p e. search (lives, Good-self_param, Good-param) depth 24)
        (Good-bind _ _ Good-ahead no_ref_self)

  Good-method_params : (n : ℕ) → Good (method_params r n)
  unfolding method_params
  Good-method_params zero = Good-stuck
  Good-method_params (suc n) = turn (method_params r n) (Good-method_params n)
    where
      turn :
          (again : Parse (List Param))
          → Good again
          → Good (
              tok >>= λ t.
              if ends_params t
              then pure []
              else method_param r >>= λ a. accept Token.comma >> again >>= λ rest. pure (a ∷ rest))
      turn again h = search (lives, Good-tok, Good-method_param) depth 24

  Good-ret_type : Good (ret_type r)
  unfolding ret_type
  Good-ret_type = search (guards) depth 24

  Good-parse_fn : (is_async : Bool) → Good (parse_fn r is_async)
  unfolding parse_fn
  Good-parse_fn is_async =
      search (guards, Good-item_node, Good-generics, Good-params, Good-ret_type) depth 24

  Good-method_body : (is_abstract : Bool) → Good (method_body r is_abstract)
  unfolding method_body
  Good-method_body is_abstract = search (guards) depth 24

  Good-class_method : Good (class_method r)
  unfolding class_method
  Good-class_method =
      search (guards, Good-generics, Good-method_params, Good-ret_type, Good-method_body) depth 24

  Live-init_block : Live (init_block r)
  unfolding init_block
  Live-init_block = search (lives) depth 24

  Good-field_of_body : Good (field_of_body r)
  unfolding field_of_body
  Good-field_of_body = search (guards, Good-param) depth 24

  Live-class_member : (t : Token) → Live (class_member r t)
  unfolding class_member
  Live-class_member Token.semicolon = search lives depth 12
  Live-class_member Token.init = Live-init_block
  Live-class_member Token.override = Live-Good _ Good-class_method
  Live-class_member Token.final = Live-Good _ Good-class_method
  Live-class_member Token.open_ = Live-Good _ Good-class_method
  Live-class_member Token.abstract = Live-Good _ Good-class_method
  Live-class_member Token.fn = Live-Good _ Good-class_method
  Live-class_member _ = Live-Good _ Good-field_of_body

  Good-class_body : Good (tok >>= class_member r)
  unfolding class_member
  Good-class_body = Good-tok _ (λ t p e. Live-class_member t) Good-field_of_body

  Good-uses : Good (uses r)
  unfolding uses
  Good-uses = search (guards, Good-names) depth 24

  Good-super_call : Good (super_call r)
  unfolding super_call
  Good-super_call = search (guards, Good-call_args) depth 24

  Good-parent_of : (base : Option Text) → Good (parent_of r base)
  unfolding parent_of
  Good-parent_of base = search (guards, Good-uses, Good-super_call) depth 24

  Good-parse_class :
      (base : Option Text) (is_open : Bool) (is_abstract : Bool) (is_data : Bool)
      → Good (parse_class r base is_open is_abstract is_data)
  unfolding parse_class
  Good-parse_class base is_open is_abstract is_data =
      search
        (
          guards, Good-item_node, Good-generics, Good-params, Good-class_body, Good-uses,
          Good-parent_of,
        )
        depth 24

  Live-struct_item : Live (struct_item r)
  unfolding struct_item
  Live-struct_item = search (lives, Good-item_node, Good-generics, Good-params) depth 24

  Good-interface_method : Good (interface_method r)
  unfolding interface_method
  Good-interface_method = search (guards, Good-method_params, Good-ret_type) depth 24

  Live-interface_item : Live (interface_item r)
  unfolding interface_item
  Live-interface_item = search (lives, Good-item_node, Good-interface_method) depth 24

  Live-union_item : Live (union_item r)
  unfolding union_item
  Live-union_item = search (lives, Good-item_node, Good-params) depth 24

  Good-enum_variant : Good (enum_variant r)
  unfolding enum_variant
  Good-enum_variant = search (guards, Good-comma_or_semicolon, Good-params) depth 24

  Live-enum_item : Live (enum_item r)
  unfolding enum_item
  Live-enum_item = search (lives, Good-item_node, Good-enum_variant) depth 24

  Live-object_method : Live (object_method r)
  unfolding object_method
  Live-object_method = search (lives, Good-method_params, Good-ret_type) depth 24

  Live-object_member : (t : Token) → Live (object_member r t)
  unfolding object_member
  Live-object_member Token.semicolon = search lives depth 12
  Live-object_member Token.init = Live-init_block
  Live-object_member Token.fn = Live-object_method
  Live-object_member _ = Live-Good _ Good-field_of_body

  Good-object_body : Good (tok >>= object_member r)
  unfolding object_member
  Good-object_body = Good-tok _ (λ t p e. Live-object_member t) Good-field_of_body

  Live-object_item : Live (object_item r)
  unfolding object_item
  Live-object_item = search (lives, Good-item_node, Good-object_body) depth 24

  Live-type_item : Live (type_item r)
  unfolding type_item
  Live-type_item = search (lives, Good-item_node) depth 24

  Live-const_item : Live (const_item r)
  unfolding const_item
  Live-const_item = search (lives, Good-item_node) depth 24

  Good-decorated_item : (x : Text) → Good (decorated_item r x)
  unfolding decorated_item
  Good-decorated_item x = search (guards) depth 24

  Good-align_item : Good (align_item r)
  unfolding align_item
  Good-align_item = search (guards, Good-decorated_item) depth 24

  Good-decorator : (x : Text) → Good (decorator r x)
  unfolding decorator
  Good-decorator x = search (guards, Good-decorated_item, Good-align_item) depth 24

  Live-class_after : (o : Bool) (a : Bool) (d : Bool) → Live (class_after r o a d)
  unfolding class_after
  Live-class_after o a d = search (lives, Good-parse_class) depth 24

  Live-item_of : (t : Token) (s : Span) → Plain t → Live (item_of r t s)
  unfolding item_of Plain
  Live-item_of (Token.symbol_lit x) s p =
      Live-or_panic (sliced 1 x) _ p λ y. Live-bind _ _ Live-step λ _. Good-decorator y
  Live-item_of Token.fn s p = Live-Good _ (Good-parse_fn false)
  Live-item_of Token.async s p = Live-bind _ _ Live-step λ _. Good-parse_fn true
  Live-item_of Token.struct s p = Live-struct_item
  Live-item_of Token.open_ s p = Live-class_after _ _ _
  Live-item_of Token.abstract s p = Live-class_after _ _ _
  Live-item_of Token.data_ s p = Live-class_after _ _ _
  Live-item_of Token.class s p = Live-bind _ _ Live-step λ _. Good-parse_class _ _ _ _
  Live-item_of Token.interface s p = Live-interface_item
  Live-item_of Token.union s p = Live-union_item
  Live-item_of Token.enum s p = Live-enum_item
  Live-item_of Token.object s p = Live-object_item
  Live-item_of Token.type s p = Live-type_item
  Live-item_of Token.const s p = Live-const_item
  Live-item_of _ s p = Live-Good _ (Good-fail s)

  pub Good-parse_item : Good (parse_item r)
  unfolding parse_item item_of
  Good-parse_item = Good-peek _ (λ t s p e. Live-item_of t s p) λ s. Good-fail s
