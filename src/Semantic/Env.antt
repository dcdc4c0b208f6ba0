-- ===== src/Semantic/Env.antt =====
-- src/semantic/env.rs: `Env`, what modules make known to each other.
use yidika.Base.{
  Bool, Option, none, some, List, [], ◌∷◌, ◌++◌, Text, codes, Table, no_entries, put, text_eq,
}
use yidika.Syntax.Types.{TypeExpr, int, rint, real, bool, str, symbol, complex}
use yidika.Syntax.Ast.{Param}
use yidika.Syntax.Items.{EnumVariant}

pub record FnSig : Type 0 where
  pub params : List TypeExpr
  pub ret_type : TypeExpr
  pub self_is_ref : Bool

-- The methods of an interface, in the order in which the map is iterated.
pub record InterfaceDef : Type 0 where
  pub methods : List (Text × FnSig)

pub record MethodDef : Type 0 where
  pub params : List Param
  pub ret_type : TypeExpr
  pub generics : List Text

pub record ClassDef : Type 0 where
  pub fields : List Param
  pub methods : Table MethodDef
  pub generics : List Text
  pub interfaces : List Text
  pub extends : Option Text

pub record StructDef : Type 0 where
  pub fields : List Param
  pub generics : List Text

pub record Env : Type 0 where
  pub types : Table TypeExpr
  pub fns : Table FnSig
  pub interfaces : Table InterfaceDef
  pub class_interfaces : Table (List Text)
  pub classes : Table ClassDef
  pub structs : Table StructDef
  pub enums : Table (List EnumVariant)

-- `Env::new`
unfoldable pub new_env : Env
unfolding text_eq
new_env = record {
  types = put (codes "symbol") symbol (
      put (codes "str") str (
        put (codes "bool") bool (
          put (codes "complex") (complex (real 0) (real 0)) (
            put (codes "real") (real 0)
              (put (codes "rint") (rint 0) (put (codes "int") (int 0) no_entries))))));
  fns = no_entries;
  interfaces = no_entries;
  class_interfaces = no_entries;
  classes = no_entries;
  structs = no_entries;
  enums = no_entries;
}

abbrev pub add_type : Text → TypeExpr → Env → Env
add_type name ty env = record env { types = put name ty env.types }

abbrev pub add_fn : Text → FnSig → Env → Env
add_fn name sig env = record env { fns = put name sig env.fns }

abbrev pub add_interface : Text → InterfaceDef → Env → Env
add_interface name def env = record env { interfaces = put name def env.interfaces }

abbrev pub or_empty : Option (List Text) → List Text
or_empty none = []
or_empty (some names) = names

-- `entry(cls_name).or_default().push(iface_name)`
abbrev pub add_class_interface : Text → Text → Env → Env
add_class_interface cls_name iface_name env = record env {
  class_interfaces =
      put cls_name (or_empty (env.class_interfaces cls_name) ++ (iface_name ∷ []))
        env.class_interfaces;
}

abbrev pub add_class : Text → ClassDef → Env → Env
add_class name def env = record env { classes = put name def env.classes }

abbrev pub add_struct : Text → StructDef → Env → Env
add_struct name def env = record env { structs = put name def env.structs }

abbrev pub add_enum : Text → List EnumVariant → Env → Env
add_enum name variants env = record env { enums = put name variants env.enums }
