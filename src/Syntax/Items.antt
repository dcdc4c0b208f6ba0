-- ===== src/Syntax/Items.antt =====
-- src/syntax/ast.rs: the items of a module. A class or an object holds items, its methods.
use yidika.Base.{ℕ, Bool, Option, List, Text}
use yidika.Diagnostics.{Span}
use yidika.Syntax.Ast.{TypeNode, Param, ExprNode, ExprList, StmtList}

pub record InterfaceMethod : Type 0 where
  pub name : Text
  pub params : List Param
  pub ret_type : Option TypeNode

pub record EnumVariant : Type 0 where
  pub name : Text
  pub fields : List Param

-- The four flags of a function item.
pub record FnFlags : Type 0 where
  pub is_open : Bool
  pub is_override : Bool
  pub is_final : Bool
  pub is_abstract_method : Bool

-- The three flags of a class item.
pub record ClassFlags : Type 0 where
  pub is_open : Bool
  pub is_abstract : Bool
  pub is_data : Bool

mutual
  pub data ItemKind : Type 0 where
    -- Name, parameters, return type, body, `is_async`, generics, flags.
    fn_item : Text → List Param → Option TypeNode → StmtList → Bool → List Text → FnFlags → ItemKind
    -- Name, fields, generics.
    struct_item : Text → List Param → List Text → ItemKind
    -- Name, parent, its arguments, interfaces, fields, methods, generics, constructor, `init`, flags.
    class_item :
        Text
        → Option Text
        → ExprList
        → List Text
        → List Param
        → Items
        → List Text
        → List Param
        → StmtList
        → ClassFlags
        → ItemKind
    interface_item : Text → List InterfaceMethod → ItemKind
    enum_item : Text → List EnumVariant → ItemKind
    -- Name, fields, methods, `init`.
    object_item : Text → List Param → Items → StmtList → ItemKind
    union_item : Text → List Param → ItemKind
    type_alias : Text → TypeNode → ItemKind
    const_item : Text → TypeNode → ExprNode → ItemKind

  -- `Vec<ItemKind>`
  pub data Items : Type 0 where
    no_items : Items
    an_item : ItemKind → Items → Items

pub record ItemNode : Type 0 where
  pub id : ℕ
  pub span : Span
  pub value : ItemKind
  pub decorators : List Text

-- `Import`
pub record Import : Type 0 where
  pub span : Span
  pub names : List (Text × Option Text)
  pub is_const : List Bool
  pub source : Text
  pub lang : Option Text

pub record Module : Type 0 where
  pub name : Text
  pub span : Span
  pub imports : List Import
  pub exports : List Text
  pub items : List ItemNode
