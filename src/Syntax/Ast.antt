-- ===== src/Syntax/Ast.antt =====
-- src/syntax/ast.rs: expressions, statements and patterns. A `Vec`, an `Option` or a pair that holds
-- nodes is a type of the same block. An `i64` and an `f64` literal is its 64-bit pattern: no code
-- modelled here computes with it.
use yidika.Base.{ℕ, Bool, Option, List, Text}
use yidika.Diagnostics.{Span}
use yidika.Syntax.Types.{TypeExpr}

pub record TypeNode : Type 0 where
  pub id : ℕ
  pub span : Span
  pub value : TypeExpr
  pub decorators : List Text

pub data BinOp : Type 0 where
  add sub mul div mod_ pow bit_and bit_or bit_xor shl shr eq ne lt gt le ge and or assign : BinOp

pub data UnOp : Type 0 where
  neg not bit_not : UnOp

mutual
  pub data Pattern : Type 0 where
    ident rest : Text → Pattern
    destruct : PatternFields → Pattern
    list_destruct : Patterns → Pattern
    lit_int lit_real : ℕ → Pattern
    lit_str : Text → Pattern
    lit_bool : Bool → Pattern
    variant : Text → Patterns → Pattern
    ignore : Pattern

  pub data Patterns : Type 0 where
    nil : Patterns
    cons : Pattern → Patterns → Patterns

  pub data PatternFields : Type 0 where
    end : PatternFields
    field : Text → Pattern → PatternFields → PatternFields

pub record Param : Type 0 where
  pub name : Text
  pub type_expr : TypeNode
  pub is_ref : Bool

mutual
  -- `Node<Expr>`: identifier, span, value, decorators.
  pub data ExprNode : Type 0 where
    enode : ℕ → Span → Expr → List Text → ExprNode

  pub data Expr : Type 0 where
    lit_int lit_hex lit_real : ℕ → Expr
    lit_str : Text → Expr
    lit_char : ℕ → Expr
    lit_bool : Bool → Expr
    lit_symbol : Text → Expr
    lit_null lit_none : Expr
    ident : Text → Expr
    bin_op : ExprNode → BinOp → ExprNode → Expr
    un_op : UnOp → ExprNode → Expr
    call : ExprNode → ExprList → Expr
    index : ExprNode → ExprNode → Expr
    field : ExprNode → Text → Expr
    block : StmtList → Expr
    if_ : ExprNode → ExprNode → OptExpr → Expr
    for_in : Text → ExprNode → ExprNode → Expr
    while : ExprNode → ExprNode → Expr
    loop : ExprNode → Expr
    range : ExprNode → ExprNode → Expr
    match_ : ExprNode → ArmList → Expr
    struct_lit : Text → FieldList → Expr
    list_lit set_lit : ExprList → Expr
    map_lit : PairList → Expr
    tuple_lit vector_lit : ExprList → Expr
    matrix_lit : RowList → Expr
    fn_lit : List Param → Option TypeNode → ExprNode → Expr
    closure : List Param → ExprNode → Expr
    lit_complex : ExprNode → ExprNode → Expr
    post_inc post_dec await spawn result_ok result_err try : ExprNode → Expr
    try_catch : StmtList → Text → StmtList → Expr
    variant : Text → Text → ExprList → Expr
    safe_call : ExprNode → Text → Expr
    elvis : ExprNode → ExprNode → Expr
    as_const : ExprNode → Expr
    as_ : ExprNode → TypeNode → Expr

  pub data ExprList : Type 0 where
    enil : ExprList
    econs : ExprNode → ExprList → ExprList

  -- `Option<ExprNode>`
  pub data OptExpr : Type 0 where
    no_expr : OptExpr
    an_expr : ExprNode → OptExpr

  pub data FieldList : Type 0 where
    fnil : FieldList
    fcons : Text → ExprNode → FieldList → FieldList

  pub data PairList : Type 0 where
    pnil : PairList
    pcons : ExprNode → ExprNode → PairList → PairList

  pub data RowList : Type 0 where
    rnil : RowList
    rcons : ExprList → RowList → RowList

  -- `Vec<MatchArm>`: pattern, guard, body.
  pub data ArmList : Type 0 where
    anil : ArmList
    acons : Pattern → OptExpr → ExprNode → ArmList → ArmList

  pub data StmtNode : Type 0 where
    snode : ℕ → Span → Stmt → List Text → StmtNode

  pub data Stmt : Type 0 where
    decl : Text → Option TypeNode → ExprNode → Bool → Stmt
    expr : ExprNode → Stmt
    return : OptExpr → Stmt
    for : Text → ExprNode → StmtList → Bool → Stmt
    while_do : ExprNode → StmtList → Stmt
    loop_do : StmtList → Stmt
    if_do : ExprNode → StmtList → OptStmts → Stmt
    assign_to : Text → ExprNode → Stmt
    destruct : Pattern → ExprNode → Stmt

  pub data StmtList : Type 0 where
    snil : StmtList
    scons : StmtNode → StmtList → StmtList

  -- `Option<Vec<StmtNode>>`
  pub data OptStmts : Type 0 where
    no_stmts : OptStmts
    some_stmts : StmtList → OptStmts
