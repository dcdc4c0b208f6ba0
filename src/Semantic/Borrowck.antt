-- ===== src/Semantic/Borrowck.antt =====
-- src/semantic/borrowck.rs: `BorrowChecker`. The map of variables is a function, and a method returns
-- the new checker. An error is the span and the name that the source's message shows.
pub mod Events
pub mod Runs
pub mod Sound
pub mod Instances
pub mod States
pub mod Branches
mod Tests
use yidika.Base.{
  ℕ, zero, suc, Bool, true, false, ◌||◌, Option, none, some, List, [], ◌∷◌, ◌++◌, ◌==◌,
  if◌then◌else◌, Text, text_eq,
}
use yidika.Diagnostics.{Span}
use yidika.Syntax.Ast.{
  TypeNode, Param, ExprNode, Expr, ExprList, OptExpr, FieldList, PairList, RowList, ArmList,
  StmtNode, Stmt, StmtList, OptStmts, enode, snode, lit_hex, lit_char, lit_symbol, lit_null,
  lit_none, bin_op, un_op, call, index, block, if_, for_in, while, loop, range, match_, struct_lit,
  list_lit, set_lit, map_lit, tuple_lit, vector_lit, matrix_lit, fn_lit, closure, lit_complex,
  post_inc, post_dec, await, spawn, result_ok, result_err, try, try_catch, safe_call, elvis,
  as_const, as_, enil, econs, no_expr, an_expr, fnil, fcons, pnil, pcons, rnil, rcons, anil, acons,
  decl, expr, return, for, while_do, loop_do, if_do, assign_to, snil, scons, no_stmts, some_stmts,
}

pub data VarState : Type 0 where
  live moved : VarState
  borrowed : ℕ → VarState

-- "error[Borrowck] at {start}:{end}: Use of moved value '{name}'"
pub record BorrowError : Type 0 where
  pub span : Span
  pub name : Text

abbrev pub Vars : Type 0
Vars = Text → Option VarState

pub record BorrowChecker : Type 0 where
  pub vars : Vars
  pub errors : List BorrowError

-- `HashMap::insert`
unfoldable pub insert : Text → VarState → Vars → Vars
insert x s vars y = if text_eq x y then some s else vars y

abbrev pub empty : Vars
empty y = none

abbrev pub set_var : Text → VarState → BorrowChecker → BorrowChecker
set_var x s c = record c { vars = insert x s c.vars }

-- `BorrowChecker::new`
abbrev pub new : BorrowChecker
new = record { vars = empty; errors = [] }

-- `state == VarState::Live || state == VarState::Borrowed(0)`
pub is_movable : VarState → Bool
is_movable live = true
is_movable (borrowed n) = n == 0
is_movable moved = false

pub check_use : Text → Span → BorrowChecker → BorrowChecker
check_use x span c = elim (c.vars x) [
  | none ↦ c
  | some s ↦ elim s [
    | moved ↦ record c { errors = c.errors ++ (record { span = span; name = x } ∷ []) }
    | _ ↦ c
  ]
]

-- "Arguments are moved", for an argument that is an identifier.
pub move_ident : Text → BorrowChecker → BorrowChecker
unfolding is_movable
move_ident x c = elim (c.vars x) [
  | none ↦ c
  | some s ↦ if is_movable s then set_var x moved c else c
]

pub move_arg : ExprNode → BorrowChecker → BorrowChecker
unfolding move_ident
move_arg (enode id span (Expr.ident x) ds) c = move_ident x c
move_arg _ c = c

-- `self.vars.insert(param.name.clone(), VarState::Live)` for each parameter.
pub insert_params : List Param → BorrowChecker → BorrowChecker
insert_params [] c = c
insert_params (p ∷ ps) c = insert_params ps (set_var p.name live c)

-- `self.errors.extend(nested.errors)`
abbrev pub extend_errors : BorrowChecker → BorrowChecker → BorrowChecker
extend_errors nested c = record c { errors = c.errors ++ nested.errors }

unfoldable mutual
  unfolding check_use move_arg insert_params

  pub check_expr : ExprNode → BorrowChecker → BorrowChecker
  check_expr (enode id span v ds) c = check_value v span c

  pub check_value : Expr → Span → BorrowChecker → BorrowChecker
  check_value (Expr.ident x) span c = check_use x span c
  check_value (call f xs) span c = check_args xs (check_expr f c)
  check_value (fn_lit ps ret body) span c = extend_errors (check_expr body (insert_params ps new)) c
  check_value (closure ps body) span c = extend_errors (check_expr body (insert_params ps new)) c
  check_value (try_catch tried x caught) span c = check_stmts caught c
  check_value (Expr.lit_int n) span c = c
  check_value (lit_hex n) span c = c
  check_value (Expr.lit_real n) span c = c
  check_value (Expr.lit_str n) span c = c
  check_value (lit_char n) span c = c
  check_value (Expr.lit_bool n) span c = c
  check_value (lit_symbol n) span c = c
  check_value lit_null span c = c
  check_value lit_none span c = c
  check_value (bin_op a x b) span c = check_expr b (check_expr a c)
  check_value (un_op x a) span c = check_expr a c
  check_value (index a b) span c = check_expr b (check_expr a c)
  check_value (Expr.field a x) span c = check_expr a c
  check_value (block ss) span c = check_stmts ss c
  check_value (if_ a b o) span c = check_opt o (check_expr b (check_expr a c))
  check_value (for_in x a b) span c = check_expr b (check_expr a c)
  check_value (while a b) span c = check_expr b (check_expr a c)
  check_value (loop a) span c = check_expr a c
  check_value (range a b) span c = check_expr b (check_expr a c)
  check_value (match_ a arms) span c = check_arms arms (check_expr a c)
  check_value (struct_lit x fs) span c = check_fields fs c
  check_value (list_lit xs) span c = check_exprs xs c
  check_value (set_lit xs) span c = check_exprs xs c
  check_value (map_lit ps) span c = check_pairs ps c
  check_value (tuple_lit xs) span c = check_exprs xs c
  check_value (vector_lit xs) span c = check_exprs xs c
  check_value (matrix_lit rows) span c = check_rows rows c
  check_value (lit_complex a b) span c = check_expr b (check_expr a c)
  check_value (post_inc a) span c = check_expr a c
  check_value (post_dec a) span c = check_expr a c
  check_value (await a) span c = check_expr a c
  check_value (spawn a) span c = check_expr a c
  check_value (result_ok a) span c = check_expr a c
  check_value (result_err a) span c = check_expr a c
  check_value (try a) span c = check_expr a c
  check_value (Expr.variant x y xs) span c = check_exprs xs c
  check_value (safe_call a x) span c = check_expr a c
  check_value (elvis a b) span c = check_expr b (check_expr a c)
  check_value (as_const a) span c = check_expr a c
  check_value (as_ a x) span c = check_expr a c

  -- The loop over the arguments of a call.
  pub check_args : ExprList → BorrowChecker → BorrowChecker
  check_args enil c = c
  check_args (econs a r) c = check_args r (move_arg a (check_expr a c))

  pub check_exprs : ExprList → BorrowChecker → BorrowChecker
  check_exprs enil c = c
  check_exprs (econs a r) c = check_exprs r (check_expr a c)

  pub check_opt : OptExpr → BorrowChecker → BorrowChecker
  check_opt no_expr c = c
  check_opt (an_expr a) c = check_expr a c

  pub check_fields : FieldList → BorrowChecker → BorrowChecker
  check_fields fnil c = c
  check_fields (fcons x a r) c = check_fields r (check_expr a c)

  pub check_pairs : PairList → BorrowChecker → BorrowChecker
  check_pairs pnil c = c
  check_pairs (pcons a b r) c = check_pairs r (check_expr b (check_expr a c))

  pub check_rows : RowList → BorrowChecker → BorrowChecker
  check_rows rnil c = c
  check_rows (rcons xs r) c = check_rows r (check_exprs xs c)

  pub check_arms : ArmList → BorrowChecker → BorrowChecker
  check_arms anil c = c
  check_arms (acons p o a r) c = check_arms r (check_expr a (check_opt o c))

  pub check_stmt : StmtNode → BorrowChecker → BorrowChecker
  check_stmt (snode id span v ds) c = check_statement v span c

  pub check_statement : Stmt → Span → BorrowChecker → BorrowChecker
  check_statement (decl x ty a b) span c = set_var x live (check_expr a c)
  check_statement (expr a) span c = check_expr a c
  check_statement (return o) span c = check_opt o c
  check_statement (for x a ss b) span c = check_stmts ss (check_expr a c)
  check_statement (while_do a ss) span c = check_stmts ss (check_expr a c)
  check_statement (loop_do ss) span c = check_stmts ss c
  check_statement (if_do a ss os) span c = check_opt_stmts os (check_stmts ss (check_expr a c))
  check_statement (assign_to x a) span c = set_var x live (check_use x span (check_expr a c))
  check_statement (Stmt.destruct p a) span c = check_expr a c

  pub check_stmts : StmtList → BorrowChecker → BorrowChecker
  check_stmts snil c = c
  check_stmts (scons s r) c = check_stmts r (check_stmt s c)

  pub check_opt_stmts : OptStmts → BorrowChecker → BorrowChecker
  check_opt_stmts no_stmts c = c
  check_opt_stmts (some_stmts ss) c = check_stmts ss c

-- `BorrowChecker::check_function`: the variables and the errors of the last call are cleared, and
-- `mem::take` moves the errors of this one out.
pub check_function : List Param → StmtList → BorrowChecker → BorrowChecker × List BorrowError
unfolding check_expr
check_function ps body c =
    let checked = check_stmts body (insert_params ps (record c { vars = empty; errors = [] })) in
    (record checked { errors = [] }, checked.errors)
