-- ===== src/Semantic/Borrowck/Events.antt =====
-- The events of a function body in the order in which the checker meets them, and the checker as a
-- run over them.
use yidika.Base.{List, [], ◌∷◌, Text}
use yidika.Diagnostics.{Span}
use yidika.Semantic.Borrowck.{
  BorrowChecker, new, live, set_var, check_use, move_ident, extend_errors,
}
use yidika.Syntax.Ast.{
  Param, ExprNode, Expr, ExprList, OptExpr, FieldList, PairList, RowList, ArmList, StmtNode, Stmt,
  StmtList, OptStmts, enode, snode, lit_hex, lit_char, lit_symbol, lit_null, lit_none, bin_op,
  un_op, call, index, block, if_, for_in, while, loop, range, match_, struct_lit, list_lit, set_lit,
  map_lit, tuple_lit, vector_lit, matrix_lit, fn_lit, closure, lit_complex, post_inc, post_dec,
  await, spawn, result_ok, result_err, try, try_catch, safe_call, elvis, as_const, as_, enil, econs,
  no_expr, an_expr, fnil, fcons, pnil, pcons, rnil, rcons, anil, acons, decl, expr, return, for,
  while_do, loop_do, if_do, assign_to, snil, scons, no_stmts, some_stmts,
}

mutual
  -- A use, a move of an argument, a declaration or assignment, and the body of a nested function
  -- with its parameters.
  pub data Event : Type 0 where
    uses : Text → Span → Event
    moves : Text → Event
    binds : Text → Event
    encloses : List Text → Events → Event

  pub data Events : Type 0 where
    done : Events
    then_ : Event → Events → Events

-- The event of "arguments are moved", if the argument is an identifier.
unfoldable pub of_arg : ExprNode → Events → Events
of_arg (enode id span (Expr.ident x) ds) k = then_ (moves x) k
of_arg _ k = k

abbrev pub names : List Param → List Text
names [] = []
names (p ∷ ps) = p.name ∷ names ps

-- The events of a piece of syntax, in front of those that follow it.
unfoldable mutual
  unfolding of_arg

  pub of_expr : ExprNode → Events → Events
  of_expr (enode id span v ds) k = of_value v span k

  pub of_value : Expr → Span → Events → Events
  of_value (Expr.ident x) span k = then_ (uses x span) k
  of_value (call f xs) span k = of_expr f (of_args xs k)
  of_value (fn_lit ps ret body) span k = then_ (encloses (names ps) (of_expr body done)) k
  of_value (closure ps body) span k = then_ (encloses (names ps) (of_expr body done)) k
  of_value (try_catch tried x caught) span k = of_stmts caught k
  of_value (Expr.lit_int n) span k = k
  of_value (lit_hex n) span k = k
  of_value (Expr.lit_real n) span k = k
  of_value (Expr.lit_str n) span k = k
  of_value (lit_char n) span k = k
  of_value (Expr.lit_bool n) span k = k
  of_value (lit_symbol n) span k = k
  of_value lit_null span k = k
  of_value lit_none span k = k
  of_value (bin_op a x b) span k = of_expr a (of_expr b k)
  of_value (un_op x a) span k = of_expr a k
  of_value (index a b) span k = of_expr a (of_expr b k)
  of_value (Expr.field a x) span k = of_expr a k
  of_value (block ss) span k = of_stmts ss k
  of_value (if_ a b o) span k = of_expr a (of_expr b (of_opt o k))
  of_value (for_in x a b) span k = of_expr a (of_expr b k)
  of_value (while a b) span k = of_expr a (of_expr b k)
  of_value (loop a) span k = of_expr a k
  of_value (range a b) span k = of_expr a (of_expr b k)
  of_value (match_ a arms) span k = of_expr a (of_arms arms k)
  of_value (struct_lit x fs) span k = of_fields fs k
  of_value (list_lit xs) span k = of_exprs xs k
  of_value (set_lit xs) span k = of_exprs xs k
  of_value (map_lit ps) span k = of_pairs ps k
  of_value (tuple_lit xs) span k = of_exprs xs k
  of_value (vector_lit xs) span k = of_exprs xs k
  of_value (matrix_lit rows) span k = of_rows rows k
  of_value (lit_complex a b) span k = of_expr a (of_expr b k)
  of_value (post_inc a) span k = of_expr a k
  of_value (post_dec a) span k = of_expr a k
  of_value (await a) span k = of_expr a k
  of_value (spawn a) span k = of_expr a k
  of_value (result_ok a) span k = of_expr a k
  of_value (result_err a) span k = of_expr a k
  of_value (try a) span k = of_expr a k
  of_value (Expr.variant x y xs) span k = of_exprs xs k
  of_value (safe_call a x) span k = of_expr a k
  of_value (elvis a b) span k = of_expr a (of_expr b k)
  of_value (as_const a) span k = of_expr a k
  of_value (as_ a x) span k = of_expr a k

  pub of_args : ExprList → Events → Events
  of_args enil k = k
  of_args (econs a r) k = of_expr a (of_arg a (of_args r k))

  pub of_exprs : ExprList → Events → Events
  of_exprs enil k = k
  of_exprs (econs a r) k = of_expr a (of_exprs r k)

  pub of_opt : OptExpr → Events → Events
  of_opt no_expr k = k
  of_opt (an_expr a) k = of_expr a k

  pub of_fields : FieldList → Events → Events
  of_fields fnil k = k
  of_fields (fcons x a r) k = of_expr a (of_fields r k)

  pub of_pairs : PairList → Events → Events
  of_pairs pnil k = k
  of_pairs (pcons a b r) k = of_expr a (of_expr b (of_pairs r k))

  pub of_rows : RowList → Events → Events
  of_rows rnil k = k
  of_rows (rcons xs r) k = of_exprs xs (of_rows r k)

  pub of_arms : ArmList → Events → Events
  of_arms anil k = k
  of_arms (acons p o a r) k = of_opt o (of_expr a (of_arms r k))

  pub of_stmt : StmtNode → Events → Events
  of_stmt (snode id span v ds) k = of_statement v span k

  pub of_statement : Stmt → Span → Events → Events
  of_statement (decl x ty a b) span k = of_expr a (then_ (binds x) k)
  of_statement (expr a) span k = of_expr a k
  of_statement (return o) span k = of_opt o k
  of_statement (for x a ss b) span k = of_expr a (of_stmts ss k)
  of_statement (while_do a ss) span k = of_expr a (of_stmts ss k)
  of_statement (loop_do ss) span k = of_stmts ss k
  of_statement (if_do a ss os) span k = of_expr a (of_stmts ss (of_opt_stmts os k))
  of_statement (assign_to x a) span k = of_expr a (then_ (uses x span) (then_ (binds x) k))
  of_statement (Stmt.destruct p a) span k = of_expr a k

  pub of_stmts : StmtList → Events → Events
  of_stmts snil k = k
  of_stmts (scons s r) k = of_stmt s (of_stmts r k)

  pub of_opt_stmts : OptStmts → Events → Events
  of_opt_stmts no_stmts k = k
  of_opt_stmts (some_stmts ss) k = of_stmts ss k

unfoldable pub insert_names : List Text → BorrowChecker → BorrowChecker
insert_names [] c = c
insert_names (x ∷ xs) c = insert_names xs (set_var x live c)

unfoldable mutual
  unfolding insert_names

  pub step : Event → BorrowChecker → BorrowChecker
  step (uses x span) c = check_use x span c
  step (moves x) c = move_ident x c
  step (binds x) c = set_var x live c
  step (encloses xs body) c = extend_errors (run body (insert_names xs new)) c

  pub run : Events → BorrowChecker → BorrowChecker
  run done c = c
  run (then_ e r) c = run r (step e c)
