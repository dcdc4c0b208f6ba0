-- ===== src/Semantic/Borrowck/Runs.antt =====
-- The checker does what the run over the events does.
use yidika.Base.{List, [], ◌∷◌, ◌≡◌, refl, ◌∙◌, ap, sym}
use yidika.Diagnostics.{Span}
use yidika.Semantic.Borrowck.{
  BorrowChecker, new, live, set_var, move_arg, insert_params, extend_errors, check_expr,
  check_value, check_args, check_exprs, check_opt, check_fields, check_pairs, check_rows,
  check_arms, check_stmt, check_statement, check_stmts, check_opt_stmts,
}
use yidika.Syntax.Ast.{
  Param, ExprNode, Expr, ExprList, OptExpr, FieldList, PairList, RowList, ArmList, StmtNode, Stmt,
  StmtList, OptStmts, enode, snode, lit_hex, lit_char, lit_symbol, lit_null, lit_none, bin_op,
  un_op, call, index, block, if_, for_in, while, loop, range, match_, struct_lit, list_lit, set_lit,
  map_lit, tuple_lit, vector_lit, matrix_lit, fn_lit, closure, lit_complex, post_inc, post_dec,
  await, spawn, result_ok, result_err, try, try_catch, safe_call, elvis, as_const, as_, enil, econs,
  no_expr, an_expr, fnil, fcons, pnil, pcons, rnil, rcons, anil, acons, decl, expr, return, for,
  while_do, loop_do, if_do, assign_to, snil, scons, no_stmts, some_stmts,
}
use yidika.Semantic.Borrowck.Events.{
  uses, binds, done, then_, Events, of_arg, names, of_expr, of_value, of_args, of_exprs, of_opt,
  of_fields, of_pairs, of_rows, of_arms, of_stmt, of_statement, of_stmts, of_opt_stmts,
  insert_names, run,
}

insert_params-names :
    (ps : List Param) (c : BorrowChecker) → insert_params ps c ≡ insert_names (names ps) c
unfolding insert_params insert_names
insert_params-names [] c = refl
insert_params-names (p ∷ ps) c = insert_params-names ps (set_var p.name live c)

run-of_arg :
    (a : ExprNode) (k : Events) (c : BorrowChecker) → run (of_arg a k) c ≡ run k (move_arg a c)
unfolding run of_arg move_arg
run-of_arg (enode id span (Expr.ident x) ds) k c = refl
run-of_arg _ k c = refl

nested_run :
    (ps : List Param) (body : ExprNode) (c : BorrowChecker)
    → run (of_expr body done) (insert_params ps new) ≡ check_expr body (insert_params ps new)
    → extend_errors (run (of_expr body done) (insert_names (names ps) new)) c
      ≡ extend_errors (check_expr body (insert_params ps new)) c
nested_run ps body c h = rw (← insert_params-names ps new) (ap (λ n. extend_errors n c) h)

mutual
  unfolding of_expr check_expr run

  run-of_expr :
      (a : ExprNode) (k : Events) (c : BorrowChecker) → run (of_expr a k) c ≡ run k (check_expr a c)
  run-of_expr (enode id span v ds) k c = run-of_value v span k c

  run-of_value :
      (v : Expr) (span : Span) (k : Events) (c : BorrowChecker)
      → run (of_value v span k) c ≡ run k (check_value v span c)
  run-of_value (Expr.ident x) span k c = refl
  run-of_value (call f xs) span k c =
      run-of_expr f (of_args xs k) c ∙ run-of_args xs k (check_expr f c)
  run-of_value (fn_lit ps ret body) span k c =
      ap (run k) (nested_run ps body c (run-of_expr body done (insert_params ps new)))
  run-of_value (closure ps body) span k c =
      ap (run k) (nested_run ps body c (run-of_expr body done (insert_params ps new)))
  run-of_value (try_catch tried x caught) span k c = run-of_stmts caught k c
  run-of_value (Expr.lit_int n) span k c = refl
  run-of_value (lit_hex n) span k c = refl
  run-of_value (Expr.lit_real n) span k c = refl
  run-of_value (Expr.lit_str n) span k c = refl
  run-of_value (lit_char n) span k c = refl
  run-of_value (Expr.lit_bool n) span k c = refl
  run-of_value (lit_symbol n) span k c = refl
  run-of_value lit_null span k c = refl
  run-of_value lit_none span k c = refl
  run-of_value (bin_op a x b) span k c =
      run-of_expr a (of_expr b k) c ∙ run-of_expr b k (check_expr a c)
  run-of_value (un_op x a) span k c = run-of_expr a k c
  run-of_value (index a b) span k c =
      run-of_expr a (of_expr b k) c ∙ run-of_expr b k (check_expr a c)
  run-of_value (Expr.field a x) span k c = run-of_expr a k c
  run-of_value (block ss) span k c = run-of_stmts ss k c
  run-of_value (if_ a b o) span k c =
      run-of_expr a (of_expr b (of_opt o k)) c
      ∙ run-of_expr b (of_opt o k) (check_expr a c)
      ∙ run-of_opt o k (check_expr b (check_expr a c))
  run-of_value (for_in x a b) span k c =
      run-of_expr a (of_expr b k) c ∙ run-of_expr b k (check_expr a c)
  run-of_value (while a b) span k c =
      run-of_expr a (of_expr b k) c ∙ run-of_expr b k (check_expr a c)
  run-of_value (loop a) span k c = run-of_expr a k c
  run-of_value (range a b) span k c =
      run-of_expr a (of_expr b k) c ∙ run-of_expr b k (check_expr a c)
  run-of_value (match_ a arms) span k c =
      run-of_expr a (of_arms arms k) c ∙ run-of_arms arms k (check_expr a c)
  run-of_value (struct_lit x fs) span k c = run-of_fields fs k c
  run-of_value (list_lit xs) span k c = run-of_exprs xs k c
  run-of_value (set_lit xs) span k c = run-of_exprs xs k c
  run-of_value (map_lit ps) span k c = run-of_pairs ps k c
  run-of_value (tuple_lit xs) span k c = run-of_exprs xs k c
  run-of_value (vector_lit xs) span k c = run-of_exprs xs k c
  run-of_value (matrix_lit rows) span k c = run-of_rows rows k c
  run-of_value (lit_complex a b) span k c =
      run-of_expr a (of_expr b k) c ∙ run-of_expr b k (check_expr a c)
  run-of_value (post_inc a) span k c = run-of_expr a k c
  run-of_value (post_dec a) span k c = run-of_expr a k c
  run-of_value (await a) span k c = run-of_expr a k c
  run-of_value (spawn a) span k c = run-of_expr a k c
  run-of_value (result_ok a) span k c = run-of_expr a k c
  run-of_value (result_err a) span k c = run-of_expr a k c
  run-of_value (try a) span k c = run-of_expr a k c
  run-of_value (Expr.variant x y xs) span k c = run-of_exprs xs k c
  run-of_value (safe_call a x) span k c = run-of_expr a k c
  run-of_value (elvis a b) span k c =
      run-of_expr a (of_expr b k) c ∙ run-of_expr b k (check_expr a c)
  run-of_value (as_const a) span k c = run-of_expr a k c
  run-of_value (as_ a x) span k c = run-of_expr a k c

  run-of_args :
      (xs : ExprList) (k : Events) (c : BorrowChecker)
      → run (of_args xs k) c ≡ run k (check_args xs c)
  run-of_args enil k c = refl
  run-of_args (econs a r) k c =
      run-of_expr a (of_arg a (of_args r k)) c
      ∙ run-of_arg a (of_args r k) (check_expr a c)
      ∙ run-of_args r k (move_arg a (check_expr a c))

  run-of_exprs :
      (xs : ExprList) (k : Events) (c : BorrowChecker)
      → run (of_exprs xs k) c ≡ run k (check_exprs xs c)
  run-of_exprs enil k c = refl
  run-of_exprs (econs a r) k c = run-of_expr a (of_exprs r k) c ∙ run-of_exprs r k (check_expr a c)

  run-of_opt :
      (o : OptExpr) (k : Events) (c : BorrowChecker) → run (of_opt o k) c ≡ run k (check_opt o c)
  run-of_opt no_expr k c = refl
  run-of_opt (an_expr a) k c = run-of_expr a k c

  run-of_fields :
      (xs : FieldList) (k : Events) (c : BorrowChecker)
      → run (of_fields xs k) c ≡ run k (check_fields xs c)
  run-of_fields fnil k c = refl
  run-of_fields (fcons x a r) k c =
      run-of_expr a (of_fields r k) c ∙ run-of_fields r k (check_expr a c)

  run-of_pairs :
      (xs : PairList) (k : Events) (c : BorrowChecker)
      → run (of_pairs xs k) c ≡ run k (check_pairs xs c)
  run-of_pairs pnil k c = refl
  run-of_pairs (pcons a b r) k c =
      run-of_expr a (of_expr b (of_pairs r k)) c
      ∙ run-of_expr b (of_pairs r k) (check_expr a c)
      ∙ run-of_pairs r k (check_expr b (check_expr a c))

  run-of_rows :
      (xs : RowList) (k : Events) (c : BorrowChecker)
      → run (of_rows xs k) c ≡ run k (check_rows xs c)
  run-of_rows rnil k c = refl
  run-of_rows (rcons xs r) k c =
      run-of_exprs xs (of_rows r k) c ∙ run-of_rows r k (check_exprs xs c)

  run-of_arms :
      (xs : ArmList) (k : Events) (c : BorrowChecker)
      → run (of_arms xs k) c ≡ run k (check_arms xs c)
  run-of_arms anil k c = refl
  run-of_arms (acons p o a r) k c =
      run-of_opt o (of_expr a (of_arms r k)) c
      ∙ run-of_expr a (of_arms r k) (check_opt o c)
      ∙ run-of_arms r k (check_expr a (check_opt o c))

  run-of_stmt :
      (s : StmtNode) (k : Events) (c : BorrowChecker) → run (of_stmt s k) c ≡ run k (check_stmt s c)
  run-of_stmt (snode id span v ds) k c = run-of_statement v span k c

  run-of_statement :
      (v : Stmt) (span : Span) (k : Events) (c : BorrowChecker)
      → run (of_statement v span k) c ≡ run k (check_statement v span c)
  run-of_statement (decl x ty a b) span k c = run-of_expr a (then_ (binds x) k) c
  run-of_statement (expr a) span k c = run-of_expr a k c
  run-of_statement (return o) span k c = run-of_opt o k c
  run-of_statement (for x a ss b) span k c =
      run-of_expr a (of_stmts ss k) c ∙ run-of_stmts ss k (check_expr a c)
  run-of_statement (while_do a ss) span k c =
      run-of_expr a (of_stmts ss k) c ∙ run-of_stmts ss k (check_expr a c)
  run-of_statement (loop_do ss) span k c = run-of_stmts ss k c
  run-of_statement (if_do a ss os) span k c =
      run-of_expr a (of_stmts ss (of_opt_stmts os k)) c
      ∙ run-of_stmts ss (of_opt_stmts os k) (check_expr a c)
      ∙ run-of_opt_stmts os k (check_stmts ss (check_expr a c))
  run-of_statement (assign_to x a) span k c =
      run-of_expr a (then_ (uses x span) (then_ (binds x) k)) c
  run-of_statement (Stmt.destruct p a) span k c = run-of_expr a k c

  run-of_stmts :
      (ss : StmtList) (k : Events) (c : BorrowChecker)
      → run (of_stmts ss k) c ≡ run k (check_stmts ss c)
  run-of_stmts snil k c = refl
  run-of_stmts (scons s r) k c = run-of_stmt s (of_stmts r k) c ∙ run-of_stmts r k (check_stmt s c)

  run-of_opt_stmts :
      (os : OptStmts) (k : Events) (c : BorrowChecker)
      → run (of_opt_stmts os k) c ≡ run k (check_opt_stmts os c)
  run-of_opt_stmts no_stmts k c = refl
  run-of_opt_stmts (some_stmts ss) k c = run-of_stmts ss k c

-- Checking a body is running its events.
pub check_stmts-run :
    (body : StmtList) (c : BorrowChecker) → check_stmts body c ≡ run (of_stmts body done) c
unfolding run
check_stmts-run body c = sym (run-of_stmts body done c)

pub insert_params-insert_names :
    (ps : List Param) (c : BorrowChecker) → insert_params ps c ≡ insert_names (names ps) c
insert_params-insert_names = insert_params-names
