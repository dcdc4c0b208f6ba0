-- ===== src/Semantic/Borrowck/Instances.antt =====
-- Instantiating a generic function does not change what the borrow checker says of it.
use yidika.Base.{◌≡◌, refl, ap, ◌∙◌, List, [], ◌∷◌}
use yidika.Syntax.Ast.{
  Param, ExprNode, Expr, ExprList, OptExpr, FieldList, PairList, RowList, ArmList, StmtNode, Stmt,
  StmtList, OptStmts, enode, snode, lit_hex, lit_char, lit_symbol, lit_null, lit_none, bin_op,
  un_op, call, index, block, if_, for_in, while, loop, range, match_, struct_lit, list_lit, set_lit,
  map_lit, tuple_lit, vector_lit, matrix_lit, fn_lit, closure, lit_complex, post_inc, post_dec,
  await, spawn, result_ok, result_err, try, try_catch, safe_call, elvis, as_const, as_, enil, econs,
  no_expr, an_expr, fnil, fcons, pnil, pcons, rnil, rcons, anil, acons, decl, expr, return, for,
  while_do, loop_do, if_do, assign_to, snil, scons, no_stmts, some_stmts,
}
use yidika.Diagnostics.{Span}
use yidika.Syntax.Types.{TypeArgs}
use yidika.Syntax.Substitute.{
  substitute_params, substitute_in_expr, substitute_value, substitute_list, substitute_opt,
  substitute_fields, substitute_pairs, substitute_rows, substitute_arms, substitute_in_stmt,
  substitute_stmt, substitute_stmts, substitute_opt_stmts,
}
use yidika.Semantic.Borrowck.{BorrowChecker, check_function}
use yidika.Semantic.Borrowck.Events.{
  uses, binds, encloses, done, then_, Events, of_arg, names, of_expr, of_value, of_args, of_exprs,
  of_opt, of_fields, of_pairs, of_rows, of_arms, of_stmt, of_statement, of_stmts, of_opt_stmts,
}
use yidika.Semantic.Borrowck.Runs.{check_stmts-run, insert_params-insert_names}

names-substitute_params :
    (σ : TypeArgs) (ps : List Param) → names (substitute_params σ ps) ≡ names ps
unfolding substitute_params
names-substitute_params σ [] = refl
names-substitute_params σ (p ∷ ps) = ap (λ xs. p.name ∷ xs) (names-substitute_params σ ps)

same_arg :
    (σ : TypeArgs) (a : ExprNode) (k : Events) → of_arg (substitute_in_expr σ a) k ≡ of_arg a k
unfolding of_arg substitute_in_expr
same_arg σ (enode id span (Expr.ident x) ds) k = refl
same_arg σ _ k = refl

mutual
  unfolding of_expr substitute_in_expr

  same_expr :
      (σ : TypeArgs) (a : ExprNode) (k : Events) → of_expr (substitute_in_expr σ a) k ≡ of_expr a k
  same_expr σ (enode id span v ds) k = same_value σ v span k

  same_value :
      (σ : TypeArgs) (v : Expr) (span : Span) (k : Events)
      → of_value (substitute_value σ v) span k ≡ of_value v span k
  same_value σ (Expr.ident x) span k = refl
  same_value σ (call f xs) span k =
      same_expr σ f (of_args (substitute_list σ xs) k) ∙ ap (of_expr f) (same_args σ xs k)
  same_value σ (fn_lit ps ret body) span k =
      ap (λ xs. then_ (encloses xs (of_expr (substitute_in_expr σ body) done)) k)
        (names-substitute_params σ ps)
      ∙ ap (λ body'. then_ (encloses (names ps) body') k) (same_expr σ body done)
  same_value σ (closure ps body) span k =
      ap (λ xs. then_ (encloses xs (of_expr (substitute_in_expr σ body) done)) k)
        (names-substitute_params σ ps)
      ∙ ap (λ body'. then_ (encloses (names ps) body') k) (same_expr σ body done)
  same_value σ (try_catch tried x caught) span k = same_stmts σ caught k
  same_value σ (Expr.lit_int n) span k = refl
  same_value σ (lit_hex n) span k = refl
  same_value σ (Expr.lit_real n) span k = refl
  same_value σ (Expr.lit_str n) span k = refl
  same_value σ (lit_char n) span k = refl
  same_value σ (Expr.lit_bool n) span k = refl
  same_value σ (lit_symbol n) span k = refl
  same_value σ lit_null span k = refl
  same_value σ lit_none span k = refl
  same_value σ (bin_op a x b) span k =
      same_expr σ a (of_expr (substitute_in_expr σ b) k) ∙ ap (of_expr a) (same_expr σ b k)
  same_value σ (un_op x a) span k = same_expr σ a k
  same_value σ (index a b) span k =
      same_expr σ a (of_expr (substitute_in_expr σ b) k) ∙ ap (of_expr a) (same_expr σ b k)
  same_value σ (Expr.field a x) span k = same_expr σ a k
  same_value σ (block ss) span k = same_stmts σ ss k
  same_value σ (if_ a b o) span k =
      same_expr σ a (of_expr (substitute_in_expr σ b) (of_opt (substitute_opt σ o) k))
      ∙ ap (of_expr a)
          (same_expr σ b (of_opt (substitute_opt σ o) k) ∙ ap (of_expr b) (same_opt σ o k))
  same_value σ (for_in x a b) span k =
      same_expr σ a (of_expr (substitute_in_expr σ b) k) ∙ ap (of_expr a) (same_expr σ b k)
  same_value σ (while a b) span k =
      same_expr σ a (of_expr (substitute_in_expr σ b) k) ∙ ap (of_expr a) (same_expr σ b k)
  same_value σ (loop a) span k = same_expr σ a k
  same_value σ (range a b) span k =
      same_expr σ a (of_expr (substitute_in_expr σ b) k) ∙ ap (of_expr a) (same_expr σ b k)
  same_value σ (match_ a arms) span k =
      same_expr σ a (of_arms (substitute_arms σ arms) k) ∙ ap (of_expr a) (same_arms σ arms k)
  same_value σ (struct_lit x fs) span k = same_fields σ fs k
  same_value σ (list_lit xs) span k = same_exprs σ xs k
  same_value σ (set_lit xs) span k = same_exprs σ xs k
  same_value σ (map_lit ps) span k = same_pairs σ ps k
  same_value σ (tuple_lit xs) span k = same_exprs σ xs k
  same_value σ (vector_lit xs) span k = same_exprs σ xs k
  same_value σ (matrix_lit rows) span k = same_rows σ rows k
  same_value σ (lit_complex a b) span k =
      same_expr σ a (of_expr (substitute_in_expr σ b) k) ∙ ap (of_expr a) (same_expr σ b k)
  same_value σ (post_inc a) span k = same_expr σ a k
  same_value σ (post_dec a) span k = same_expr σ a k
  same_value σ (await a) span k = same_expr σ a k
  same_value σ (spawn a) span k = same_expr σ a k
  same_value σ (result_ok a) span k = same_expr σ a k
  same_value σ (result_err a) span k = same_expr σ a k
  same_value σ (try a) span k = same_expr σ a k
  same_value σ (Expr.variant x y xs) span k = same_exprs σ xs k
  same_value σ (safe_call a x) span k = same_expr σ a k
  same_value σ (elvis a b) span k =
      same_expr σ a (of_expr (substitute_in_expr σ b) k) ∙ ap (of_expr a) (same_expr σ b k)
  same_value σ (as_const a) span k = same_expr σ a k
  same_value σ (as_ a x) span k = same_expr σ a k

  same_args :
      (σ : TypeArgs) (xs : ExprList) (k : Events) → of_args (substitute_list σ xs) k ≡ of_args xs k
  same_args σ enil k = refl
  same_args σ (econs a r) k =
      same_expr σ a (of_arg (substitute_in_expr σ a) (of_args (substitute_list σ r) k))
      ∙ ap (of_expr a) (same_arg σ a (of_args (substitute_list σ r) k))
      ∙ ap (λ k'. of_expr a (of_arg a k')) (same_args σ r k)

  same_exprs :
      (σ : TypeArgs) (xs : ExprList) (k : Events)
      → of_exprs (substitute_list σ xs) k ≡ of_exprs xs k
  same_exprs σ enil k = refl
  same_exprs σ (econs a r) k =
      same_expr σ a (of_exprs (substitute_list σ r) k) ∙ ap (of_expr a) (same_exprs σ r k)

  same_opt : (σ : TypeArgs) (o : OptExpr) (k : Events) → of_opt (substitute_opt σ o) k ≡ of_opt o k
  same_opt σ no_expr k = refl
  same_opt σ (an_expr a) k = same_expr σ a k

  same_fields :
      (σ : TypeArgs) (xs : FieldList) (k : Events)
      → of_fields (substitute_fields σ xs) k ≡ of_fields xs k
  same_fields σ fnil k = refl
  same_fields σ (fcons x a r) k =
      same_expr σ a (of_fields (substitute_fields σ r) k) ∙ ap (of_expr a) (same_fields σ r k)

  same_pairs :
      (σ : TypeArgs) (xs : PairList) (k : Events)
      → of_pairs (substitute_pairs σ xs) k ≡ of_pairs xs k
  same_pairs σ pnil k = refl
  same_pairs σ (pcons a b r) k =
      same_expr σ a (of_expr (substitute_in_expr σ b) (of_pairs (substitute_pairs σ r) k))
      ∙ ap (of_expr a)
          (same_expr σ b (of_pairs (substitute_pairs σ r) k) ∙ ap (of_expr b) (same_pairs σ r k))

  same_rows :
      (σ : TypeArgs) (xs : RowList) (k : Events) → of_rows (substitute_rows σ xs) k ≡ of_rows xs k
  same_rows σ rnil k = refl
  same_rows σ (rcons xs r) k =
      same_exprs σ xs (of_rows (substitute_rows σ r) k) ∙ ap (of_exprs xs) (same_rows σ r k)

  same_arms :
      (σ : TypeArgs) (xs : ArmList) (k : Events) → of_arms (substitute_arms σ xs) k ≡ of_arms xs k
  same_arms σ anil k = refl
  same_arms σ (acons p o a r) k =
      same_opt σ o (of_expr (substitute_in_expr σ a) (of_arms (substitute_arms σ r) k))
      ∙ ap (of_opt o)
          (same_expr σ a (of_arms (substitute_arms σ r) k) ∙ ap (of_expr a) (same_arms σ r k))

  same_stmt :
      (σ : TypeArgs) (s : StmtNode) (k : Events) → of_stmt (substitute_in_stmt σ s) k ≡ of_stmt s k
  same_stmt σ (snode id span v ds) k = same_statement σ v span k

  same_statement :
      (σ : TypeArgs) (v : Stmt) (span : Span) (k : Events)
      → of_statement (substitute_stmt σ v) span k ≡ of_statement v span k
  same_statement σ (decl x ty a b) span k = same_expr σ a (then_ (binds x) k)
  same_statement σ (expr a) span k = same_expr σ a k
  same_statement σ (return o) span k = same_opt σ o k
  same_statement σ (for x a ss b) span k =
      same_expr σ a (of_stmts (substitute_stmts σ ss) k) ∙ ap (of_expr a) (same_stmts σ ss k)
  same_statement σ (while_do a ss) span k =
      same_expr σ a (of_stmts (substitute_stmts σ ss) k) ∙ ap (of_expr a) (same_stmts σ ss k)
  same_statement σ (loop_do ss) span k = same_stmts σ ss k
  same_statement σ (if_do a ss os) span k =
      same_expr σ a (of_stmts (substitute_stmts σ ss) (of_opt_stmts (substitute_opt_stmts σ os) k))
      ∙ ap (of_expr a) (
          same_stmts σ ss (of_opt_stmts (substitute_opt_stmts σ os) k)
          ∙ ap (of_stmts ss) (same_opt_stmts σ os k))
  same_statement σ (assign_to x a) span k = same_expr σ a (then_ (uses x span) (then_ (binds x) k))
  same_statement σ (Stmt.destruct p a) span k = same_expr σ a k

  same_stmts :
      (σ : TypeArgs) (ss : StmtList) (k : Events)
      → of_stmts (substitute_stmts σ ss) k ≡ of_stmts ss k
  same_stmts σ snil k = refl
  same_stmts σ (scons s r) k =
      same_stmt σ s (of_stmts (substitute_stmts σ r) k) ∙ ap (of_stmt s) (same_stmts σ r k)

  same_opt_stmts :
      (σ : TypeArgs) (os : OptStmts) (k : Events)
      → of_opt_stmts (substitute_opt_stmts σ os) k ≡ of_opt_stmts os k
  same_opt_stmts σ no_stmts k = refl
  same_opt_stmts σ (some_stmts ss) k = same_stmts σ ss k

-- The errors that `check_function` reports for an instance of a generic function are those that it
-- reports for the function itself, whatever the type arguments.
pub check_function-substitute_stmts :
    (σ : TypeArgs) (ps : List Param) (body : StmtList) (c : BorrowChecker)
    → (check_function (substitute_params σ ps) (substitute_stmts σ body) c).1
      ≡ (check_function ps body c).1
unfolding check_function
check_function-substitute_stmts σ ps body c = rw (
  check_stmts-run,
  check_stmts-run,
  insert_params-insert_names,
  insert_params-insert_names,
  names-substitute_params σ ps,
  same_stmts σ body done,
)
