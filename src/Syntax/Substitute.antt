-- ===== src/Syntax/Substitute.antt =====
-- src/syntax/ast.rs: `substitute_type_node`, `substitute_in_expr` and `substitute_in_stmt`, by which
-- a generic function is instantiated.
use yidika.Base.{Option, none, some, List, [], ◌∷◌}
use yidika.Syntax.Types.{TypeArgs, substitute_type}
use yidika.Syntax.Ast.{
  TypeNode, Param, ExprNode, Expr, ExprList, OptExpr, FieldList, PairList, RowList, ArmList,
  StmtNode, Stmt, StmtList, OptStmts, enode, snode, lit_hex, lit_char, lit_symbol, lit_null,
  lit_none, bin_op, un_op, call, index, block, if_, for_in, while, loop, range, match_, struct_lit,
  list_lit, set_lit, map_lit, tuple_lit, vector_lit, matrix_lit, fn_lit, closure, lit_complex,
  post_inc, post_dec, await, spawn, result_ok, result_err, try, try_catch, safe_call, elvis,
  as_const, as_, enil, econs, no_expr, an_expr, fnil, fcons, pnil, pcons, rnil, rcons, anil, acons,
  decl, expr, return, for, while_do, loop_do, if_do, assign_to, snil, scons, no_stmts, some_stmts,
}

pub substitute_type_node : TypeArgs → TypeNode → TypeNode
unfolding substitute_type
substitute_type_node σ n = record n { value = substitute_type σ n.value }

unfoldable pub substitute_opt_type : TypeArgs → Option TypeNode → Option TypeNode
unfolding substitute_type_node
substitute_opt_type σ none = none
substitute_opt_type σ (some n) = some (substitute_type_node σ n)

unfoldable pub substitute_params : TypeArgs → List Param → List Param
unfolding substitute_type_node
substitute_params σ [] = []
substitute_params σ (p ∷ ps) =
    record p { type_expr = substitute_type_node σ p.type_expr } ∷ substitute_params σ ps

unfoldable mutual
  pub substitute_in_expr : TypeArgs → ExprNode → ExprNode
  substitute_in_expr σ (enode id span v ds) = enode id span (substitute_value σ v) ds

  pub substitute_value : TypeArgs → Expr → Expr
  substitute_value σ (Expr.lit_int n) = Expr.lit_int n
  substitute_value σ (lit_hex n) = lit_hex n
  substitute_value σ (Expr.lit_real n) = Expr.lit_real n
  substitute_value σ (Expr.lit_str n) = Expr.lit_str n
  substitute_value σ (lit_char n) = lit_char n
  substitute_value σ (Expr.lit_bool n) = Expr.lit_bool n
  substitute_value σ (lit_symbol n) = lit_symbol n
  substitute_value σ lit_null = lit_null
  substitute_value σ lit_none = lit_none
  substitute_value σ (Expr.ident n) = Expr.ident n
  substitute_value σ (bin_op a x b) = bin_op (substitute_in_expr σ a) x (substitute_in_expr σ b)
  substitute_value σ (un_op x a) = un_op x (substitute_in_expr σ a)
  substitute_value σ (call a xs) = call (substitute_in_expr σ a) (substitute_list σ xs)
  substitute_value σ (index a b) = index (substitute_in_expr σ a) (substitute_in_expr σ b)
  substitute_value σ (Expr.field a x) = Expr.field (substitute_in_expr σ a) x
  substitute_value σ (block ss) = block (substitute_stmts σ ss)
  substitute_value σ (if_ a b o) =
      if_ (substitute_in_expr σ a) (substitute_in_expr σ b) (substitute_opt σ o)
  substitute_value σ (for_in x a b) = for_in x (substitute_in_expr σ a) (substitute_in_expr σ b)
  substitute_value σ (while a b) = while (substitute_in_expr σ a) (substitute_in_expr σ b)
  substitute_value σ (loop a) = loop (substitute_in_expr σ a)
  substitute_value σ (range a b) = range (substitute_in_expr σ a) (substitute_in_expr σ b)
  substitute_value σ (match_ a arms) = match_ (substitute_in_expr σ a) (substitute_arms σ arms)
  substitute_value σ (struct_lit x fs) = struct_lit x (substitute_fields σ fs)
  substitute_value σ (list_lit xs) = list_lit (substitute_list σ xs)
  substitute_value σ (set_lit xs) = set_lit (substitute_list σ xs)
  substitute_value σ (map_lit ps) = map_lit (substitute_pairs σ ps)
  substitute_value σ (tuple_lit xs) = tuple_lit (substitute_list σ xs)
  substitute_value σ (vector_lit xs) = vector_lit (substitute_list σ xs)
  substitute_value σ (matrix_lit rows) = matrix_lit (substitute_rows σ rows)
  substitute_value σ (fn_lit ps ret a) =
      fn_lit (substitute_params σ ps) (substitute_opt_type σ ret) (substitute_in_expr σ a)
  substitute_value σ (closure ps a) = closure (substitute_params σ ps) (substitute_in_expr σ a)
  substitute_value σ (lit_complex a b) =
      lit_complex (substitute_in_expr σ a) (substitute_in_expr σ b)
  substitute_value σ (post_inc a) = post_inc (substitute_in_expr σ a)
  substitute_value σ (post_dec a) = post_dec (substitute_in_expr σ a)
  substitute_value σ (await a) = await (substitute_in_expr σ a)
  substitute_value σ (spawn a) = spawn (substitute_in_expr σ a)
  substitute_value σ (result_ok a) = result_ok (substitute_in_expr σ a)
  substitute_value σ (result_err a) = result_err (substitute_in_expr σ a)
  substitute_value σ (try a) = try (substitute_in_expr σ a)
  substitute_value σ (try_catch ss x ts) =
      try_catch (substitute_stmts σ ss) x (substitute_stmts σ ts)
  substitute_value σ (Expr.variant x y xs) = Expr.variant x y (substitute_list σ xs)
  substitute_value σ (safe_call a x) = safe_call (substitute_in_expr σ a) x
  substitute_value σ (elvis a b) = elvis (substitute_in_expr σ a) (substitute_in_expr σ b)
  substitute_value σ (as_const a) = as_const (substitute_in_expr σ a)
  substitute_value σ (as_ a ty) = as_ (substitute_in_expr σ a) (substitute_type_node σ ty)

  pub substitute_list : TypeArgs → ExprList → ExprList
  substitute_list σ enil = enil
  substitute_list σ (econs a r) = econs (substitute_in_expr σ a) (substitute_list σ r)

  pub substitute_opt : TypeArgs → OptExpr → OptExpr
  substitute_opt σ no_expr = no_expr
  substitute_opt σ (an_expr a) = an_expr (substitute_in_expr σ a)

  pub substitute_fields : TypeArgs → FieldList → FieldList
  substitute_fields σ fnil = fnil
  substitute_fields σ (fcons x a r) = fcons x (substitute_in_expr σ a) (substitute_fields σ r)

  pub substitute_pairs : TypeArgs → PairList → PairList
  substitute_pairs σ pnil = pnil
  substitute_pairs σ (pcons a b r) =
      pcons (substitute_in_expr σ a) (substitute_in_expr σ b) (substitute_pairs σ r)

  pub substitute_rows : TypeArgs → RowList → RowList
  substitute_rows σ rnil = rnil
  substitute_rows σ (rcons xs r) = rcons (substitute_list σ xs) (substitute_rows σ r)

  pub substitute_arms : TypeArgs → ArmList → ArmList
  substitute_arms σ anil = anil
  substitute_arms σ (acons x o a r) =
      acons x (substitute_opt σ o) (substitute_in_expr σ a) (substitute_arms σ r)

  pub substitute_in_stmt : TypeArgs → StmtNode → StmtNode
  substitute_in_stmt σ (snode id span v ds) = snode id span (substitute_stmt σ v) ds

  pub substitute_stmt : TypeArgs → Stmt → Stmt
  substitute_stmt σ (decl x ret a y) = decl x (substitute_opt_type σ ret) (substitute_in_expr σ a) y
  substitute_stmt σ (expr a) = expr (substitute_in_expr σ a)
  substitute_stmt σ (return o) = return (substitute_opt σ o)
  substitute_stmt σ (for x a ss y) = for x (substitute_in_expr σ a) (substitute_stmts σ ss) y
  substitute_stmt σ (while_do a ss) = while_do (substitute_in_expr σ a) (substitute_stmts σ ss)
  substitute_stmt σ (loop_do ss) = loop_do (substitute_stmts σ ss)
  substitute_stmt σ (if_do a ss os) =
      if_do (substitute_in_expr σ a) (substitute_stmts σ ss) (substitute_opt_stmts σ os)
  substitute_stmt σ (assign_to x a) = assign_to x (substitute_in_expr σ a)
  substitute_stmt σ (Stmt.destruct x a) = Stmt.destruct x (substitute_in_expr σ a)

  pub substitute_stmts : TypeArgs → StmtList → StmtList
  substitute_stmts σ snil = snil
  substitute_stmts σ (scons s r) = scons (substitute_in_stmt σ s) (substitute_stmts σ r)

  pub substitute_opt_stmts : TypeArgs → OptStmts → OptStmts
  substitute_opt_stmts σ no_stmts = no_stmts
  substitute_opt_stmts σ (some_stmts ss) = some_stmts (substitute_stmts σ ss)
