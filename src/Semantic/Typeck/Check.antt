-- ===== src/Semantic/Typeck/Check.antt =====
-- src/semantic/typeck.rs: `check_expr`, `check_stmt` and what they call by recursion.
use yidika.Semantic.Env.{StructDef}
use yidika.Semantic.Typeck.Methods.{call_value}
use yidika.Semantic.Typeck.Values.{
  check_ident, operate, fresh, cast, field_type, known_field, literal_args, find_field,
  compare_field, check_match_exhaustive, un_type, insert_params, param_types, annotated,
  struct_type,
}
use yidika.Semantic.Typeck.{
  ◌>>=◌, Context, pure, require, move_expr, get_vars, resolve_type, insert_var, scoped, Check, ◌>>◌,
  already_declared, returns_nothing, returns_other,
}
use yidika.Base.{none, some, Option, not, false, Text, has_key, codes}
use yidika.Diagnostics.{Span}
use yidika.Syntax.Types.{
  TypeExpr, TypeList, TypeArgs, infer, int, bool, str, symbol, null, none_, real, complex, tuple,
  map, list, set, vector, matrix, fn, nil, cons, named,
}
use yidika.Syntax.Ast.{
  ExprNode, Expr, ExprList, OptExpr, FieldList, PairList, RowList, ArmList, StmtNode, Stmt,
  StmtList, OptStmts, enode, snode, lit_hex, lit_char, lit_symbol, lit_null, lit_none, bin_op,
  un_op, call, block, if_, match_, struct_lit, list_lit, set_lit, map_lit, tuple_lit, vector_lit,
  matrix_lit, fn_lit, closure, lit_complex, post_inc, post_dec, spawn, result_ok, result_err,
  as_const, as_, enil, econs, no_expr, an_expr, fnil, fcons, pnil, pcons, rnil, rcons, anil, acons,
  decl, expr, return, for, while_do, loop_do, if_do, assign_to, destruct, snil, scons, no_stmts,
  some_stmts,
}
use yidika.Semantic.Typeck.Statements.{
  loop_type, declares_const, declared_type, give_back, assign, value_of,
}

unfoldable mutual
  unfolding resolve_type literal_args find_field

  pub check_expr : Context → ExprNode → Check TypeExpr
  check_expr k (enode id span v ds) = check_value k span v

  pub check_value : Context → Span → Expr → Check TypeExpr
  check_value k span (Expr.lit_int n) = pure (int 0)
  check_value k span (lit_hex n) = pure (int 0)
  check_value k span (Expr.lit_real n) = pure (real 0)
  check_value k span (Expr.lit_str x) = pure str
  check_value k span (lit_char c) = pure (int 8)
  check_value k span (Expr.lit_bool b) = pure bool
  check_value k span (lit_symbol x) = pure symbol
  check_value k span lit_null = pure null
  check_value k span lit_none = pure none_
  check_value k span (Expr.ident x) = check_ident k span x
  check_value k span (bin_op l op r) =
      check_expr k l >>= λ lt. check_expr k r >>= λ rt. operate span op lt rt r (check_expr k r)
  check_value k span (un_op op a) = check_expr k a >>= λ t. pure (un_type op t)
  check_value k span (call callee args) = check_list k args >>= λ ts.
      call_value k span (value_of callee) (check_object k callee) args ts
  check_value k span (block b) = scoped (check_stmts k b) >> pure none_
  check_value k span (if_ c a e) =
      check_expr k c >> (check_expr k a >>= λ t. check_opt k e >> pure t)
  check_value k span (result_ok a) = check_expr k a >> pure (named (codes "auto"))
  check_value k span (result_err a) = check_expr k a >> pure (named (codes "auto"))
  check_value k span (spawn a) = check_expr k a
  check_value k span (as_const a) = check_expr k a
  check_value k span (post_inc a) = check_expr k a
  check_value k span (post_dec a) = check_expr k a
  check_value k span (lit_complex r i) =
      check_expr k r >>= λ rt. check_expr k i >>= λ it. pure (complex rt it)
  check_value k span (tuple_lit items) = check_list k items >>= λ ts. pure (tuple ts)
  check_value k span (map_lit ps) = check_pairs k ps >>= λ p. pure (map p.0 p.1)
  check_value k span (Expr.variant x y items) = check_moved k items >> pure (named x)
  check_value k span (list_lit items) = check_first k infer items >>= λ t. pure (list t)
  check_value k span (set_lit items) = check_first k infer items >>= λ t. pure (set t)
  check_value k span (vector_lit items) = check_first k infer items >>= λ t. pure (vector t)
  check_value k span (matrix_lit rows) = check_rows k infer rows >>= λ t. pure (matrix t)
  check_value k span (fn_lit ps rt body) =
      scoped (insert_params k ps >> check_expr k body)
      >> pure (fn (param_types k ps) (annotated k rt))
  check_value k span (closure ps body) =
      scoped (insert_params k ps >> check_expr k body) >> pure (fn (param_types k ps) infer)
  check_value k span (struct_lit x fs) =
      check_fields k span x (k.env.structs x) fs >> pure (struct_type x (k.env.structs x))
  check_value k span (as_ a t) = check_expr k a >>= λ u. cast span u (resolve_type k t.value)
  check_value k span (match_ a arms) =
      check_expr k a >>= λ t. check_match_exhaustive k t arms span >> check_arms k arms
  check_value k span (Expr.field a f) = field_type f (check_expr k a)
  check_value k span _ = pure infer

  pub check_list : Context → ExprList → Check TypeList
  check_list k enil = pure nil
  check_list k (econs a r) = check_expr k a >>= λ t. check_list k r >>= λ ts. pure (cons t ts)

  -- The object of a callee that is a field.
  pub check_object : Context → ExprNode → Check TypeExpr
  check_object k (enode id span (Expr.field a f) ds) = check_expr k a
  check_object k _ = pure infer

  -- The type of the first element, or `t`.
  pub check_first : Context → TypeExpr → ExprList → Check TypeExpr
  check_first k t enil = pure t
  check_first k t (econs a r) = check_expr k a >>= λ u. check_list k r >> pure u

  pub check_rows : Context → TypeExpr → RowList → Check TypeExpr
  check_rows k t rnil = pure t
  check_rows k t (rcons row rows) = check_first k t row >>= λ u. check_rows k u rows

  pub check_pairs : Context → PairList → Check (TypeExpr × TypeExpr)
  check_pairs k pnil = pure (infer, infer)
  check_pairs k (pcons a b r) =
      check_expr k a >>= λ t. check_expr k b >>= λ u. check_pairs k r >> pure (t, u)

  -- The arguments of a variant, each moved once it is checked.
  pub check_moved : Context → ExprList → Check (Unit {0})
  check_moved k enil = pure tt
  check_moved k (econs a r) = check_expr k a >>= λ t. move_expr a t >> check_moved k r

  pub check_opt : Context → OptExpr → Check (Unit {0})
  check_opt k no_expr = pure tt
  check_opt k (an_expr a) = check_expr k a >> pure tt

  -- The type of the first arm.
  pub check_arms : Context → ArmList → Check TypeExpr
  check_arms k anil = pure infer
  check_arms k (acons p guard body r) =
      check_opt k guard >> (check_expr k body >>= λ t. check_arms k r >> pure t)

  pub check_fields : Context → Span → Text → Option StructDef → FieldList → Check (Unit {0})
  check_fields k span x def fnil = pure tt
  check_fields k span x def (fcons f a r) =
      check_expr k a >> known_field span x def f >> check_fields k span x def r

  -- `check_struct_fields_with_type_args`
  pub check_annotated : Context → Span → TypeExpr → ExprNode → Check (Unit {0})
  check_annotated k span u (enode id p (struct_lit x fs) ds) =
      check_against k span x (literal_args k x u) fs
  check_annotated k span u _ = pure tt

  pub check_against :
      Context → Span → Text → Option (StructDef × TypeArgs) → FieldList → Check (Unit {0})
  check_against k span x o fnil = pure tt
  check_against k span x none (fcons f a r) = pure tt
  check_against k span x (some d) (fcons f a r) =
      compare_field span x f d.1 (find_field f (StructDef.fields d.0)) (check_expr k a)
      >> check_against k span x (some d) r

  pub check_stmt : Context → StmtNode → Check TypeExpr
  check_stmt k (snode id span s ds) = check_statement k span s

  pub check_statement : Context → Span → Stmt → Check TypeExpr
  check_statement k span (decl x te a is_const) = get_vars >>= λ vars.
      require (not (has_key x vars)) span (already_declared x)
      >> ((check_expr k a >>= λ t. declared_type k span x te a t (λ u. check_annotated k span u a))
          >>= λ u.
              insert_var x
                (record { type_expr = u; is_const = declares_const te a is_const; moved = false })
              >> pure u)
  check_statement k span (expr a) = check_expr k a
  check_statement k span (return e) = check_return k span e
  check_statement k span (for x a b is_for_of) = check_expr k a >>= λ t.
      scoped (insert_var x (fresh (loop_type t is_for_of)) >> check_stmts k b) >> pure none_
  check_statement k span (while_do c b) = check_expr k c >> scoped (check_stmts k b) >> pure none_
  check_statement k span (loop_do b) = scoped (check_stmts k b) >> pure infer
  check_statement k span (if_do c a e) =
      check_expr k c >> scoped (check_stmts k a) >> scoped (check_else k e) >> pure none_
  check_statement k span (assign_to x a) =
      get_vars >>= λ vars. assign span x a (check_expr k a) (vars x)
  check_statement k span (destruct p a) = check_expr k a

  pub check_return : Context → Span → OptExpr → Check TypeExpr
  check_return k span no_expr = give_back span none_ returns_nothing >> pure none_
  check_return k span (an_expr a) =
      check_expr k a >>= λ t. move_expr a t >> give_back span t (λ u. returns_other u t) >> pure t

  pub check_else : Context → OptStmts → Check (Unit {0})
  check_else k no_stmts = pure tt
  check_else k (some_stmts b) = check_stmts k b

  pub check_stmts : Context → StmtList → Check (Unit {0})
  check_stmts k snil = pure tt
  check_stmts k (scons s r) = check_stmt k s >> check_stmts k r
