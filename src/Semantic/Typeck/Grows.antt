-- ===== src/Semantic/Typeck/Grows.antt =====
-- A successful check of an expression or a statement leaves every variable with its type, and what
-- was moved stays moved.
use yidika.Semantic.Env.{StructDef}
use yidika.Semantic.Typeck.Kept.{Good-call_value}
use yidika.Semantic.Typeck.Steps.{
  Good-check_ident, Good-declared_type, Good-operate, Good-give_back, Good-assign, Good-cast,
  Good-check_match_exhaustive, Good-field_type, Good-known_field, Good-compare_field,
}
use yidika.Semantic.Typeck.Keeps.{
  Good, Good-pure, Good-declare, Good-then, Good-bind, Good-move_expr, Good-scoped,
}
use yidika.Base.{Option, none, some, Text}
use yidika.Diagnostics.{Span}
use yidika.Syntax.Types.{TypeExpr, TypeArgs}
use yidika.Syntax.Ast.{
  ExprNode, Expr, ExprList, OptExpr, FieldList, PairList, RowList, ArmList, StmtNode, StmtList,
  enode, snode, lit_hex, lit_char, lit_symbol, lit_null, lit_none, bin_op, un_op, call, block, if_,
  match_, struct_lit, list_lit, set_lit, map_lit, tuple_lit, vector_lit, matrix_lit, fn_lit,
  closure, lit_complex, post_inc, post_dec, spawn, result_ok, result_err, as_const, as_, enil,
  econs, no_expr, an_expr, fnil, fcons, pnil, pcons, rnil, rcons, anil, acons, decl, expr, return,
  for, while_do, loop_do, if_do, assign_to, destruct, snil, scons,
}
use yidika.Semantic.Typeck.{Context}
use yidika.Semantic.Typeck.Check.{
  check_expr, check_value, check_list, check_object, check_first, check_rows, check_pairs,
  check_moved, check_opt, check_arms, check_fields, check_annotated, check_against, check_stmt,
  check_statement, check_return, check_stmts,
}

mutual
  unfolding check_expr

  pub Good-expr : (k : Context) (a : ExprNode) → Good (check_expr k a)
  Good-expr k (enode id span v ds) = Good-value k span v

  Good-value : (k : Context) (span : Span) (v : Expr) → Good (check_value k span v)
  Good-value k span (Expr.lit_int n) = Good-pure _
  Good-value k span (lit_hex n) = Good-pure _
  Good-value k span (Expr.lit_real n) = Good-pure _
  Good-value k span (Expr.lit_str x) = Good-pure _
  Good-value k span (lit_char c) = Good-pure _
  Good-value k span (Expr.lit_bool b) = Good-pure _
  Good-value k span (lit_symbol x) = Good-pure _
  Good-value k span lit_null = Good-pure _
  Good-value k span lit_none = Good-pure _
  Good-value k span (Expr.ident x) = Good-check_ident k span x
  Good-value k span (bin_op l op r) =
      Good-bind _ _ (Good-expr k l)
        λ lt. Good-bind _ _ (Good-expr k r) λ rt. Good-operate span op lt rt r _ (Good-expr k r)
  Good-value k span (un_op op a) = Good-bind _ _ (Good-expr k a) λ t. Good-pure _
  Good-value k span (call callee xs) =
      Good-bind _ _ (Good-list k xs) λ ts. Good-call_value k span _ _ xs ts (Good-object k callee)
  Good-value k span (block b) = Good-then _ _ (Good-scoped _) (Good-pure _)
  Good-value k span (if_ c a e) =
      Good-then _ _ (Good-expr k c)
        (Good-bind _ _ (Good-expr k a) λ t. Good-then _ _ (Good-opt k e) (Good-pure t))
  Good-value k span (result_ok a) = Good-then _ _ (Good-expr k a) (Good-pure _)
  Good-value k span (result_err a) = Good-then _ _ (Good-expr k a) (Good-pure _)
  Good-value k span (spawn a) = Good-expr k a
  Good-value k span (as_const a) = Good-expr k a
  Good-value k span (post_inc a) = Good-expr k a
  Good-value k span (post_dec a) = Good-expr k a
  Good-value k span (lit_complex r i) =
      Good-bind _ _ (Good-expr k r) λ rt. Good-bind _ _ (Good-expr k i) λ it. Good-pure _
  Good-value k span (tuple_lit xs) = Good-bind _ _ (Good-list k xs) λ ts. Good-pure _
  Good-value k span (map_lit ps) = Good-bind _ _ (Good-pairs k ps) λ p. Good-pure _
  Good-value k span (Expr.variant x y xs) = Good-then _ _ (Good-moved k xs) (Good-pure _)
  Good-value k span (list_lit xs) = Good-bind _ _ (Good-first k _ xs) λ t. Good-pure _
  Good-value k span (set_lit xs) = Good-bind _ _ (Good-first k _ xs) λ t. Good-pure _
  Good-value k span (vector_lit xs) = Good-bind _ _ (Good-first k _ xs) λ t. Good-pure _
  Good-value k span (matrix_lit rows) = Good-bind _ _ (Good-rows k _ rows) λ t. Good-pure _
  Good-value k span (fn_lit ps rt body) = Good-then _ _ (Good-scoped _) (Good-pure _)
  Good-value k span (closure ps body) = Good-then _ _ (Good-scoped _) (Good-pure _)
  Good-value k span (struct_lit x fs) = Good-then _ _ (Good-fields k span x _ fs) (Good-pure _)
  Good-value k span (as_ a t) = Good-bind _ _ (Good-expr k a) λ u. Good-cast span u _
  Good-value k span (match_ a arms) =
      Good-bind _ _ (Good-expr k a)
        λ t. Good-then _ _ (Good-check_match_exhaustive k t arms span) (Good-arms k arms)
  Good-value k span (Expr.field a f) = Good-field_type f _ (Good-expr k a)
  Good-value k span _ = Good-pure _

  Good-list : (k : Context) (xs : ExprList) → Good (check_list k xs)
  Good-list k enil = Good-pure _
  Good-list k (econs a r) =
      Good-bind _ _ (Good-expr k a) λ t. Good-bind _ _ (Good-list k r) λ ts. Good-pure _

  Good-object : (k : Context) (a : ExprNode) → Good (check_object k a)
  Good-object k (enode id span (Expr.field a f) ds) = Good-expr k a
  Good-object k _ = Good-pure _

  Good-first : (k : Context) (t : TypeExpr) (xs : ExprList) → Good (check_first k t xs)
  Good-first k t enil = Good-pure t
  Good-first k t (econs a r) =
      Good-bind _ _ (Good-expr k a) λ u. Good-then _ _ (Good-list k r) (Good-pure u)

  Good-rows : (k : Context) (t : TypeExpr) (rows : RowList) → Good (check_rows k t rows)
  Good-rows k t rnil = Good-pure t
  Good-rows k t (rcons row rows) = Good-bind _ _ (Good-first k t row) λ u. Good-rows k u rows

  Good-pairs : (k : Context) (ps : PairList) → Good (check_pairs k ps)
  Good-pairs k pnil = Good-pure _
  Good-pairs k (pcons a b r) =
      Good-bind _ _ (Good-expr k a)
        λ t. Good-bind _ _ (Good-expr k b) λ u. Good-then _ _ (Good-pairs k r) (Good-pure _)

  Good-moved : (k : Context) (xs : ExprList) → Good (check_moved k xs)
  Good-moved k enil = Good-pure _
  Good-moved k (econs a r) =
      Good-bind _ _ (Good-expr k a) λ t. Good-then _ _ (Good-move_expr a t) (Good-moved k r)

  Good-opt : (k : Context) (e : OptExpr) → Good (check_opt k e)
  Good-opt k no_expr = Good-pure _
  Good-opt k (an_expr a) = Good-then _ _ (Good-expr k a) (Good-pure _)

  Good-arms : (k : Context) (arms : ArmList) → Good (check_arms k arms)
  Good-arms k anil = Good-pure _
  Good-arms k (acons p guard body r) =
      Good-then _ _ (Good-opt k guard)
        (Good-bind _ _ (Good-expr k body) λ t. Good-then _ _ (Good-arms k r) (Good-pure t))

  Good-fields :
      (k : Context) (span : Span) (x : Text) (def : Option StructDef) (fs : FieldList)
      → Good (check_fields k span x def fs)
  Good-fields k span x def fnil = Good-pure _
  Good-fields k span x def (fcons f a r) =
      Good-then _ _ (Good-then _ _ (Good-expr k a) (Good-known_field span x def f))
        (Good-fields k span x def r)

  Good-annotated :
      (k : Context) (span : Span) (u : TypeExpr) (a : ExprNode) → Good (check_annotated k span u a)
  Good-annotated k span u (enode id p (struct_lit x fs) ds) = Good-against k span x _ fs
  Good-annotated k span u _ = Good-pure _

  Good-against :
      (k : Context) (span : Span) (x : Text) (o : Option (StructDef × TypeArgs)) (fs : FieldList)
      → Good (check_against k span x o fs)
  Good-against k span x o fnil = Good-pure _
  Good-against k span x none (fcons f a r) = Good-pure _
  Good-against k span x (some d) (fcons f a r) =
      Good-then _ _ (Good-compare_field span x f _ _ _ (Good-expr k a))
        (Good-against k span x (some d) r)

pub Good-stmt : (k : Context) (s : StmtNode) → Good (check_stmt k s)
unfolding check_stmt check_statement check_return
Good-stmt k (snode id span (decl x te a is_const) ds) = Good-declare x span _ _ _ (
    Good-bind _ _ (Good-expr k a)
      λ t. Good-declared_type k span x te a t _ λ u. Good-annotated k span u a)
Good-stmt k (snode id span (expr a) ds) = Good-expr k a
Good-stmt k (snode id span (return no_expr) ds) =
    Good-then _ _ (Good-give_back span _ _) (Good-pure _)
Good-stmt k (snode id span (return (an_expr a)) ds) =
    Good-bind _ _ (Good-expr k a) λ t.
      Good-then _ _ (Good-then _ _ (Good-move_expr a t) (Good-give_back span t _)) (Good-pure t)
Good-stmt k (snode id span (for x a b is_for_of) ds) =
    Good-bind _ _ (Good-expr k a) λ t. Good-then _ _ (Good-scoped _) (Good-pure _)
Good-stmt k (snode id span (while_do c b) ds) =
    Good-then _ _ (Good-then _ _ (Good-expr k c) (Good-scoped _)) (Good-pure _)
Good-stmt k (snode id span (loop_do b) ds) = Good-then _ _ (Good-scoped _) (Good-pure _)
Good-stmt k (snode id span (if_do c a e) ds) =
    Good-then _ _ (Good-then _ _ (Good-then _ _ (Good-expr k c) (Good-scoped _)) (Good-scoped _))
      (Good-pure _)
Good-stmt k (snode id span (assign_to x a) ds) = Good-assign span x a _ (Good-expr k a)
Good-stmt k (snode id span (destruct p a) ds) = Good-expr k a

pub Good-stmts : (k : Context) (b : StmtList) → Good (check_stmts k b)
unfolding check_stmts
Good-stmts k snil = Good-pure _
Good-stmts k (scons s r) = Good-then _ _ (Good-stmt k s) (Good-stmts k r)
