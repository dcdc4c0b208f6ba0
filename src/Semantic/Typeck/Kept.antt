-- ===== src/Semantic/Typeck/Kept.antt =====
-- What the calls, the statements and the expressions leave of the variables that they find.
use yidika.Semantic.Typeck.Keeps.{
  Good, Good-pure, Good-then, Good-if, Good-bind, Good-move_expr, Good-require, Good-get_vars,
  Good-attempt, Good-fail, Good-option,
}
use yidika.Semantic.Env.{ClassDef, FnSig}
use yidika.Semantic.Typeck.Calls.{
  call_fn, move_args, call_builtin, pass_args, compare_args, call_constructor, call_named,
}
use yidika.Semantic.Typeck.Methods.{
  object_type, call_value, call_field, call_on_type, call_in_class, call_of_class,
}
use yidika.Base.{ℕ, Option, none, some, Text, List, [], ◌∷◌, suc}
use yidika.Diagnostics.{Span}
use yidika.Syntax.Types.{TypeExpr, TypeList, nil, cons, TypeArgs}
use yidika.Syntax.Ast.{ExprNode, Expr, ExprList, enode, enil, econs, Param}
use yidika.Semantic.Typeck.{Check, Complaint, Context}

Good-move_args : (xs : ExprList) (ts : TypeList) → Good (move_args xs ts)
unfolding move_args
Good-move_args (econs a r) (cons t ts) = Good-then _ _ (Good-move_expr a t) (Good-move_args r ts)
Good-move_args enil ts = Good-pure tt
Good-move_args (econs a r) nil = Good-pure tt

Good-pass_args :
    (span : Span) (what : ℕ → TypeExpr → TypeExpr → Complaint) (i : ℕ) (ps : List TypeExpr)
    (xs : ExprList) (ts : TypeList)
    → Good (pass_args span what i ps xs ts)
unfolding pass_args
Good-pass_args span what i (p ∷ ps) (econs a r) (cons t ts) =
    Good-then _ _
      (Good-then _ _ (Good-require _ _ _) (Good-if _ _ _ (Good-pure tt) (Good-move_expr a t)))
      (Good-pass_args span what (suc i) ps r ts)
Good-pass_args span what i [] xs ts = Good-pure tt
Good-pass_args span what i (p ∷ ps) enil ts = Good-pure tt
Good-pass_args span what i (p ∷ ps) (econs a r) nil = Good-pure tt

Good-compare_args :
    (span : Span) (x : Text) (i : ℕ) (ps : List Param) (ts : TypeList)
    → Good (compare_args span x i ps ts)
unfolding compare_args
Good-compare_args span x i (p ∷ ps) (cons t ts) =
    Good-then _ _ (Good-require _ _ _) (Good-compare_args span x (suc i) ps ts)
Good-compare_args span x i [] ts = Good-pure tt
Good-compare_args span x i (p ∷ ps) nil = Good-pure tt

Good-call_fn :
    (k : Context) (span : Span) (x : Text) (sig : FnSig) (xs : ExprList) (ts : TypeList)
    → Good (call_fn k span x sig xs ts)
unfolding call_fn
Good-call_fn k span x sig xs ts =
    Good-option _ _ _ (Good-then _ _ (Good-pass_args _ _ _ _ _ _) (Good-pure _))
      λ gs. Good-then _ _ (Good-pass_args _ _ _ _ _ _) (Good-pure _)

Good-call_builtin :
    (k : Context) (x : Text) (xs : ExprList) (ts : TypeList) → Good (call_builtin k x xs ts)
unfolding call_builtin
Good-call_builtin k x xs ts =
    Good-option _ _ _ (Good-then _ _ (Good-move_args _ _) (Good-pure _)) λ t. Good-pure t

Good-call_constructor :
    (k : Context) (span : Span) (x : Text) (ts : TypeList) → Good (call_constructor k span x ts)
unfolding call_constructor
Good-call_constructor k span x ts =
    Good-option _ _ _ (Good-fail _ _)
      λ cls. Good-then _ _ (Good-compare_args _ _ _ _ _) (Good-pure _)

Good-call_named :
    (k : Context) (span : Span) (x : Text) (xs : ExprList) (ts : TypeList)
    → Good (call_named k span x xs ts)
unfolding call_named
Good-call_named k span x xs ts = Good-if _ _ _ (Good-call_builtin k x xs ts) (
    Good-option _ _ _
      (Good-bind _ _ Good-get_vars
        λ vars. Good-if _ _ _ (Good-pure _) (Good-call_constructor _ _ _ _))
      λ sig. Good-call_fn k span x sig xs ts)

Good-object_type :
    (k : Context) (a : ExprNode) (m : Check TypeExpr) → Good m → Good (object_type k a m)
unfolding object_type
Good-object_type k (enode id span (Expr.ident x) ds) m gm =
    Good-bind _ _ Good-get_vars λ vars. Good-pure _
Good-object_type k _ m gm = Good-attempt _ gm

Good-call_in_class :
    (span : Span) (x : Text) (cls : ClassDef) (σ : TypeArgs) (f : Text) (xs : ExprList)
    (ts : TypeList)
    → Good (call_in_class span x cls σ f xs ts)
unfolding call_in_class
Good-call_in_class span x cls σ f xs ts =
    Good-option _ _ _ (Good-fail _ _)
      λ method. Good-then _ _ (Good-pass_args _ _ _ _ _ _) (Good-pure _)

Good-call_of_class :
    (span : Span) (x : Text) (t : TypeExpr) (o : Option ClassDef) (f : Text) (xs : ExprList)
    (ts : TypeList)
    → Good (call_of_class span x t o f xs ts)
Good-call_of_class span x t none f xs ts = Good-pure _
Good-call_of_class span x t (some cls) f xs ts = Good-call_in_class _ _ _ _ _ _ _

Good-call_on_type :
    (k : Context) (span : Span) (o : Option TypeExpr) (f : Text) (xs : ExprList) (ts : TypeList)
    → Good (call_on_type k span o f xs ts)
unfolding call_on_type
Good-call_on_type k span none f xs ts = Good-pure _
Good-call_on_type k span (some t) f xs ts =
    Good-option _ _ _ (Good-pure _) λ x. Good-call_of_class _ _ _ _ _ _ _

Good-call_field :
    (k : Context) (span : Span) (a : ExprNode) (f : Text) (m : Check TypeExpr) (xs : ExprList)
    (ts : TypeList)
    → Good m
    → Good (call_field k span a f m xs ts)
unfolding call_field
Good-call_field k span a f m xs ts gm = Good-option _ _ _ (Good-pure _) λ x.
    Good-if _ _ _ (Good-pure _)
      (Good-bind _ _ (Good-object_type k a m gm) λ o. Good-call_on_type _ _ o _ _ _)

pub Good-call_value :
    (k : Context) (span : Span) (v : Expr) (m : Check TypeExpr) (xs : ExprList) (ts : TypeList)
    → Good m
    → Good (call_value k span v m xs ts)
unfolding call_value
Good-call_value k span (Expr.ident x) m xs ts gm = Good-call_named k span x xs ts
Good-call_value k span (Expr.field a f) m xs ts gm = Good-call_field k span a f m xs ts gm
Good-call_value k span _ m xs ts gm = Good-pure _
