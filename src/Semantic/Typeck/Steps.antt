-- ===== src/Semantic/Typeck/Steps.antt =====
-- What the steps of `check_expr` and `check_stmt` leave of the variables that they find.
use yidika.Semantic.Compat.{is_infer, types_compatible, wider_type}
use yidika.Semantic.Env.{StructDef, FnSig}
use yidika.Semantic.Typeck.Keeps.{
  Good, Good-pure, Good-bind, Good-if, Good-then, Good-option, Good-move_expr, Good-fail,
  Good-get_ret, Good-require, Good-set_ret, AllKept, Good-get_vars, kept_new,
}
use yidika.Syntax.Items.{EnumVariant}
use yidika.Semantic.Typeck.{
  ◌>>=◌, Complaint, Context, Check, get_vars, Scope, VarInfo, find_fn, move_expr, ◌>>◌, pure,
  assigned_const, assigned_other, used_after_move, operands_differ,
}
use yidika.Semantic.Typeck.Values.{
  known_field, operate, check_ident, field_type, cast, compare_field, check_match_exhaustive, cover,
  arithmetic, ident_type, fresh, any_arm, is_catch_all, length_type, is_assign, cover_type,
  is_arithmetic, cover_enum,
}
use yidika.Base.{Option, none, some, ◌≡◌, refl, Text, List, [], ◌∷◌, text_eq, codes, ◌||◌}
use yidika.Diagnostics.{Span}
use yidika.Syntax.Types.{TypeExpr, TypeArgs, infer, str, named, bool}
use yidika.Syntax.Ast.{TypeNode, Param, ExprNode, ArmList, BinOp}
use yidika.Semantic.Typeck.Statements.{give_back, assign, declared_type}

pub Good-check_ident : (k : Context) (span : Span) (x : Text) → Good (check_ident k span x)
unfolding check_ident
Good-check_ident k span x = Good-bind _ _ Good-get_vars λ vars. of (vars x) (find_fn k x)
  where
    of : (o : Option VarInfo) (p : Option FnSig) → Good (ident_type k span x o p)
    of (some info) p =
        Good-if info.moved _ _ (Good-fail span (used_after_move x)) (Good-pure info.type_expr)
    of none (some sig) = Good-pure _
    of none none = Good-fail _ _

pub Good-arithmetic :
    (span : Span) (op : BinOp) (lt rt : TypeExpr) → Good (arithmetic span op lt rt)
unfolding arithmetic
Good-arithmetic span op lt rt = Good-if (is_infer lt) _ _ (Good-pure rt) (
    Good-if (is_infer rt) _ _ (Good-pure lt) (
      Good-if (types_compatible lt rt || types_compatible rt lt) _ _ (Good-pure (wider_type lt rt))
        (Good-fail span (operands_differ op lt rt))))

pub Good-operate :
    (span : Span) (op : BinOp) (lt rt : TypeExpr) (r : ExprNode) (m : Check TypeExpr)
    → Good m
    → Good (operate span op lt rt r m)
unfolding operate
Good-operate span op lt rt r m gm =
    Good-if (is_assign op) _ _
      (Good-bind _ _ gm λ t. Good-then _ _ (Good-move_expr r t) (Good-pure t))
      (Good-if (is_arithmetic op) _ _ (Good-arithmetic span op lt rt) (Good-pure bool))

pub Good-cast : (span : Span) (t u : TypeExpr) → Good (cast span t u)
unfolding cast
Good-cast span t u = Good-option _ _ _ (Good-fail _ _) λ v. Good-pure v

pub Good-field_type : (f : Text) (m : Check TypeExpr) → Good m → Good (field_type f m)
unfolding field_type
Good-field_type f m gm =
    Good-if (text_eq f (codes "length")) _ _ (Good-bind _ _ gm λ t. Good-pure (length_type t)) (
      Good-if (text_eq f (codes "toString")) _ _ (Good-then _ _ gm (Good-pure str))
        (Good-pure infer))

pub Good-cover :
    (span : Span) (x : Text) (arms : ArmList) (vs : List EnumVariant) → Good (cover span x arms vs)
unfolding cover
Good-cover span x arms [] = Good-pure tt
Good-cover span x arms (v ∷ vs) = Good-then _ _ (Good-require _ _ _) (Good-cover span x arms vs)

pub Good-cover_type :
    (k : Context) (t : TypeExpr) (arms : ArmList) (span : Span) → Good (cover_type k t arms span)
Good-cover_type k bool arms span = Good-then _ _ (Good-require _ _ _) (Good-require _ _ _)
Good-cover_type k (named x) arms span = of (k.env.enums x)
  where
    of : (o : Option (List EnumVariant)) → Good (cover_enum span x arms o)
    of none = Good-pure tt
    of (some vs) = Good-cover span x arms vs
Good-cover_type k _ arms span = Good-pure tt

pub Good-check_match_exhaustive :
    (k : Context) (t : TypeExpr) (arms : ArmList) (span : Span)
    → Good (check_match_exhaustive k t arms span)
unfolding check_match_exhaustive
Good-check_match_exhaustive k t arms span =
    Good-if (any_arm is_catch_all arms) _ _ (Good-pure tt) (Good-cover_type k t arms span)

pub Good-known_field :
    (span : Span) (x : Text) (o : Option StructDef) (f : Text) → Good (known_field span x o f)
unfolding known_field
Good-known_field span x none f = Good-pure tt
Good-known_field span x (some def) f = Good-option _ _ _ (Good-fail _ _) λ p. Good-pure tt

pub Good-compare_field :
    (span : Span) (x f : Text) (σ : TypeArgs) (o : Option Param) (m : Check TypeExpr)
    → Good m
    → Good (compare_field span x f σ o m)
unfolding compare_field
Good-compare_field span x f σ none m gm = Good-pure tt
Good-compare_field span x f σ (some p) m gm = Good-bind _ _ gm λ t. Good-require _ _ _

pub Good-declared_type :
    (k : Context) (span : Span) (x : Text) (te : Option TypeNode) (a : ExprNode) (t : TypeExpr)
    (f : TypeExpr → Check (Unit {0}))
    → ((u : TypeExpr) → Good (f u))
    → Good (declared_type k span x te a t f)
unfolding declared_type
Good-declared_type k span x none a t f gf = Good-then _ _ (Good-move_expr a t) (Good-pure t)
Good-declared_type k span x (some te) a t f gf =
    Good-then _ _ (Good-then _ _ (Good-then _ _ (Good-move_expr a _) (Good-require _ _ _)) (gf _))
      (Good-pure _)

pub Good-give_back :
    (span : Span) (t : TypeExpr) (what : TypeExpr → Complaint) → Good (give_back span t what)
unfolding give_back
Good-give_back span t what = Good-bind _ _ Good-get_ret λ r. Good-option r _ _ (Good-pure tt) λ u.
    Good-if (is_infer u) _ _ (Good-set_ret t) (Good-require (types_compatible u t) span (what u))

pub Good-assign :
    (span : Span) (x : Text) (a : ExprNode) (m : Check TypeExpr)
    → Good m
    → Good (get_vars >>= λ vars. assign span x a m (vars x))
unfolding ◌>>=◌ get_vars assign
Good-assign span x a m gm = record { kept = λ s. after s (s.vars x) refl }
  where
    after : (s : Scope) (o : Option VarInfo) → s.vars x ≡ o → AllKept s.vars (assign span x a m o s)
    after s none e =
        kept_new x (m >>= λ t. move_expr a t >> pure t) fresh s
          (Good-bind _ _ gm λ t. Good-then _ _ (Good-move_expr a t) (Good-pure t)) e
    after s (some b) e =
        (Good-if b.is_const _ _ (Good-fail span (assigned_const x)) (
            Good-bind m _ gm λ t.
              Good-then _ _
                (Good-then _ _ (Good-move_expr a t)
                  (Good-require _ span (assigned_other x b.type_expr t)))
                (Good-pure t))).kept
          s
