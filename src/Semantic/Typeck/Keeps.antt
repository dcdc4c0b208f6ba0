-- ===== src/Semantic/Typeck/Keeps.antt =====
-- What a check leaves of the variables that it finds, for the steps that checks are composed of.
use yidika.Base.{
  Bool, true, false, Option, none, some, ◌≡◌, refl, ◌∙◌, Text, text_eq, if◌then◌else◌, Table, put,
  arith, Bool-cases, inl, sym, inr, ap, text_eq_iff, match_option, not, has_key,
}
use yidika.Diagnostics.{Span}
use yidika.Syntax.Types.{TypeExpr, infer}
use yidika.Syntax.Ast.{ExprNode, Expr, ExprList, enode, enil, econs, as_const}
use yidika.Semantic.Typeck.{
  VarInfo, Scope, Checked, checked, failed, Check, pure, ◌>>=◌, ◌>>◌, set_ret, move_expr,
  mark_moved, get_vars, mark, fail, require, attempt, mark_object, get_ret, scoped, mark_value,
  Complaint, mark_each, restore, keep_error, insert_var,
}

-- The same variable later: its type and whether it is constant stay, and once moved it stays moved.
pub record Later (a b : VarInfo) : Type 0 where
  pub type_kept : b.type_expr ≡ a.type_expr
  pub const_kept : b.is_const ≡ a.is_const
  pub moved_kept : a.moved ≡ true → b.moved ≡ true

abbrev pub Keeps : Table VarInfo → Table VarInfo → Type 0
Keeps v w = (x : Text) (a : VarInfo) → v x ≡ some a → (b : VarInfo) × (w x ≡ some b) × Later a b

later_same : (a : VarInfo) → Later a a
later_same a = record { type_kept = refl; const_kept = refl; moved_kept = λ h. h }

later_trans : (a b c : VarInfo) → Later a b → Later b c → Later a c
later_trans a b c p q = record {
  type_kept = q.type_kept ∙ p.type_kept;
  const_kept = q.const_kept ∙ p.const_kept;
  moved_kept = λ h. q.moved_kept (p.moved_kept h);
}

pub Keeps-same : (v : Table VarInfo) → Keeps v v
Keeps-same v x a h = (a, h, later_same a)

pub Keeps-trans : (u v w : Table VarInfo) → Keeps u v → Keeps v w → Keeps u w
Keeps-trans u v w p q x a h =
    let (b, hb, lab) = p x a h in let (c, hc, lbc) = q x b hb in (c, hc, later_trans a b c lab lbc)

-- What a successful check leaves.
abbrev pub AllKept : {A : Type 0} → Table VarInfo → Checked A → Type 0
AllKept v (checked a t) = Keeps v t.vars
AllKept v (failed e) = Unit

pub record Good {A : Type 0} (m : Check A) : Type 0 where
  pub kept : (s : Scope) → AllKept s.vars (m s)

pub Good-pure : {A : Type 0} (a : A) → Good (pure a)
unfolding pure
Good-pure a = record { kept = λ s. Keeps-same s.vars }

pub Good-fail : {A : Type 0} (span : Span) (what : Complaint) → Good {A = A} (fail span what)
unfolding fail
Good-fail span what = record { kept = λ s. tt }

pub Good-require : (b : Bool) (span : Span) (what : Complaint) → Good (require b span what)
unfolding require pure fail
Good-require true span what = record { kept = λ s. Keeps-same s.vars }
Good-require false span what = record { kept = λ s. tt }

widen : {A : Type 0} (u v : Table VarInfo) (r : Checked A) → Keeps u v → AllKept v r → AllKept u r
widen u v (checked a t) p q = Keeps-trans u v t.vars p q
widen u v (failed e) p q = tt

pub Good-bind :
    {A B : Type 0} (m : Check A) (f : A → Check B)
    → Good m
    → ((a : A) → Good (f a))
    → Good (m >>= f)
unfolding ◌>>=◌
Good-bind {A = A} {B = B} m f gm gf = record { kept = λ s. after s (m s) (gm.kept s) }
  where
    after :
        (s : Scope) (r : Checked A)
        → AllKept s.vars r
        → AllKept s.vars (elim r [ checked a t ↦ f a t | failed e ↦ failed e ])
    after s (checked a t) p = widen s.vars t.vars (f a t) p ((gf a).kept t)
    after s (failed e) p = tt

pub Good-then : {A B : Type 0} (m : Check A) (n : Check B) → Good m → Good n → Good (m >> n)
Good-then m n gm gn = Good-bind m (λ a. n) gm (λ a. gn)

pub Good-get_vars : Good get_vars
unfolding get_vars
Good-get_vars = record { kept = λ s. Keeps-same s.vars }

pub Good-get_ret : Good get_ret
unfolding get_ret
Good-get_ret = record { kept = λ s. Keeps-same s.vars }

pub Good-set_ret : (t : TypeExpr) → Good (set_ret t)
unfolding set_ret
Good-set_ret t = record { kept = λ s. Keeps-same s.vars }

-- Whatever a check does inside of a block, its variables are forgotten after it.
pub Good-scoped : {A : Type 0} (m : Check A) → Good (scoped m)
unfolding scoped
Good-scoped {A = A} m = record { kept = λ s. after s (m s) }
  where
    after : (s : Scope) (r : Checked A) → AllKept s.vars (restore s.vars r)
    after s (checked a t) = Keeps-same s.vars
    after s (failed e) = tt

pub Good-attempt : {A : Type 0} (m : Check A) → Good m → Good (attempt m)
unfolding attempt
Good-attempt {A = A} m gm = record { kept = λ s. after s (m s) (gm.kept s) }
  where
    after : (s : Scope) (r : Checked A) → AllKept s.vars r → AllKept s.vars (keep_error s r)
    after s (checked a t) p = p
    after s (failed e) p = Keeps-same s.vars

pub Good-if :
    {A : Type 0} (test : Bool) (m n : Check A) → Good m → Good n → Good (if test then m else n)
Good-if true m n gm gn = gm
Good-if false m n gm gn = gn

Keeps-mark : (x : Text) (v : Table VarInfo) → Keeps v (mark x v)
Keeps-mark x v y a h = elim (Bool-cases (text_eq x y)) [
  | inl e ↦
      rw (e, h)
        (
          record a { moved = true },
          refl,
          record { type_kept = refl; const_kept = refl; moved_kept = λ p. refl },
        )
  | inr e ↦ rw (e, h) (a, refl, later_same a)
]

Keeps-mark_object : (o : Option Text) (v : Table VarInfo) → Keeps v (mark_object o v)
Keeps-mark_object none v = Keeps-same v
Keeps-mark_object (some x) v = Keeps-mark x v

Keeps-if :
    (test : Bool) (u v w : Table VarInfo) → Keeps u v → Keeps u w → Keeps u (if test then v else w)
Keeps-if true u v w p q = p
Keeps-if false u v w p q = q

mutual
  unfolding mark_moved

  Keeps-mark_moved : (a : ExprNode) (t : TypeExpr) (v : Table VarInfo) → Keeps v (mark_moved a t v)
  Keeps-mark_moved (enode id span e ds) t v =
      Keeps-if _ v _ _ (Keeps-same v) (Keeps-mark_value e t v)

  Keeps-mark_value : (e : Expr) (t : TypeExpr) (v : Table VarInfo) → Keeps v (mark_value e t v)
  Keeps-mark_value (Expr.ident x) t v = Keeps-mark x v
  Keeps-mark_value (Expr.field a x) t v = Keeps-mark_object _ v
  Keeps-mark_value (Expr.variant x y xs) t v = Keeps-mark_each xs v
  Keeps-mark_value (as_const a) t v = Keeps-mark_moved a t v
  Keeps-mark_value _ t v = Keeps-same v

  Keeps-mark_each : (xs : ExprList) (v : Table VarInfo) → Keeps v (mark_each xs v)
  Keeps-mark_each enil v = Keeps-same v
  Keeps-mark_each (econs a r) v =
      Keeps-trans v _ _ (Keeps-mark_moved a infer v) (Keeps-mark_each r _)

pub Good-move_expr : (a : ExprNode) (t : TypeExpr) → Good (move_expr a t)
unfolding move_expr
Good-move_expr a t = record { kept = λ s. Keeps-mark_moved a t s.vars }

-- A new variable hides none that the table `v` has.
pub Keeps-insert :
    (v w : Table VarInfo) (x : Text) (info : VarInfo)
    → v x ≡ none
    → Keeps v w
    → Keeps v (put x info w)
Keeps-insert v w x info h p y a hy = elim (Bool-cases (text_eq x y)) [
  | inl e ↦ absurd (none≢some (sym h ∙ (ap v ((text_eq_iff x y).0 e) ∙ hy)))
  | inr e ↦ rw e (p y a hy)
]
  where
    none≢some : {a : VarInfo} → ¬ (Option.none ≡ some a)
    none≢some e = ground arith

pub Good-option :
    {A B : Type 0} (o : Option A) (m : Check B) (f : A → Check B)
    → Good m
    → ((a : A) → Good (f a))
    → Good (match_option o m f)
unfolding match_option
Good-option none m f gm gf = gm
Good-option (some a) m f gm gf = gf a

-- A check that ends by inserting a variable which was not there.
pub kept_new :
    (x : Text) (m : Check TypeExpr) (info : TypeExpr → VarInfo) (s : Scope)
    → Good m
    → s.vars x ≡ none
    → AllKept s.vars ((m >>= λ u. insert_var x (info u) >> pure u) s)
unfolding ◌>>=◌ insert_var pure
kept_new x m info s gm h = after (m s) (gm.kept s)
  where
    after :
        (r : Checked TypeExpr)
        → AllKept s.vars r
        → AllKept s.vars (elim r [
          | checked u t ↦ checked u (record t { vars = put x (info u) t.vars })
          | failed e ↦ failed e
        ])
    after (checked u t) p = Keeps-insert s.vars t.vars x (info u) h p
    after (failed e) p = tt

pub Good-declare :
    (x : Text) (span : Span) (what : Complaint) (m : Check TypeExpr) (info : TypeExpr → VarInfo)
    → Good m
    → Good (
        get_vars >>= λ vars.
        require (not (has_key x vars)) span what >> (m >>= λ u. insert_var x (info u) >> pure u))
unfolding ◌>>=◌ get_vars require pure fail
Good-declare x span what m info gm = record {
  kept = λ s. after s (has_key x s.vars) (absent (s.vars x));
}
  where
    absent : (o : Option VarInfo) → (elim o [ none ↦ false | some v ↦ true ]) ≡ false → o ≡ none
    absent none h = refl
    absent (some v) h = absurd (ground arith)

    after :
        (s : Scope) (known : Bool)
        → (known ≡ false → s.vars x ≡ none)
        → AllKept s.vars
            ((require (not known) span what >> (m >>= λ u. insert_var x (info u) >> pure u)) s)
    after s false h = kept_new x m info s gm (h refl)
    after s true h = tt
