-- ===== src/Semantic/Typeck.antt =====
-- src/semantic/typeck.rs: `TypeChecker`. What the checks of statements and expressions only read is
-- the `Context`, what they write the `Scope`. A check fails with the span and the facts of its
-- message, or gives a result and the new scope: after an error no scope is used again.
pub mod Calls
pub mod Methods
pub mod Values
pub mod Statements
pub mod Check
pub mod Keeps
pub mod Kept
pub mod Steps
pub mod Grows
pub mod Runs
pub mod Moved
pub mod Declared
pub mod Exhaustive
pub mod Accepts
pub mod Classes
pub mod Items
pub mod Modules
pub mod Implements
mod Tests
use yidika.Base.{
  ℕ, Bool, true, false, ◌||◌, Option, none, some, List, [], ◌∷◌, if◌then◌else◌, Text, text_eq,
  contains, Table, put, has_key,
}
use yidika.Diagnostics.{Span}
use yidika.Syntax.Types.{TypeExpr, named, const, infer, TypeList, nil, cons, TypeArgs}
use yidika.Syntax.Ast.{ExprNode, Expr, ExprList, BinOp, enode, enil, econs, as_const}
use yidika.Semantic.Compat.{is_copy_type}
use yidika.Semantic.Env.{Env, FnSig}

pub record VarInfo : Type 0 where
  pub type_expr : TypeExpr
  pub is_const : Bool
  pub moved : Bool

pub record Context : Type 0 where
  pub env : Env
  pub types : Table TypeExpr
  pub local_fns : Table FnSig
  pub fn_generics : Table (List Text)
  pub builtin_modules : List Text
  pub std_imported : Bool

-- The facts that the messages show.
pub data Complaint : Type 0 where
  already_declared : Text → Complaint
  declared_as : Text → TypeExpr → TypeExpr → Complaint
  returns_other : TypeExpr → TypeExpr → Complaint
  returns_nothing : TypeExpr → Complaint
  assigned_other : Text → TypeExpr → TypeExpr → Complaint
  assigned_const : Text → Complaint
  used_after_move : Text → Complaint
  variable_not_found : Text → Complaint
  operands_differ : BinOp → TypeExpr → TypeExpr → Complaint
  function_parameter : ℕ → Text → TypeExpr → TypeExpr → Complaint
  constructor_parameter : ℕ → Text → TypeExpr → TypeExpr → Complaint
  method_parameter : ℕ → Text → TypeExpr → TypeExpr → Complaint
  function_not_found : Text → Complaint
  no_method : Text → Text → Complaint
  unknown_field : Text → Text → Complaint
  cannot_cast : TypeExpr → TypeExpr → Complaint
  missing_arm : Bool → Complaint
  missing_variant : Text → Text → Complaint
  field_other : Text → Text → TypeExpr → TypeExpr → Complaint
  parent_not_found : Text → Complaint
  interface_not_found : Text → Complaint
  not_implemented : Text → Text → Text → Complaint
  parameters_differ : Text → Text → Text → Complaint
  return_differs : Text → Text → Text → Complaint

pub record YkError : Type 0 where
  pub span : Span
  pub complaint : Complaint

pub record Scope : Type 0 where
  pub vars : Table VarInfo
  pub ret_type : Option TypeExpr
  -- `error`, where a failed check is passed over.
  pub error : Option YkError

pub data Checked (A : Type 0) : Type 0 where
  checked : A → Scope → Checked A
  failed : YkError → Checked A

abbrev pub Check : Type 0 → Type 0
Check A = Scope → Checked A

unfoldable pub pure : {A : Type 0} → A → Check A
pure a s = checked a s

infixl 5 ◌>>=◌ ◌>>◌
unfoldable pub ◌>>=◌ : {A B : Type 0} → Check A → (A → Check B) → Check B
◌>>=◌ m f s = elim (m s) [ checked a t ↦ f a t | failed e ↦ failed e ]

abbrev pub ◌>>◌ : {A B : Type 0} → Check A → Check B → Check B
m >> n = m >>= λ _. n

-- `self.fail(..)`
unfoldable pub fail : {A : Type 0} → Span → Complaint → Check A
fail span what s = failed (record { span = span; complaint = what })

-- The test `if !b { return self.fail(..); }`
unfoldable pub require : Bool → Span → Complaint → Check (Unit {0})
require b span what = if b then pure tt else fail span what

unfoldable pub get_vars : Check (Table VarInfo)
get_vars s = checked s.vars s

unfoldable pub get_ret : Check (Option TypeExpr)
get_ret s = checked s.ret_type s

unfoldable pub set_ret : TypeExpr → Check (Unit {0})
set_ret t s = checked tt (record s { ret_type = some t })

unfoldable pub insert_var : Text → VarInfo → Check (Unit {0})
unfolding text_eq
insert_var x info s = checked tt (record s { vars = put x info s.vars })

-- `let saved = self.vars.clone(); ..; self.vars = saved;`
abbrev pub restore : {A : Type 0} → Table VarInfo → Checked A → Checked A
restore vars (checked a t) = checked a (record t { vars = vars })
restore vars (failed e) = failed e

unfoldable pub scoped : {A : Type 0} → Check A → Check A
scoped m s = restore s.vars (m s)

-- `match self.check_expr(obj) { Ok(t) => Some(t), Err(_) => None }`: the error of `fail` stays in the
-- field `error`. The one check that is passed over this way writes no variable before it fails.
abbrev pub keep_error : {A : Type 0} → Scope → Checked A → Checked (Option A)
keep_error s (checked a t) = checked (some a) t
keep_error s (failed e) = checked none (record s { error = some e })

unfoldable pub attempt : {A : Type 0} → Check A → Check (Option A)
attempt m s = keep_error s (m s)

abbrev pub set_moved : Option VarInfo → Option VarInfo
set_moved none = none
set_moved (some info) = some (record info { moved = true })

abbrev pub mark : Text → Table VarInfo → Table VarInfo
mark x vars y = if text_eq x y then set_moved (vars y) else vars y

abbrev pub ident_of : ExprNode → Option Text
ident_of (enode id span (Expr.ident x) ds) = some x
ident_of _ = none

abbrev pub mark_object : Option Text → Table VarInfo → Table VarInfo
mark_object none vars = vars
mark_object (some x) vars = mark x vars

unfoldable mutual
  unfolding is_copy_type text_eq

  -- `mark_moved`
  pub mark_moved : ExprNode → TypeExpr → Table VarInfo → Table VarInfo
  mark_moved (enode id span v ds) ty vars = if is_copy_type ty then vars else mark_value v ty vars

  pub mark_value : Expr → TypeExpr → Table VarInfo → Table VarInfo
  mark_value (Expr.ident x) ty vars = mark x vars
  mark_value (Expr.field a x) ty vars = mark_object (ident_of a) vars
  mark_value (Expr.variant x y xs) ty vars = mark_each xs vars
  mark_value (as_const a) ty vars = mark_moved a ty vars
  mark_value _ ty vars = vars

  pub mark_each : ExprList → Table VarInfo → Table VarInfo
  mark_each enil vars = vars
  mark_each (econs a r) vars = mark_each r (mark_moved a infer vars)

unfoldable pub move_expr : ExprNode → TypeExpr → Check (Unit {0})
unfolding mark_moved
move_expr a ty s = checked tt (record s { vars = mark_moved a ty s.vars })

abbrev pub or_type : Option TypeExpr → TypeExpr → TypeExpr
or_type none d = d
or_type (some t) d = t

-- `resolve_type`
unfoldable pub resolve_type : Context → TypeExpr → TypeExpr
resolve_type k (named x) = or_type (k.types x) (or_type (k.env.types x) (named x))
resolve_type k (const t) = resolve_type k t
resolve_type k t = t

-- `self.env.get_fn(name).or_else(|| self.local_fns.get(name))`
abbrev pub or_sig : Option FnSig → Option FnSig → Option FnSig
or_sig none o = o
or_sig (some sig) o = some sig

abbrev pub find_fn : Context → Text → Option FnSig
find_fn k x = or_sig (k.env.fns x) (k.local_fns x)

-- A map of the names to the types beside them; of two equal names the later one counts.
unfoldable pub bind_args : List Text → TypeList → TypeArgs → TypeArgs
unfolding text_eq
bind_args (g ∷ gs) (cons t ts) σ = bind_args gs ts (put g t σ)
bind_args _ ts σ = σ
