-- ===== src/Semantic/Typeck/Tests.antt =====
-- The type checker on small bodies.
use yidika.Semantic.Typeck.Implements.{GoesOn, ImplementsAll, check_class-ImplementsAll}
use yidika.Semantic.Typeck.Classes.{unmet, add_methods, check_class}
use native.Mathlib.Decide.{ℕ_discrete}
use yidika.Semantic.Typeck.Accepts.{Accepts, call_fn-Accepts, both_more, both_empty}
use yidika.Semantic.Typeck.Exhaustive.{
  EachNamed, check_expr-variable_not_found, check_match_exhaustive-EachNamed,
}
use yidika.Semantic.Typeck.Calls.{call_fn}
use yidika.Semantic.Typeck.Declared.{check_expr-check_stmt}
use yidika.Semantic.Compat.{types_compatible}
use yidika.Semantic.Typeck.Moved.{
  check_stmt-Guarded, by_if, check_stmts-Keeps, check_expr-check_stmts,
}
use yidika.Semantic.Typeck.Values.{check_match_exhaustive, check_ident}
use yidika.Semantic.Env.{FnSig, new_env, InterfaceDef}
use yidika.Semantic.Typeck.Keeps.{Keeps}
use yidika.Semantic.Typeck.{
  Scope, VarInfo, Context, ◌>>=◌, pure, failed, mark, checked, require, used_after_move,
  variable_not_found, get_vars, insert_var, move_expr, mark_moved, scoped,
}
use yidika.Syntax.Items.{EnumVariant, ItemKind, fn_item, an_item, no_items}
use yidika.Semantic.Typeck.Check.{check_stmts, check_stmt, check_expr}
use yidika.Semantic.Typeck.Statements.{assign, declared_type}
use yidika.Syntax.Ast.{
  Pattern, Patterns, enode, snode, econs, enil, acons, anil, StmtNode, ArmList, ExprList, Stmt,
  Expr, ExprNode, StmtList, no_expr, decl, match_, scons, if_do, assign_to, snil, no_stmts,
}
use yidika.Base.{
  ◌≡◌, refl, ◌↔◌, Bool, true, false, none, [], ◌∷◌, Text, codes, text_eq, put, no_entries, Table,
  some, ◌||◌,
}
use yidika.Diagnostics.{Span}
use yidika.Syntax.Types.{TypeExpr, int, real, named, list, none_, nil, cons}

abbrev at : Span
at = record { start = 0; end = 1 }

abbrev x : Text
x = codes "x"

abbrev y : Text
y = codes "y"

abbrev red : EnumVariant
red = record { name = codes "red"; fields = [] }

abbrev blue : EnumVariant
blue = record { name = codes "blue"; fields = [] }

abbrev k : Context
k = record {
  env = record new_env { enums = put (codes "Color") (red ∷ blue ∷ []) no_entries };
  types = no_entries;
  local_fns = no_entries;
  fn_generics = no_entries;
  builtin_modules = [];
  std_imported = false;
}

abbrev held : TypeExpr → Bool → VarInfo
held t moved = record { type_expr = t; is_const = false; moved = moved }

abbrev with_vars : Table VarInfo → Scope
with_vars vars = record { vars = vars; ret_type = none; error = none }

abbrev node : Expr → ExprNode
node v = enode 0 at v []

abbrev line : Stmt → StmtNode
line s = snode 0 at s []

abbrev name : Text → ExprNode
name z = node (Expr.ident z)

-- `let y = x;`
abbrev give_y : StmtNode
give_y = line (decl y none (name x) false)

-- `x` is a list of integers.
abbrev before : Scope
before = with_vars (put x (held (list (int 0)) false) no_entries)

abbrev after : Scope
after = with_vars (put y (held (list (int 0)) false) (mark x before.vars))

moves_x : check_stmts k (scons give_y snil) before ≡ checked tt after
unfolding check_stmts check_ident declared_type ◌>>=◌ pure require get_vars insert_var move_expr
    mark_moved
moves_x = refl

check_stmts-Keeps_example : Keeps before.vars after.vars
check_stmts-Keeps_example = check_stmts-Keeps k (scons give_y snil) before after moves_x

-- `x` has been moved, `y` has not.
abbrev x_moved : Scope
x_moved =
    with_vars (put x (held (list (int 0)) true) (put y (held (list (int 0)) false) no_entries))

abbrev both_moved : Scope
both_moved = with_vars (mark y x_moved.vars)

-- `x = y;`
abbrev assign_x : StmtList
assign_x = scons (line (assign_to x (name y))) snil

assigns_x : check_stmts k assign_x x_moved ≡ checked tt both_moved
unfolding check_stmts check_ident assign ◌>>=◌ pure require get_vars move_expr mark_moved
    types_compatible ℕ_discrete
assigns_x = refl

check_expr-check_stmts_example :
    (check_expr k (name x) both_moved
      ≡ failed (record { span = at; complaint = used_after_move x }))
    × ((f : Text)
        → (text_eq f (codes "length") || text_eq f (codes "toString")) ≡ true
        → check_expr k (node (Expr.field (name x) f)) both_moved
          ≡ failed (record { span = at; complaint = used_after_move x }))
    × ((f : Text)
        → (text_eq f (codes "length") || text_eq f (codes "toString")) ≡ false
        → check_expr k (node (Expr.field (name x) f)) both_moved
          ≡ checked TypeExpr.infer both_moved)
unfolding text_eq
check_expr-check_stmts_example =
    check_expr-check_stmts k assign_x x_moved both_moved x (held (list (int 0)) true) 0 0 at at []
      [] refl refl assigns_x

-- `if true { let y = x; }`
abbrev conditional : Stmt
conditional = if_do (node (Expr.lit_bool true)) (scons give_y snil) no_stmts

condition_passes : check_expr k (node (Expr.lit_bool true)) before ≡ checked TypeExpr.bool before
unfolding check_expr pure
condition_passes = refl

conditional_passes : check_stmt k (line conditional) before ≡ checked none_ before
unfolding check_stmt check_ident declared_type ◌>>=◌ pure require get_vars insert_var move_expr
    mark_moved scoped
conditional_passes = refl

check_stmt-Guarded_example : before.vars ≡ before.vars
check_stmt-Guarded_example =
    check_stmt-Guarded k conditional (node (Expr.lit_bool true)) 0 at [] before before before
      TypeExpr.bool none_ (by_if (node (Expr.lit_bool true)) (scons give_y snil) no_stmts)
      condition_passes conditional_passes

declares_y : check_stmt k give_y before ≡ checked (list (int 0)) after
unfolding check_stmt check_ident declared_type ◌>>=◌ pure require get_vars insert_var move_expr
    mark_moved
declares_y = refl

check_expr-check_stmt_example : check_expr k (name y) after ≡ checked (list (int 0)) after
check_expr-check_stmt_example =
    check_expr-check_stmt k y none (name x) false 0 0 at at [] [] before after (list (int 0))
      declares_y

-- `x` is a constant.
abbrev constant : VarInfo
constant = record { type_expr = real 0; is_const = true; moved = false }

abbrev const_x : Scope
const_x = with_vars (put x constant no_entries)

abbrev three : ExprNode
three = node (Expr.lit_int 3)

abbrev assigned : Scope
assigned = with_vars (mark_moved three (int 0) const_x.vars)

abbrev arm : Text → ArmList → ArmList
arm z r = acons (Pattern.variant z Patterns.nil) no_expr (node (Expr.lit_int 3)) r

abbrev red_and_blue : ArmList
red_and_blue = arm (codes "blue") (arm (codes "red") anil)

check_match_exhaustive-EachNamed_example :
    (check_match_exhaustive k (named (codes "Color")) red_and_blue at before ≡ checked tt before)
    ↔ EachNamed red_and_blue (red ∷ blue ∷ [])
unfolding text_eq
check_match_exhaustive-EachNamed_example =
    check_match_exhaustive-EachNamed k (codes "Color") (red ∷ blue ∷ []) red_and_blue at before refl
      refl

three_passes : check_expr k (node (Expr.lit_int 3)) before ≡ checked (int 0) before
unfolding check_expr pure
three_passes = refl

-- `match 3 { y => y }`
check_expr-variable_not_found_example :
    check_expr k
      (node (match_ (node (Expr.lit_int 3)) (acons (Pattern.ident y) no_expr (name y) anil)))
      before
    ≡ failed (record { span = at; complaint = variable_not_found y })
unfolding text_eq new_env
check_expr-variable_not_found_example =
    check_expr-variable_not_found k (node (Expr.lit_int 3)) y anil 0 0 at at [] [] before before
      (int 0) three_passes refl refl

-- `fn f(a: real)`
abbrev of_real : FnSig
of_real = record { params = real 0 ∷ []; ret_type = none_; self_is_ref = false }

abbrev three_args : ExprList
three_args = econs (node (Expr.lit_int 3)) enil

call_fn-Accepts_example :
    ((t : Scope) × (call_fn k at (codes "f") of_real three_args (cons (int 0) nil) before
        ≡ checked none_ t))
    ↔ Accepts (real 0 ∷ []) (cons (int 0) nil)
call_fn-Accepts_example =
    call_fn-Accepts k at (codes "f") of_real three_args (cons (int 0) nil) before refl
      (both_more (node (Expr.lit_int 3)) enil (int 0) nil both_empty)

-- `interface Shape { area() -> real }`
abbrev shape : InterfaceDef
shape = record {
  methods = (codes "area", record { params = []; ret_type = real 0; self_is_ref = false }) ∷ [];
}

abbrev with_shape : Context
with_shape = record k { env = record new_env { interfaces = put (codes "Shape") shape no_entries } }

-- `fn area() -> int`
abbrev area : ItemKind
area =
    fn_item (codes "area") [] (some (record { id = 0; span = at; value = int 0; decorators = [] }))
      snil false []
      (record {
        is_open = false;
        is_override = false;
        is_final = false;
        is_abstract_method = false;
      })

check_class-ImplementsAll_example :
    GoesOn
      (check_class x none (codes "Shape" ∷ []) [] (an_item area no_items) [] at with_shape before)
    ↔ ImplementsAll with_shape
        (add_methods with_shape (an_item area no_items) no_entries)
        (codes "Shape" ∷ [])
check_class-ImplementsAll_example =
    check_class-ImplementsAll with_shape x (codes "Shape" ∷ []) [] (an_item area no_items) [] at
      before

implements_shape :
    unmet with_shape x
      (add_methods with_shape (an_item area no_items) no_entries)
      (codes "Shape" ∷ [])
    ≡ none
unfolding unmet text_eq new_env ℕ_discrete
implements_shape = refl
