-- ===== src/Semantic/Borrowck/Tests.antt =====
-- The borrow checker on small functions.
use yidika.Base.{false, ◌+◌, ℕ, ◌≡◌, some, [], ◌∷◌, Text, codes}
use yidika.Diagnostics.{Span}
use yidika.Syntax.Types.{TypeExpr, TypeArgs, int}
use yidika.Syntax.Ast.{Param, StmtList, scons}
use yidika.Syntax.Substitute.{substitute_params, substitute_stmts}
use yidika.Semantic.Borrowck.{BorrowError, new, check_function}
use yidika.Semantic.Borrowck.Instances.{check_function-substitute_stmts}
use yidika.Semantic.Borrowck.Branches.{passing, one}

abbrev at : ℕ → Span
at n = record { start = n; end = n + 1 }

abbrev x : Text
x = codes "x"

abbrev f : Text
f = codes "f"

abbrev param : Param
param = record {
  name = x;
  type_expr = record { id = 0; span = at 0; value = TypeExpr.named (codes "T"); decorators = [] };
  is_ref = false;
}

-- `f(x); f(x);`
abbrev twice : StmtList
twice = scons (passing f x (at 1) (at 2)) (one (passing f x (at 3) (at 4)))

abbrev reported : BorrowError
reported = record { span = at 4; name = x }

abbrev to_int : TypeArgs
to_int y = some (int 32)

check_function-substitute_stmts_example :
    (check_function (substitute_params to_int (param ∷ [])) (substitute_stmts to_int twice) new).1
    ≡ (check_function (param ∷ []) twice new).1
check_function-substitute_stmts_example =
    check_function-substitute_stmts to_int (param ∷ []) twice new
