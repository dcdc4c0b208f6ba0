-- ===== src/Semantic/Typeck/Modules/Tests.antt =====
-- Modules through the type checker, and its types of the functions of the standard modules.
use yidika.Semantic.Typeck.{
  ◌>>=◌, pure, require, get_vars, get_ret, set_ret, insert_var, move_expr, mark_moved,
}
use yidika.Semantic.Compat.{is_infer, types_compatible}
use yidika.Semantic.Typeck.Calls.{module_result}
use yidika.Semantic.Typeck.Values.{check_ident}
use yidika.Syntax.Types.{int}
use yidika.Stdlib.{submodules}
use yidika.Diagnostics.{Span}
use yidika.Semantic.Typeck.Modules.{check_module, new_context, new_scope}
use yidika.Semantic.Env.{FnSig, new_env}
use yidika.Semantic.Typeck.Classes.{Outcome, went_on, stopped}
use native.Mathlib.Decide.{ℕ_discrete}
use yidika.Syntax.Items.{fn_item, Module, ItemNode}
use yidika.Semantic.Typeck.Statements.{assign, give_back}
use yidika.Syntax.Ast.{
  enode, snode, scons, snil, an_expr, StmtList, Expr, assign_to, ExprNode, return,
}
use yidika.Base.{
  ◌≡◌, refl, Bool, true, false, ◌&&◌, Option, some, none, List, [], ◌∷◌, Text, codes, match_option,
  not,
}

abbrev at : Span
at = record { start = 0; end = 1 }

abbrev y : Text
y = codes "y"

abbrev fn_named : Text → StmtList → ItemNode
fn_named x body = record {
  id = 0;
  span = at;
  value = fn_item x [] none body false [] (record {
    is_open = false;
    is_override = false;
    is_final = false;
    is_abstract_method = false;
  });
  decorators = [];
}

abbrev module_of : StmtList → Module
module_of body = record {
  name = codes "m";
  span = at;
  imports = [];
  exports = [];
  items = fn_named (codes "main") body ∷ [];
}

abbrev node : Expr → ExprNode
node v = enode 0 at v []

-- `y = 3; return y;`
abbrev counts : StmtList
counts =
    scons (snode 0 at (assign_to y (node (Expr.lit_int 3))) [])
      (scons (snode 0 at (return (an_expr (node (Expr.ident y)))) []) snil)

abbrev signature_after : Outcome → Option FnSig
signature_after (went_on k s) = k.local_fns (codes "main")
signature_after (stopped e) = none

abbrev to_int : FnSig
to_int = record { params = []; ret_type = int 0; self_is_ref = false }

-- The return type of a function without an annotation is that of its `return`.
inferred_return :
    signature_after (check_module (module_of counts) (new_context new_env) new_scope) ≡ some to_int
unfolding check_module check_ident assign give_back match_option ◌>>=◌ pure require get_vars get_ret
    set_ret insert_var move_expr mark_moved types_compatible new_env ℕ_discrete
inferred_return = refl

abbrev is_typed : Text → List Text → Bool
is_typed m [] = true
is_typed m (f ∷ fs) = not (is_infer (module_result m f)) && is_typed m fs

abbrev all_typed : List (Text × List Text) → Bool
all_typed [] = true
all_typed ((m, fs) ∷ rest) = is_typed m fs && all_typed rest

-- The checker knows a type for every function of the standard modules.
submodules_typed : all_typed submodules ≡ true
unfolding submodules module_result
submodules_typed = refl
