-- ===== src/Semantic/Typeck/Modules.antt =====
-- src/semantic/typeck.rs: `check_module`.
mod Tests
use yidika.Stdlib.{list_submodules}
use yidika.Semantic.Typeck.Items.{check_item, insert_type, and_then}
use yidika.Semantic.Typeck.Classes.{Outcome, went_on, resolve_params, stopped, declared}
use yidika.Semantic.Typeck.{Context, Scope, resolve_type, VarInfo}
use yidika.Semantic.Env.{Env, FnSig, add_interface}
use yidika.Syntax.Items.{Module, Import, ItemNode, ItemKind, InterfaceMethod, interface_item}
use yidika.Base.{
  ℕ, Bool, true, false, none, some, Option, if◌then◌else◌, Text, List, [], ◌∷◌, ◌++◌, map,
  no_entries, put, codes, contains, text_eq, get_elem?, Table, suc, ◌||◌,
}
use yidika.Syntax.Types.{infer, none_, named}

-- `TypeChecker::new`
abbrev pub new_context : Env → Context
new_context env = record {
  env = env;
  types = env.types;
  local_fns = no_entries;
  fn_generics = no_entries;
  builtin_modules = [];
  std_imported = false;
}

abbrev pub new_scope : Scope
new_scope = record { vars = no_entries; ret_type = none; error = none }

abbrev universal : List Text
universal = map codes (
    "print" ∷ "println" ∷ "len" ∷ "str" ∷ "input" ∷ "fetch" ∷ "typeof" ∷ "int" ∷ "real" ∷ "bool"
    ∷ [])

abbrev direct : List Text
direct =
    map codes
      ("io" ∷ "json" ∷ "datetime" ∷ "path" ∷ "base64" ∷ "regex" ∷ "math" ∷ "time" ∷ "net" ∷ [])

abbrev name_of : Text × Option Text → Text
name_of p = p.0

abbrev add_builtins : List Text → Context → Context
add_builtins names k = record k { builtin_modules = names ++ k.builtin_modules }

-- The modules that a name imported from `std` stands for.
unfoldable pub std_names : Text → List Text
unfolding text_eq contains list_submodules
std_names x =
    if text_eq x (codes "std")
    then list_submodules
    else if contains x list_submodules
    then x ∷ []
    else []

abbrev add_std : List (Text × Option Text) → Context → Context
add_std [] k = record k { std_imported = true }
add_std (p ∷ ps) k = add_std ps (add_builtins (std_names p.0) k)

abbrev is_true : Option Bool → Bool
is_true none = false
is_true (some b) = b

abbrev json_const : VarInfo
json_const = record { type_expr = infer; is_const = true; moved = false }

-- The constants among the names of a `json` import, from the `i`-th on.
unfoldable pub json_consts :
    List Bool → ℕ → List (Text × Option Text) → Table VarInfo → Table VarInfo
unfolding text_eq
json_consts consts i [] vars = vars
json_consts consts i (p ∷ ps) vars =
    json_consts consts (suc i) ps
      (if is_true (get_elem? consts i) then put p.0 json_const vars else vars)

abbrev lang_is : Text → Option Text → Bool
lang_is x none = false
lang_is x (some y) = text_eq y x

abbrev has_lang : Option Text → Bool
has_lang none = false
has_lang (some y) = true

unfoldable pub import_context : Import → Context → Context
unfolding text_eq contains std_names
import_context i k =
    if text_eq i.source (codes "std")
    then add_std i.names k
    else if contains i.source direct || has_lang i.lang
    then add_builtins (map name_of i.names) k
    else k

unfoldable pub import_scope : Import → Scope → Scope
unfolding text_eq contains json_consts
import_scope i s =
    if text_eq i.source (codes "std") || contains i.source direct
    then s
    else if lang_is (codes "json") i.lang
    then record s { vars = json_consts i.is_const 0 i.names s.vars }
    else s

abbrev import_contexts : List Import → Context → Context
import_contexts [] k = k
import_contexts (i ∷ is) k = import_contexts is (import_context i k)

abbrev import_scopes : List Import → Scope → Scope
import_scopes [] s = s
import_scopes (i ∷ is) s = import_scopes is (import_scope i s)

-- The methods of an interface; of two with one name the later one is kept.
unfoldable pub interface_methods : Context → List InterfaceMethod → List (Text × FnSig)
unfolding resolve_type text_eq
interface_methods k [] = []
interface_methods k (m ∷ ms) =
    let rest = interface_methods k ms in
    if contains m.name (map (λ (p : Text × FnSig). p.0) rest)
    then rest
    else (
      m.name,
      record {
        params = resolve_params k m.params;
        ret_type = declared k none_ m.ret_type;
        self_is_ref = false;
      },
    )
      ∷ rest

-- The first pass.
abbrev enter_interface : ItemKind → Context → Context
enter_interface (interface_item x ms) k =
    insert_type x (named x)
      (record k { env = add_interface x (record { methods = interface_methods k ms }) k.env })
enter_interface _ k = k

abbrev pub enter_interfaces : List ItemNode → Context → Context
enter_interfaces [] k = k
enter_interfaces (i ∷ is) k = enter_interfaces is (enter_interface i.value k)

-- The second pass.
abbrev pub check_items : List ItemNode → List Text → Context → Scope → Outcome
check_items [] exported k s = went_on k s
check_items (i ∷ is) exported k s = and_then (check_item i exported k s) (check_items is exported)

-- An error that a check has passed over is still reported.
abbrev take_error : Outcome → Outcome
take_error (went_on k s) = elim s.error [ none ↦ went_on k s | some e ↦ stopped e ]
take_error (stopped e) = stopped e

unfoldable pub check_module : Module → Context → Scope → Outcome
unfolding import_context import_scope interface_methods check_item
check_module m k s = take_error (
    check_items m.items m.exports
      (enter_interfaces m.items (import_contexts m.imports (add_builtins universal k)))
      (import_scopes m.imports s))
