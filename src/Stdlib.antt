-- ===== src/Stdlib.antt =====
-- src/stdlib.rs: the built-in modules and their functions.
use yidika.Base.{
  Bool, false, ◌&&◌, Option, none, some, List, [], ◌∷◌, map, Text, codes, text_eq, contains,
  if◌then◌else◌,
}
use Prim.Native.String.{String}

abbrev submodule : String → List String → Text × List Text
submodule name funcs = (codes name, map codes funcs)

unfoldable pub submodules : List (Text × List Text)
submodules =
    submodule "fs"
      ("read" ∷ "write" ∷ "append" ∷ "remove" ∷ "exists" ∷ "list" ∷ "is_dir" ∷ "is_file" ∷ [])
    ∷ submodule "sys" ("env" ∷ "args" ∷ "exit" ∷ "cwd" ∷ "pid" ∷ "platform" ∷ "sleep" ∷ [])
    ∷ submodule "json" ("parse" ∷ "stringify" ∷ [])
    ∷ submodule "datetime" (
        "now" ∷ "utc" ∷ "timestamp" ∷ "format" ∷ "parse" ∷ "year" ∷ "month" ∷ "day" ∷ "hour"
        ∷ "minute" ∷ "second" ∷ [])
    ∷ submodule "path" ("join" ∷ "dirname" ∷ "basename" ∷ "extension" ∷ "is_absolute" ∷ [])
    ∷ submodule "base64" ("encode" ∷ "decode" ∷ [])
    ∷ submodule "regex" ("match" ∷ "find" ∷ "replace" ∷ "split" ∷ [])
    ∷ submodule "math" (
        "cos" ∷ "sin" ∷ "sqrt" ∷ "abs" ∷ "floor" ∷ "ceil" ∷ "round" ∷ "max" ∷ "min" ∷ "pow" ∷ "rand"
        ∷ [])
    ∷ submodule "time" (
        "now" ∷ "utc" ∷ "timestamp" ∷ "format" ∷ "parse" ∷ "sleep" ∷ "year" ∷ "month" ∷ "day"
        ∷ "hour" ∷ "minute" ∷ "second" ∷ [])
    ∷ []

unfoldable pub list_submodules : List Text
unfolding submodules
list_submodules = map (λ (p : Text × List Text). p.0) submodules

unfoldable funcs_in : Text → List (Text × List Text) → Option (List Text)
unfolding text_eq
funcs_in x [] = none
funcs_in x ((name, funcs) ∷ rest) = if text_eq name x then some funcs else funcs_in x rest

unfoldable pub submodule_funcs : Text → Option (List Text)
unfolding funcs_in submodules
submodule_funcs x = funcs_in x submodules

unfoldable in_funcs : Text → Option (List Text) → Bool
unfolding contains
in_funcs f none = false
in_funcs f (some funcs) = contains f funcs

unfoldable pub has_func : Text → Text → Bool
unfolding in_funcs submodule_funcs
has_func x f = in_funcs f (submodule_funcs x)

unfoldable pub is_valid_std_path : List Text → Bool
unfolding text_eq has_func
is_valid_std_path (a ∷ m ∷ f ∷ []) = text_eq a (codes "std") && has_func m f
is_valid_std_path _ = false
