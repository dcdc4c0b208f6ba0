-- ===== src/Package/Manifest.antt =====
-- src/package/mod.rs: `load_manifest` and `save_manifest`. The file system, the TOML library and git
-- are a parameter.
pub mod Laws
use yidika.Base.{Bool, Option, none, some, [], ◌∷◌, ◌≡◌, if◌then◌else◌, Text, codes}
use yidika.Package.Deps.{BTreeMap, Deps, get, insert, insert_all, map_values}

-- Why a command fails: a specification that is refused, a name that is there already, or a failure of
-- the host.
pub data Failure : Type 0 where
  invalid_spec : Text → Failure
  already : Text → Failure
  host_failed : Failure

pub data Result {ℓ} (A : Type ℓ) : Type ℓ where
  ok : A → Result A
  err : Failure → Result A

-- What the commands use of code that is not theirs. `Content` is the text of a file, `Value` is
-- `toml::Value`, whose tables are a `BTreeMap`; `parse` and `to_string` are those of the TOML library.
-- `read_to_string` and `write` work on the file `project.toml`, `remove_dir_all`, `clone` and `pull` on
-- the folder of that name in `lib`. A failure leaves some state behind, too.
pub record Host : Type 1 where
  pub State : Type 0
  pub Content : Type 0
  pub Value : Type 0
  pub string_value : Text → Value
  pub table_value : BTreeMap Value → Value
  pub as_str : Value → Option Text
  pub as_table : Value → Option (BTreeMap Value)
  pub get_value : Text → Value → Option Value
  pub parse : Content → Option Value
  pub to_string : Value → Option Content
  pub manifest_exists : State → Bool
  pub read_to_string : State → Option Content
  pub write : Content → State → State × Result (Unit {0})
  pub create_lib : State → State × Result (Unit {0})
  pub target_exists : Text → State → Bool
  pub remove_dir_all : Text → State → State × Result (Unit {0})
  pub clone : Text → Text → State → State × Result (Unit {0})
  pub pull : Text → State → State × Result (Unit {0})

-- `unwrap_or("")`
abbrev pub or_empty : Option Text → Text
or_empty none = []
or_empty (some t) = t

module _ (h : Host) where
  open h use {
    State, Content, Value, string_value, table_value, as_str, as_table, get_value, parse, to_string,
    manifest_exists, read_to_string, write,
  }

  -- A command: the state that it leaves, and its result.
  abbrev pub Command : Type 0 → Type 0
  Command A = State → State × Result A

  -- `t.iter().map(…).collect::<Deps>()`
  unfoldable pub collect_deps : Option (BTreeMap Value) → Deps
  unfolding insert_all map_values
  collect_deps none = []
  collect_deps (some t) = insert_all (map_values (λ v. or_empty (as_str v)) t) []

  -- `table.get("dependencies")`, where it is a table.
  unfoldable pub deps_of : Value → Deps
  unfolding collect_deps
  deps_of v = elim (get_value (codes "dependencies") v) [
    | none ↦ []
    | some d ↦ collect_deps (as_table d)
  ]

  -- The part of `load_manifest` behind `fs::read_to_string`.
  unfoldable pub read_manifest : Option Content → Result Deps
  unfolding deps_of
  read_manifest none = err host_failed
  read_manifest (some c) = elim (parse c) [ none ↦ err host_failed | some v ↦ ok (deps_of v) ]

  unfoldable pub load_manifest : State → Result Deps
  unfolding read_manifest
  load_manifest s = if manifest_exists s then read_manifest (read_to_string s) else ok []

  -- `dep_table`, as the loop of `save_manifest` fills it.
  unfoldable pub dep_table : Deps → BTreeMap Value
  unfolding insert_all map_values
  dep_table deps = insert_all (map_values string_value deps) []

  -- `root`
  unfoldable pub root_table : Deps → Value
  unfolding dep_table insert
  root_table deps = table_value (insert (codes "dependencies") (table_value (dep_table deps)) [])

  unfoldable pub save_manifest : Deps → Command (Unit {0})
  unfolding root_table
  save_manifest deps s = elim (to_string (root_table deps)) [
    | none ↦ (s, err host_failed)
    | some c ↦ write c s
  ]
