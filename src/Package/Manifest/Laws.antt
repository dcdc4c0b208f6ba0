-- ===== src/Package/Manifest/Laws.antt =====
-- What is saved in the manifest is loaded from it, on a host that does what its documentation says.
use yidika.Base.{
  ◌≡◌, refl, ap, ◌≢◌, inl, inr, true, false, Option, none, some, [], ◌∷◌, Text, codes, Bool-cases,
  subst, text_eq,
}
use yidika.Package.Deps.{BTreeMap, Deps, get, insert, map_values}
use yidika.Package.Spec.{contains_char}
use yidika.Package.Deps.Order.{InOrder, InOrder-insert_all, insert_all-InOrder, InOrder-map_values}
use yidika.Package.Manifest.{
  Result, ok, err, host_failed, Host, or_empty, collect_deps, deps_of, read_manifest, load_manifest,
  dep_table, root_table, save_manifest,
}

-- Not the name of `lib` itself, nor of the folder above it.
abbrev pub IsOrdinary : Text → Type 0
IsOrdinary name = (name ≢ []) × (name ≢ codes ".") × (name ≢ codes "..")

-- A name that is that of a folder in `lib`, where `/` is what separates the names of a path.
abbrev pub IsFolder : Text → Type 0
IsFolder name = IsOrdinary name × (contains_char b'/' name ≡ false)

module _ (h : Host) where
  open h use {
    State, Content, Value, string_value, table_value, as_str, as_table, get_value, parse, to_string,
    manifest_exists, read_to_string, write, create_lib, target_exists, remove_dir_all, clone, pull,
  }

  abbrev pub SameManifest : State → State → Type 0
  SameManifest s s' =
      (manifest_exists s' ≡ manifest_exists s) × (read_to_string s' ≡ read_to_string s)

  -- The TOML library finds in a value what it was made of, and parses what it printed; what was
  -- written to a file can be read from it; work on a folder in `lib` leaves the manifest alone; a
  -- clone that succeeds makes its folder, and removes none.
  pub record HostLaws : Type 0 where
    pub as_str_string : (t : Text) → as_str (string_value t) ≡ some t
    pub as_table_table : (t : BTreeMap Value) → as_table (table_value t) ≡ some t
    pub get_value_table : (k : Text) (t : BTreeMap Value) → get_value k (table_value t) ≡ get k t
    pub parse_printed : (v : Value) (c : Content) → to_string v ≡ some c → parse c ≡ some v
    pub written :
        (c : Content) (s s' : State)
        → write c s ≡ (s', ok tt)
        → (manifest_exists s' ≡ true) × (read_to_string s' ≡ some c)
    pub create_keeps : (s : State) → SameManifest s (create_lib s).0
    pub remove_keeps :
        (name : Text) (s : State) → IsFolder name → SameManifest s (remove_dir_all name s).0
    pub clone_keeps :
        (url name : Text) (s : State) → IsFolder name → SameManifest s (clone url name s).0
    pub clone_makes :
        (url name : Text) (s s' : State)
        → clone url name s ≡ (s', ok tt)
        → target_exists name s' ≡ true
    pub clone_stays :
        (url name other : Text) (s : State)
        → target_exists other s ≡ true
        → target_exists other (clone url name s).0 ≡ true
    pub pull_stays :
        (name other : Text) (s : State)
        → target_exists other s ≡ true
        → target_exists other (pull name s).0 ≡ true

  -- The manifest is there, and these are its dependencies.
  abbrev pub Holds : Deps → State → Type 0
  Holds d s = (manifest_exists s ≡ true) × (read_manifest h (read_to_string s) ≡ ok d)

  pub load-Holds : (d : Deps) (s : State) → Holds d s → load_manifest h s ≡ ok d
  unfolding load_manifest
  load-Holds d s m = rw m.0 m.1

  collect_deps-InOrder : (t : Option (BTreeMap Value)) → InOrder (collect_deps h t)
  unfolding collect_deps
  collect_deps-InOrder none = tt
  collect_deps-InOrder (some t) =
      InOrder-insert_all (map_values {A = Value} {B = Text} (λ v. or_empty (as_str v)) t) [] tt

  deps_of-InOrder : (v : Value) → InOrder (deps_of h v)
  unfolding deps_of
  deps_of-InOrder v = go (get_value (codes "dependencies") v)
    where
      go :
          (o : Option Value) → InOrder (elim o [ none ↦ [] | some d ↦ collect_deps h (as_table d) ])
      go none = tt
      go (some d) = collect_deps-InOrder (as_table d)

  -- Dependencies, if there are any, in order.
  abbrev AllInOrder : Result Deps → Type 0
  AllInOrder (ok d) = InOrder d
  AllInOrder (err e) = Unit {0}

  read_manifest-AllInOrder : (o : Option Content) → AllInOrder (read_manifest h o)
  unfolding read_manifest
  read_manifest-AllInOrder none = tt
  read_manifest-AllInOrder (some c) = go (parse c)
    where
      go :
          (o : Option Value)
          → AllInOrder (elim o [ none ↦ err host_failed | some v ↦ ok (deps_of h v) ])
      go none = tt
      go (some v) = deps_of-InOrder v

  load_manifest-AllInOrder : (s : State) → AllInOrder (load_manifest h s)
  unfolding load_manifest
  load_manifest-AllInOrder s = elim (Bool-cases (manifest_exists s)) [
    | inl e ↦ rw (e, load_manifest) (read_manifest-AllInOrder (read_to_string s))
    | inr e ↦ rw (e, load_manifest) tt
  ]

  -- What is loaded is in order.
  pub loaded-InOrder : (d : Deps) (s : State) → load_manifest h s ≡ ok d → InOrder d
  loaded-InOrder d s e = subst AllInOrder e (load_manifest-AllInOrder s)

module _ (h : Host) (laws : HostLaws h) where
  open h use {
    State, Content, Value, string_value, table_value, as_str, as_table, get_value, parse, to_string,
    manifest_exists, read_to_string, write,
  }
  open laws use {as_str_string, as_table_table, get_value_table, parse_printed, written}

  strings_back : (d : Deps) → map_values (λ v. or_empty (as_str v)) (map_values string_value d) ≡ d
  unfolding map_values
  strings_back [] = refl
  strings_back ((k, v) ∷ d) = rw (as_str_string v) (ap (λ (r : Deps). (k, v) ∷ r) (strings_back d))

  dep_table_lem : (d : Deps) → InOrder d → dep_table h d ≡ map_values string_value d
  unfolding dep_table
  dep_table_lem d o =
      insert_all-InOrder (map_values string_value d) (InOrder-map_values string_value d o)

  collect_deps-dep_table : (d : Deps) → InOrder d → collect_deps h (some (dep_table h d)) ≡ d
  unfolding collect_deps
  collect_deps-dep_table d o = rw (dep_table_lem d o, strings_back d) (insert_all-InOrder d o)

  get_value-root_table :
      (d : Deps)
      → get_value (codes "dependencies") (root_table h d) ≡ some (table_value (dep_table h d))
  unfolding root_table insert get text_eq
  get_value-root_table d = get_value_table (codes "dependencies") _

  deps_of-root_table : (d : Deps) → InOrder d → deps_of h (root_table h d) ≡ d
  unfolding deps_of
  deps_of-root_table d o =
      rw (get_value-root_table d, deps_of)
        (rw (as_table_table (dep_table h d)) (collect_deps-dep_table d o))

  read_manifest-some :
      (d : Deps) (c : Content)
      → InOrder d
      → to_string (root_table h d) ≡ some c
      → read_manifest h (some c) ≡ ok d
  unfolding read_manifest
  read_manifest-some d c o p =
      rw (parse_printed (root_table h d) c p, read_manifest)
        (ap (λ x. ok x) (deps_of-root_table d o))

  pub save-Holds :
      (d : Deps) (s s' : State) → InOrder d → save_manifest h d s ≡ (s', ok tt) → Holds h d s'
  unfolding save_manifest
  save-Holds d s s' o e = go (to_string (root_table h d)) refl e
    where
      go :
          (p : Option Content)
          → to_string (root_table h d) ≡ p
          → ◌≡◌ {A = State × Result (Unit {0})}
              (elim p [ none ↦ (s, err host_failed) | some c ↦ write c s ])
              (s', ok tt)
          → Holds h d s'
      go none printed w = absurd (cc)
      go (some c) printed w =
          let (there, content) = written c s s' w in
          (there, rw content (read_manifest-some d c o printed))

  -- On a host that keeps `HostLaws`, dependencies that `save_manifest` has saved, with their names in
  -- strict order as those of a `BTreeMap` are, are what `load_manifest` loads.
  pub load_manifest-save_manifest :
      (d : Deps) (s s' : State)
      → InOrder d
      → save_manifest h d s ≡ (s', ok tt)
      → load_manifest h s' ≡ ok d
  load_manifest-save_manifest d s s' o e = load-Holds h d s' (save-Holds d s s' o e)
