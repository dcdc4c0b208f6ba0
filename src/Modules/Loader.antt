-- ===== src/Modules/Loader.antt =====
-- src/module/mod.rs: `ModuleLoader`. The file system with its paths, the parser and the compilation of
-- foreign code are a parameter. A method gives the loader that it leaves, also when it fails.
pub mod Files
pub mod Fuel
pub mod Retry
mod Tests
use yidika.Base.{
  contains, ℕ, zero, suc, ◌+◌, Bool, true, false, Option, none, some, List, [], ◌∷◌, ◌++◌, length,
  ◌==◌, if◌then◌else◌, Text, codes, text_eq,
}

-- src/syntax/ast.rs: what the loader reads of an `Import`.
pub record Import : Type 0 where
  pub source : Text
  pub lang : Option Text

-- Paths are texts. `real_path` is `fs::canonicalize`, `with_yk` is `with_extension("yk")`, `parent`
-- has the default `"."`, and `foreign` is the folder and the compilation of an import in Rust or C++,
-- which fails or not.
pub record Host : Type 1 where
  pub Module : Type 0
  pub imports : Module → List Import
  pub is_absolute : Text → Bool
  pub join : Text → Text → Text
  pub parent : Text → Text
  pub with_yk : Text → Text
  pub exists : Text → Bool
  pub real_path : Text → Option Text
  pub read : Text → Option Text
  pub parse : Text → Text → Option Module
  pub foreign : Text → Text → Text → Bool

pub data Failure : Type 0 where
  circular : List Text → Failure
  unreadable : Text → Failure
  unparsable : Text → Failure
  not_found : Text → Failure
  unresolved : Text → Failure
  foreign_failed : Failure
  unsupported : Text → Failure
  out_of_fuel : Failure

pub data Result {ℓ} (A : Type ℓ) : Type ℓ where
  loaded : A → Result A
  failed : Failure → Result A

-- `Vec::pop`
pub pop : List Text → List Text
pop [] = []
pop (p ∷ []) = []
pop (p ∷ q ∷ qs) = p ∷ pop (q ∷ qs)

-- The names of the built-in modules.
abbrev builtin : List Text
builtin =
    codes "std"
    ∷ codes "io"
    ∷ codes "math"
    ∷ codes "time"
    ∷ codes "json"
    ∷ codes "datetime"
    ∷ codes "path"
    ∷ codes "base64"
    ∷ codes "regex"
    ∷ codes "net"
    ∷ []

-- `source.starts_with(".")`
abbrev is_relative : Text → Bool
is_relative [] = false
is_relative (c ∷ s) = c == b'.'

module _ (h : Host) where
  pub record LoadedModule : Type 0 where
    pub id : ℕ
    pub path : Text
    pub module_ : h.Module
    pub source : Text

  pub record Loader : Type 0 where
    pub files : List LoadedModule
    pub by_path : Text → Option ℕ
    pub visiting : List Text
    pub root : Text

  abbrev pub Command : Type 0 → Type 0
  Command A = Loader → Loader × Result A

  abbrev pub real_or_missing : Text → Option Text → Result Text
  real_or_missing p none = failed (unresolved p)
  real_or_missing p (some q) = loaded q

  -- `ModuleLoader::canonicalize`
  pub canonicalize : Text → Text → Result Text
  canonicalize root path =
      let p = if h.is_absolute path then path else h.join root path in
      if h.exists p
      then real_or_missing p (h.real_path p)
      else if h.exists (h.with_yk p)
      then real_or_missing (h.with_yk p) (h.real_path (h.with_yk p))
      else failed (not_found p)

  -- What `load` does to the loader before it looks at the imports.
  pub enter : Text → Text → h.Module → Loader → Loader
  enter canonical source m s = record s {
    files =
        s.files
        ++ ((record { id = length s.files; path = canonical; module_ = m; source = source }) ∷ []);
    by_path = λ q. if text_eq canonical q then some (length s.files) else s.by_path q;
    visiting = s.visiting ++ (canonical ∷ []);
  }

  -- The end of `load`.
  abbrev pub leave : ℕ → Loader × Result (Unit {0}) → Loader × Result ℕ
  leave id (s, failed e) = (s, failed e)
  leave id (s, loaded u) = (record s { visiting = pop s.visiting }, loaded id)

  abbrev pub discard : Loader × Result ℕ → Loader × Result (Unit {0})
  discard (s, failed e) = (s, failed e)
  discard (s, loaded id) = (s, loaded tt)

  abbrev pub and_then : Loader × Result (Unit {0}) → Command (Unit {0}) → Loader × Result (Unit {0})
  and_then (s, failed e) f = (s, failed e)
  and_then (s, loaded u) f = f s

  -- `ModuleLoader::resolve_import`; `again` is the recursive call.
  pub resolve_import : (Text → Command ℕ) → Import → Text → Command (Unit {0})
  unfolding contains text_eq
  resolve_import again i current s = elim i.lang [
    | some lang ↦
        if contains lang (codes "rust" ∷ codes "c++" ∷ [])
        then (if h.foreign lang current i.source
            then (s, loaded tt)
            else (s, failed foreign_failed))
        else (s, loaded tt)
    | none ↦
        if contains i.source builtin
        then (s, loaded tt)
        else if is_relative i.source
        then discard (again (h.join (h.parent current) i.source) s)
        else (s, failed (unsupported i.source))
  ]

  -- The loop over the imports.
  pub resolve_all : (Text → Command ℕ) → List Import → Text → Command (Unit {0})
  unfolding resolve_import
  resolve_all again [] current s = (s, loaded tt)
  resolve_all again (i ∷ is) current s =
      and_then (resolve_import again i current s) (resolve_all again is current)

  -- `load` behind its two tests.
  pub load_new : (Text → Command ℕ) → Text → Command ℕ
  unfolding enter resolve_all
  load_new again canonical s = elim (h.read canonical) [
    | none ↦ (s, failed (unreadable canonical))
    | some source ↦ elim (h.parse source canonical) [
      | none ↦ (s, failed (unparsable canonical))
      | some m ↦
          leave (length s.files)
            (resolve_all again (h.imports m) canonical (enter canonical source m s))
    ]
  ]

  pub load_canonical : (Text → Command ℕ) → Text → Command ℕ
  unfolding contains load_new
  load_canonical again canonical s =
      if contains canonical s.visiting
      then (s, failed (circular (s.visiting ++ (canonical ∷ []))))
      else elim (s.by_path canonical) [
        | some id ↦ (s, loaded id)
        | none ↦ load_new again canonical s
      ]

  pub load_path : (Text → Command ℕ) → Text → Command ℕ
  unfolding canonicalize load_canonical
  load_path again path s = elim (canonicalize s.root path) [
    | failed e ↦ (s, failed e)
    | loaded canonical ↦ load_canonical again canonical s
  ]

  -- `ModuleLoader::load`, on fuel for the depth of the imports.
  pub load : ℕ → Text → Command ℕ
  unfolding load_path
  load zero path s = (s, failed out_of_fuel)
  load (suc fuel) path s = load_path (load fuel) path s
