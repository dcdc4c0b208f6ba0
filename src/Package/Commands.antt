-- ===== src/Package/Commands.antt =====
-- src/package/mod.rs: `add` and `sync`.
pub mod Laws
use yidika.Base.{
  ℕ, zero, suc, ◌+◌, Bool, true, false, Option, none, some, List, [], ◌∷◌, ◌≡◌, ◌≢◌, if◌then◌else◌,
  Text,
}
use yidika.Package.Deps.{Deps, insert, contains_key}
use yidika.Package.Manifest.{
  Result, ok, err, Host, Command, already, invalid_spec, load_manifest, save_manifest,
}
use yidika.Package.Spec.{Spec, spec, invalid, parse_spec}

module _ (h : Host) where
  open h use {State, create_lib, target_exists, remove_dir_all, clone, pull}

  abbrev pub and_then : {A B : Type 0} → State × Result A → (A → Command h B) → State × Result B
  and_then (s, ok a) f = f a s
  and_then (s, err e) f = (s, err e)

  -- `if target.exists() { fs::remove_dir_all(&target)? }`
  pub clear_target : Text → Command h (Unit {0})
  clear_target name s = if target_exists name s then remove_dir_all name s else (s, ok tt)

  -- The part of `add` behind the test for a duplicate.
  pub install : Text → Text → Deps → Command h (Text × Text)
  unfolding clear_target insert save_manifest
  install name url deps s = and_then (save_manifest h (insert name url deps) s) λ _ s₁.
      and_then (create_lib s₁) λ _ s₂.
        and_then (clear_target name s₂)
          λ _ s₃. and_then (clone url name s₃) λ _ s₄. (s₄, ok (name, url))

  pub add_package : Text → Text → Command h (Text × Text)
  unfolding load_manifest install contains_key
  add_package name url s = elim (load_manifest h s) [
    | err e ↦ (s, err e)
    | ok deps ↦ if contains_key name deps then (s, err (already name)) else install name url deps s
  ]

  -- `add`: the name and the address that its message shows.
  unfoldable pub add : Text → Command h (Text × Text)
  unfolding parse_spec add_package
  add text s = elim (parse_spec text) [
    | invalid t ↦ (s, err (invalid_spec t))
    | spec name url ↦ add_package name url s
  ]

  -- One turn of the loop of `sync`.
  pub sync_one : Text → Text → Command h (Unit {0})
  sync_one name url s = if target_exists name s then pull name s else clone url name s

  pub sync_all : ℕ → Deps → Command h ℕ
  unfolding sync_one
  sync_all count [] s = (s, ok count)
  sync_all count ((name, url) ∷ deps) s =
      and_then (sync_one name url s) λ _ s'. sync_all (count + 1) deps s'

  pub sync_deps : Deps → Command h ℕ
  unfolding sync_all
  sync_deps [] s = (s, ok 0)
  sync_deps (d ∷ deps) s = and_then (create_lib s) λ _ s'. sync_all 0 (d ∷ deps) s'

  -- `sync`: the number that its message shows, 0 for "No dependencies to sync."
  unfoldable pub sync : Command h ℕ
  unfolding load_manifest sync_deps
  sync s = elim (load_manifest h s) [ err e ↦ (s, err e) | ok deps ↦ sync_deps deps s ]
