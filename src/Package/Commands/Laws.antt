-- ===== src/Package/Commands/Laws.antt =====
-- What `add` and `sync` leave behind, on a host that does what its documentation says.
use yidika.Base.{
  ℕ, ◌≡◌, refl, sym, ap, ◌∙◌, inl, inr, true, false, Bool-cases, Text, text_eq_refl, subst,
}
use yidika.Package.Deps.{Deps, insert, contains_key, get-insert}
use yidika.Package.Spec.{spec, parse_spec}
use yidika.Package.Spec.Names.{contains_char-parse_spec}
use yidika.Package.Deps.Order.{InOrder-insert, InOrder}
use yidika.Package.Manifest.{
  already, Result, ok, err, Host, load_manifest, save_manifest, read_manifest, Command,
}
use yidika.Package.Manifest.Laws.{
  IsOrdinary, IsFolder, SameManifest, HostLaws, Holds, load-Holds, save-Holds, loaded-InOrder,
}
use yidika.Package.Commands.{clear_target, install, add_package, add, and_then}

module _ (h : Host) (laws : HostLaws h) where
  open h use {State, create_lib, target_exists, remove_dir_all, clone, pull}
  open laws use {create_keeps, remove_keeps, clone_keeps, clone_makes, clone_stays, pull_stays}

  keep : (d : Deps) (s s' : State) → SameManifest h s s' → Holds h d s → Holds h d s'
  keep d s s' k m = (k.0 ∙ m.0, ap (read_manifest h) k.1 ∙ m.1)

  clear_keeps :
      (name : Text) (s : State) → IsFolder name → SameManifest h s (clear_target h name s).0
  unfolding clear_target
  clear_keeps name s o = elim (Bool-cases (target_exists name s)) [
    | inl e ↦ rw e (remove_keeps name s o)
    | inr e ↦ rw e (refl, refl)
  ]

  -- A step that keeps the manifest, whatever it returns, and then steps that keep it.
  chain :
      {A B : Type 0} (d : Deps) (m : State × Result A) (f : A → Command h B)
      → Holds h d m.0
      → ((a : A) (s : State) → Holds h d s → Holds h d (f a s).0)
      → Holds h d (and_then h m f).0
  chain d (s, ok a) f k g = g a s k
  chain d (s, err e) f k g = k

  install-Holds :
      (name url : Text) (deps : Deps) (s s₁ : State)
      → IsFolder name
      → InOrder deps
      → save_manifest h (insert name url deps) s ≡ (s₁, ok tt)
      → Holds h (insert name url deps) (install h name url deps s).0
  unfolding install
  install-Holds name url deps s s₁ o ordered w =
      let d = insert name url deps in
      rw (w, install)
        (chain d (create_lib s₁) _
          (keep d s₁ _ (create_keeps s₁)
            (save-Holds h laws d s s₁ (InOrder-insert name url deps ordered) w))
          λ _ s₂ k₂.
            chain d (clear_target h name s₂) _ (keep d s₂ _ (clear_keeps name s₂ o) k₂) λ _ s₃ k₃.
              chain d (clone url name s₃) _ (keep d s₃ _ (clone_keeps url name s₃ o) k₃)
                λ _ s₄ k₄. k₄)

  add-parsed :
      (text name url : Text) (s : State)
      → parse_spec text ≡ spec name url
      → add h text s ≡ add_package h name url s
  unfolding add
  add-parsed text name url s parsed = rw (parsed, add)

  add_package-known :
      (name url : Text) (d : Deps) (s : State)
      → load_manifest h s ≡ ok d
      → contains_key name d ≡ true
      → add_package h name url s ≡ (s, err (already name))
  unfolding add_package
  add_package-known name url d s loaded known = rw (loaded, add_package) (rw known)

  add_package-new :
      (name url : Text) (d : Deps) (s : State)
      → load_manifest h s ≡ ok d
      → contains_key name d ≡ false
      → add_package h name url s ≡ install h name url d s
  unfolding add_package
  add_package-new name url d s loaded new = rw (loaded, add_package) (rw new)

  contains_key-insert : (name url : Text) (d : Deps) → contains_key name (insert name url d) ≡ true
  unfolding contains_key
  contains_key-insert name url d = simp (get-insert, text_eq_refl)

  -- On a host that keeps `HostLaws`, let the name of the package be none of "", "." and "..". Once
  -- `add` has saved the manifest, the package counts as a dependency, whatever becomes of the rest:
  -- if the clone fails, a second `add` of it is refused and changes nothing.
  pub add-add :
      (text name url : Text) (deps : Deps) (s s₁ : State)
      → parse_spec text ≡ spec name url
      → IsOrdinary name
      → load_manifest h s ≡ ok deps
      → save_manifest h (insert name url deps) s ≡ (s₁, ok tt)
      → add h text (add h text s).0 ≡ ((add h text s).0, err (already name))
  add-add text name url deps s s₁ parsed o loaded w =
      rw (add-parsed text name url s parsed, add-parsed text name url _ parsed)
        (elim (Bool-cases (contains_key name deps)) [
          | inl known ↦
              rw (add_package-known name url deps s loaded known)
                (add_package-known name url deps s loaded known)
          | inr new ↦ rw (add_package-new name url deps s loaded new) (
              add_package-known name url (insert name url deps) _
                (load-Holds h _ _ (
                  install-Holds name url deps s s₁
                    (o, contains_char-parse_spec text name url parsed)
                    (loaded-InOrder h deps s loaded) w))
                (contains_key-insert name url deps))
        ])

  and_then-eq-ok :
      {A B : Type 0} (m : State × Result A) (f : A → Command h B) {r : State × B}
      → and_then h m f ≡ (r.0, ok r.1)
      → (a : A) × (m ≡ (m.0, ok a)) × (f a m.0 ≡ (r.0, ok r.1))
  and_then-eq-ok (s, ok a) f e = (a, refl, e)
  and_then-eq-ok (s, err x) f e = absurd (cc)

  value : Result ℕ → ℕ
  value (ok n) = n
  value (err x) = 0

  install-written :
      (name url : Text) (deps : Deps) (s : State) {s' : State} {r : Text × Text}
      → install h name url deps s ≡ (s', ok r)
      → save_manifest h (insert name url deps) s
        ≡ ((save_manifest h (insert name url deps) s).0, ok tt)
  unfolding install
  install-written name url deps s {s'} {r} i =
      (and_then-eq-ok (save_manifest h (insert name url deps) s) _ {r = (s', r)} i).1

  -- On a host that keeps `HostLaws`, when `add` of a package succeeds whose name is none of "", "."
  -- and "..", the name was that of no dependency before, and what `load_manifest` loads then are the
  -- old dependencies with the new one in addition.
  pub add-insert :
      (text : Text) (s s' : State) (deps : Deps) (name url : Text)
      → parse_spec text ≡ spec name url
      → IsOrdinary name
      → load_manifest h s ≡ ok deps
      → add h text s ≡ (s', ok (name, url))
      → (contains_key name deps ≡ false) × (load_manifest h s' ≡ ok (insert name url deps))
  add-insert text s s' deps name url parsed o loaded e =
      let e' = sym (add-parsed text name url s parsed) ∙ e in
      elim (Bool-cases (contains_key name deps)) [
        | inl known ↦ absurd (
            cc (
              ap (λ (p : State × Result (Text × Text)). p.1)
                (sym (add_package-known name url deps s loaded known) ∙ e')))
        | inr new ↦ (new, installed (sym (add_package-new name url deps s loaded new) ∙ e'))
      ]
    where
      installed :
          install h name url deps s ≡ (s', ok (name, url))
          → load_manifest h s' ≡ ok (insert name url deps)
      installed i =
          subst (λ (t : State). load_manifest h t ≡ ok (insert name url deps))
            (ap (λ (p : State × Result (Text × Text)). p.0) i)
            (load-Holds h _ _ (
              install-Holds name url deps s _ (o, contains_char-parse_spec text name url parsed)
                (loaded-InOrder h deps s loaded) (install-written name url deps s i)))
