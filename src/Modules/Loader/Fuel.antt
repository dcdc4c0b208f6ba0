-- ===== src/Modules/Loader/Fuel.antt =====
-- How deep the imports can go: fuel for `load`.
use yidika.Base.{
  contains, if_both, ℕ, zero, suc, ◌+◌, ◌≤◌, ◌<◌, ◌≡◌, refl, sym, ap, ◌∙◌, ◌⊎◌, inl, inr, Bool,
  true, false, Option, none, some, List, [], ◌∷◌, ◌++◌, arith, length, if◌then◌else◌, Option-cases,
  Text, text_eq_refl,
}
use yidika.Modules.Loader.{
  Import, Host, Failure, circular, foreign_failed, unsupported, out_of_fuel, Result, loaded, failed,
  Loader, Command, real_or_missing, canonicalize, enter, leave, discard, and_then, resolve_import,
  resolve_all, load_new, load_canonical, load_path, load,
}
use yidika.Modules.Loader.Files.{Later, AllLater, resolve_import-Later, load-Later, known_after}

-- The result is not that the fuel ran out.
abbrev NotFuel : Failure → Type 0
NotFuel out_of_fuel = ⊥
NotFuel _ = Unit {0}

abbrev pub HasFuel : {A : Type 0} → Result A → Type 0
HasFuel (failed e) = NotFuel e
HasFuel (loaded a) = Unit {0}

abbrev pub IsIn : Text → List Text → Type 0
IsIn p [] = ⊥
IsIn p (q ∷ qs) = (p ≡ q) ⊎ IsIn p qs

abbrev missing : Option ℕ → ℕ
missing none = 1
missing (some i) = 0

-- How many of the paths are not in the table.
abbrev count : List Text → (Text → Option ℕ) → ℕ
count [] f = 0
count (p ∷ ps) f = missing (f p) + count ps f

abbrev Extends : (Text → Option ℕ) → (Text → Option ℕ) → Type 0
Extends f g = (p : Text) (i : ℕ) → f p ≡ some i → g p ≡ some i

missing-le : (o q : Option ℕ) → ((i : ℕ) → o ≡ some i → q ≡ some i) → missing q ≤ missing o
missing-le none none k = omega arith
missing-le none (some j) k = omega arith
missing-le (some i) q k = rw (k i refl) (omega arith)

count-le : (ps : List Text) (f g : Text → Option ℕ) → Extends f g → count ps g ≤ count ps f
count-le [] f g k = omega arith
count-le (p ∷ ps) f g k = omega (arith, missing-le (f p) (g p) (k p), count-le ps f g k)

count-lt :
    (ps : List Text) (f g : Text → Option ℕ) (p : Text) (i : ℕ)
    → Extends f g
    → IsIn p ps
    → f p ≡ none
    → g p ≡ some i
    → count ps g < count ps f
count-lt [] f g p i k here e e' = absurd here
count-lt (q ∷ ps) f g p i k (inl here) e e' =
    let absent : missing (f q) ≡ 1 = ap (λ x. missing (f x)) (sym here) ∙ ap missing e in
    let there : missing (g q) ≡ 0 = ap (λ x. missing (g x)) (sym here) ∙ ap missing e' in
    omega (arith, count-le ps f g k)
count-lt (q ∷ ps) f g p i k (inr later) e e' =
    omega (arith, missing-le (f q) (g q) (k q), count-lt ps f g p i k later e e')

count-length : (ps : List Text) (f : Text → Option ℕ) → count ps f ≤ length ps
count-length [] f = omega arith
count-length (p ∷ ps) f =
    omega (arith, missing-le none (f p) (λ i e. absurd (cc)), count-length ps f)

module _ (h : Host) (paths : List Text)
    (readable : (p t : Text) → h.read p ≡ some t → IsIn p paths) where
  abbrev left : Loader h → ℕ
  left s = count paths s.by_path

  -- The recursive calls have fuel for `n` new paths.
  abbrev Enough : ℕ → (Text → Command h ℕ) → Type 0
  Enough n again = (path : Text) (s : Loader h) → left s < n → HasFuel (again path s).1

  data Good {A : Type 0} (r : Loader h × Result A) : Type 0 where
    good : HasFuel r.1 → Good r

  Good-HasFuel : {A : Type 0} {r : Loader h × Result A} → Good r → HasFuel r.1
  Good-HasFuel (good k) = k

  if_Good :
      {A : Type 0} (test : Bool) (x y : Loader h × Result A)
      → Good x
      → Good y
      → Good (if test then x else y)
  if_Good true x y g k = g
  if_Good false x y g k = k

  loaded-Good : {A : Type 0} (s : Loader h) (a : A) → Good (s, loaded a)
  loaded-Good s a = good tt

  failed-Good : {A : Type 0} (s : Loader h) (e : Failure) → NotFuel e → Good {A = A} (s, failed e)
  failed-Good s e k = good k

  real-HasFuel : (p : Text) (o : Option Text) → HasFuel (real_or_missing h p o)
  real-HasFuel p none = tt
  real-HasFuel p (some q) = tt

  canonicalize-HasFuel : (root path : Text) → HasFuel (canonicalize h root path)
  unfolding canonicalize
  canonicalize-HasFuel root path =
      let p = if h.is_absolute path then path else h.join root path in
      if_both HasFuel (h.exists p) (real-HasFuel p (h.real_path p)) (
        if_both HasFuel (h.exists (h.with_yk p))
          (real-HasFuel (h.with_yk p) (h.real_path (h.with_yk p))) tt)

  discard-Good : (r : Loader h × Result ℕ) → HasFuel r.1 → Good (discard h r)
  discard-Good (t, loaded id) k = good tt
  discard-Good (t, failed e) k = good k

  leave-HasFuel :
      (id : ℕ) (r : Loader h × Result (Unit {0})) → HasFuel r.1 → HasFuel (leave h id r).1
  leave-HasFuel id (t, loaded u) k = tt
  leave-HasFuel id (t, failed e) k = k

  and_then-HasFuel :
      (s : Loader h) (r : Loader h × Result (Unit {0})) (f : Command h (Unit {0}))
      → HasFuel r.1
      → Later h s r
      → ((t : Loader h) → left t ≤ left s → HasFuel (f t).1)
      → HasFuel (and_then h r f).1
  and_then-HasFuel s (t, failed e) f k l next = k
  and_then-HasFuel s (t, loaded u) f k l next = next t (count-le paths s.by_path t.by_path l.known)

  resolve_import-Good :
      (n : ℕ) (again : Text → Command h ℕ) (i : Import) (current : Text) (s : Loader h)
      → Enough n again
      → left s < n
      → Good (resolve_import h again i current s)
  unfolding resolve_import
  resolve_import-Good n again i current s enough room = elim (Option-cases i.lang) [
    | inr (lang, e) ↦
        rw (e, resolve_import)
          (if_Good _ _ _ (if_Good _ _ _ (loaded-Good s tt) (failed-Good s foreign_failed tt))
            (loaded-Good s tt))
    | inl e ↦
        rw (e, resolve_import)
          (if_Good _ _ _ (loaded-Good s tt) (
            if_Good _ _ _ (discard-Good _ (enough (h.join (h.parent current) i.source) s room))
              (failed-Good s (unsupported i.source) tt)))
  ]

  resolve_all-HasFuel :
      (n : ℕ) (again : Text → Command h ℕ) (is : List Import) (current : Text) (s : Loader h)
      → AllLater h again
      → Enough n again
      → left s < n
      → HasFuel (resolve_all h again is current s).1
  unfolding resolve_all
  resolve_all-HasFuel n again [] current s l enough room = tt
  resolve_all-HasFuel n again (i ∷ is) current s l enough room =
      and_then-HasFuel s (resolve_import h again i current s) (resolve_all h again is current)
        (Good-HasFuel (resolve_import-Good n again i current s enough room))
        (resolve_import-Later h again i current s l)
        (λ t fewer. resolve_all-HasFuel n again is current t l enough (omega arith))

  left-enter :
      (canonical source : Text) (m : h.Module) (s : Loader h)
      → h.read canonical ≡ some source
      → s.by_path canonical ≡ none
      → left (enter h canonical source m s) < left s
  unfolding enter
  left-enter canonical source m s read fresh =
      count-lt paths s.by_path _ canonical (length s.files)
        (known_after h canonical source m s fresh) (readable canonical source read) fresh
        (rw (text_eq_refl canonical) refl)

  load_new-HasFuel :
      (n : ℕ) (again : Text → Command h ℕ) (canonical : Text) (s : Loader h)
      → AllLater h again
      → Enough n again
      → s.by_path canonical ≡ none
      → left s < suc n
      → HasFuel (load_new h again canonical s).1
  unfolding load_new
  load_new-HasFuel n again canonical s l enough fresh room =
      elim (Option-cases (h.read canonical)) [
        | inl e ↦ rw (e, load_new) tt
        | inr (source, e) ↦ elim (Option-cases (h.parse source canonical)) [
          | inl f ↦ rw (e, load_new) (rw f tt)
          | inr (m, f) ↦
              rw (e, load_new)
                (rw f (
                  leave-HasFuel (length s.files)
                    (resolve_all h again (h.imports m) canonical (enter h canonical source m s))
                    (resolve_all-HasFuel n again (h.imports m) canonical
                      (enter h canonical source m s) l enough
                      (omega (arith, left-enter canonical source m s e fresh)))))
        ]
      ]

  load_canonical-HasFuel :
      (n : ℕ) (again : Text → Command h ℕ) (canonical : Text) (s : Loader h)
      → AllLater h again
      → Enough n again
      → left s < suc n
      → HasFuel (load_canonical h again canonical s).1
  unfolding load_canonical
  load_canonical-HasFuel n again canonical s l enough room = Good-HasFuel (
      if_Good (contains canonical s.visiting) _ _
        (failed-Good s (circular (s.visiting ++ (canonical ∷ []))) tt)
        (not_visiting (s.by_path canonical) refl))
    where
      not_visiting :
          (o : Option ℕ)
          → s.by_path canonical ≡ o
          → Good {A = ℕ} (elim o [ none ↦ load_new h again canonical s | some id ↦ (s, loaded id) ])
      not_visiting none e = good (load_new-HasFuel n again canonical s l enough e room)
      not_visiting (some id) e = good tt

  load_path-HasFuel :
      (n : ℕ) (again : Text → Command h ℕ) (path : Text) (s : Loader h)
      → AllLater h again
      → Enough n again
      → left s < suc n
      → HasFuel (load_path h again path s).1
  unfolding load_path
  load_path-HasFuel n again path s l enough room =
      Good-HasFuel (found (canonicalize h s.root path) (canonicalize-HasFuel s.root path))
    where
      found :
          (r : Result Text)
          → HasFuel r
          → Good {A = ℕ}
              (elim r [ failed e ↦ (s, failed e) | loaded p ↦ load_canonical h again p s ])
      found (failed e) k = good k
      found (loaded p) k = good (load_canonical-HasFuel n again p s l enough room)

  load-Enough : (n : ℕ) → Enough n (load h n)
  unfolding load
  load-Enough zero path s room = absurd (omega arith)
  load-Enough (suc n) path s room =
      load_path-HasFuel n (load h n) path s (load-Later h n) (load-Enough n) room

  -- If every path that can be read is in a list, `load` with more fuel than the list is long never
  -- fails for want of fuel, whatever is loaded already.
  pub load-HasFuel :
      (fuel : ℕ) (path : Text) (s : Loader h) → length paths < fuel → HasFuel (load h fuel path s).1
  load-HasFuel fuel path s room =
      load-Enough fuel path s (omega (arith, count-length paths s.by_path))
