-- ===== src/Modules/Loader/Files.antt =====
-- What a load keeps.
use yidika.Base.{
  contains, ℕ, zero, suc, ◌≡◌, refl, sym, ap, ◌∙◌, ◌⊎◌, inl, inr, Bool, true, false, Option, none,
  some, List, [], ◌∷◌, ◌++◌, arith, length, get_elem?, if◌then◌else◌, Bool-cases, Option-cases,
  Text, text_eq, text_eq_iff, text_eq_refl, subst, get_elem?-append_left, get_elem?-concat_self,
  get_elem?-concat_cases,
}
use yidika.Modules.Loader.{
  Import, Host, Failure, Result, loaded, failed, pop, LoadedModule, Loader, Command, canonicalize,
  enter, leave, discard, and_then, resolve_import, resolve_all, load_new, load_canonical, load_path,
  load,
}

append_empty : {A : Type 0} (xs : List A) → xs ++ [] ≡ xs
append_empty [] = refl
append_empty (x ∷ xs) = ap (λ ys. x ∷ ys) (append_empty xs)

pub append_assoc : {A : Type 0} (xs ys zs : List A) → (xs ++ ys) ++ zs ≡ xs ++ (ys ++ zs)
append_assoc [] ys zs = refl
append_assoc (x ∷ xs) ys zs = ap (λ t. x ∷ t) (append_assoc xs ys zs)

pop-append : (xs : List Text) (p : Text) → pop (xs ++ (p ∷ [])) ≡ xs
unfolding pop
pop-append [] p = refl
pop-append (x ∷ []) p = refl
pop-append (x ∷ y ∷ xs) p = ap (λ t. x ∷ t) (pop-append (y ∷ xs) p)

abbrev pub IsLoaded : {A : Type 0} → Result A → Type 0
IsLoaded (loaded a) = Unit {0}
IsLoaded (failed e) = ⊥

module _ (h : Host) where
  -- The files have their places as identifiers, and the table of paths is the table of the files.
  pub record IsValid (s : Loader h) : Type 0 where
    pub placed :
        (i : ℕ) (m : LoadedModule h)
        → get_elem? s.files i ≡ some m
        → (m.id ≡ i) × (s.by_path m.path ≡ some i)
    pub listed :
        (p : Text) (i : ℕ)
        → s.by_path p ≡ some i
        → (m : LoadedModule h) × (get_elem? s.files i ≡ some m) × (m.path ≡ p)

  -- From one loader to a later one: files, paths and the paths in work are only added, and the
  -- latter are the same again if the work succeeded.
  pub record Later {A : Type 0} (s : Loader h) (t : Loader h × Result A) : Type 0 where
    pub root_same : t.0.root ≡ s.root
    pub more : (ps : List Text) × (t.0.visiting ≡ s.visiting ++ ps)
    pub back : IsLoaded t.1 → t.0.visiting ≡ s.visiting
    pub known : (p : Text) (i : ℕ) → s.by_path p ≡ some i → t.0.by_path p ≡ some i
    pub valid : IsValid s → IsValid t.0

  same : {A : Type 0} (s : Loader h) (r : Result A) → Later s (s, r)
  same s r = record {
    root_same = refl;
    more = ([], sym (append_empty s.visiting));
    back = λ _. refl;
    known = λ p i e. e;
    valid = λ v. v;
  }

  compose :
      {A B : Type 0} (s t : Loader h) (a : A) (r : Loader h × Result B)
      → Later s (t, loaded a)
      → Later t r
      → Later s r
  compose s t a r first second =
      let (ps, e) = second.more in
      record {
        root_same = second.root_same ∙ first.root_same;
        more = (ps, rw (← first.back tt) e);
        back = λ k. second.back k ∙ first.back tt;
        known = λ p i k. second.known p i (first.known p i k);
        valid = λ v. second.valid (first.valid v);
      }

  discard-Later : (s : Loader h) (r : Loader h × Result ℕ) → Later s r → Later s (discard h r)
  discard-Later s (t, loaded id) l = record {
    root_same = l.root_same;
    more = l.more;
    back = l.back;
    known = l.known;
    valid = l.valid;
  }
  discard-Later s (t, failed e) l = record {
    root_same = l.root_same;
    more = l.more;
    back = l.back;
    known = l.known;
    valid = l.valid;
  }

  and_then-Later :
      (s : Loader h) (r : Loader h × Result (Unit {0})) (f : Command h (Unit {0}))
      → Later s r
      → ((t : Loader h) → Later t (f t))
      → Later s (and_then h r f)
  and_then-Later s (t, loaded u) f l k = compose s t u (f t) l (k t)
  and_then-Later s (t, failed e) f l k = l

  -- What is known of the recursive calls of `load`.
  abbrev pub AllLater : (Text → Command h ℕ) → Type 0
  AllLater again = (path : Text) (s : Loader h) → Later s (again path s)

  if_later :
      {A : Type 0} (s : Loader h) (b : Bool) (x y : Loader h × Result A)
      → Later s x
      → Later s y
      → Later s (if b then x else y)
  if_later s true x y l k = l
  if_later s false x y l k = k

  pub resolve_import-Later :
      (again : Text → Command h ℕ) (i : Import) (current : Text) (s : Loader h)
      → AllLater again
      → Later s (resolve_import h again i current s)
  unfolding resolve_import
  resolve_import-Later again i current s l = elim (Option-cases i.lang) [
    | inr (lang, e) ↦
        rw (e, resolve_import)
          (if_later s _ _ _ (if_later s _ _ _ (same s _) (same s _)) (same s _))
    | inl e ↦
        rw (e, resolve_import)
          (if_later s _ _ _ (same s _) (
            if_later s _ _ _ (discard-Later s _ (l (h.join (h.parent current) i.source) s))
              (same s _)))
  ]

  pub resolve_all-Later :
      (again : Text → Command h ℕ) (is : List Import) (current : Text) (s : Loader h)
      → AllLater again
      → Later s (resolve_all h again is current s)
  unfolding resolve_all
  resolve_all-Later again [] current s l = same s _
  resolve_all-Later again (i ∷ is) current s l =
      and_then-Later s (resolve_import h again i current s) (resolve_all h again is current)
        (resolve_import-Later again i current s l) (λ t. resolve_all-Later again is current t l)

  enter-IsValid :
      (canonical source : Text) (m : h.Module) (s : Loader h)
      → s.by_path canonical ≡ none
      → IsValid s
      → IsValid (enter h canonical source m s)
  unfolding enter
  enter-IsValid canonical source m s fresh v = record {
    placed = λ i n e. elim (get_elem?-concat_cases s.files new i e) [
      | inl old ↦ ((v.placed i n old).0, old_path n.path i (v.placed i n old).1)
      | inr (at_end, e') ↦ (
        ap (λ (k : LoadedModule h). k.id) e' ∙ sym at_end,
        rw (e', text_eq_refl canonical, at_end) refl,
      )
    ];
    listed = λ p i e. elim (Bool-cases (text_eq canonical p)) [
      | inl is ↦ (
        new,
        rw (← index p i is e) (get_elem?-concat_self s.files new),
        (text_eq_iff canonical p).0 is,
      )
      | inr not ↦
          (let (n, at, path) = v.listed p i (rw not at e) in
            (n, get_elem?-append_left s.files _ i at, path))
    ];
  }
    where
      new : LoadedModule h
      new = record { id = length s.files; path = canonical; module_ = m; source = source }

      old_path :
          (p : Text) (i : ℕ)
          → s.by_path p ≡ some i
          → (if text_eq canonical p then some (length s.files) else s.by_path p) ≡ some i
      old_path p i e = elim (Bool-cases (text_eq canonical p)) [
        | inl is ↦ absurd (cc (ap s.by_path ((text_eq_iff canonical p).0 is), fresh, e))
        | inr not ↦ rw not e
      ]

      index :
          (p : Text) (i : ℕ)
          → text_eq canonical p ≡ true
          → (if text_eq canonical p then some (length s.files) else s.by_path p) ≡ some i
          → length s.files ≡ i
      index p i is e = ground arith

  pub known_after :
      (canonical source : Text) (m : h.Module) (s : Loader h)
      → s.by_path canonical ≡ none
      → (p : Text) (i : ℕ) → s.by_path p ≡ some i
      → (enter h canonical source m s).by_path p ≡ some i
  unfolding enter
  known_after canonical source m s fresh p i e = elim (Bool-cases (text_eq canonical p)) [
    | inl is ↦ absurd (cc (ap s.by_path ((text_eq_iff canonical p).0 is), fresh, e))
    | inr not ↦ rw not e
  ]

  left_Later :
      (canonical source : Text) (m : h.Module) (s : Loader h)
      → s.by_path canonical ≡ none
      → (r : Loader h × Result (Unit {0})) → Later (enter h canonical source m s) r
      → Later s (leave h (length s.files) r)
  unfolding enter
  left_Later canonical source m s fresh (t, failed e) l = record {
    root_same = l.root_same;
    more = (canonical ∷ l.more.0, l.more.1 ∙ append_assoc s.visiting (canonical ∷ []) l.more.0);
    back = λ k. absurd k;
    known = λ p i k. l.known p i (known_after canonical source m s fresh p i k);
    valid = λ v. l.valid (enter-IsValid canonical source m s fresh v);
  }
  left_Later canonical source m s fresh (t, loaded u) l =
      let restored : pop t.visiting ≡ s.visiting =
        ap pop (l.back tt) ∙ pop-append s.visiting canonical in
      record {
        root_same = l.root_same;
        more = ([], restored ∙ sym (append_empty s.visiting));
        back = λ k. restored;
        known = λ p i k. l.known p i (known_after canonical source m s fresh p i k);
        valid = λ v. popped t (l.valid (enter-IsValid canonical source m s fresh v));
      }
    where
      popped : (t : Loader h) → IsValid t → IsValid (record t { visiting = pop t.visiting })
      popped t v = record { placed = v.placed; listed = v.listed }

  load_new-Later :
      (again : Text → Command h ℕ) (canonical : Text) (s : Loader h)
      → AllLater again
      → s.by_path canonical ≡ none
      → Later s (load_new h again canonical s)
  unfolding load_new
  load_new-Later again canonical s l fresh = elim (Option-cases (h.read canonical)) [
    | inl e ↦ rw (e, load_new) (same s _)
    | inr (source, e) ↦ elim (Option-cases (h.parse source canonical)) [
      | inl f ↦ rw (e, load_new) (rw f (same s _))
      | inr (m, f) ↦
          rw (e, load_new)
            (rw f (
              left_Later canonical source m s fresh
                (resolve_all h again (h.imports m) canonical (enter h canonical source m s))
                (resolve_all-Later again (h.imports m) canonical (enter h canonical source m s) l)))
    ]
  ]

  load_canonical-Later :
      (again : Text → Command h ℕ) (canonical : Text) (s : Loader h)
      → AllLater again
      → Later s (load_canonical h again canonical s)
  unfolding load_canonical
  load_canonical-Later again canonical s l =
      if_later s (contains canonical s.visiting) _ _ (same s _)
        (not_visiting (s.by_path canonical) refl)
    where
      not_visiting :
          (o : Option ℕ)
          → s.by_path canonical ≡ o
          → Later {A = ℕ} s
              (elim o [ none ↦ load_new h again canonical s | some id ↦ (s, loaded id) ])
      not_visiting none e = load_new-Later again canonical s l e
      not_visiting (some id) e = same s _

  real_cases : (r : Result Text) → ((e : Failure) × (r ≡ failed e)) ⊎ ((p : Text) × (r ≡ loaded p))
  real_cases (failed e) = inl (e, refl)
  real_cases (loaded p) = inr (p, refl)

  load_path-Later :
      (again : Text → Command h ℕ) (path : Text) (s : Loader h)
      → AllLater again
      → Later s (load_path h again path s)
  unfolding load_path
  load_path-Later again path s l = elim (real_cases (canonicalize h s.root path)) [
    | inl (e, k) ↦ rw (k, load_path) (same s _)
    | inr (p, k) ↦ rw (k, load_path) (load_canonical-Later again p s l)
  ]

  pub load-Later : (fuel : ℕ) → AllLater (load h fuel)
  unfolding load
  load-Later zero path s = same s _
  load-Later (suc fuel) path s = load_path-Later (load h fuel) path s (load-Later fuel)

  -- Every call of `load`, also one that fails, keeps the loader valid: each file has its place as
  -- its identifier, and the table of paths lists each file, under its path, and nothing else.
  pub load-IsValid :
      (fuel : ℕ) (path : Text) (s : Loader h) → IsValid s → IsValid (load h fuel path s).0
  load-IsValid fuel path s v = (load-Later fuel path s).valid v

  -- A load that succeeds leaves no path in work behind.
  pub load-visiting :
      (fuel : ℕ) (path : Text) (s t : Loader h) (id : ℕ)
      → load h fuel path s ≡ (t, loaded id)
      → t.visiting ≡ s.visiting
  load-visiting fuel path s t id e =
      sym (ap (λ (r : Loader h × Result ℕ). r.0.visiting) e)
      ∙ (load-Later fuel path s).back (subst (λ (r : Loader h × Result ℕ). IsLoaded r.1) (sym e) tt)
