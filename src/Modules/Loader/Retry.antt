-- ===== src/Modules/Loader/Retry.antt =====
-- What a failed load leaves behind, and which file a load gives.
use yidika.Base.{
  contains, ℕ, suc, ◌≡◌, refl, sym, ap, ◌∙◌, true, false, none, some, List, [], ◌∷◌, ◌++◌, arith,
  length, Text, text_eq_refl,
}
use yidika.Modules.Loader.{
  Host, Failure, circular, Result, loaded, failed, Loader, Command, canonicalize, enter, leave,
  resolve_all, load_new, load_canonical, load_path, load,
}
use yidika.Modules.Loader.Files.{Later, resolve_all-Later, load-Later, append_assoc}

contains-append : (p : Text) (qs rs : List Text) → contains p (qs ++ (p ∷ rs)) ≡ true
unfolding contains
contains-append p [] rs = rw (text_eq_refl p) refl
contains-append p (q ∷ qs) rs = ground (arith, contains-append p qs rs)

module _ (h : Host) where
  -- The path of the file is in work, after a load that failed in its imports.
  leave-failed :
      (id : ℕ) (r : Loader h × Result (Unit {0})) (t : Loader h) (e : Failure)
      → leave h id r ≡ (t, failed e)
      → r.0 ≡ t
  leave-failed id (s, failed e') t e k = ap (λ (x : Loader h × Result ℕ). x.0) k
  leave-failed id (s, loaded u) t e k = absurd (cc (ap (λ (x : Loader h × Result ℕ). x.1) k))

  entered :
      (again : Text → Command h ℕ) (canonical source : Text) (m : h.Module) (s : Loader h)
      → contains canonical s.visiting ≡ false
      → s.by_path canonical ≡ none
      → h.read canonical ≡ some source
      → h.parse source canonical ≡ some m
      → load_canonical h again canonical s
        ≡ leave h
            (length s.files)
            (resolve_all h again (h.imports m) canonical (enter h canonical source m s))
  unfolding load_canonical load_new
  entered again canonical source m s free fresh read parsed =
      rw (free, load_canonical) (rw fresh (rw (read, load_new) (rw parsed refl)))

  found :
      (again : Text → Command h ℕ) (path canonical : Text) (s : Loader h)
      → canonicalize h s.root path ≡ loaded canonical
      → load_path h again path s ≡ load_canonical h again canonical s
  unfolding load_path
  found again path canonical s e = rw (e, load_path) refl

  load-suc :
      (n : ℕ) (path : Text) (s : Loader h) → load h (suc n) path s ≡ load_path h (load h n) path s
  unfolding load
  load-suc n path s = refl

  still_visiting :
      (canonical source : Text) (m : h.Module) (s : Loader h) (r : Loader h × Result (Unit {0}))
      → Later h (enter h canonical source m s) r
      → contains canonical r.0.visiting ≡ true
  unfolding enter
  still_visiting canonical source m s r l =
      rw (l.more.1, append_assoc s.visiting (canonical ∷ []) l.more.0)
        (contains-append canonical s.visiting l.more.0)

  circular_again :
      (again : Text → Command h ℕ) (canonical : Text) (t : Loader h)
      → contains canonical t.visiting ≡ true
      → load_canonical h again canonical t ≡ (t, failed (circular (t.visiting ++ (canonical ∷ []))))
  unfolding load_canonical
  circular_again again canonical t e = rw (e, load_canonical) refl

  same_root :
      (canonical source : Text) (m : h.Module) (s : Loader h) (r : Loader h × Result (Unit {0}))
      → Later h (enter h canonical source m s) r
      → r.0.root ≡ s.root
  unfolding enter
  same_root canonical source m s r l = l.root_same

  -- After a load that read and parsed its file and then failed in the imports, the next load of the
  -- same path is refused as a circular import, and changes nothing.
  pub load-load :
      (n k : ℕ) (path canonical source : Text) (m : h.Module) (s t : Loader h) (e : Failure)
      → canonicalize h s.root path ≡ loaded canonical
      → contains canonical s.visiting ≡ false
      → s.by_path canonical ≡ none
      → h.read canonical ≡ some source
      → h.parse source canonical ≡ some m
      → load h (suc n) path s ≡ (t, failed e)
      → load h (suc k) path t ≡ (t, failed (circular (t.visiting ++ (canonical ∷ []))))
  load-load n k path canonical source m s t e real free fresh read parsed result =
      let r = resolve_all h (load h n) (h.imports m) canonical (enter h canonical source m s) in
      let l =
        resolve_all-Later h (load h n) (h.imports m) canonical (enter h canonical source m s)
          (load-Later h n) in
      let is : r.0 ≡ t = leave-failed (length s.files) r t e (
        sym (
          load-suc n path s
          ∙ found (load h n) path canonical s real
          ∙ entered (load h n) canonical source m s free fresh read parsed)
        ∙ result) in
      let root : t.root ≡ s.root =
        sym (ap (λ (x : Loader h). x.root) is) ∙ same_root canonical source m s r l in
      load-suc k path t
      ∙ found (load h k) path canonical t (ap (λ x. canonicalize h x path) root ∙ real)
      ∙ circular_again (load h k) canonical t (
          sym (ap (λ (x : Loader h). contains canonical x.visiting) is)
          ∙ still_visiting canonical source m s r l)
