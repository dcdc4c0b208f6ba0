-- ===== src/Modules/Loader/Tests.antt =====
-- The loader on two files, of which the first imports the second.
use yidika.Base.{
  ◌≡◌, refl, inl, inr, Bool, true, false, none, some, List, [], ◌∷◌, ◌++◌, arith, if◌then◌else◌,
  Bool-cases, Text, codes, text_eq, text_eq_iff,
}
use yidika.Modules.Loader.{Import, Host, circular, unsupported, failed, Loader, load}
use yidika.Modules.Loader.Files.{IsValid, load-IsValid, load-visiting}
use yidika.Modules.Loader.Fuel.{HasFuel, IsIn, load-HasFuel}
use yidika.Modules.Loader.Retry.{load-load}

abbrev main : Text
main = codes "./m.yk"

abbrev util : Text
util = codes "./u.yk"

-- `fine` says whether the second file has no imports, or one that is not supported.
abbrev host : Bool → Host
host fine = record {
  Module = List Import;
  imports = λ m. m;
  is_absolute = λ p. true;
  join = λ p q. q;
  parent = λ p. p;
  with_yk = λ p. p;
  exists = λ p. true;
  real_path = λ p. some p;
  read = λ p. if text_eq p main then some [] else if text_eq p util then some [] else none;
  parse = λ t p.
      if text_eq p main
      then some ((record { source = util; lang = none }) ∷ [])
      else (if fine then some [] else some ((record { source = codes "u"; lang = none }) ∷ []));
  foreign = λ l p q. true;
}

abbrev empty : (fine : Bool) → Loader (host fine)
empty fine = record { files = []; by_path = λ p. none; visiting = []; root = codes "." }

empty-IsValid : (fine : Bool) → IsValid (host fine) (empty fine)
empty-IsValid fine = record { placed = λ i m e. absurd (cc); listed = λ p i e. absurd (cc) }

host-readable : (fine : Bool) (p t : Text) → (host fine).read p ≡ some t → IsIn p (main ∷ util ∷ [])
host-readable fine p t e = elim (Bool-cases (text_eq p main)) [
  | inl is ↦ inl ((text_eq_iff p main).0 is)
  | inr not ↦ elim (Bool-cases (text_eq p util)) [
    | inl is ↦ inr (inl ((text_eq_iff p util).0 is))
    | inr other ↦ absurd (cc (rw other at (rw not at e)))
  ]
]

load-HasFuel_example : HasFuel (load (host true) 3 main (empty true)).1
load-HasFuel_example =
    load-HasFuel (host true) (main ∷ util ∷ []) (host-readable true) 3 main (empty true)
      (omega arith)

load-IsValid_example : IsValid (host false) (load (host false) 3 main (empty false)).0
load-IsValid_example = load-IsValid (host false) 3 main (empty false) (empty-IsValid false)

load-visiting_example : (load (host true) 3 main (empty true)).0.visiting ≡ []
unfolding load text_eq
load-visiting_example =
    load-visiting (host true) 3 main (empty true) (load (host true) 3 main (empty true)).0 0 refl

load-load_example : load (host false) 3 main (load (host false) 3 main (empty false)).0 ≡ (
  (load (host false) 3 main (empty false)).0,
  failed (circular ((load (host false) 3 main (empty false)).0.visiting ++ (main ∷ []))),
)
unfolding load text_eq
load-load_example =
    load-load (host false) 2 2 main main [] ((record { source = util; lang = none }) ∷ [])
      (empty false) (load (host false) 3 main (empty false)).0 (unsupported (codes "u")) refl refl
      refl refl refl refl
