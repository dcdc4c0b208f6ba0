-- ===== src/Package/Tests.antt =====
-- The package commands on a host that is a manifest and the folders of `lib`.
use yidika.Base.{
  ◌≡◌, refl, ap, sym, true, false, Bool, ◌||◌, Option, none, some, [], ◌∷◌, Text, codes, text_eq,
  text_eq_refl, ◌∙◌,
}
use yidika.Package.Deps.{BTreeMap, Deps, get, insert, contains_key}
use yidika.Package.Deps.Order.{InOrder}
use yidika.Package.Spec.{spec, parse_spec, contains_char}
use yidika.Package.Spec.Names.{contains_char-parse_spec}
use yidika.Package.Manifest.{
  already, host_failed, Result, ok, err, Host, load_manifest, save_manifest, root_table,
}
use yidika.Package.Manifest.Laws.{IsOrdinary, HostLaws, load_manifest-save_manifest}
use yidika.Package.Commands.{add}
use yidika.Package.Commands.Laws.{add-insert, add-add}

mutual
  -- Values of TOML, as far as the manifest needs them.
  data Toml : Type 0 where
    string : Text → Toml
    table : Entries → Toml

  data Entries : Type 0 where
    enil : Entries
    entry : Text → Toml → Entries → Entries

abbrev entries : BTreeMap Toml → Entries
entries [] = enil
entries ((k, v) ∷ m) = entry k v (entries m)

abbrev pairs : Entries → BTreeMap Toml
pairs enil = []
pairs (entry k v m) = (k, v) ∷ pairs m

pairs-entries : (m : BTreeMap Toml) → pairs (entries m) ≡ m
pairs-entries [] = refl
pairs-entries ((k, v) ∷ m) = ap (λ (r : BTreeMap Toml). (k, v) ∷ r) (pairs-entries m)

abbrev as_text : Toml → Option Text
as_text (string t) = some t
as_text (table m) = none

abbrev as_pairs : Toml → Option (BTreeMap Toml)
as_pairs (string t) = none
as_pairs (table m) = some (pairs m)

abbrev value_at : Text → Toml → Option Toml
value_at k (string t) = none
value_at k (table m) = get k (pairs m)

-- The manifest, whose text is the value itself, and the folders of `lib`.
abbrev Files : Type 0
Files = Option Toml × (Text → Bool)

abbrev exists : Option Toml → Bool
exists none = false
exists (some d) = true

-- `online` says whether a clone succeeds.
abbrev host : Bool → Host
host online = record {
  State = Files;
  Content = Toml;
  Value = Toml;
  string_value = λ t. string t;
  table_value = λ m. table (entries m);
  as_str = as_text;
  as_table = as_pairs;
  get_value = value_at;
  parse = λ c. some c;
  to_string = λ v. some v;
  manifest_exists = λ s. exists s.0;
  read_to_string = λ s. s.0;
  write = λ c s. ((some c, s.1), ok tt);
  create_lib = λ s. (s, ok tt);
  target_exists = λ name s. s.1 name;
  remove_dir_all =
      λ name s. ((s.0, λ y. elim (text_eq name y) [ true ↦ false | false ↦ s.1 y ]), ok tt);
  clone = λ url name s. elim online [
    | true ↦ ((s.0, λ y. text_eq name y || s.1 y), ok tt)
    | false ↦ (s, err host_failed)
  ];
  pull = λ name s. (s, ok tt);
}

abbrev Outcome : Type 0
Outcome = Files × Result (Unit {0})

written_lem :
    (c : Toml) (f : Text → Bool) (s' : Files)
    → ◌≡◌ {A = Outcome} ((some c, f), ok tt) (s', ok tt)
    → (exists s'.0 ≡ true) × (s'.0 ≡ some c)
written_lem c f s' e =
    (sym (ap (λ (p : Outcome). exists p.0.0) e), sym (ap (λ (p : Outcome). p.0.0) e))

or_stays : (a b : Bool) → b ≡ true → (a || b) ≡ true
or_stays true b h = refl
or_stays false b h = h

cloned_at :
    (name : Text) (m : Option Toml) (f : Text → Bool) (s' : Files)
    → ◌≡◌ {A = Outcome} ((m, λ y. text_eq name y || f y), ok tt) (s', ok tt)
    → s'.1 name ≡ true
cloned_at name m f s' e = sym (ap (λ (p : Outcome). p.0.1 name) e) ∙ rw (text_eq_refl name) refl

host-HostLaws : (online : Bool) → HostLaws (host online)
host-HostLaws online = record {
  as_str_string = λ t. refl;
  as_table_table = λ m. ap (λ (r : BTreeMap Toml). some r) (pairs-entries m);
  get_value_table = λ k m. ap (get k) (pairs-entries m);
  parse_printed = λ v c e. sym e;
  written = λ c s s' e. written_lem c s.1 s' e;
  create_keeps = λ s. (refl, refl);
  remove_keeps = λ name s o. (refl, refl);
  clone_keeps = λ url name s o. keeps online url name s;
  clone_makes = λ url name s s' e. makes online url name s s' e;
  clone_stays = λ url name other s h. stays online url name other s h;
  pull_stays = λ name other s h. h;
}
  where
    keeps :
        (b : Bool) (url name : Text) (s : Files)
        → (exists ((host b).clone url name s).0.0 ≡ exists s.0)
          × (((host b).clone url name s).0.0 ≡ s.0)
    keeps true url name s = (refl, refl)
    keeps false url name s = (refl, refl)

    makes :
        (b : Bool) (url name : Text) (s s' : Files)
        → (host b).clone url name s ≡ (s', ok tt)
        → s'.1 name ≡ true
    makes true url name s s' e = cloned_at name s.0 s.1 s' e
    makes false url name s s' e = absurd (cc)

    stays :
        (b : Bool) (url name other : Text) (s : Files)
        → s.1 other ≡ true
        → ((host b).clone url name s).0.1 other ≡ true
    stays true url name other s h = or_stays (text_eq name other) (s.1 other) h
    stays false url name other s h = h

abbrev text : Text
text = codes "github:a/b.c"

abbrev name : Text
name = codes "b.c"

abbrev url : Text
url = codes "https://github.com/a/b.c.git"

abbrev old : Deps
old = (codes "a", codes "x://a") ∷ []

abbrev files : Files
unfolding root_table
files = (some (root_table (host true) old), λ y. false)

-- The folder above `lib` is accepted as a package.
parent_parsed :
    parse_spec (codes "github:a/..") ≡ spec (codes "..") (codes "https://github.com/a/...git")
unfolding parse_spec
parent_parsed = refl

name-IsOrdinary : IsOrdinary name
name-IsOrdinary = (λ h. cc, λ h. cc, λ h. cc)

parsed : parse_spec text ≡ spec name url
unfolding parse_spec
parsed = refl

old-InOrder : InOrder old
old-InOrder = (tt, tt)

load_manifest-save_manifest_example :
    load_manifest (host true) (save_manifest (host true) old files).0 ≡ ok old
unfolding save_manifest
load_manifest-save_manifest_example =
    load_manifest-save_manifest (host true) (host-HostLaws true) old files
      (save_manifest (host true) old files).0 old-InOrder refl

add-insert_example :
    (contains_key name old ≡ false)
    × (load_manifest (host true) (add (host true) text files).0 ≡ ok (insert name url old))
unfolding add contains_key text_eq load_manifest save_manifest
add-insert_example =
    add-insert (host true) (host-HostLaws true) text files (add (host true) text files).0 old name
      url parsed name-IsOrdinary refl refl

add-add_example :
    add (host false) text (add (host false) text files).0
    ≡ ((add (host false) text files).0, err (already name))
unfolding add contains_key text_eq load_manifest save_manifest
add-add_example =
    add-add (host false) (host-HostLaws false) text name url old files _ parsed name-IsOrdinary refl
      refl

contains_char-parse_spec_example : contains_char b'/' name ≡ false
contains_char-parse_spec_example = contains_char-parse_spec text name url parsed
