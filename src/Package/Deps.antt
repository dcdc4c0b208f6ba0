-- ===== src/Package/Deps.antt =====
-- src/package/mod.rs: `Deps`, a `BTreeMap<String, String>`: pairs in the order of their keys, which is
-- the order of their code points. A table of the TOML library is a map of the same kind, with other
-- values.
pub mod Order
use yidika.Base.{
  Bool, true, false, ◌||◌, ◌&&◌, List, [], ◌∷◌, Option, none, some, ltb, ◌==◌, if◌then◌else◌, Text,
  text_eq, ◌≡◌, refl, arith, text_eq_iff,
}

unfoldable pub text_lt : Text → Text → Bool
text_lt [] [] = false
text_lt [] (d ∷ t) = true
text_lt (c ∷ s) [] = false
text_lt (c ∷ s) (d ∷ t) = ltb c d || (c == d && text_lt s t)

-- `BTreeMap<String, A>`
abbrev pub BTreeMap : Type 0 → Type 0
BTreeMap A = List (Text × A)

abbrev pub Deps : Type 0
Deps = BTreeMap Text

-- `BTreeMap::get`
unfoldable pub get : {A : Type 0} → Text → BTreeMap A → Option A
get k [] = none
get k ((j, v) ∷ m) = if text_eq j k then some v else get k m

abbrev pub is_found : {A : Type 0} → Option A → Bool
is_found none = false
is_found (some v) = true

-- `BTreeMap::contains_key`
unfoldable pub contains_key : {A : Type 0} → Text → BTreeMap A → Bool
unfolding get
contains_key k m = is_found (get k m)

-- `BTreeMap::insert`
unfoldable pub insert : {A : Type 0} → Text → A → BTreeMap A → BTreeMap A
unfolding text_lt
insert k v [] = (k, v) ∷ []
insert k v ((j, w) ∷ m) =
    if text_eq j k
    then (k, v) ∷ m
    else if text_lt k j
    then (k, v) ∷ (j, w) ∷ m
    else (j, w) ∷ insert k v m

-- The pairs, inserted one after the other.
unfoldable pub insert_all : {A : Type 0} → List (Text × A) → BTreeMap A → BTreeMap A
unfolding insert
insert_all [] m = m
insert_all ((k, v) ∷ kvs) m = insert_all kvs (insert k v m)

-- Another value at each key.
unfoldable pub map_values : {A B : Type 0} → (A → B) → BTreeMap A → BTreeMap B
map_values f [] = []
map_values f ((k, v) ∷ m) = (k, f v) ∷ map_values f m

pub get-insert :
    {A : Type 0} (k j : Text) (v : A) (m : BTreeMap A)
    → get j (insert k v m) ≡ (if text_eq k j then some v else get j m)
unfolding get insert
get-insert k j v [] = refl
get-insert k j v ((i, w) ∷ m) =
    ground (arith, text_eq_iff k j, text_eq_iff i k, text_eq_iff i j, get-insert k j v m)
