-- ===== src/Package/Deps/Order.antt =====
-- The maps of `BTreeMap` are in order, and a map in order is what its pairs give when they are
-- inserted one after the other.
use yidika.Base.{
  true, false, List, [], ◌∷◌, ◌++◌, Text, text_eq, ◌≡◌, refl, arith, text_eq_iff, All, inl, inr,
  Bool-cases, ap, ◌∙◌, sym, All-append,
}
use yidika.Package.Deps.{text_lt, BTreeMap, insert, insert_all, map_values}

text_lt_asym : (a b : Text) → text_lt a b ≡ true → text_lt b a ≡ false
unfolding text_lt
text_lt_asym [] (d ∷ t) h = refl
text_lt_asym (c ∷ s) (d ∷ t) h = ground (arith, text_lt_asym s t)
text_lt_asym [] [] h = refl
text_lt_asym (c ∷ s) [] h = absurd (cc)

text_lt_neq : (a b : Text) → text_lt a b ≡ true → text_eq a b ≡ false
unfolding text_lt text_eq
text_lt_neq [] (d ∷ t) h = refl
text_lt_neq (c ∷ s) (d ∷ t) h = ground (arith, text_lt_neq s t)
text_lt_neq [] [] h = absurd (cc)
text_lt_neq (c ∷ s) [] h = refl

text_lt_trans : (a b c : Text) → text_lt a b ≡ true → text_lt b c ≡ true → text_lt a c ≡ true
unfolding text_lt
text_lt_trans [] (y ∷ b) (z ∷ c) h k = refl
text_lt_trans (x ∷ a) (y ∷ b) (z ∷ c) h k = ground (arith, text_lt_trans a b c)
text_lt_trans [] [] c h k = absurd (cc)
text_lt_trans (x ∷ a) [] c h k = absurd (cc)
text_lt_trans [] (y ∷ b) [] h k = absurd (cc)
text_lt_trans (x ∷ a) (y ∷ b) [] h k = absurd (cc)

text_lt_total : (a b : Text) → text_eq b a ≡ false → text_lt a b ≡ false → text_lt b a ≡ true
unfolding text_lt text_eq
text_lt_total [] [] h k = absurd (cc)
text_lt_total [] (y ∷ b) h k = absurd (cc)
text_lt_total (x ∷ a) [] h k = refl
text_lt_total (x ∷ a) (y ∷ b) h k = ground (arith, text_lt_total a b)

module _ {A : Type 0} where
  -- Each key is after `k`.
  abbrev After : Text → BTreeMap A → Type 0
  After k m = All (λ d. text_lt k d.0 ≡ true) m

  -- The keys are in strict order.
  abbrev pub InOrder : BTreeMap A → Type 0
  InOrder [] = Unit {0}
  InOrder ((k, v) ∷ m) = After k m × InOrder m

  After-mono : (j k : Text) (m : BTreeMap A) → text_lt j k ≡ true → After k m → After j m
  After-mono j k [] h a = tt
  After-mono j k ((i, v) ∷ m) h a = (text_lt_trans j k i h a.0, After-mono j k m h a.1)

  After-insert :
      (j k : Text) (v : A) (m : BTreeMap A)
      → text_lt j k ≡ true
      → After j m
      → After j (insert k v m)
  unfolding insert
  After-insert j k v [] h a = (h, tt)
  After-insert j k v ((i, w) ∷ m) h a = elim (Bool-cases (text_eq i k)) [
    | inl e ↦ rw (e, insert) (h, a.1)
    | inr e ↦ elim (Bool-cases (text_lt k i)) [
      | inl f ↦ rw (e, insert) (rw (f, insert) (h, a))
      | inr f ↦ rw (e, insert) (rw (f, insert) (a.0, After-insert j k v m h a.1))
    ]
  ]

  pub InOrder-insert : (k : Text) (v : A) (m : BTreeMap A) → InOrder m → InOrder (insert k v m)
  unfolding insert
  InOrder-insert k v [] o = (tt, tt)
  InOrder-insert k v ((i, w) ∷ m) o = elim (Bool-cases (text_eq i k)) [
    | inl e ↦ let same : i ≡ k = (text_eq_iff i k).0 e in rw (e, insert) (rw (← same) o)
    | inr e ↦ elim (Bool-cases (text_lt k i)) [
      | inl f ↦ rw (e, insert) (rw (f, insert) ((f, After-mono k i m f o.0), o))
      | inr f ↦
          rw (e, insert)
            (rw (f, insert)
              (After-insert i k v m (text_lt_total k i e f) o.0, InOrder-insert k v m o.1))
    ]
  ]

  pub InOrder-insert_all :
      (kvs : List (Text × A)) (m : BTreeMap A) → InOrder m → InOrder (insert_all kvs m)
  unfolding insert_all
  InOrder-insert_all [] m o = o
  InOrder-insert_all ((k, v) ∷ kvs) m o =
      InOrder-insert_all kvs (insert k v m) (InOrder-insert k v m o)

  -- Each key is before `k`.
  abbrev Before : BTreeMap A → Text → Type 0
  Before m k = All (λ d. text_lt d.0 k ≡ true) m

  insert_last : (k : Text) (v : A) (m : BTreeMap A) → Before m k → insert k v m ≡ m ++ ((k, v) ∷ [])
  unfolding insert
  insert_last k v [] b = refl
  insert_last k v ((j, w) ∷ m) b =
      rw (text_lt_neq j k b.0, insert)
        (rw (text_lt_asym j k b.0, insert) (ap (λ r. (j, w) ∷ r) (insert_last k v m b.1)))

  Before-each :
      (k : Text) (v : A) (m kvs : BTreeMap A)
      → All (λ d. Before m d.0) kvs
      → After k kvs
      → All (λ d. Before (m ++ ((k, v) ∷ [])) d.0) kvs
  Before-each k v m [] b a = tt
  Before-each k v m (d ∷ kvs) b a = (
    All-append (λ (e : Text × A). text_lt e.0 d.0 ≡ true) m ((k, v) ∷ []) b.0 (a.0, tt),
    Before-each k v m kvs b.1 a.1,
  )

  append-nil : (m : BTreeMap A) → m ++ [] ≡ m
  append-nil [] = refl
  append-nil (d ∷ m) = ap (λ r. d ∷ r) (append-nil m)

  append-cons : (m kvs : BTreeMap A) (d : Text × A) → (m ++ (d ∷ [])) ++ kvs ≡ m ++ (d ∷ kvs)
  append-cons [] kvs d = refl
  append-cons (e ∷ m) kvs d = ap (λ r. e ∷ r) (append-cons m kvs d)

  insert_all-append :
      (kvs m : BTreeMap A) → InOrder kvs → All (λ d. Before m d.0) kvs → insert_all kvs m ≡ m ++ kvs
  unfolding insert_all
  insert_all-append [] m o b = sym (append-nil m)
  insert_all-append ((k, v) ∷ kvs) m o b = rw (insert_last k v m b.0) (
      insert_all-append kvs (m ++ ((k, v) ∷ [])) o.1 (Before-each k v m kvs b.1 o.0)
      ∙ append-cons m kvs (k, v))

  Before-nil : (kvs : BTreeMap A) → All (λ d. Before [] d.0) kvs
  Before-nil [] = tt
  Before-nil (d ∷ kvs) = (tt, Before-nil kvs)

  -- A map in order is what its pairs give, inserted into the empty map.
  pub insert_all-InOrder : (m : BTreeMap A) → InOrder m → insert_all m [] ≡ m
  insert_all-InOrder m o = insert_all-append m [] o (Before-nil m)

module _ {A B : Type 0} (f : A → B) where
  After-map_values : (k : Text) (m : BTreeMap A) → After k m → After k (map_values f m)
  unfolding map_values
  After-map_values k [] a = tt
  After-map_values k (d ∷ m) a = (a.0, After-map_values k m a.1)

  pub InOrder-map_values : (m : BTreeMap A) → InOrder m → InOrder (map_values f m)
  unfolding map_values
  InOrder-map_values [] o = tt
  InOrder-map_values ((k, v) ∷ m) o = (After-map_values k m o.0, InOrder-map_values m o.1)
