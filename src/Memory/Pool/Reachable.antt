-- ===== src/Memory/Pool/Reachable.antt =====
-- The pools that the operations can lead to.
use yidika.Base.{
  ℕ, ◌≤◌, ◌≡◌, refl, Bool, true, false, List, [], ◌∷◌, arith, length, ltb, if◌then◌else◌, All,
  All-append, length-append,
}
use yidika.Memory.Pool.{
  pool_max_lists, pool_max_maps, pop_last, ValueMap, ValuePool, no_entries, or_empty_list,
  or_empty_map, new_pool, take_list, take_list_with_capacity, return_list, take_map, return_map,
  reset_pool,
}

-- A pool after some of the operations, in whatever order.
pub data Reachable {V : Type 0} : ValuePool V → Type 0 where
  started : Reachable new_pool
  took_list : {p : ValuePool V} → Reachable p → Reachable (take_list p).1
  took_capacity :
      {p : ValuePool V} (cap : ℕ) → Reachable p → Reachable (take_list_with_capacity cap p).1
  returned_list : {p : ValuePool V} (l : List V) → Reachable p → Reachable (return_list l p)
  took_map : {p : ValuePool V} → Reachable p → Reachable (take_map p).1
  returned_map : {p : ValuePool V} (m : ValueMap V) → Reachable p → Reachable (return_map m p)
  cleared : {p : ValuePool V} → Reachable p → Reachable (reset_pool p)

-- The spare containers are empty, and not too many.
record IsClean {V : Type 0} (p : ValuePool V) : Type 0 where
  lists_empty : All (λ l. l ≡ []) p.lists
  maps_empty : All (λ m. m ≡ no_entries) p.maps
  lists_bound : length p.lists ≤ pool_max_lists
  maps_bound : length p.maps ≤ pool_max_maps

pop_last-length : {A : Type 0} (xs : List A) → length (pop_last xs).1 ≤ length xs
unfolding pop_last
pop_last-length [] = omega arith
pop_last-length (x ∷ []) = omega arith
pop_last-length (x ∷ y ∷ r) = omega (arith, pop_last-length (y ∷ r))

pop_last-All : {A : Type 0} (P : A → Type 0) (xs : List A) → All P xs → All P (pop_last xs).1
unfolding pop_last
pop_last-All P [] h = h
pop_last-All P (x ∷ []) h = tt
pop_last-All P (x ∷ y ∷ r) h = (h.0, pop_last-All P (y ∷ r) h.1)

or_empty_list-pop_last :
    {V : Type 0} (xs : List (List V)) → All (λ l. l ≡ []) xs → or_empty_list (pop_last xs).0 ≡ []
unfolding pop_last
or_empty_list-pop_last [] h = refl
or_empty_list-pop_last (x ∷ []) h = h.0
or_empty_list-pop_last (x ∷ y ∷ r) h = or_empty_list-pop_last (y ∷ r) h.1

or_empty_map-pop_last :
    {V : Type 0} (xs : List (ValueMap V))
    → All (λ m. m ≡ no_entries) xs
    → or_empty_map (pop_last xs).0 ≡ no_entries
unfolding pop_last
or_empty_map-pop_last [] h = refl
or_empty_map-pop_last (x ∷ []) h = h.0
or_empty_map-pop_last (x ∷ y ∷ r) h = or_empty_map-pop_last (y ∷ r) h.1

if_IsClean :
    {V : Type 0} (b : Bool) (p q : ValuePool V)
    → (b ≡ true → IsClean p)
    → IsClean q
    → IsClean (if b then p else q)
if_IsClean true p q h k = h refl
if_IsClean false p q h k = k

fewer_lists :
    {V : Type 0} (p : ValuePool V) → IsClean p → IsClean (record p { lists = (pop_last p.lists).1 })
fewer_lists p c = record {
  lists_empty = pop_last-All _ p.lists c.lists_empty;
  maps_empty = c.maps_empty;
  lists_bound = omega (arith, c.lists_bound, pop_last-length p.lists);
  maps_bound = c.maps_bound;
}

Reachable-IsClean : {V : Type 0} {p : ValuePool V} → Reachable p → IsClean p
unfolding new_pool take_list take_list_with_capacity return_list take_map return_map reset_pool
Reachable-IsClean started = record {
  lists_empty = tt;
  maps_empty = tt;
  lists_bound = omega arith;
  maps_bound = omega arith;
}
Reachable-IsClean (took_list {p} r) = fewer_lists p (Reachable-IsClean r)
Reachable-IsClean (took_capacity {p} cap r) = fewer_lists p (Reachable-IsClean r)
Reachable-IsClean (returned_list {p} l r) =
    let c = Reachable-IsClean r in
    if_IsClean (ltb (length p.lists) pool_max_lists) _ p
      (λ room. record {
        lists_empty = All-append _ p.lists ([] ∷ []) c.lists_empty (refl, tt);
        maps_empty = c.maps_empty;
        lists_bound = ground (arith, length-append p.lists ([] ∷ []));
        maps_bound = c.maps_bound;
      })
      c
Reachable-IsClean (took_map {p} r) =
    let c = Reachable-IsClean r in
    record {
      lists_empty = c.lists_empty;
      maps_empty = pop_last-All _ p.maps c.maps_empty;
      lists_bound = c.lists_bound;
      maps_bound = omega (arith, c.maps_bound, pop_last-length p.maps);
    }
Reachable-IsClean (returned_map {p} m r) =
    let c = Reachable-IsClean r in
    if_IsClean (ltb (length p.maps) pool_max_maps) _ p
      (λ room. record {
        lists_empty = c.lists_empty;
        maps_empty = All-append _ p.maps (no_entries ∷ []) c.maps_empty (refl, tt);
        lists_bound = c.lists_bound;
        maps_bound = ground (arith, length-append p.maps (no_entries ∷ []));
      })
      c
Reachable-IsClean (cleared r) = record {
  lists_empty = tt;
  maps_empty = tt;
  lists_bound = omega arith;
  maps_bound = omega arith;
}

-- However the pool was used, a list taken from it, with a capacity asked for or not, and a map taken
-- from it are empty, and it never holds more spare lists and maps than its limits.
pub take-Reachable :
    {V : Type 0} {p : ValuePool V}
    → Reachable p
    → ((take_list p).0 ≡ [])
      × ((cap : ℕ) → (take_list_with_capacity cap p).0 ≡ [])
      × ((take_map p).0 ≡ no_entries)
      × (length p.lists ≤ pool_max_lists)
      × (length p.maps ≤ pool_max_maps)
unfolding take_list take_map take_list_with_capacity
take-Reachable {p = p} r =
    let c = Reachable-IsClean r in
    (
      or_empty_list-pop_last p.lists c.lists_empty,
      λ cap. or_empty_list-pop_last p.lists c.lists_empty,
      or_empty_map-pop_last p.maps c.maps_empty,
      c.lists_bound,
      c.maps_bound,
    )
