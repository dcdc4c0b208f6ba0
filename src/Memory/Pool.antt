-- ===== src/Memory/Pool.antt =====
-- src/memory/arena.rs: `ValuePool`, the spare lists and maps. What `Vec::clear` and `reserve` do to a
-- capacity is left out: it is no part of what a list holds. A map is a function.
pub mod Reachable
mod Tests
use yidika.Base.{
  ℕ, ◌+◌, ◌≡◌, Bool, Option, none, some, List, [], ◌∷◌, ◌++◌, length, ltb, if◌then◌else◌, Text,
}

abbrev pub pool_max_lists : ℕ
pool_max_lists = 256

abbrev pub pool_max_maps : ℕ
pool_max_maps = 128

-- `Vec::pop`: the last element, and the rest.
pub pop_last {ℓ} : {A : Type ℓ} → List A → Option A × List A
pop_last [] = (none, [])
pop_last (x ∷ []) = (some x, [])
pop_last (x ∷ y ∷ r) = let (last, rest) = pop_last (y ∷ r) in (last, x ∷ rest)

-- `HashMap<String, Value>`
abbrev pub ValueMap : Type 0 → Type 0
ValueMap V = Text → Option V

pub record ValuePool (V : Type 0) : Type 0 where
  pub lists : List (List V)
  pub maps : List (ValueMap V)

abbrev pub no_entries : {V : Type 0} → ValueMap V
no_entries k = none

-- `unwrap_or_default`
abbrev pub or_empty_list : {V : Type 0} → Option (List V) → List V
or_empty_list none = []
or_empty_list (some l) = l

abbrev pub or_empty_map : {V : Type 0} → Option (ValueMap V) → ValueMap V
or_empty_map none = no_entries
or_empty_map (some m) = m

-- `ValuePool::new`
pub new_pool : {V : Type 0} → ValuePool V
new_pool = record { lists = []; maps = [] }

-- `ValuePool::take_list`
pub take_list : {V : Type 0} → ValuePool V → List V × ValuePool V
unfolding pop_last
take_list p = let (last, rest) = pop_last p.lists in (or_empty_list last, record p { lists = rest })

-- `ValuePool::take_list_with_capacity`
pub take_list_with_capacity : {V : Type 0} → ℕ → ValuePool V → List V × ValuePool V
unfolding pop_last
take_list_with_capacity cap p =
    let (last, rest) = pop_last p.lists in (or_empty_list last, record p { lists = rest })

-- `ValuePool::return_list`, after `list.clear()`.
pub return_list : {V : Type 0} → List V → ValuePool V → ValuePool V
return_list list p =
    if ltb (length p.lists) pool_max_lists then record p { lists = p.lists ++ ([] ∷ []) } else p

-- `ValuePool::take_map`
pub take_map : {V : Type 0} → ValuePool V → ValueMap V × ValuePool V
unfolding pop_last
take_map p = let (last, rest) = pop_last p.maps in (or_empty_map last, record p { maps = rest })

-- `ValuePool::return_map`, after `map.clear()`.
pub return_map : {V : Type 0} → ValueMap V → ValuePool V → ValuePool V
return_map m p =
    if ltb (length p.maps) pool_max_maps then record p { maps = p.maps ++ (no_entries ∷ []) } else p

-- `ValuePool::reset`
pub reset_pool : {V : Type 0} → ValuePool V → ValuePool V
reset_pool p = record { lists = []; maps = [] }
