-- ===== src/Memory/Pool/Tests.antt =====
-- A pool of numbers.
use yidika.Base.{ℕ, ◌≡◌, ◌≤◌, [], ◌∷◌, length}
use yidika.Memory.Pool.{
  pool_max_lists, pool_max_maps, ValuePool, no_entries, new_pool, take_list, return_list, take_map,
  take_list_with_capacity,
}
use yidika.Memory.Pool.Reachable.{Reachable, started, returned_list, take-Reachable}

abbrev used : ValuePool ℕ
used = return_list (1 ∷ 2 ∷ []) new_pool

used-Reachable : Reachable used
used-Reachable = returned_list (1 ∷ 2 ∷ []) started

take-Reachable_example :
    ((take_list used).0 ≡ [])
    × ((cap : ℕ) → (take_list_with_capacity cap used).0 ≡ [])
    × ((take_map used).0 ≡ no_entries)
    × (length used.lists ≤ pool_max_lists)
    × (length used.maps ≤ pool_max_maps)
take-Reachable_example = take-Reachable used-Reachable
