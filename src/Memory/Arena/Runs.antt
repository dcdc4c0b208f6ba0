-- ===== src/Memory/Arena/Runs.antt =====
-- Whole lives of an arena: any sequence of `alloc` and `reset` after its creation.
use yidika.Memory.Arena.Sessions.{alloc-IsSession}
use yidika.Base.{
  ℕ, zero, suc, ◌^◌, ◌<◌, ◌≡◌, refl, ap, Option, some, List, [], ◌∷◌, map, arith, length, get_elem?,
  All,
}
use yidika.Memory.Arena.{reset, Arena, reset_block, new_block, ArenaBlock, ok, single, alloc}
use yidika.Memory.Arena.Bounds.{IsSession, Region, AllDisjoint, BlockIsValid, Held, IsFresh}

pub get_elem?-map_reset :
    (blocks : List ArenaBlock) (i : ℕ) {c : ArenaBlock}
    → get_elem? (map reset_block blocks) i ≡ some c
    → (d : ArenaBlock) × (get_elem? blocks i ≡ some d) × (c ≡ reset_block d)
get_elem?-map_reset [] i e = absurd (cc)
get_elem?-map_reset (b ∷ blocks) zero e = (b, refl, ground arith)
get_elem?-map_reset (b ∷ blocks) (suc i) e = get_elem?-map_reset blocks i e

pub length-map_reset : (blocks : List ArenaBlock) → length (map reset_block blocks) ≡ length blocks
length-map_reset [] = refl
length-map_reset (b ∷ blocks) = ap suc (length-map_reset blocks)

All-map_reset :
    (blocks : List ArenaBlock) → All BlockIsValid blocks → All BlockIsValid (map reset_block blocks)
unfolding reset_block
All-map_reset [] v = tt
All-map_reset (b ∷ blocks) v = ((omega arith, v.0.1), All-map_reset blocks v.1)

reset_block-keeps :
    (b : ArenaBlock) → ((reset_block b).base ≡ b.base) × ((reset_block b).capacity ≡ b.capacity)
unfolding reset_block
reset_block-keeps b = (refl, refl)

pub reset-IsSession :
    (a : Arena) (live : List Region)
    → IsSession a live
    → 0 < length a.blocks
    → IsSession (reset a) []
unfolding reset
reset-IsSession a live s h = record {
  valid = record {
    blocks_valid = All-map_reset a.blocks s.valid.blocks_valid;
    current_lt = omega (arith, length-map_reset a.blocks);
  };
  apart = λ i j b c eb ec ne.
      let (b', eb', kb) = get_elem?-map_reset a.blocks i eb in
      let (c', ec', kc) = get_elem?-map_reset a.blocks j ec in
      ground
        (arith, kb, kc, reset_block-keeps b', reset_block-keeps c', s.apart i j b' c' eb' ec' ne);
  held = tt;
  disjoint = tt;
}

-- The arenas that are reached if every request is of fewer than 2^63 bytes, each with the regions
-- handed out since its last reset. `boot` is a creation by any of the three constructors; `next` is
-- an `alloc` of such a size that returned, with a system allocator that hands out fresh memory;
-- `again` is a `reset`.
pub data Run : Arena → List Region → Type 0 where
  boot :
      (capacity : ℕ) (system : Option ℕ) (b : ArenaBlock)
      → new_block capacity system ≡ ok b
      → Run (single b) []
  next :
      {a : Arena} {live : List Region} (size : ℕ) (system : Option ℕ) (r : Arena × ℕ)
      → Run a live
      → size < 2 ^ 63
      → IsFresh size system a
      → alloc size system a ≡ ok r
      → Run r.0 (record { start = r.1; size = size } ∷ live)
  again : {a : Arena} {live : List Region} → Run a live → Run (reset a) []

single-IsSession :
    (capacity : ℕ) (system : Option ℕ) (b : ArenaBlock)
    → new_block capacity system ≡ ok b
    → IsSession (single b) []
unfolding new_block
single-IsSession capacity system b e = record {
  valid = record { blocks_valid = ground arith; current_lt = omega arith };
  apart = λ i j c d ec ed ne. absurd (ne (only i j ec ed));
  held = tt;
  disjoint = tt;
}
  where
    only :
        (i j : ℕ) {c d : ArenaBlock}
        → get_elem? (b ∷ []) i ≡ some c
        → get_elem? (b ∷ []) j ≡ some d
        → i ≡ j
    only zero zero ec ed = refl
    only zero (suc j) ec ed = absurd (cc)
    only (suc i) _ ec ed = absurd (cc)

pub Run-IsSession : {a : Arena} {live : List Region} → Run a live → IsSession a live
Run-IsSession (boot capacity system b e) = single-IsSession capacity system b e
Run-IsSession (next size system r run small fresh e) =
    alloc-IsSession _ _ size small system r (Run-IsSession run) fresh e
Run-IsSession (again {a} {live} run) =
    reset-IsSession a live (Run-IsSession run) (omega (arith, (Run-IsSession run).valid.current_lt))

-- If every request was of fewer than 2^63 bytes, and the system allocator handed out fresh memory, the
-- regions handed out since the last reset are pairwise disjoint, and each lies in the served part of
-- one of the arena's blocks.
pub Run-AllDisjoint :
    {a : Arena} {live : List Region} → Run a live → AllDisjoint live × All (Held a.blocks) live
Run-AllDisjoint run = ((Run-IsSession run).disjoint, (Run-IsSession run).held)
