-- ===== src/Memory/Arena/Tests.antt =====
-- Runs of the arena on concrete inputs.
use yidika.Base.{ℕ, ◌+◌, ◌<◌, ◌≡◌, refl, none, some, [], ◌∷◌, arith, get_elem?, ◌^◌, ◌-◌}
use yidika.Base.{All}
use yidika.Memory.Arena.{
  ok, ArenaBlock, Arena, single, Memory, new_block, alloc, reset, block_count, alloc_zeroed,
  alloc_values, copy_to, write_bytes, recommended_arena_block_size,
}
use yidika.Memory.Arena.Bounds.{Region, AllDisjoint, Held}
use yidika.Memory.Arena.Runs.{Run, boot, next, Run-AllDisjoint, Run-IsSession}
use yidika.Memory.Arena.Growth.{block_count-alloc-reset, alloc-returns}
use yidika.Memory.Arena.Contents.{Unchanged, alloc_zeroed-Unchanged, alloc_values-Unchanged}

abbrev block : ℕ → ArenaBlock
block n = record { base = 4096; capacity = 65536; offset = n }

abbrev arena : ℕ → Arena
arena n = record { blocks = block n ∷ []; current_block = 0; total_allocated = n }

abbrev region : ℕ → ℕ → Region
region start size = record { start = start; size = size }

booted : Run (single (block 0)) []
unfolding new_block
booted = boot 65536 (some 4096) (block 0) refl

first : Run (arena 100) (region 4096 100 ∷ [])
unfolding alloc
first = next 100 none (arena 100, 4096) booted (omega arith) tt refl

second : Run (arena 128) (region 4196 28 ∷ region 4096 100 ∷ [])
unfolding alloc
second = next 28 none (arena 128, 4196) first (omega arith) tt refl

Run-AllDisjoint_example :
    AllDisjoint (region 4196 28 ∷ region 4096 100 ∷ [])
    × All (Held (block 128 ∷ [])) (region 4196 28 ∷ region 4096 100 ∷ [])
Run-AllDisjoint_example = Run-AllDisjoint second

alloc-returns_example : (r : Arena × ℕ) × (alloc 70000 (some 131072) (arena 128) ≡ ok r)
alloc-returns_example =
    alloc-returns 70000 131072 (arena 128) (Run-IsSession second).valid (omega arith)

-- A request of so many bytes that the sum wraps is taken for one that fits, and the offset goes back.
wraps : alloc (2 ^ 64 - 50) none (arena 100) ≡ ok (arena 50, 4196)
unfolding alloc
wraps = refl

abbrev grown : Arena
grown = record {
  blocks = block 128 ∷ (record { base = 131072; capacity = 70000; offset = 70000 }) ∷ [];
  current_block = 1;
  total_allocated = 70128;
}

abbrev regrown : Arena
regrown = record {
  blocks =
      block 0
      ∷ (record { base = 131072; capacity = 70000; offset = 0 })
      ∷ (record { base = 262144; capacity = 65537; offset = 65537 })
      ∷ [];
  current_block = 2;
  total_allocated = 65537;
}

block_count-alloc-reset_example : block_count regrown ≡ block_count grown + 1
unfolding alloc reset
block_count-alloc-reset_example =
    block_count-alloc-reset 65537 (some 262144) grown (block 128)
      (record { base = 131072; capacity = 70000; offset = 70000 } ∷ []) (regrown, 262144) refl
      (omega arith) (omega arith) refl

abbrev ones : Memory
ones p = 1

alloc_zeroed-Unchanged_example :
    ((i : ℕ) → i < 28 → write_bytes 4196 0 28 ones (4196 + i) ≡ 0)
    × All (Unchanged ones (write_bytes 4196 0 28 ones)) (region 4096 100 ∷ [])
unfolding alloc_zeroed
alloc_zeroed-Unchanged_example =
    alloc_zeroed-Unchanged (arena 100) (region 4096 100 ∷ []) (Run-IsSession first) none ones
      (write_bytes 4196 0 28 ones) (arena 128) 4196 28 (omega arith) tt refl

alloc_values-Unchanged_example :
    ((i b : ℕ)
      → get_elem? (7 ∷ 8 ∷ 9 ∷ 10 ∷ []) i ≡ some b
      → copy_to 4196 (7 ∷ 8 ∷ 9 ∷ 10 ∷ []) ones (4196 + i) ≡ b)
    × All (Unchanged ones (copy_to 4196 (7 ∷ 8 ∷ 9 ∷ 10 ∷ []) ones)) (region 4096 100 ∷ [])
unfolding alloc_values
alloc_values-Unchanged_example =
    alloc_values-Unchanged (arena 100) (region 4096 100 ∷ []) (Run-IsSession first) none ones
      (copy_to 4196 (7 ∷ 8 ∷ 9 ∷ 10 ∷ []) ones) (arena 104) 4196 2 2 (7 ∷ 8 ∷ 9 ∷ 10 ∷ [])
      (omega arith) refl tt refl

-- As in the test of the source with a 32 KiB and a 256 KiB cache.
recommended_size : recommended_arena_block_size (some 32768) (some 262144) ≡ 65536
unfolding recommended_arena_block_size
recommended_size = refl
