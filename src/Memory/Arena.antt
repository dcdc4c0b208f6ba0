-- ===== src/Memory/Arena.antt =====
-- src/memory/arena.rs: `ArenaBlock` and `Arena`. Pointers are addresses, a `usize` is a ℕ with its
-- wrap-around written out, and the system allocator is an argument: the address it returns for
-- this call, or `none` for a null pointer. The bytes of the address space are a function.
pub mod Bounds
pub mod Sessions
pub mod Runs
pub mod Growth
pub mod Contents
mod Tests
use yidika.Base.{
  ℕ, ◌+◌, ◌-◌, ◌*◌, ◌/◌, ◌%◌, ◌^◌, max, Bool, true, false, ◌&&◌, Option, none, some, List, [], ◌∷◌,
  ◌++◌, map, length, get_elem?, set, ltb, leb, ◌==◌, if◌then◌else◌, ◌≡◌, refl,
}

abbrev pub usize_mod : ℕ
usize_mod = 2 ^ 64

-- `Layout::from_size_align(capacity, 16)` refuses a size that exceeds `isize::MAX` once it is
-- rounded up to a multiple of 16.
abbrev pub layout_max : ℕ
layout_max = 2 ^ 63 - 16

abbrev pub arena_block_size : ℕ
arena_block_size = 64 * 1024

-- A call that returns, that panics, or that aborts the process.
pub data Outcome {ℓ} (A : Type ℓ) : Type ℓ where
  ok : A → Outcome A
  panic : Outcome A
  abort : Outcome A

infixl 5 ◌>>=◌
abbrev pub ◌>>=◌ {ℓ κ} : {A : Type ℓ} {B : Type κ} → Outcome A → (A → Outcome B) → Outcome B
ok a >>= f = f a
panic >>= f = panic
abort >>= f = abort

pub record ArenaBlock : Type 0 where
  pub base : ℕ
  pub capacity : ℕ
  pub offset : ℕ

pub record Arena : Type 0 where
  pub blocks : List ArenaBlock
  pub current_block : ℕ
  pub total_allocated : ℕ

-- `ArenaBlock::new`
pub new_block : ℕ → Option ℕ → Outcome ArenaBlock
new_block capacity system = if ltb layout_max capacity then panic else elim system [
  | none ↦ abort
  | some p ↦ ok (record { base = p; capacity = capacity; offset = 0 })
]

-- `ArenaBlock::can_fit`
pub can_fit : ArenaBlock → ℕ → Bool
can_fit b size = leb ((b.offset + size) % usize_mod) b.capacity

-- `ArenaBlock::alloc`: the pointer, and the block with its offset moved.
pub alloc_in : ArenaBlock → ℕ → ArenaBlock × ℕ
alloc_in b size = (record b { offset = (b.offset + size) % usize_mod }, b.base + b.offset)

-- `ArenaBlock::reset`
pub reset_block : ArenaBlock → ArenaBlock
reset_block b = record b { offset = 0 }

abbrev pub single : ArenaBlock → Arena
single b = record { blocks = b ∷ []; current_block = 0; total_allocated = 0 }

-- `Arena::new`
unfoldable pub new_arena : Option ℕ → Outcome Arena
new_arena system = do b ← new_block arena_block_size system; ok (single b)

-- `Arena::with_block_size`
unfoldable pub with_block_size : ℕ → Option ℕ → Outcome Arena
with_block_size block_size system = do b ← new_block (max block_size 4096) system; ok (single b)

-- `Option::or`
abbrev pub or_else : Option ℕ → Option ℕ → Option ℕ
or_else none y = y
or_else (some x) y = some x

-- `recommended_arena_block_size`: the cast of a `u64` to `usize` keeps its value.
pub recommended_arena_block_size : Option ℕ → Option ℕ → ℕ
recommended_arena_block_size cache_l1 cache_l2 = elim (or_else cache_l1 cache_l2) [
  | none ↦ arena_block_size
  | some c ↦ max (c / 2) arena_block_size
]

-- `Arena::with_hardware_info`, which repeats the computation of the size.
unfoldable pub with_hardware_info : Option ℕ → Option ℕ → Option ℕ → Outcome Arena
with_hardware_info cache_l1 cache_l2 system =
    let size : ℕ = elim (or_else cache_l1 cache_l2) [
      | none ↦ arena_block_size
      | some c ↦ max (c / 2) arena_block_size
    ] in
    do b ← new_block size system; ok (single b)

-- The growing branch of `Arena::alloc`: `total` is already updated.
pub grow : ℕ → Option ℕ → ℕ → Arena → Outcome (Arena × ℕ)
unfolding new_block alloc_in
grow size system total a = do
  b ← new_block (max size arena_block_size) system
  let (b', ptr) = alloc_in b size
  ok (
    record {
      blocks = a.blocks ++ (b' ∷ []);
      current_block = length (a.blocks ++ (b' ∷ [])) - 1;
      total_allocated = total;
    },
    ptr,
  )

-- The branch that serves the request from the current block `b`.
pub serve : ℕ → ℕ → ArenaBlock → Arena → Arena × ℕ
unfolding alloc_in
serve size total b a =
    let (b', ptr) = alloc_in b size in
    (record a { blocks = set a.blocks a.current_block b'; total_allocated = total }, ptr)

-- `Arena::alloc`; indexing `blocks` out of bounds panics.
pub alloc : ℕ → Option ℕ → Arena → Outcome (Arena × ℕ)
unfolding grow serve can_fit
alloc size system a =
    let total = (a.total_allocated + size) % usize_mod in
    elim (get_elem? a.blocks a.current_block) [
      | none ↦ panic
      | some b ↦ if can_fit b size then ok (serve size total b a) else grow size system total a
    ]

-- `Arena::reset`
pub reset : Arena → Arena
unfolding reset_block
reset a = record { blocks = map reset_block a.blocks; current_block = 0; total_allocated = 0 }

-- `Arena::block_count`
pub block_count : Arena → ℕ
block_count a = length a.blocks

abbrev pub Memory : Type 0
Memory = ℕ → ℕ

-- `ptr::write_bytes(ptr, value, size)`
pub write_bytes : ℕ → ℕ → ℕ → Memory → Memory
write_bytes ptr value size m p = if leb ptr p && ltb p (ptr + size) then value else m p

-- `Arena::alloc_zeroed`
pub alloc_zeroed : ℕ → Option ℕ → Arena → Memory → Outcome (Arena × Memory × ℕ)
unfolding alloc write_bytes
alloc_zeroed size system a m = do
  (a', ptr) ← alloc size system a
  ok (a', write_bytes ptr 0 size m, ptr)

-- `Arena::alloc_value_slice`: `value_size` is `size_of::<Value>()`; the slice is its address and
-- its length.
unfoldable pub alloc_value_slice :
    ℕ → ℕ → Option ℕ → Arena → Memory → Outcome (Arena × Memory × ℕ × ℕ)
unfolding alloc_zeroed
alloc_value_slice value_size n system a m = do
  (a', m', ptr) ← alloc_zeroed ((n * value_size) % usize_mod) system a m
  ok (a', m', ptr, n)

-- `ptr::copy_nonoverlapping` of the bytes `image` to `ptr`.
pub copy_to : ℕ → List ℕ → Memory → Memory
copy_to ptr [] m = m
copy_to ptr (b ∷ image) m = copy_to (ptr + 1) image (λ p. if p == ptr then b else m p)

-- `Arena::alloc_values`: `image` is the bytes of the `n` values.
pub alloc_values : ℕ → ℕ → List ℕ → Option ℕ → Arena → Memory → Outcome (Arena × Memory × ℕ × ℕ)
unfolding alloc copy_to
alloc_values value_size n image system a m = do
  (a', ptr) ← alloc ((n * value_size) % usize_mod) system a
  ok (a', copy_to ptr image m, ptr, n)

-- A bind that returns has a first part that returns.
pub >>=-eq-ok {ℓ κ} :
    {A : Type ℓ} {B : Type κ} (first : Outcome A) (after : A → Outcome B) {result : B}
    → (first >>= after) ≡ ok result
    → (x : A) × (first ≡ ok x) × (after x ≡ ok result)
>>=-eq-ok panic after returned = absurd (cc)
>>=-eq-ok abort after returned = absurd (cc)
>>=-eq-ok (ok x) after returned = (x, refl, returned)
