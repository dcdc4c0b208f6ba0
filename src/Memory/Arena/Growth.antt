-- ===== src/Memory/Arena/Growth.antt =====
-- When `Arena::alloc` takes a new block, what `Arena::reset` leaves behind, and the alignment of
-- the pointers.
use yidika.Memory.Arena.Runs.{length-map_reset}
use yidika.Memory.Arena.Bounds.{IsValid, BlockIsValid}
use yidika.Memory.Arena.{
  block_count, Arena, ArenaBlock, alloc, ok, can_fit, usize_mod, serve, grow, reset, reset_block,
  new_block, arena_block_size, layout_max,
}
use yidika.Base.{
  ℕ, ◌+◌, ◌-◌, ◌%◌, ◌≤◌, ◌<◌, max, ◌≡◌, refl, sym, ap, ◌∙◌, inl, inr, true, false, Option, none,
  some, List, [], ◌∷◌, ◌++◌, arith, length, get_elem?, ltb, if◌then◌else◌, Bool-cases, length-set,
  length-append, All-get_elem?, get_elem?-set_self, subst, get_elem?-lt,
}
use yidika.Memory.Arena.Sessions.{alloc-serve, alloc-grow, ok-injective}

served_numbers :
    (size total : ℕ) (b : ArenaBlock) (a : Arena) (r : Arena × ℕ)
    → ok (serve size total b a) ≡ ok r
    → (length r.0.blocks ≡ length a.blocks)
      × (r.0.current_block ≡ a.current_block)
      × (r.0.total_allocated ≡ total)
unfolding serve
served_numbers size total b a r e = ground (
  arith,
  length-set a.blocks a.current_block (record b { offset = (b.offset + size) % usize_mod }),
)

grown_numbers :
    (size : ℕ) (o : Option ℕ) (total : ℕ) (a : Arena) (r : Arena × ℕ)
    → grow size o total a ≡ ok r
    → (length r.0.blocks ≡ length a.blocks + 1)
      × (r.0.current_block ≡ length a.blocks)
      × (r.0.total_allocated ≡ total)
unfolding grow new_block
grown_numbers size none total a r e = absurd (ground arith)
grown_numbers size (some p) total a r e = ground (
  arith,
  length-append a.blocks (
      record { base = p; capacity = max size arena_block_size; offset = (0 + size) % usize_mod }
      ∷ []),
)

-- The current block serves the request when it has room, and no block is added then. Otherwise one
-- block is added and becomes the current one. Either way the total grows by the size of the request,
-- modulo 2^64.
pub block_count-alloc :
    (size : ℕ) (system : Option ℕ) (a : Arena) (b : ArenaBlock) (r : Arena × ℕ)
    → get_elem? a.blocks a.current_block ≡ some b
    → alloc size system a ≡ ok r
    → (block_count r.0 ≡ (if can_fit b size then block_count a else block_count a + 1))
      × (r.0.current_block ≡ (if can_fit b size then a.current_block else block_count a))
      × (r.0.total_allocated ≡ (a.total_allocated + size) % usize_mod)
unfolding block_count
block_count-alloc size system a b r at_current h = elim (Bool-cases (can_fit b size)) [
  | inl fits ↦
      rw fits (served_numbers size _ b a r (sym (alloc-serve size system a b at_current fits) ∙ h))
  | inr full ↦
      rw full
        (grown_numbers size system _ a r (sym (alloc-grow size system a b at_current full) ∙ h))
]

reset-does_not_fit :
    (size : ℕ) (b : ArenaBlock)
    → size < usize_mod
    → b.capacity < size
    → can_fit (reset_block b) size ≡ false
unfolding can_fit reset_block
reset-does_not_fit size b small big = ground arith

first_of_reset :
    (a : Arena) {first : ArenaBlock} {others : List ArenaBlock}
    → a.blocks ≡ first ∷ others
    → get_elem? (reset a).blocks (reset a).current_block ≡ some (reset_block first)
unfolding reset
first_of_reset a shape = rw shape

block_count-reset : (a : Arena) → block_count (reset a) ≡ block_count a
unfolding reset block_count
block_count-reset a = length-map_reset a.blocks

-- After a reset, a request that the first block cannot hold adds a block, whatever room the blocks
-- behind the first one have.
pub block_count-alloc-reset :
    (size : ℕ) (system : Option ℕ) (a : Arena) (first : ArenaBlock) (others : List ArenaBlock)
    (r : Arena × ℕ)
    → a.blocks ≡ first ∷ others
    → size < usize_mod
    → first.capacity < size
    → alloc size system (reset a) ≡ ok r
    → block_count r.0 ≡ block_count a + 1
block_count-alloc-reset size system a first others r shape small big h =
    let numbers =
      block_count-alloc size system (reset a) (reset_block first) r (first_of_reset a shape) h in
    rw (does_not_fit) at numbers.0 ∙ ap (λ n. n + 1) (block_count-reset a)
  where
    does_not_fit : can_fit (reset_block first) size ≡ false
    does_not_fit = reset-does_not_fit size first small big

fits_of_room :
    (b : ArenaBlock) (n : ℕ)
    → b.capacity ≤ layout_max
    → b.offset + n ≤ b.capacity
    → can_fit b n ≡ true
unfolding can_fit
fits_of_room b n small room = ground arith

-- `r` is what a request of `n` bytes leaves when block `b` serves it.
abbrev IsServed : ℕ → ArenaBlock → Arena × ℕ → Type 0
IsServed n b r =
    (r.1 ≡ b.base + b.offset)
    × (get_elem? r.0.blocks r.0.current_block ≡ some (record b { offset = b.offset + n }))
    × (r.0.current_block < length r.0.blocks)

serve-IsServed :
    (n total : ℕ) (a : Arena) (b : ArenaBlock)
    → a.current_block < length a.blocks
    → b.offset + n < usize_mod
    → IsServed n b (serve n total b a)
unfolding serve
serve-IsServed n total a b inside room =
    let block = record b { offset = (b.offset + n) % usize_mod } in
    let e : (b.offset + n) % usize_mod ≡ b.offset + n = omega arith in
    (
      refl,
      get_elem?-set_self a.blocks a.current_block block inside ∙ rw e,
      omega (arith, length-set a.blocks a.current_block block),
    )

alloc-IsServed :
    (n : ℕ) (o : Option ℕ) (a : Arena) (b : ArenaBlock) (r : Arena × ℕ)
    → a.current_block < length a.blocks
    → b.capacity ≤ layout_max
    → get_elem? a.blocks a.current_block ≡ some b
    → b.offset + n ≤ b.capacity
    → alloc n o a ≡ ok r
    → IsServed n b r
alloc-IsServed n o a b r inside small at_current room h =
    subst (IsServed n b)
      (ok-injective (sym (alloc-serve n o a b at_current (fits_of_room b n small room)) ∙ h))
      (serve-IsServed n _ a b inside (omega arith))

-- `alloc` does not align: of two requests served one after the other by a block, the second pointer
-- is the first one plus the first size.
pub alloc-alloc :
    (n m : ℕ) (o q : Option ℕ) (a : Arena) (b : ArenaBlock) (r t : Arena × ℕ)
    → IsValid a
    → get_elem? a.blocks a.current_block ≡ some b
    → b.offset + n + m ≤ b.capacity
    → alloc n o a ≡ ok r
    → alloc m q r.0 ≡ ok t
    → (r.1 ≡ b.base + b.offset) × (t.1 ≡ r.1 + n)
alloc-alloc n m o q a b r t v at_current room first second =
    let small = (All-get_elem? BlockIsValid a.blocks a.current_block v.blocks_valid at_current).1 in
    let (p, at_current', inside) =
      alloc-IsServed n o a b r v.current_lt small at_current (omega arith) first in
    let (p', _, _) =
      alloc-IsServed m q r.0 (record b { offset = b.offset + n }) t inside small at_current' room
        second in
    (p, omega arith)

grow-returns :
    (size p total : ℕ) (a : Arena)
    → max size arena_block_size ≤ layout_max
    → (r : Arena × ℕ) × (grow size (some p) total a ≡ ok r)
unfolding grow new_block
grow-returns size p total a small = elim (Bool-cases (ltb layout_max (max size arena_block_size))) [
  | inl refused ↦ absurd (ground arith)
  | inr accepted ↦ (
    let full : ArenaBlock = record {
      base = p;
      capacity = max size arena_block_size;
      offset = (0 + size) % usize_mod;
    } in
        (
          record {
            blocks = a.blocks ++ (full ∷ []);
            current_block = length (a.blocks ++ (full ∷ [])) - 1;
            total_allocated = total;
          },
          p + 0,
        ),
    rw accepted refl,
  )
]

-- From a valid arena, a request whose block `Layout` accepts returns whenever the system allocator
-- has memory.
pub alloc-returns :
    (size p : ℕ) (a : Arena)
    → IsValid a
    → max size arena_block_size ≤ layout_max
    → (r : Arena × ℕ) × (alloc size (some p) a ≡ ok r)
alloc-returns size p a v small =
    let (b, at_current) = get_elem?-lt a.blocks a.current_block v.current_lt in
    elim (Bool-cases (can_fit b size)) [
      | inl fits ↦ (_, alloc-serve size (some p) a b at_current fits)
      | inr full ↦
          let (r, e) = grow-returns size p ((a.total_allocated + size) % usize_mod) a small in
          (r, alloc-grow size (some p) a b at_current full ∙ e)
    ]
