-- ===== src/Memory/Arena/Bounds.antt =====
-- What `Arena::alloc` guarantees of the region it hands out.
use native.Mathlib.Decide.{ℕ_discrete}
use yidika.Base.{
  ℕ, ◌+◌, ◌%◌, ◌^◌, ◌≤◌, ◌<◌, max, ◌≡◌, ◌≢◌, refl, ◌⊎◌, true, Option, none, some, List, [], ◌∷◌,
  arith, length, get_elem?, set, All, All-get_elem?, get_elem?-set_self, get_elem?-set_ne,
}
use yidika.Memory.Arena.{usize_mod, layout_max, arena_block_size, ArenaBlock, Arena, can_fit}

-- The block has been served no more than it holds, and its capacity is one that `Layout` accepts.
abbrev pub BlockIsValid : ArenaBlock → Type 0
BlockIsValid b = (b.offset ≤ b.capacity) × (b.capacity ≤ layout_max)

pub record IsValid (a : Arena) : Type 0 where
  pub blocks_valid : All BlockIsValid a.blocks
  pub current_lt : a.current_block < length a.blocks

-- A region handed out: its first address and its size.
pub record Region : Type 0 where
  pub start : ℕ
  pub size : ℕ

abbrev pub Disjoint : Region → Region → Type 0
Disjoint r s = (r.start + r.size ≤ s.start) ⊎ (s.start + s.size ≤ r.start)

abbrev pub AllDisjoint : List Region → Type 0
AllDisjoint [] = Unit {0}
AllDisjoint (r ∷ rs) = All (Disjoint r) rs × AllDisjoint rs

-- The address ranges of two blocks do not overlap.
abbrev pub Apart : ArenaBlock → ArenaBlock → Type 0
Apart b c = (b.base + b.capacity ≤ c.base) ⊎ (c.base + c.capacity ≤ b.base)

-- The region lies in the part of the block that has been served.
abbrev pub Within : Region → ArenaBlock → Type 0
Within r b = (b.base ≤ r.start) × (r.start + r.size ≤ b.base + b.offset)

abbrev pub Held : List ArenaBlock → Region → Type 0
Held blocks r = (i : ℕ) × (b : ArenaBlock) × (get_elem? blocks i ≡ some b) × Within r b

abbrev pub BlocksApart : List ArenaBlock → Type 0
BlocksApart blocks =
    (i j : ℕ) (b c : ArenaBlock)
    → get_elem? blocks i ≡ some b
    → get_elem? blocks j ≡ some c
    → i ≢ j
    → Apart b c

-- The state of an arena with the regions handed out since the last reset.
pub record IsSession (a : Arena) (live : List Region) : Type 0 where
  pub valid : IsValid a
  pub apart : BlocksApart a.blocks
  pub held : All (Held a.blocks) live
  pub disjoint : AllDisjoint live

-- What the system allocator promises: a new block overlaps no block that the arena holds.
abbrev pub IsFresh : ℕ → Option ℕ → Arena → Type 0
IsFresh size none a = Unit {0}
IsFresh size (some p) a =
    (i : ℕ) (b : ArenaBlock)
    → get_elem? a.blocks i ≡ some b
    → (b.base + b.capacity ≤ p) ⊎ (p + max size arena_block_size ≤ b.base)

module _ (a : Arena) (live : List Region) (size total : ℕ) (small : size < 2 ^ 63)
    (s : IsSession a live) where
  open s use {valid, apart, held, disjoint}

  module _ (b : ArenaBlock) (at_current : get_elem? a.blocks a.current_block ≡ some b)
      (fits : can_fit b size ≡ true) where
    abbrev pub served : ArenaBlock
    served = record b { offset = (b.offset + size) % usize_mod }

    pub b_valid : BlockIsValid b
    b_valid = All-get_elem? BlockIsValid a.blocks a.current_block valid.blocks_valid at_current

    pub room : (served.offset ≡ b.offset + size) × (b.offset + size ≤ b.capacity)
    unfolding can_fit
    room = ground (arith, b_valid)

    pub keep_block :
        (i : ℕ) (c : ArenaBlock)
        → get_elem? (set a.blocks a.current_block served) i ≡ some c
        → (d : ArenaBlock) × (get_elem? a.blocks i ≡ some d)
          × (c.base ≡ d.base)
          × (c.capacity ≡ d.capacity)
    keep_block i c e = elim (ℕ_discrete a.current_block i) [
      | yes p ↦ (
        b,
        rw (← p) at_current,
        ground (arith, p, e, get_elem?-set_self a.blocks a.current_block served valid.current_lt),
        ground (arith, p, e, get_elem?-set_self a.blocks a.current_block served valid.current_lt),
      )
      | no p ↦ (c, rw (get_elem?-set_ne a.blocks a.current_block i served p) at e, refl, refl)
    ]

    pub serve_apart : BlocksApart (set a.blocks a.current_block served)
    serve_apart i j c d ec ed ne =
        let (c', ec', bc, cc') = keep_block i c ec in
        let (d', ed', bd, cd') = keep_block j d ed in ground (arith, apart i j c' d' ec' ed' ne)

    pub serve_keeps : (r : Region) → Held a.blocks r → Held (set a.blocks a.current_block served) r
    serve_keeps r (i, c, e, w) = elim (ℕ_discrete a.current_block i) [
      | yes p ↦ (
        a.current_block,
        served,
        get_elem?-set_self a.blocks a.current_block served valid.current_lt,
        ground (arith, p, e, at_current, room, w),
      )
      | no p ↦ (i, c, rw (get_elem?-set_ne a.blocks a.current_block i served p) e, w)
    ]

    abbrev pub serve_new : Region
    serve_new = record { start = b.base + b.offset; size = size }

    pub serve-Disjoint : (r : Region) → Held a.blocks r → Disjoint serve_new r
    serve-Disjoint r (i, c, e, w) = elim (ℕ_discrete a.current_block i) [
      | yes p ↦ ground (arith, p, e, at_current, w)
      | no p ↦ ground (
        arith,
        room,
        b_valid,
        w,
        All-get_elem? BlockIsValid a.blocks i valid.blocks_valid e,
        apart a.current_block i b c at_current e p,
      )
    ]
