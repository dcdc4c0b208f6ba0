-- ===== src/Memory/Arena/Sessions.antt =====
-- Sequences of `alloc` and `reset`, and what holds of the regions handed out by them.
use native.Mathlib.Omega.{arith}
use yidika.Base.{
  ℕ, ◌+◌, ◌^◌, ◌<◌, ◌≡◌, Bool-cases, List, get_elem?, some, Option, max, true, ◌≤◌, All-get_elem?,
  ◌++◌, ◌∷◌, [], get_elem?-concat_cases, get_elem?-append_left, All-set, length, inl, All-append,
  length-append, length-set, inr, get_elem?-concat_self, All-mono, ◌∙◌, sym, get_elem?-set_self,
  ltb, ◌%◌, false, get_elem?-lt, none, subst,
}
use yidika.Memory.Arena.{
  Arena, serve, grow, new_block, ArenaBlock, alloc_in, can_fit, arena_block_size, layout_max, ok,
  Outcome, alloc, panic, usize_mod,
}
use yidika.Memory.Arena.Bounds.{
  IsSession, Region, IsFresh, Held, BlocksApart, Disjoint, BlockIsValid, room, b_valid, served,
  serve_apart, serve_keeps, serve-Disjoint,
}

pub ok-injective {ℓ} : {A : Type ℓ} {x y : A} → Outcome.ok x ≡ ok y → x ≡ y
ok-injective h = cc

-- A request that `Layout` refuses panics, whatever the system allocator would answer.
grow-refused :
    (size : ℕ) (system : Option ℕ) (total : ℕ) (a : Arena)
    → ltb layout_max (max size arena_block_size) ≡ true
    → grow size system total a ≡ panic
unfolding grow new_block
grow-refused size system total a h = rw h

-- With a null pointer from the system allocator the request does not return.
grow-null : (size total : ℕ) (a : Arena) (r : Arena × ℕ) → grow size none total a ≡ ok r → ⊥
unfolding grow new_block
grow-null size total a r h = ground arith

module _ (size : ℕ) (system : Option ℕ) (a : Arena) (b : ArenaBlock)
    (at_current : get_elem? a.blocks a.current_block ≡ some b) where
  pub alloc-serve :
      can_fit b size ≡ true
      → alloc size system a ≡ ok (serve size ((a.total_allocated + size) % usize_mod) b a)
  unfolding alloc
  alloc-serve fits = rw (at_current, alloc) (rw fits)

  pub alloc-grow :
      can_fit b size ≡ false
      → alloc size system a ≡ grow size system ((a.total_allocated + size) % usize_mod) a
  unfolding alloc
  alloc-grow full = rw (at_current, alloc) (rw full)

module _ (a : Arena) (live : List Region) (size : ℕ) (s : IsSession a live) where
  serve-IsSession :
      (total : ℕ) (b : ArenaBlock) (small : size < 2 ^ 63)
      (at_current : get_elem? a.blocks a.current_block ≡ some b) (fits : can_fit b size ≡ true)
      → IsSession
          (serve size total b a).0
          (record { start = (serve size total b a).1; size = size } ∷ live)
  unfolding serve
  serve-IsSession total b small at_current fits =
      let valid = s.valid in
      let room = room a live size total small s b at_current fits in
      record {
        valid = record {
          blocks_valid =
              All-set BlockIsValid a.blocks a.current_block _ valid.blocks_valid
                (ground (arith, room, b_valid a live size total small s b at_current fits));
          current_lt = omega (
            arith,
            valid.current_lt,
            length-set a.blocks a.current_block
                (served a live size total small s b at_current fits),
          );
        };
        apart = serve_apart a live size total small s b at_current fits;
        held = (
          (
            a.current_block,
            served a live size total small s b at_current fits,
            get_elem?-set_self a.blocks a.current_block _ valid.current_lt,
            (ground (arith, room), ground (arith, room)),
          ),
          All-mono live (serve_keeps a live size total small s b at_current fits) s.held,
        );
        disjoint = (
          All-mono live (serve-Disjoint a live size total small s b at_current fits) s.held,
          s.disjoint,
        );
      }

  module _ (p : ℕ) (fresh : IsFresh size (some p) a) where
    grown : ArenaBlock
    grown = record { base = p; capacity = max size arena_block_size; offset = size }

    concat_apart : BlocksApart (a.blocks ++ (grown ∷ []))
    unfolding grown
    concat_apart i j b c eb ec ne = elim (get_elem?-concat_cases a.blocks grown i eb) [
      | inl old_b ↦ elim (get_elem?-concat_cases a.blocks grown j ec) [
        | inl old_c ↦ s.apart i j b c old_b old_c ne
        | inr (at_end, new_c) ↦ ground (arith, new_c, fresh i b old_b)
      ]
      | inr (at_end, new_b) ↦ elim (get_elem?-concat_cases a.blocks grown j ec) [
        | inl old_c ↦ ground (arith, new_b, fresh j c old_c)
        | inr (at_end', new_c) ↦ absurd (ne (at_end ∙ sym at_end'))
      ]
    ]

    concat_keeps : (r : Region) → Held a.blocks r → Held (a.blocks ++ (grown ∷ [])) r
    concat_keeps r (i, b, e, w) = (i, b, get_elem?-append_left a.blocks (grown ∷ []) i e, w)

    grow-Disjoint : (r : Region) → Held a.blocks r → Disjoint (record { start = p; size = size }) r
    grow-Disjoint r (i, b, e, w) =
        ground (arith, w, fresh i b e, All-get_elem? BlockIsValid a.blocks i s.valid.blocks_valid e)

    concat-IsSession :
        (total : ℕ)
        → max size arena_block_size ≤ layout_max
        → IsSession
            (record {
              blocks = a.blocks ++ (grown ∷ []);
              current_block = length a.blocks;
              total_allocated = total;
            })
            (record { start = p; size = size } ∷ live)
    unfolding grown
    concat-IsSession total accepted = record {
      valid = record {
        blocks_valid =
            All-append BlockIsValid a.blocks (grown ∷ []) s.valid.blocks_valid (omega arith);
        current_lt = omega (arith, length-append a.blocks (grown ∷ []));
      };
      apart = concat_apart;
      held = (
        (length a.blocks, grown, get_elem?-concat_self a.blocks grown, (omega arith, omega arith)),
        All-mono live concat_keeps s.held,
      );
      disjoint = (All-mono live grow-Disjoint s.held, s.disjoint);
    }

    grow-eq-ok :
        (total : ℕ)
        → max size arena_block_size ≤ layout_max
        → grow size (some p) total a
          ≡ ok (
            record {
              blocks = a.blocks ++ (grown ∷ []);
              current_block = length a.blocks;
              total_allocated = total;
            },
            p,
          )
    unfolding grow new_block alloc_in grown
    grow-eq-ok total accepted = ground (arith, length-append a.blocks (grown ∷ []))

    grow-IsSession :
        (total : ℕ) {r : Arena × ℕ}
        → grow size (some p) total a ≡ ok r
        → IsSession r.0 (record { start = r.1; size = size } ∷ live)
    grow-IsSession total {r} h = elim (Bool-cases (ltb layout_max (max size arena_block_size))) [
      | inl refused ↦ absurd (cc (grow-refused size (some p) total a refused))
      | inr accepted ↦
          subst (λ (q : Arena × ℕ). IsSession q.0 (record { start = q.1; size = size } ∷ live))
            (ok-injective (sym (grow-eq-ok total (ground arith)) ∙ h))
            (concat-IsSession total (ground arith))
    ]

module _ (a : Arena) (live : List Region) (size : ℕ) (small : size < 2 ^ 63) where
  -- From a session, an `alloc` that returns hands out a region that lies in a block of the arena
  -- and overlaps none of the regions handed out since the last reset, and the arena it leaves is
  -- again a session, of one more region.
  pub alloc-IsSession :
      (system : Option ℕ) (r : Arena × ℕ)
      → IsSession a live
      → IsFresh size system a
      → alloc size system a ≡ ok r
      → IsSession r.0 (record { start = r.1; size = size } ∷ live)
  alloc-IsSession system r s fresh h =
      let (b, at_current) = get_elem?-lt a.blocks a.current_block s.valid.current_lt in
      let total = (a.total_allocated + size) % usize_mod in
      elim (Bool-cases (can_fit b size)) [
        | inl fits ↦
            move _ r (sym (alloc-serve size system a b at_current fits) ∙ h)
              (serve-IsSession a live size s total b small at_current fits)
        | inr full ↦ grown_from system fresh (sym (alloc-grow size system a b at_current full) ∙ h)
      ]
    where
      move :
          (q t : Arena × ℕ)
          → ok q ≡ ok t
          → IsSession q.0 (record { start = q.1; size = size } ∷ live)
          → IsSession t.0 (record { start = t.1; size = size } ∷ live)
      move q t e i =
          subst (λ (q : Arena × ℕ). IsSession q.0 (record { start = q.1; size = size } ∷ live))
            (ok-injective e) i

      grown_from :
          (o : Option ℕ)
          → IsFresh size o a
          → grow size o ((a.total_allocated + size) % usize_mod) a ≡ ok r
          → IsSession r.0 (record { start = r.1; size = size } ∷ live)
      grown_from none f e = absurd (grow-null size ((a.total_allocated + size) % usize_mod) a r e)
      grown_from (some p) f e =
          grow-IsSession a live size s p f ((a.total_allocated + size) % usize_mod) e
