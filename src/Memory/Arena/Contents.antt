-- ===== src/Memory/Arena/Contents.antt =====
-- What `alloc_zeroed` and `alloc_values` leave in memory.
use yidika.Memory.Arena.Sessions.{alloc-IsSession}
use yidika.Memory.Arena.{
  copy_to, write_bytes, Memory, Arena, alloc_zeroed, ok, alloc_values, alloc, >>=-eq-ok, usize_mod,
}
use yidika.Base.{
  ℕ, zero, suc, ◌+◌, ◌*◌, ◌%◌, ◌^◌, ◌≤◌, ◌<◌, ◌≡◌, refl, ◌∙◌, inl, inr, Option, some, List, [], ◌∷◌,
  arith, length, get_elem?, All, All-mono,
}
use yidika.Memory.Arena.Bounds.{Region, Disjoint, IsSession, IsFresh}

-- The bytes of region `r` are the same in both memories.
abbrev pub Unchanged : Memory → Memory → Region → Type 0
Unchanged m m' r = (i : ℕ) → i < r.size → m' (r.start + i) ≡ m (r.start + i)

write_bytes-in :
    (ptr size : ℕ) (m : Memory) (i : ℕ) → i < size → write_bytes ptr 0 size m (ptr + i) ≡ 0
unfolding write_bytes
write_bytes-in ptr size m i h = ground arith

write_bytes-out :
    (ptr size : ℕ) (m : Memory) (r : Region)
    → Disjoint (record { start = ptr; size = size }) r
    → Unchanged m (write_bytes ptr 0 size m) r
unfolding write_bytes
write_bytes-out ptr size m r d i h = ground arith

copy_to-below :
    (ptr : ℕ) (image : List ℕ) (m : Memory) (p : ℕ) → p < ptr → copy_to ptr image m p ≡ m p
unfolding copy_to
copy_to-below ptr [] m p h = refl
copy_to-below ptr (b ∷ image) m p h = copy_to-below (ptr + 1) image _ p (omega arith) ∙ ground arith

copy_to-above :
    (ptr : ℕ) (image : List ℕ) (m : Memory) (p : ℕ)
    → ptr + length image ≤ p
    → copy_to ptr image m p ≡ m p
unfolding copy_to
copy_to-above ptr [] m p h = refl
copy_to-above ptr (b ∷ image) m p h = copy_to-above (ptr + 1) image _ p (omega arith) ∙ ground arith

copy_to-at :
    (ptr : ℕ) (image : List ℕ) (m : Memory) (i : ℕ) {b : ℕ}
    → get_elem? image i ≡ some b
    → copy_to ptr image m (ptr + i) ≡ b
unfolding copy_to
copy_to-at ptr [] m i h = absurd (cc)
copy_to-at ptr (b ∷ image) m zero h =
    rw native.Mathlib.Nat.add-zero
      (copy_to-below (ptr + 1) image _ ptr (omega arith) ∙ ground arith)
copy_to-at ptr (b ∷ image) m (suc i) {b = c} h =
    let e : ptr + suc i ≡ (ptr + 1) + i = omega arith in rw e (copy_to-at (ptr + 1) image _ i h)

copy_to-out :
    (ptr : ℕ) (image : List ℕ) (m : Memory) (r : Region)
    → Disjoint (record { start = ptr; size = length image }) r
    → Unchanged m (copy_to ptr image m) r
copy_to-out ptr image m r (inl below) i h = copy_to-above ptr image m (r.start + i) (omega arith)
copy_to-out ptr image m r (inr above) i h = copy_to-below ptr image m (r.start + i) (omega arith)

alloc_zeroed-inversion :
    (size : ℕ) (system : Option ℕ) (a : Arena) (m : Memory) (a' : Arena) (m' : Memory) (ptr : ℕ)
    → alloc_zeroed size system a m ≡ ok (a', m', ptr)
    → (alloc size system a ≡ ok (a', ptr)) × (m' ≡ write_bytes ptr 0 size m)
unfolding alloc_zeroed
alloc_zeroed-inversion size system a m a' m' ptr h =
    let (bq, e, f) = >>=-eq-ok (alloc size system a) _ h in ground (arith, e, f)

alloc_values-inversion :
    (value_size n : ℕ) (image : List ℕ) (system : Option ℕ) (a : Arena) (m : Memory) (a' : Arena)
    (m' : Memory) (ptr : ℕ)
    → n * value_size < 2 ^ 63
    → alloc_values value_size n image system a m ≡ ok (a', m', ptr, n)
    → (alloc (n * value_size) system a ≡ ok (a', ptr)) × (m' ≡ copy_to ptr image m)
unfolding alloc_values
alloc_values-inversion value_size n image system a m a' m' ptr small h =
    let fits : (n * value_size) % usize_mod ≡ n * value_size = omega arith in
    let (bq, e, f) = >>=-eq-ok (alloc ((n * value_size) % usize_mod) system a) _ h in
    rw (← fits) (ground (arith, e, f))

module _ (a : Arena) (live : List Region) (s : IsSession a live) (system : Option ℕ) (m m' : Memory)
    (a' : Arena) (ptr : ℕ) where
  -- `alloc_zeroed` of fewer than 2^63 bytes, from a session and with a system allocator that hands
  -- out fresh memory, clears every byte of the region that it returns, and changes no byte of a
  -- region handed out before.
  pub alloc_zeroed-Unchanged :
      (size : ℕ)
      → size < 2 ^ 63
      → IsFresh size system a
      → alloc_zeroed size system a m ≡ ok (a', m', ptr)
      → ((i : ℕ) → i < size → m' (ptr + i) ≡ 0) × All (Unchanged m m') live
  alloc_zeroed-Unchanged size small fresh h =
      let (served, e) = alloc_zeroed-inversion size system a m a' m' ptr h in
      let session = alloc-IsSession a live size small system (a', ptr) s fresh served in
      rw e (
        write_bytes-in ptr size m,
        All-mono live (λ r d. write_bytes-out ptr size m r d) session.disjoint.0,
      )

  -- `alloc_values`, from a session and with a system allocator that hands out fresh memory, puts the
  -- bytes of the values at the address that it returns, and changes no byte of a region handed out
  -- before, if the bytes are as many as the values need and fewer than 2^63, as those of a slice are.
  pub alloc_values-Unchanged :
      (value_size n : ℕ) (image : List ℕ)
      → n * value_size < 2 ^ 63
      → length image ≡ n * value_size
      → IsFresh (n * value_size) system a
      → alloc_values value_size n image system a m ≡ ok (a', m', ptr, n)
      → ((i b : ℕ) → get_elem? image i ≡ some b → m' (ptr + i) ≡ b) × All (Unchanged m m') live
  alloc_values-Unchanged value_size n image small sized fresh h =
      let (served, e) = alloc_values-inversion value_size n image system a m a' m' ptr small h in
      let session = alloc-IsSession a live (n * value_size) small system (a', ptr) s fresh served in
      rw e (
        (λ i b at. copy_to-at ptr image m i at),
        All-mono live (λ r d. copy_to-out ptr image m r (rw sized d)) session.disjoint.0,
      )
