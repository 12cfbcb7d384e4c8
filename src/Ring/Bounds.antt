-- ===== src/Ring/Bounds.antt =====
-- ringbuffer.go: the representation invariant, and that every method keeps it.
use kcp_go.Prelude.{
  ℕ, ◌+◌, ◌-◌, ◌<◌, ◌≡◌, inl, inr, true, false, ◌++◌, arith, leb, if◌then◌else◌, Zero, Bool-cases,
  length, slice, clear, make, length-set, length-replicate, length-clear, length-copy,
  copy_from-copy, next_mod, length-sub_slice, min, ◌≢◌, ◌≤◌, ◌%◌, ◌⊎◌,
}
use kcp_go.Ring.{
  RingBuffer, len, is_full, new_size, at_index, new_ring_buffer, grow, put, push, pop, clear_all,
  discard_some, discard, set_at,
}

pub record IsValid {ℓ} {A : Type ℓ} (r : RingBuffer A) : Type 0 where
  pub head_in : r.head < length r.elements
  pub tail_in : r.tail < length r.elements

module _ {ℓ} {A : Type ℓ} where
  -- At most all slots but one are used.
  pub len-lt : (r : RingBuffer A) → IsValid r → len r < length r.elements
  unfolding len
  len-lt r v = ground arith

  -- IsFull says that a single slot is left.
  pub is_full-len :
      (r : RingBuffer A)
      → IsValid r
      → (is_full r ≡ true → len r + 1 ≡ length r.elements)
        × (is_full r ≡ false → len r + 1 < length r.elements)
  unfolding is_full len
  is_full-len r v = ground (arith, next_mod r.tail (length r.elements) v.tail_in)

  pub len-ne_zero : (r : RingBuffer A) → len r ≢ 0 → r.head ≢ r.tail
  unfolding len
  len-ne_zero r ne = ground arith

  pub free_slot :
      (r : RingBuffer A)
      → IsValid r
      → len r + 1 < length r.elements
      → (r.tail + 1) % length r.elements ≢ r.head
  unfolding len
  free_slot r v room = ground (arith, next_mod r.tail (length r.elements) v.tail_in)

  pub at_index-cases :
      (r : RingBuffer A) (i : ℕ)
      → IsValid r
      → i < len r
      → ((r.head ≤ r.tail) × (r.head + i < r.tail) × (at_index r i ≡ r.head + i))
        ⊎ ((r.tail < r.head) × (r.head + i < length r.elements) × (at_index r i ≡ r.head + i))
        ⊎ ((r.tail < r.head)
            × (length r.elements + at_index r i ≡ r.head + i)
            × (at_index r i < r.tail))
  unfolding len at_index
  at_index-cases r i v h = ground arith

  pub at_index-lt :
      (r : RingBuffer A) (i : ℕ) → IsValid r → i < len r → at_index r i < length r.elements
  unfolding at_index len
  at_index-lt r i v h = ground arith

pub new_size-lt : (n : ℕ) → n < new_size n
unfolding new_size
new_size-lt n = ground arith

module _ {ℓ} {A : Type ℓ} ⦃z : Zero A⦄ where
  pub new_ring_buffer-IsValid : (size : ℕ) → IsValid (new_ring_buffer {A = A} size)
  unfolding new_ring_buffer
  new_ring_buffer-IsValid size =
      ground (arith, length-replicate (if leb size 8 then 8 else size) z.zero_value)

  -- Both ways of copying fill the same number of slots.
  pub grow-elements :
      (r : RingBuffer A) → IsValid r → length (grow r).elements ≡ new_size (length r.elements)
  unfolding grow
  grow-elements r v =
      let n = length r.elements in
      let fresh = make {A = A} (new_size n) in
      let front = slice r.elements r.head n in
      let back = slice r.elements 0 r.tail in
      ground (
        arith,
        length-replicate (new_size n) z.zero_value,
        length-copy fresh (slice r.elements r.head r.tail),
        copy_from-copy fresh front back,
        length-copy fresh (front ++ back),
        length-sub_slice r.elements r.head (n - r.head),
        new_size-lt n,
      )

  pub grow-IsValid : (r : RingBuffer A) → IsValid r → IsValid (grow r)
  unfolding grow
  grow-IsValid r v = record {
    head_in = omega (arith, grow-elements r v, new_size-lt (length r.elements));
    tail_in = omega (arith, grow-elements r v, new_size-lt (length r.elements), len-lt r v);
  }

  pub put-IsValid : (r : RingBuffer A) (v : A) → IsValid r → IsValid (put r v)
  unfolding put
  put-IsValid r x v =
      ground (arith, length-set r.elements r.tail x, next_mod r.tail (length r.elements) v.tail_in)

  pub push-IsValid : (r : RingBuffer A) (v : A) → IsValid r → IsValid (push r v)
  unfolding push
  push-IsValid r x v = elim (Bool-cases (is_full r)) [
    | inl e ↦ put-IsValid _ x (rw e (grow-IsValid r v))
    | inr e ↦ put-IsValid _ x (rw e v)
  ]

  pub pop-IsValid : (r : RingBuffer A) → IsValid r → IsValid (pop r).1
  unfolding pop
  pop-IsValid r v = ground (
    arith,
    length-set r.elements r.head z.zero_value,
    next_mod r.head (length r.elements) v.head_in,
  )

  pub clear_all-IsValid : (r : RingBuffer A) → IsValid r → IsValid (clear_all r)
  unfolding clear_all
  clear_all-IsValid r v =
      let n = length r.elements in
      ground (
        arith,
        length-clear r.elements r.head (r.tail - r.head),
        length-clear r.elements r.head (n - r.head),
        length-clear (clear r.elements r.head (n - r.head)) 0 r.tail,
      )

  pub discard_some-IsValid :
      (r : RingBuffer A) (n : ℕ) → IsValid r → n < len r → IsValid (discard_some r n)
  unfolding discard_some len
  discard_some-IsValid r n v h =
      let m = length r.elements in
      ground (
        arith,
        length-clear r.elements r.head n,
        length-clear r.elements r.head (m - r.head),
        length-clear (clear r.elements r.head (m - r.head)) 0 (r.head + n - m),
      )

  pub discard-IsValid : (r : RingBuffer A) (n : ℕ) → IsValid r → IsValid (discard r n).1
  unfolding discard
  discard-IsValid r n v =
      ground (arith, clear_all-IsValid r v, discard_some-IsValid r (min n (len r)) v)

  pub set_at-IsValid : (r : RingBuffer A) (i : ℕ) (x : A) → IsValid r → IsValid (set_at r i x)
  unfolding set_at
  set_at-IsValid r i x v = ground (arith, length-set r.elements (at_index r i) x)
