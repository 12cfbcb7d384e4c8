-- ===== src/Ring/Grow.antt =====
-- ringbuffer.go: grow and Discard keep the elements that they should, in order.
use native.Mathlib.Decide.{dec_lt, ℕ_discrete}
use kcp_go.Prelude.{
  refl, ℕ, ◌+◌, ◌-◌, ◌≤◌, ◌<◌, ◌≡◌, sym, ap, ap₂, ◌∙◌, ◌≢◌, List, [], ◌++◌, arith, lt→ltb, le→ltb,
  Zero, length, drop, length-replicate, sub_slice, slice, copy, make, length-sub_slice,
  sub_slice-copy, copy_from-copy, clear, length-clear, min, sub_slice-clear, inr, drop_all, inl,
  drop-sub_slice, drop-append_right, drop-append_left, Bool-cases, ◌==◌, ==→eq,
}
use kcp_go.Ring.{RingBuffer, new_size, len, held, contents, grow, discard_some, clear_all, discard}
use kcp_go.Ring.Bounds.{IsValid, len-lt, new_size-lt, discard-IsValid}
use kcp_go.Ring.Fifo.{held_flat, held_wrapped, length-contents}

module _ {ℓ} {A : Type ℓ} ⦃z : Zero A⦄ where
  -- What `grow` copies, in both of its branches, is what the buffer holds.
  grow_copies :
      (r : RingBuffer A)
      → IsValid r
      → r.head ≢ r.tail
      → (grow r).elements ≡ copy (make (new_size (length r.elements))) (contents r)
  unfolding grow
  grow_copies r v ne = elim (dec_lt r.tail r.head) [
    | yes p ↦ rw (le→ltb r.head r.tail (omega arith)) (
        copy_from-copy fresh front (slice r.elements 0 r.tail) fits
        ∙ ap (λ k. copy fresh (front ++ sub_slice r.elements 0 k)) none_less
        ∙ ap (copy fresh) (sym (held_wrapped r.elements r.head r.tail p)))
    | no p ↦
        rw (lt→ltb r.head r.tail (omega arith))
          (ap (copy fresh) (sym (held_flat r.elements r.head r.tail (omega arith))))
  ]
    where
      fresh : List A
      fresh = make (new_size (length r.elements))

      front : List A
      front = slice r.elements r.head (length r.elements)

      none_less : r.tail - 0 ≡ r.tail
      none_less = omega arith

      fits : length front ≤ length fresh
      fits = omega (
        arith,
        length-sub_slice r.elements r.head (length r.elements - r.head),
        length-replicate (new_size (length r.elements)) z.zero_value,
        new_size-lt (length r.elements),
      )

  held-nil : (xs : List A) (h : ℕ) → held xs h h ≡ []
  unfolding sub_slice
  held-nil xs h =
      let e : h - h ≡ 0 = omega arith in held_flat xs h h (omega arith) ∙ ap (sub_slice xs h) e

  -- Growing keeps what the buffer holds.
  pub contents-grow : (r : RingBuffer A) → IsValid r → contents (grow r) ≡ contents r
  unfolding grow len
  contents-grow r v = elim (ℕ_discrete r.head r.tail) [
    | yes e ↦
        ap (held (grow r).elements 0) (none_held e)
        ∙ held-nil (grow r).elements 0
        ∙ sym (ap (held r.elements r.head) (sym e) ∙ held-nil r.elements r.head)
    | no ne ↦
        held_flat (grow r).elements 0 (len r) (omega arith)
        ∙ ap₂ (λ xs n. sub_slice xs 0 n) (grow_copies r v ne) (count ne)
        ∙ sub_slice-copy (make (new_size (length r.elements))) (contents r) (fits ne)
  ]
    where
      none_held : r.head ≡ r.tail → len r ≡ 0
      none_held e = ground arith

      count : r.head ≢ r.tail → len r - 0 ≡ length (contents r)
      count ne = omega (arith, length-contents r v)

      fits :
          r.head ≢ r.tail
          → length (contents r) ≤ length (make {A = A} (new_size (length r.elements)))
      fits ne = omega (
        arith,
        length-contents r v,
        len-lt r v,
        length-replicate (new_size (length r.elements)) z.zero_value,
        new_size-lt (length r.elements),
      )

  held-discard_near :
      (xs : List A) (h t n : ℕ)
      → t < h
      → h + n < length xs
      → held (clear xs h n) (h + n) t ≡ drop n (held xs h t)
  held-discard_near xs h t n p q =
      held_wrapped (clear xs h n) (h + n) t (omega arith)
      ∙ ap₂ ◌++◌
          (ap (λ k. sub_slice (clear xs h n) (h + n) (k - (h + n))) (length-clear xs h n)
            ∙ sub_slice-clear xs h n (h + n) (length xs - (h + n)) (inr (omega arith))
            ∙ sym (
                drop-sub_slice xs h (length xs - h) n (h + n) (length xs - (h + n)) (omega arith)
                  refl))
          (sub_slice-clear xs h n 0 t (inl (omega arith)))
      ∙ sym (
          ap (drop n) (held_wrapped xs h t p)
          ∙ drop-append_left n (sub_slice xs h (length xs - h)) (sub_slice xs 0 t)
              (omega (arith, length-sub_slice xs h (length xs - h))))

  held-discard_far :
      (xs : List A) (h t n e : ℕ)
      → t < h
      → h < length xs
      → length xs + e ≡ h + n
      → e ≤ t
      → held (clear (clear xs h (length xs - h)) 0 e) e t ≡ drop n (held xs h t)
  held-discard_far xs h t n e p lt q le =
      held_flat (clear (clear xs h (length xs - h)) 0 e) e t le
      ∙ sub_slice-clear (clear xs h (length xs - h)) 0 e e (t - e) (inr (omega arith))
      ∙ sub_slice-clear xs h (length xs - h) e (t - e) (inl (omega arith))
      ∙ sym (
          ap (drop n) (held_wrapped xs h t p)
          ∙ drop-append_right n e (sub_slice xs h (length xs - h)) (sub_slice xs 0 t)
              (omega (arith, length-sub_slice xs h (length xs - h)))
          ∙ drop-sub_slice xs 0 t e e (t - e) (omega arith) (omega arith))

  held-discard_flat :
      (xs : List A) (h t n : ℕ) → h + n ≤ t → held (clear xs h n) (h + n) t ≡ drop n (held xs h t)
  held-discard_flat xs h t n le =
      held_flat (clear xs h n) (h + n) t le
      ∙ sub_slice-clear xs h n (h + n) (t - (h + n)) (inr (omega arith))
      ∙ sym (
          ap (drop n) (held_flat xs h t (omega arith))
          ∙ drop-sub_slice xs h (t - h) n (h + n) (t - (h + n)) (omega arith) refl)

  -- Where fewer elements go than there are, the rest stays, in order.
  contents-discard_some :
      (r : RingBuffer A) (n : ℕ)
      → IsValid r
      → n < len r
      → contents (discard_some r n) ≡ drop n (contents r)
  unfolding discard_some len
  contents-discard_some r n v some_left = elim (dec_lt r.tail r.head) [
    | yes p ↦ elim (dec_lt (r.head + n) (length r.elements)) [
      | yes q ↦
          rw (lt→ltb (r.head + n) (length r.elements) q)
            (held-discard_near r.elements r.head r.tail n p q)
      | no q ↦ rw (le→ltb (r.head + n) (length r.elements) (omega arith)) (
          held-discard_far r.elements r.head r.tail n (r.head + n - length r.elements) p v.head_in
            (omega arith) (ground arith))
    ]
    | no p ↦
        rw (lt→ltb (r.head + n) (length r.elements) (ground arith))
          (held-discard_flat r.elements r.head r.tail n (ground arith))
  ]

  contents-clear_all : (r : RingBuffer A) → contents (clear_all r) ≡ []
  unfolding clear_all
  contents-clear_all r = held-nil (clear_all r).elements 0

  contents-discard :
      (r : RingBuffer A) (n : ℕ) → IsValid r → contents (discard r n).1 ≡ drop n (contents r)
  unfolding discard
  contents-discard r n v = elim (Bool-cases (n == 0)) [
    | inl e ↦ rw (==→eq n 0 e) refl
    | inr ne ↦ elim (Bool-cases (min n (len r) == len r)) [
      | inl all ↦
          rw (ne, all)
            (contents-clear_all r
              ∙ sym (drop_all n (contents r) (ground (arith, length-contents r v))))
      | inr some_left ↦
          let e : min n (len r) ≡ n = ground arith in
          rw (ne, some_left)
            (contents-discard_some r (min n (len r)) v (ground arith)
              ∙ ap (λ k. drop k (contents r)) e)
    ]
  ]

  -- Discard of `n` drops the first `n` elements, or all if there are fewer, and returns how many.
  pub discard_lem :
      (r : RingBuffer A) (n : ℕ)
      → IsValid r
      → ((discard r n).0 ≡ min n (length (contents r)))
        × (contents (discard r n).1 ≡ drop n (contents r))
        × IsValid (discard r n).1
  unfolding discard
  discard_lem r n v = (count, contents-discard r n v, discard-IsValid r n v)
    where
      count : (discard r n).0 ≡ min n (length (contents r))
      count = ground (arith, length-contents r v)
