-- ===== src/Ring/Fifo.antt =====
-- ringbuffer.go: every method against the plain first-in-first-out list of what the buffer holds.

use native.Mathlib.Decide.{dec_lt}
use kcp_go.Prelude.{
  ℕ, suc, ◌+◌, ◌-◌, ◌≤◌, ◌<◌, ◌≡◌, sym, ap, ap₂, ◌∙◌, ◌≢◌, ◌⊎◌, inl, inr, List, [], ◌∷◌, ◌++◌,
  append_assoc, arith, le→leb, lt→leb, Zero, length, set, length-append, length-set,
  get_or-set_self, sub_slice, length-sub_slice, sub_slice-snoc, sub_slice-set, get, append-nil,
  sub_slice-uncons, ◌%◌, next_mod,
}
use kcp_go.Ring.{RingBuffer, len, held, contents, put}
use kcp_go.Ring.Bounds.{IsValid, len-lt, free_slot}

module _ {ℓ} {A : Type ℓ} ⦃z : Zero A⦄ where
  pub held_flat : (xs : List A) (h t : ℕ) → h ≤ t → held xs h t ≡ sub_slice xs h (t - h)
  unfolding held
  held_flat xs h t le = rw (le→leb h t le)

  pub held_wrapped :
      (xs : List A) (h t : ℕ)
      → t < h
      → held xs h t ≡ sub_slice xs h (length xs - h) ++ sub_slice xs 0 t
  unfolding held
  held_wrapped xs h t lt =
      let e : t - 0 ≡ t = omega arith in
      rw (lt→leb h t lt) (ap (λ k. sub_slice xs h (length xs - h) ++ sub_slice xs 0 k) e)

  -- Len counts what the buffer holds.
  pub length-contents : (r : RingBuffer A) → IsValid r → length (contents r) ≡ len r
  unfolding len
  length-contents r v = elim (dec_lt r.tail r.head) [
    | yes p ↦ ground (
      arith,
      ap length (held_wrapped r.elements r.head r.tail p),
      length-append (sub_slice r.elements r.head (length r.elements - r.head))
          (sub_slice r.elements 0 r.tail),
      length-sub_slice r.elements r.head (length r.elements - r.head),
      length-sub_slice r.elements 0 r.tail,
      len-lt r v,
    )
    | no p ↦ ground (
      arith,
      ap length (held_flat r.elements r.head r.tail (omega arith)),
      length-sub_slice r.elements r.head (r.tail - r.head),
    )
  ]

  -- A write just behind a range extends it.
  sub_slice-extend :
      (xs : List A) (h k m t : ℕ) (x : A)
      → h + k ≡ t
      → m ≡ suc k
      → t < length xs
      → sub_slice (set xs t x) h m ≡ sub_slice xs h k ++ x ∷ []
  sub_slice-extend xs h k m t x e em lt = rw em (
      sub_slice-snoc (set xs t x) h k t e
      ∙ ap₂ (λ ys y. ys ++ y ∷ []) (sub_slice-set xs h k t x (inr (omega arith)))
          (get_or-set_self xs t x z.zero_value lt))

  -- What Push does where a slot is free.
  pub held-set :
      (xs : List A) (h t t' : ℕ) (x : A)
      → h < length xs
      → t < length xs
      → ((t + 1 ≡ length xs) × (t' ≡ 0)) ⊎ ((t + 1 < length xs) × (t' ≡ t + 1))
      → t' ≢ h
      → held (set xs t x) h t' ≡ held xs h t ++ x ∷ []
  unfolding sub_slice
  held-set xs h t t' x hh ht next ne = elim (dec_lt t h) [
    | yes p ↦
        held_wrapped (set xs t x) h t' (ground arith)
        ∙ ap₂ ◌++◌
            (sub_slice-set xs h (length (set xs t x) - h) t x (inl p)
              ∙ ap (λ k. sub_slice xs h (k - h)) (length-set xs t x))
            (sub_slice-extend xs 0 t t' t x (omega arith) (ground arith) ht)
        ∙ sym (append_assoc (sub_slice xs h (length xs - h)) (sub_slice xs 0 t) (x ∷ []))
        ∙ ap (λ ys. ys ++ x ∷ []) (sym (held_wrapped xs h t p))
    | no p ↦ elim next [
      | inl (e, wraps) ↦
          held_wrapped (set xs t x) h t' (omega arith)
          ∙ ap₂ ◌++◌
              (sub_slice-extend xs h (t - h) (length (set xs t x) - h) t x (omega arith)
                (omega (arith, length-set xs t x)) ht)
              (ap (sub_slice (set xs t x) 0) wraps)
          ∙ append-nil (sub_slice xs h (t - h) ++ x ∷ [])
          ∙ ap (λ ys. ys ++ x ∷ []) (sym (held_flat xs h t (omega arith)))
      | inr (lt, stays) ↦
          held_flat (set xs t x) h t' (omega arith)
          ∙ sub_slice-extend xs h (t - h) (t' - h) t x (omega arith) (omega arith) ht
          ∙ ap (λ ys. ys ++ x ∷ []) (sym (held_flat xs h t (omega arith)))
    ]
  ]

  -- What Pop leaves: the head goes, and the slot that it leaves is cleared.
  pub held-clear_head :
      (xs : List A) (h h' t : ℕ)
      → h < length xs
      → t < length xs
      → ((h + 1 ≡ length xs) × (h' ≡ 0)) ⊎ ((h + 1 < length xs) × (h' ≡ h + 1))
      → h ≢ t
      → held xs h t ≡ get xs h ∷ held (set xs h z.zero_value) h' t
  unfolding sub_slice
  held-clear_head xs h h' t hh ht next ne = elim (dec_lt t h) [
    | yes p ↦
        held_wrapped xs h t p
        ∙ ap (λ ys. ys ++ sub_slice xs 0 t)
            (sub_slice-uncons xs h (length xs - h) (length xs - h - 1) (omega arith))
        ∙ ap (λ ys. get xs h ∷ ys) (sym (rest p))
    | no p ↦
        held_flat xs h t (omega arith)
        ∙ sub_slice-uncons xs h (t - h) (t - h - 1) (omega arith)
        ∙ ap (λ ys. get xs h ∷ ys)
            (sym (
              held_flat ys h' t (ground arith)
              ∙ ap₂ (sub_slice ys) (ground arith) (ground arith)
              ∙ sub_slice-set xs (suc h) (t - h - 1) h z.zero_value (inl (omega arith))))
  ]
    where
      ys : List A
      ys = set xs h z.zero_value

      rest : t < h → held ys h' t ≡ sub_slice xs (suc h) (length xs - h - 1) ++ sub_slice xs 0 t
      rest p = elim next [
        | inl (e, wraps) ↦
            let none_left : 0 ≡ length xs - h - 1 = omega arith in
            held_flat ys h' t (omega arith)
            ∙ ap₂ (sub_slice ys) wraps (omega arith)
            ∙ sub_slice-set xs 0 t h z.zero_value (inr (omega arith))
            ∙ ap (λ k. sub_slice xs (suc h) k ++ sub_slice xs 0 t) none_left
        | inr (lt, stays) ↦
            let up : h' ≡ suc h = omega arith in
            held_wrapped ys h' t (omega arith)
            ∙ ap₂ ◌++◌
                (ap₂ (sub_slice ys) up (omega (arith, length-set xs h z.zero_value))
                  ∙ sub_slice-set xs (suc h) (length xs - h - 1) h z.zero_value (inl (omega arith)))
                (sub_slice-set xs 0 t h z.zero_value (inr (omega arith)))
      ]

  pub contents-put :
      (r : RingBuffer A) (x : A)
      → IsValid r
      → len r + 1 < length r.elements
      → contents (put r x) ≡ contents r ++ x ∷ []
  unfolding put
  contents-put r x v room =
      held-set r.elements r.head r.tail ((r.tail + 1) % length r.elements) x v.head_in v.tail_in
        (next_mod r.tail (length r.elements) v.tail_in) (free_slot r v room)
