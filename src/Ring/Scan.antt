-- ===== src/Ring/Scan.antt =====
-- ringbuffer.go: indexed access, and the loops over the elements.

use kcp_go.Prelude.{
  ℕ, ◌+◌, ◌-◌, ◌≤◌, ◌<◌, ◌≡◌, sym, ap, ◌∙◌, ◌⊎◌, inl, inr, List, arith, Zero, length,
  get_or-append_left, get, sub_slice, length-sub_slice, get-sub_slice, ◌++◌, set, drop, take, ◌∷◌,
  sub_slice-set_in, get_or-append_right, suc, true, [], length-set, false, ap₂, refl, sub_slice-set,
  set-append_left, set-append_right, zero, drop_all, append_assoc, Bool-cases, take-append-drop,
  All,
}
use kcp_go.Ring.{
  held, at, Body, len, set_at, scan, for_at, RingBuffer, contents, at_index, scan_ring,
}
use kcp_go.Ring.Bounds.{IsValid, at_index-cases, set_at-IsValid}
use kcp_go.Ring.Fifo.{held_flat, held_wrapped, length-contents}

module _ {ℓ} {A : Type ℓ} ⦃z : Zero A⦄ where
  -- The place of an index in a range or in the range behind it.
  get-held :
      (xs : List A) (h t i j : ℕ)
      → h < length xs
      → t < length xs
      → ((h ≤ t) × (h + i < t) × (j ≡ h + i))
        ⊎ ((t < h) × (h + i < length xs) × (j ≡ h + i))
        ⊎ ((t < h) × (length xs + j ≡ h + i) × (j < t))
      → get xs j ≡ get (held xs h t) i
  get-held xs h t i j hh ht (inl (le, lt, e)) =
      ap (get xs) e
      ∙ sym (ap (λ ys. get ys i) (held_flat xs h t le) ∙ get-sub_slice xs h (t - h) i (omega arith))
  get-held xs h t i j hh ht (inr (inl (p, lt, e))) =
      ap (get xs) e
      ∙ sym (
          ap (λ ys. get ys i) (held_wrapped xs h t p)
          ∙ get_or-append_left (sub_slice xs h (length xs - h)) (sub_slice xs 0 t) i z.zero_value
              (omega (arith, length-sub_slice xs h (length xs - h)))
          ∙ get-sub_slice xs h (length xs - h) i (omega arith))
  get-held xs h t i j hh ht (inr (inr (p, e, lt))) = sym (
      ap (λ ys. get ys i) (held_wrapped xs h t p)
      ∙ ap (get (sub_slice xs h (length xs - h) ++ sub_slice xs 0 t)) behind
      ∙ get_or-append_right (sub_slice xs h (length xs - h)) (sub_slice xs 0 t) j z.zero_value
      ∙ get-sub_slice xs 0 t j lt
      ∙ ap (get xs) start)
    where
      behind : i ≡ length (sub_slice xs h (length xs - h)) + j
      behind = omega (arith, length-sub_slice xs h (length xs - h))

      start : 0 + j ≡ j
      start = omega arith

  set-held :
      (xs : List A) (h t i j : ℕ) (x : A)
      → h < length xs
      → t < length xs
      → ((h ≤ t) × (h + i < t) × (j ≡ h + i))
        ⊎ ((t < h) × (h + i < length xs) × (j ≡ h + i))
        ⊎ ((t < h) × (length xs + j ≡ h + i) × (j < t))
      → held (set xs j x) h t ≡ set (held xs h t) i x
  set-held xs h t i j x hh ht (inl (le, lt, e)) =
      held_flat (set xs j x) h t le
      ∙ sub_slice-set_in xs h (t - h) i j x (omega arith) (omega arith) (omega arith)
      ∙ sym (ap (λ ys. set ys i x) (held_flat xs h t le))
  set-held xs h t i j x hh ht (inr (inl (p, lt, e))) =
      held_wrapped (set xs j x) h t p
      ∙ ap₂ ◌++◌
          (ap (λ k. sub_slice (set xs j x) h (k - h)) (length-set xs j x)
            ∙ sub_slice-set_in xs h (length xs - h) i j x (omega arith) (omega arith) (omega arith))
          (sub_slice-set xs 0 t j x (inr (omega arith)))
      ∙ sym (
          ap (λ ys. set ys i x) (held_wrapped xs h t p)
          ∙ set-append_left (sub_slice xs h (length xs - h)) (sub_slice xs 0 t) i x
              (omega (arith, length-sub_slice xs h (length xs - h))))
  set-held xs h t i j x hh ht (inr (inr (p, e, lt))) =
      held_wrapped (set xs j x) h t p
      ∙ ap₂ ◌++◌
          (ap (λ k. sub_slice (set xs j x) h (k - h)) (length-set xs j x)
            ∙ sub_slice-set xs h (length xs - h) j x (inl (omega arith)))
          (sub_slice-set_in xs 0 t j j x (omega arith) lt (omega arith))
      ∙ sym (
          ap (λ ys. set ys i x) (held_wrapped xs h t p)
          ∙ set-append_right (sub_slice xs h (length xs - h)) (sub_slice xs 0 t) i j x
              (omega (arith, length-sub_slice xs h (length xs - h))))

  -- At reads the i-th of the elements that the buffer holds.
  pub at_lem : (r : RingBuffer A) (i : ℕ) → IsValid r → i < len r → at r i ≡ get (contents r) i
  unfolding at
  at_lem r i v h =
      get-held r.elements r.head r.tail i (at_index r i) v.head_in v.tail_in
        (at_index-cases r i v h)

  -- A write through At's pointer changes that element and no other.
  pub contents-set_at :
      (r : RingBuffer A) (i : ℕ) (x : A)
      → IsValid r
      → i < len r
      → contents (set_at r i x) ≡ set (contents r) i x
  unfolding set_at
  contents-set_at r i x v h =
      set-held r.elements r.head r.tail i (at_index r i) x v.head_in v.tail_in
        (at_index-cases r i v h)

  pub len-set_at : (r : RingBuffer A) (i : ℕ) (x : A) → len (set_at r i x) ≡ len r
  unfolding len set_at
  len-set_at r i x = ground (arith, length-set r.elements (at_index r i) x)

  -- A list is what stands before an index, the element there, and the rest.
  pub drop-get : (xs : List A) (i : ℕ) → i < length xs → drop i xs ≡ get xs i ∷ drop (suc i) xs
  drop-get [] i h = absurd (omega arith)
  drop-get (x ∷ xs) zero h = refl
  drop-get (x ∷ xs) (suc i) h = drop-get xs i (omega arith)

  set-split :
      (xs : List A) (i : ℕ) (x : A) → i < length xs → set xs i x ≡ take i xs ++ x ∷ drop (suc i) xs
  set-split [] i x h = absurd (omega arith)
  set-split (y ∷ xs) zero x h = refl
  set-split (y ∷ xs) (suc i) x h = ap (λ ys. y ∷ ys) (set-split xs i x (omega arith))

  take-suc-set :
      (xs : List A) (i : ℕ) (x : A)
      → i < length xs
      → take (suc i) (set xs i x) ≡ take i xs ++ x ∷ []
  take-suc-set [] i x h = absurd (omega arith)
  take-suc-set (y ∷ xs) zero x h = refl
  take-suc-set (y ∷ xs) (suc i) x h = ap (λ ys. y ∷ ys) (take-suc-set xs i x (omega arith))

  pub drop-suc-set : (xs : List A) (i : ℕ) (x : A) → drop (suc i) (set xs i x) ≡ drop (suc i) xs
  drop-suc-set [] i x = refl
  drop-suc-set (y ∷ xs) zero x = refl
  drop-suc-set (y ∷ xs) (suc i) x = drop-suc-set xs i x

module _ {ℓ κ} {S : Type κ} {A : Type ℓ} ⦃z : Zero A⦄ (body : Body S A) where
  -- A round of the loop over a list.
  scan_more :
      (s : S) (x : A) (xs : List A)
      → (body s x).2 ≡ true
      → scan body s (x ∷ xs)
        ≡ ((scan body (body s x).0 xs).0, (body s x).1 ∷ (scan body (body s x).0 xs).1)
  unfolding scan
  scan_more s x xs e = rw e refl

  scan_break :
      (s : S) (x : A) (xs : List A)
      → (body s x).2 ≡ false
      → scan body s (x ∷ xs) ≡ ((body s x).0, (body s x).1 ∷ xs)
  unfolding scan
  scan_break s x xs e = rw e refl

  -- What a loop over indices has done: it went through the elements from its index on as the loop
  -- over the plain list does.
  pub record Scanned (s : S) (i : ℕ) (r : RingBuffer A) (out : S × RingBuffer A)
      : Type (ℓ ⊔ κ) where
    pub state : out.0 ≡ (scan body s (drop i (contents r))).0
    pub items : contents out.1 ≡ take i (contents r) ++ (scan body s (drop i (contents r))).1
    pub valid : IsValid out.1
    pub size : len out.1 ≡ len r

  for_at-Scanned :
      (n i : ℕ) (s : S) (r : RingBuffer A)
      → IsValid r
      → i + n ≡ len r
      → Scanned s i r (for_at body n i s r)
  unfolding for_at scan
  for_at-Scanned zero i s r v e =
      let all = drop_all i (contents r) (omega (arith, length-contents r v)) in
      record {
        state = sym (ap (λ ys. (scan body s ys).0) all);
        items = sym (
            ap (λ ys. take i (contents r) ++ ys) (ap (λ ys. (scan body s ys).1) all)
            ∙ ap (λ ys. take i (contents r) ++ ys) (sym all)
            ∙ take-append-drop i (contents r));
        valid = v;
        size = refl;
      }
  for_at-Scanned (suc n) i s r v e = elim (Bool-cases (body s (at r i)).2) [
    | inl more ↦ rw more (
        let ih = for_at-Scanned n (suc i) s' r' (set_at-IsValid r i x' v) (omega (arith, size')) in
        record {
          state =
              ih.state
              ∙ ap (λ ys. (scan body s' ys).0) rest
              ∙ sym (ap (λ (p : S × List A). p.0) (round more));
          items =
              ih.items
              ∙ ap₂ (λ ys zs. ys ++ (scan body s' zs).1) front rest
              ∙ append_assoc (take i (contents r)) (x' ∷ [])
                  (scan body s' (drop (suc i) (contents r))).1
              ∙ sym (ap (λ (p : S × List A). take i (contents r) ++ p.1) (round more));
          valid = ih.valid;
          size = ih.size ∙ size';
        })
    | inr stop ↦ rw stop (record {
      state = sym (ap (λ (p : S × List A). p.0) (last stop));
      items =
          contents-set_at r i x' v inside
          ∙ set-split (contents r) i x' within
          ∙ sym (ap (λ (p : S × List A). take i (contents r) ++ p.1) (last stop));
      valid = set_at-IsValid r i x' v;
      size = size';
    })
  ]
    where
      inside : i < len r
      inside = omega arith

      within : i < length (contents r)
      within = omega (arith, length-contents r v)

      s' : S
      s' = (body s (at r i)).0

      x' : A
      x' = (body s (at r i)).1

      r' : RingBuffer A
      r' = set_at r i x'

      size' : len r' ≡ len r
      size' = len-set_at r i x'

      here : drop i (contents r) ≡ at r i ∷ drop (suc i) (contents r)
      here =
          drop-get (contents r) i within
          ∙ ap (λ y. y ∷ drop (suc i) (contents r)) (sym (at_lem r i v inside))

      rest : drop (suc i) (contents r') ≡ drop (suc i) (contents r)
      rest = ap (drop (suc i)) (contents-set_at r i x' v inside) ∙ drop-suc-set (contents r) i x'

      front : take (suc i) (contents r') ≡ take i (contents r) ++ x' ∷ []
      front =
          ap (take (suc i)) (contents-set_at r i x' v inside)
          ∙ take-suc-set (contents r) i x' within

      round :
          (body s (at r i)).2 ≡ true
          → scan body s (drop i (contents r)) ≡ (
            (scan body s' (drop (suc i) (contents r))).0,
            x' ∷ (scan body s' (drop (suc i) (contents r))).1,
          )
      round more = ap (scan body s) here ∙ scan_more s (at r i) (drop (suc i) (contents r)) more

      last :
          (body s (at r i)).2 ≡ false
          → scan body s (drop i (contents r)) ≡ (s', x' ∷ drop (suc i) (contents r))
      last stop = ap (scan body s) here ∙ scan_break s (at r i) (drop (suc i) (contents r)) stop

  -- A loop over At's indices treats what the buffer holds as the same loop over the plain list does,
  -- a break included, and keeps the invariant and the length.
  pub scan_ring_refines :
      (s : S) (r : RingBuffer A)
      → IsValid r
      → ((scan_ring body s r).0 ≡ (scan body s (contents r)).0)
        × (contents (scan_ring body s r).1 ≡ (scan body s (contents r)).1)
        × IsValid (scan_ring body s r).1
        × (len (scan_ring body s r).1 ≡ len r)
  unfolding scan_ring
  scan_ring_refines s r v =
      let out = for_at-Scanned (len r) 0 s r v (omega arith) in
      (out.state, out.items, out.valid, out.size)

-- An invariant of a loop's state, for a body that keeps it at every element of some kind.
pub scan_inv {ℓ κ ι ο} :
    {S : Type κ} {A : Type ℓ} ⦃z : Zero A⦄ (P : S → Type ι) (Q : A → Type ο) (body : Body S A)
    → ((s : S) (x : A) → P s → Q x → P (body s x).0)
    → (s : S) (xs : List A) → P s
    → All Q xs
    → P (scan body s xs).0
unfolding scan
scan_inv P Q body keep s [] p q = p
scan_inv P Q body keep s (x ∷ xs) p q = elim (Bool-cases (body s x).2) [
  | inl e ↦ rw (e, scan) (scan_inv P Q body keep (body s x).0 xs (keep s x p q.0) q.1)
  | inr e ↦ rw (e, scan) (keep s x p q.0)
]
