-- ===== src/Heap/Items.antt =====
-- container/heap: Push and Pop lose no item and invent none.
use kcp_go.Prelude.{
  ℕ, zero, suc, ◌+◌, ◌-◌, ◌*◌, ◌/◌, ◌≤◌, ◌<◌, ◌≡◌, refl, ◌∙◌, inl, inr, Bool, not, ◌||◌, List, [],
  ◌∷◌, ◌++◌, arith, ltb, leb, ◌==◌, ltb→lt, leb→lt, Bool-cases, Zero, length, set, length-append,
  length-set, get,
}
use kcp_go.Items.{one_if, count, count-append, count-exchange}
use kcp_go.Heap.{swap, up, child, down, heap_push, heap_sink}

module _ {ℓ} {A : Type ℓ} ⦃z : Zero A⦄ where
  pub length-swap : (h : List A) (i j : ℕ) → length (swap h i j) ≡ length h
  unfolding swap
  length-swap h i j = length-set (set h i (get h j)) j (get h i) ∙ length-set h i (get h j)

  pub count-swap :
      (p : A → Bool) (h : List A) (i j : ℕ)
      → i < length h
      → j < length h
      → count p (swap h i j) ≡ count p h
  unfolding swap
  count-swap p h i j hi hj = count-exchange p h i j hi hj

module _ {ℓ} {A : Type ℓ} ⦃z : Zero A⦄ (less : A → A → Bool) where
  up-items :
      (fuel : ℕ) (h : List A) (j : ℕ) (p : A → Bool)
      → j < length h
      → (length (up less fuel h j) ≡ length h) × (count p (up less fuel h j) ≡ count p h)
  unfolding up
  up-items zero h j p lt = (refl, refl)
  up-items (suc fuel) h j p lt =
      let i = (j - 1) / 2 in
      let il : i < length h = omega (arith, lt) in
      elim (Bool-cases (i == j || not (less (get h j) (get h i)))) [
        | inl stop ↦ rw stop (refl, refl)
        | inr go ↦
            let ih = up-items fuel (swap h i j) i p (omega (arith, il, length-swap h i j)) in
            rw go (ih.0 ∙ length-swap h i j, ih.1 ∙ count-swap p h i j il lt)
      ]

  child_bound : (h : List A) (i n : ℕ) → 2 * i + 1 < n → child less h i n < n
  unfolding child
  child_bound h i n lt = elim (Bool-cases (ltb (2 * i + 1 + 1) n)) [
    | inl t ↦
        let more = ltb→lt (2 * i + 1 + 1) n t in
        elim (Bool-cases (less (get h (2 * i + 1 + 1)) (get h (2 * i + 1)))) [
          | inl u ↦ rw (t, u) more
          | inr u ↦ rw (t, u) lt
        ]
    | inr t ↦ rw t lt
  ]

  down-items :
      (fuel : ℕ) (h : List A) (i n : ℕ) (p : A → Bool)
      → i < length h
      → n ≤ length h
      → (length (down less fuel h i n) ≡ length h) × (count p (down less fuel h i n) ≡ count p h)
  unfolding down
  down-items zero h i n p lt le = (refl, refl)
  down-items (suc fuel) h i n p lt le = elim (Bool-cases (leb n (2 * i + 1))) [
    | inl stop ↦ rw stop (refl, refl)
    | inr go ↦
        let j = child less h i n in
        let jn = child_bound h i n (leb→lt n (2 * i + 1) go) in
        let jl : j < length h = omega (arith, jn, le) in
        elim (Bool-cases (not (less (get h j) (get h i)))) [
          | inl stop ↦ rw (go, stop) (refl, refl)
          | inr on ↦
              let ih =
                down-items fuel (swap h i j) j n p (omega (arith, jl, length-swap h i j))
                  (omega (arith, le, length-swap h i j)) in
              rw (go, on) (ih.0 ∙ length-swap h i j, ih.1 ∙ count-swap p h i j lt jl)
        ]
  ]

  pub heap_push-items :
      (h : List A) (x : A) (p : A → Bool) → count p (heap_push less h x) ≡ one_if (p x) + count p h
  unfolding heap_push count
  heap_push-items h x p =
      let size : length (h ++ x ∷ []) ≡ length h + 1 = length-append h (x ∷ []) in
      let u = up-items (suc (length h)) (h ++ x ∷ []) (length h) p (omega (arith, size)) in
      omega (arith, u.1, count-append p h (x ∷ []))

  pub heap_sink-items :
      (h : List A) (p : A → Bool)
      → 0 < length h
      → (length (heap_sink less h) ≡ length h) × (count p (heap_sink less h) ≡ count p h)
  unfolding heap_sink
  heap_sink-items h p some_ =
      let n = length h - 1 in
      let size = length-swap h 0 n in
      let d =
        down-items (length h) (swap h 0 n) 0 n p (omega (arith, size, some_))
          (omega (arith, size, some_)) in
      (d.0 ∙ size, d.1 ∙ count-swap p h 0 n some_ (omega (arith, some_)))
