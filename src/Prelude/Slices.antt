-- ===== src/Prelude/Slices.antt =====
-- Go slices: `xs[i:i+n]`, `copy`, `clear` and `make`.
use Prim.Native.Nat.{ℕ, zero, suc, ◌+◌, ◌-◌, ◌≤◌, ◌<◌}
use mathlib.Core.Path.{◌≡◌, refl, ap, ap₂, ◌∙◌}
use mathlib.Core.Logic.{◌⊎◌, inl, inr}
use mathlib.Core.List.{List, [], ◌∷◌, ◌++◌}
use native.Mathlib.Omega.{arith}
use kcp_go.Prelude.Tests.{Zero}
use kcp_go.Prelude.Lists.{
  length, get_or, set, take, drop, replicate, length-set, get_or-set_self, get_or-set_ne,
}

module _ {ℓ} {A : Type ℓ} ⦃z : Zero A⦄ where
  abbrev pub get : List A → ℕ → A
  get xs i = get_or xs i z.zero_value

  -- The `n` items from index `i` on.
  unfoldable pub sub_slice : List A → ℕ → ℕ → List A
  sub_slice xs i zero = []
  sub_slice xs i (suc n) = get xs i ∷ sub_slice xs (suc i) n

  -- `xs[i:j]`
  abbrev pub slice : List A → ℕ → ℕ → List A
  slice xs i j = sub_slice xs i (j - i)

  -- `copy(dst, src)`: the items of `dst` afterwards.
  unfoldable pub copy : List A → List A → List A
  copy [] src = []
  copy (d ∷ dst) [] = d ∷ dst
  copy (d ∷ dst) (s ∷ src) = s ∷ copy dst src

  -- `copy(dst[n:], src)`
  abbrev pub copy_from : List A → ℕ → List A → List A
  copy_from dst n src = take n dst ++ copy (drop n dst) src

  -- `clear(xs[i:i+n])`
  unfoldable pub clear : List A → ℕ → ℕ → List A
  clear xs i zero = xs
  clear xs i (suc n) = clear (set xs i z.zero_value) (suc i) n

  -- `make([]T, n)`
  abbrev pub make : ℕ → List A
  make n = replicate n z.zero_value

module _ {ℓ} {A : Type ℓ} ⦃z : Zero A⦄ where
  pub length-sub_slice : (xs : List A) (i n : ℕ) → length (sub_slice xs i n) ≡ n
  unfolding sub_slice
  length-sub_slice xs i zero = refl
  length-sub_slice xs i (suc n) = ap suc (length-sub_slice xs (suc i) n)

  pub sub_slice-snoc :
      (xs : List A) (i n j : ℕ)
      → i + n ≡ j
      → sub_slice xs i (suc n) ≡ sub_slice xs i n ++ get xs j ∷ []
  unfolding sub_slice
  sub_slice-snoc xs i zero j e = ap (λ k. get xs k ∷ []) (omega arith)
  sub_slice-snoc xs i (suc n) j e =
      ap (λ ys. get xs i ∷ ys) (sub_slice-snoc xs (suc i) n j (omega arith))

  pub sub_slice-add :
      (xs : List A) (i a b j : ℕ)
      → i + a ≡ j
      → sub_slice xs i (a + b) ≡ sub_slice xs i a ++ sub_slice xs j b
  unfolding sub_slice
  sub_slice-add xs i zero b j e = ap₂ (sub_slice xs) (omega arith) (omega arith)
  sub_slice-add xs i (suc a) b j e =
      let shift : suc a + b ≡ suc (a + b) = omega arith in
      rw shift (ap (λ ys. get xs i ∷ ys) (sub_slice-add xs (suc i) a b j (omega arith)))

  -- A write outside the range leaves it alone.
  pub sub_slice-set :
      (xs : List A) (i n j : ℕ) (v : A)
      → (j < i) ⊎ (i + n ≤ j)
      → sub_slice (set xs j v) i n ≡ sub_slice xs i n
  unfolding sub_slice
  sub_slice-set xs i zero j v h = refl
  sub_slice-set xs i (suc n) j v h =
      ap₂ (λ y ys. y ∷ ys) (get_or-set_ne xs j i v z.zero_value (omega arith))
        (sub_slice-set xs (suc i) n j v (later h))
    where
      later : (j < i) ⊎ (i + suc n ≤ j) → (j < suc i) ⊎ (suc i + n ≤ j)
      later (inl p) = inl (omega arith)
      later (inr p) = inr (omega arith)

  pub sub_slice-suc :
      (x : A) (xs : List A) (i n : ℕ) → sub_slice (x ∷ xs) (suc i) n ≡ sub_slice xs i n
  unfolding sub_slice
  sub_slice-suc x xs i zero = refl
  sub_slice-suc x xs i (suc n) = ap (λ ys. get xs i ∷ ys) (sub_slice-suc x xs (suc i) n)

  pub get-sub_slice : (xs : List A) (i n k : ℕ) → k < n → get (sub_slice xs i n) k ≡ get xs (i + k)
  unfolding sub_slice
  get-sub_slice xs i zero k h = absurd (omega arith)
  get-sub_slice xs i (suc n) zero h = ap (get xs) (omega arith)
  get-sub_slice xs i (suc n) (suc k) h =
      get-sub_slice xs (suc i) n k (omega arith) ∙ ap (get xs) (omega arith)

  -- The start of a copy is what was copied.
  pub sub_slice-copy :
      (dst src : List A) → length src ≤ length dst → sub_slice (copy dst src) 0 (length src) ≡ src
  unfolding sub_slice copy
  sub_slice-copy dst [] h = refl
  sub_slice-copy [] (s ∷ src) h = absurd (omega arith)
  sub_slice-copy (d ∷ dst) (s ∷ src) h =
      ap (λ ys. s ∷ ys)
        (sub_slice-suc s (copy dst src) 0 (length src) ∙ sub_slice-copy dst src (omega arith))

  pub length-copy : (dst src : List A) → length (copy dst src) ≡ length dst
  unfolding copy
  length-copy [] src = refl
  length-copy (d ∷ dst) [] = refl
  length-copy (d ∷ dst) (s ∷ src) = ap suc (length-copy dst src)

  -- Two copies, one behind the other, are a copy of both.
  pub copy_from-copy :
      (dst xs ys : List A)
      → length xs ≤ length dst
      → copy_from (copy dst xs) (length xs) ys ≡ copy dst (xs ++ ys)
  unfolding copy
  copy_from-copy [] [] ys h = refl
  copy_from-copy [] (x ∷ xs) ys h = absurd (omega arith)
  copy_from-copy (d ∷ dst) [] ys h = refl
  copy_from-copy (d ∷ dst) (x ∷ xs) ys h =
      ap (λ zs. x ∷ zs) (copy_from-copy dst xs ys (omega arith))

  pub length-clear : (xs : List A) (i n : ℕ) → length (clear xs i n) ≡ length xs
  unfolding clear
  length-clear xs i zero = refl
  length-clear xs i (suc n) =
      length-clear (set xs i z.zero_value) (suc i) n ∙ length-set xs i z.zero_value

  -- Clearing a range leaves a range that ends before it, or begins behind it.
  pub sub_slice-clear :
      (xs : List A) (i n j m : ℕ)
      → (j + m ≤ i) ⊎ (i + n ≤ j)
      → sub_slice (clear xs i n) j m ≡ sub_slice xs j m
  unfolding clear
  sub_slice-clear xs i zero j m h = refl
  sub_slice-clear xs i (suc n) j m h =
      sub_slice-clear (set xs i z.zero_value) (suc i) n j m (next h)
      ∙ sub_slice-set xs j m i z.zero_value (here h)
    where
      next : (j + m ≤ i) ⊎ (i + suc n ≤ j) → (j + m ≤ suc i) ⊎ (suc i + n ≤ j)
      next (inl p) = inl (omega arith)
      next (inr p) = inr (omega arith)

      here : (j + m ≤ i) ⊎ (i + suc n ≤ j) → (i < j) ⊎ (j + m ≤ i)
      here (inl p) = inr p
      here (inr p) = inl (omega arith)

  pub sub_slice-uncons :
      (xs : List A) (i n m : ℕ) → n ≡ suc m → sub_slice xs i n ≡ get xs i ∷ sub_slice xs (suc i) m
  unfolding sub_slice
  sub_slice-uncons xs i n m e = ap (sub_slice xs i) e

  pub drop-sub_slice :
      (xs : List A) (i n k j m : ℕ)
      → k + m ≡ n
      → i + k ≡ j
      → drop k (sub_slice xs i n) ≡ sub_slice xs j m
  unfolding sub_slice
  drop-sub_slice xs i n zero j m e f = ap₂ (sub_slice xs) (omega arith) (omega arith)
  drop-sub_slice xs i zero (suc k) j m e f = absurd (omega arith)
  drop-sub_slice xs i (suc n) (suc k) j m e f =
      drop-sub_slice xs (suc i) n k j m (omega arith) (omega arith)

  -- A write inside the range is a write at the place that it has there.
  pub sub_slice-set_in :
      (xs : List A) (i n k j : ℕ) (v : A)
      → i + k ≡ j
      → k < n
      → j < length xs
      → sub_slice (set xs j v) i n ≡ set (sub_slice xs i n) k v
  unfolding sub_slice
  sub_slice-set_in xs i zero k j v e h lt = absurd (omega arith)
  sub_slice-set_in xs i (suc n) zero j v e h lt =
      let same : i ≡ j = omega arith in
      ap₂ (λ y ys. y ∷ ys) (ap (get (set xs j v)) same ∙ get_or-set_self xs j v z.zero_value lt)
        (sub_slice-set xs (suc i) n j v (inl (omega arith)))
  sub_slice-set_in xs i (suc n) (suc k) j v e h lt =
      ap₂ (λ y ys. y ∷ ys) (get_or-set_ne xs j i v z.zero_value (omega arith))
        (sub_slice-set_in xs (suc i) n k j v (omega arith) (omega arith) lt)
