-- ===== src/Items.antt =====
-- What a list holds, whatever its order: how many of its items pass a test. Swapping two items,
-- which is all that container/heap and the heap of timedsched.go do to a slice, changes none of
-- these counts.
use kcp_go.Prelude.{
  ℕ, zero, suc, ◌+◌, ◌<◌, ◌≡◌, refl, ap, Bool, true, false, List, [], ◌∷◌, ◌++◌, arith, Zero,
  length, set, take, length-set, get,
}

abbrev pub one_if : Bool → ℕ
one_if true = 1
one_if false = 0

unfoldable pub count {ℓ} : {A : Type ℓ} → (A → Bool) → List A → ℕ
count p [] = 0
count p (x ∷ xs) = one_if (p x) + count p xs

-- The same items, as often.
abbrev pub SameItems {ℓ} : {A : Type ℓ} → List A → List A → Type ℓ
SameItems {A} xs ys = (p : A → Bool) → count p xs ≡ count p ys

module _ {ℓ} {A : Type ℓ} (p : A → Bool) where
  pub count-append : (xs ys : List A) → count p (xs ++ ys) ≡ count p xs + count p ys
  unfolding count
  count-append [] ys = omega arith
  count-append (x ∷ xs) ys = omega (arith, count-append xs ys)

module _ {ℓ} {A : Type ℓ} ⦃z : Zero A⦄ where
  pub get-set_same :
      (xs : List A) (i j : ℕ) (x : A) → j < length xs → x ≡ get xs j → get (set xs i x) j ≡ get xs j
  get-set_same [] i j x h e = absurd (omega (arith, h))
  get-set_same (y ∷ xs) zero zero x h e = e
  get-set_same (y ∷ xs) zero (suc j) x h e = refl
  get-set_same (y ∷ xs) (suc i) zero x h e = refl
  get-set_same (y ∷ xs) (suc i) (suc j) x h e = get-set_same xs i j x (omega (arith, h)) e

module _ {ℓ} {A : Type ℓ} ⦃z : Zero A⦄ (p : A → Bool) where
  pub count-set :
      (xs : List A) (i : ℕ) (x : A)
      → i < length xs
      → one_if (p (get xs i)) + count p (set xs i x) ≡ one_if (p x) + count p xs
  unfolding count
  count-set [] i x h = absurd (omega (arith, h))
  count-set (y ∷ xs) zero x h = omega arith
  count-set (y ∷ xs) (suc i) x h = omega (arith, count-set xs i x (omega (arith, h)))

  pub count-take_last :
      (xs : List A) (n : ℕ)
      → length xs ≡ suc n
      → count p xs ≡ one_if (p (get xs n)) + count p (take n xs)
  unfolding count
  count-take_last [] n h = absurd (omega (arith, h))
  count-take_last (x ∷ []) zero h = refl
  count-take_last (x ∷ y ∷ xs) zero h = absurd (omega (arith, h))
  count-take_last (x ∷ xs) (suc n) h = omega (arith, count-take_last xs n (omega (arith, h)))

  -- The item at `j` put at `i`, and that at `i` put at `j`.
  pub count-exchange :
      (xs : List A) (i j : ℕ)
      → i < length xs
      → j < length xs
      → count p (set (set xs i (get xs j)) j (get xs i)) ≡ count p xs
  count-exchange xs i j hi hj =
      let once = set xs i (get xs j) in
      let stays : one_if (p (get once j)) ≡ one_if (p (get xs j)) =
        ap (λ x. one_if (p x)) (get-set_same xs i j (get xs j) hj refl) in
      omega (
        arith,
        stays,
        count-set xs i (get xs j) hi,
        count-set once j (get xs i) (omega (arith, hj, length-set xs i (get xs j))),
      )
