-- ===== src/Crypt/Xor.antt =====
-- XORBytes: on bytes it undoes itself, and it reads no more than the pad covers.
use kcp_go.Prelude.{
  ℕ, zero, suc, ◌≤◌, ◌<◌, min, bit_xor, ◌≡◌, refl, ap, ap₂, Bool, true, ◌&&◌, [], ◌∷◌, ◌++◌, arith,
  ltb, ◌==◌, length, take, drop, copy, nat_zero,
}
use kcp_go.Bytes.{Bytes, AllBytes}
use kcp_go.Crypt.{xor_bytes}

holds_below : ℕ → (ℕ → Bool) → Bool
holds_below zero p = true
holds_below (suc n) p = p n && holds_below n p

holds_below-at : (n : ℕ) (p : ℕ → Bool) (x : ℕ) → holds_below n p ≡ true → x < n → p x ≡ true
unfolding holds_below
holds_below-at zero p x h lt = absurd (omega arith)
holds_below-at (suc n) p x h lt = ground (arith, holds_below-at n p x)

-- All pairs of bytes.
xor_table :
    holds_below 256
      (λ x. holds_below 256 (λ k. bit_xor (bit_xor x k) k == x && ltb (bit_xor x k) 256))
    ≡ true
unfolding holds_below
xor_table = refl

pub xor_byte : (x k : ℕ) → x < 256 → k < 256 → (bit_xor (bit_xor x k) k ≡ x) × (bit_xor x k < 256)
xor_byte x k hx hk =
    let row : holds_below 256 (λ j. bit_xor (bit_xor x j) j == x && ltb (bit_xor x j) 256) ≡ true =
      holds_below-at 256
        (λ i. holds_below 256 (λ j. bit_xor (bit_xor i j) j == i && ltb (bit_xor i j) 256)) x
        xor_table hx in
    let e =
      holds_below-at 256 (λ j. bit_xor (bit_xor x j) j == x && ltb (bit_xor x j) 256) k row hk in
    ground arith

pub xor_twice :
    (xs ys : Bytes)
    → AllBytes xs
    → AllBytes ys
    → length xs ≤ length ys
    → xor_bytes (xor_bytes xs ys) ys ≡ xs
unfolding xor_bytes
xor_twice [] ys hx hy h = refl
xor_twice (x ∷ xs) [] hx hy h = absurd (omega arith)
xor_twice (x ∷ xs) (y ∷ ys) hx hy h =
    ap₂ (λ z zs. z ∷ zs) (xor_byte x y hx.0 hy.0).0 (xor_twice xs ys hx.1 hy.1 (omega arith))

pub xor_bytes-AllBytes : (xs ys : Bytes) → AllBytes xs → AllBytes ys → AllBytes (xor_bytes xs ys)
unfolding xor_bytes
xor_bytes-AllBytes [] ys hx hy = tt
xor_bytes-AllBytes (x ∷ xs) [] hx hy = tt
xor_bytes-AllBytes (x ∷ xs) (y ∷ ys) hx hy =
    ((xor_byte x y hx.0 hy.0).1, xor_bytes-AllBytes xs ys hx.1 hy.1)

pub length-xor_bytes : (xs ys : Bytes) → length (xor_bytes xs ys) ≡ min (length xs) (length ys)
unfolding xor_bytes
length-xor_bytes [] ys = omega arith
length-xor_bytes (x ∷ xs) [] = omega arith
length-xor_bytes (x ∷ xs) (y ∷ ys) = omega (arith, length-xor_bytes xs ys)

-- What stands behind the pad is not read.
pub xor_bytes-take :
    (n : ℕ) (xs ys : Bytes) → length ys ≤ n → xor_bytes (take n xs) ys ≡ xor_bytes xs ys
unfolding xor_bytes
xor_bytes-take zero [] ys h = refl
xor_bytes-take zero (x ∷ xs) [] h = refl
xor_bytes-take zero (x ∷ xs) (y ∷ ys) h = absurd (omega arith)
xor_bytes-take (suc n) [] ys h = refl
xor_bytes-take (suc n) (x ∷ xs) [] h = refl
xor_bytes-take (suc n) (x ∷ xs) (y ∷ ys) h =
    ap (λ zs. bit_xor x y ∷ zs) (xor_bytes-take n xs ys (omega arith))

pub copy-append :
    (dst src : Bytes) → length src ≤ length dst → copy dst src ≡ src ++ drop (length src) dst
unfolding copy
copy-append dst [] h = copy_nil dst
  where
    copy_nil : (d : Bytes) → copy d [] ≡ d
    copy_nil [] = refl
    copy_nil (x ∷ xs) = refl
copy-append [] (s ∷ src) h = absurd (omega arith)
copy-append (d ∷ dst) (s ∷ src) h = ap (λ ys. s ∷ ys) (copy-append dst src (omega arith))
