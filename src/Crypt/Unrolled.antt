-- ===== src/Crypt/Unrolled.antt =====
-- crypt.go: eight blocks to a round, then a switch with fall-through, are the plain loop over blocks.
use kcp_go.Prelude.{
  ℕ, zero, suc, ◌≡◌, refl, sym, ap, ◌∙◌, List, [], ◌∷◌, arith, length, take, drop, ◌+◌, ◌*◌, ap₂,
  nat_zero,
}
use kcp_go.Bytes.{Bytes, AllBytes}
use kcp_go.Crypt.{
  BlockCipher, xor_bytes, Work, block_at, rest_at, xor_at, encrypt_step, encrypt_left, decrypt_step,
  decrypt_left, encrypt_group, decrypt_pair, encrypt_loop, decrypt_group, decrypt_loop,
}
use kcp_go.Crypt.Xor.{xor_bytes-take}

-- What the documentation of cipher.Block says of Encrypt: it reads one block and writes one.
pub record IsCipher (c : BlockCipher) : Type 0 where
  pub writes_block : (b : Bytes) → length (c.encrypt_block b) ≡ c.block_size
  pub writes_bytes : (b : Bytes) → AllBytes b → AllBytes (c.encrypt_block b)
  pub reads_block : (b : Bytes) → c.encrypt_block b ≡ c.encrypt_block (take c.block_size b)

-- A slice that begins with the block at its base, or with what is left of it.
abbrev pub IsPart : ℕ → (Bytes → ℕ → Bytes) → Type 0
IsPart n part = (b : Bytes) (base : ℕ) → take n (part b base) ≡ take n (drop base b)

take-take {ℓ} : {A : Type ℓ} (n : ℕ) (xs : List A) → take n (take n xs) ≡ take n xs
take-take zero xs = refl
take-take (suc n) [] = refl
take-take (suc n) (x ∷ xs) = ap (λ ys. x ∷ ys) (take-take n xs)

pub block_at-IsPart : (n : ℕ) → IsPart n (block_at n)
block_at-IsPart n b base = take-take n (drop base b)

pub rest_at-IsPart : (n : ℕ) → IsPart n rest_at
rest_at-IsPart n b base = refl

module _ (c : BlockCipher) (part : Bytes → ℕ → Bytes) (laws : IsCipher c)
    (ok : IsPart c.block_size part) where
  -- Both kinds of slice give the same block.
  pub xor_part :
      (b pad : Bytes) (base : ℕ)
      → length pad ≡ c.block_size
      → xor_bytes (part b base) pad ≡ xor_bytes (block_at c.block_size b base) pad
  xor_part b pad base h =
      sym (xor_bytes-take c.block_size (part b base) pad (omega arith))
      ∙ ap (λ xs. xor_bytes xs pad) (ok b base)

  pub encrypt_part :
      (b : Bytes) (base : ℕ)
      → c.encrypt_block (part b base) ≡ c.encrypt_block (block_at c.block_size b base)
  encrypt_part b base = laws.reads_block (part b base) ∙ ap c.encrypt_block (ok b base)

  written_lem :
      (w : Work) (base : ℕ)
      → length (encrypt_step c (block_at c.block_size) w base).tbl ≡ c.block_size
  unfolding encrypt_step
  written_lem w base =
      laws.writes_block
        (block_at c.block_size (encrypt_step c (block_at c.block_size) w base).buf base)

  group_written : (w : Work) (base : ℕ) → length (encrypt_group c w base).tbl ≡ c.block_size
  unfolding encrypt_group encrypt_step
  group_written w base =
      laws.writes_block
        (block_at c.block_size (encrypt_group c w base).buf (base + 7 * c.block_size))

  encrypt_step-part :
      (w : Work) (base : ℕ)
      → length w.tbl ≡ c.block_size
      → encrypt_step c part w base ≡ encrypt_step c (block_at c.block_size) w base
  unfolding encrypt_step xor_at
  encrypt_step-part w base h = rw (encrypt_part, xor_part w.buf w.tbl base h) refl

  -- One block of the group, as a case of the switch.
  encrypt_left-step :
      (k : ℕ) (w : Work) (base next : ℕ)
      → length w.tbl ≡ c.block_size
      → base + c.block_size ≡ next
      → encrypt_left c part (suc k) w base
        ≡ encrypt_left c part k (encrypt_step c (block_at c.block_size) w base) next
  unfolding encrypt_left
  encrypt_left-step k w base next h e = ap₂ (encrypt_left c part k) (encrypt_step-part w base h) e

  encrypt_left-group :
      (k : ℕ) (w : Work) (base : ℕ)
      → length w.tbl ≡ c.block_size
      → encrypt_left c part (8 + k) w base
        ≡ encrypt_left c part k (encrypt_group c w base) (base + 8 * c.block_size)
  unfolding encrypt_group
  encrypt_left-group k w base h =
      let n = c.block_size in
      let step = encrypt_step c (block_at n) in
      let w1 = step w base in
      let w2 = step w1 (base + n) in
      let w3 = step w2 (base + 2 * n) in
      let w4 = step w3 (base + 3 * n) in
      let w5 = step w4 (base + 4 * n) in
      let w6 = step w5 (base + 5 * n) in
      let w7 = step w6 (base + 6 * n) in
      let eight : 8 + k ≡ suc (suc (suc (suc (suc (suc (suc (suc k))))))) = omega arith in
      rw eight (
        encrypt_left-step (suc (suc (suc (suc (suc (suc (suc k))))))) w base (base + n) h refl
        ∙ encrypt_left-step (suc (suc (suc (suc (suc (suc k)))))) w1 (base + n) (base + 2 * n)
            (written w base) (omega arith)
        ∙ encrypt_left-step (suc (suc (suc (suc (suc k))))) w2 (base + 2 * n) (base + 3 * n)
            (written w1 (base + n)) (omega arith)
        ∙ encrypt_left-step (suc (suc (suc (suc k)))) w3 (base + 3 * n) (base + 4 * n)
            (written w2 (base + 2 * n)) (omega arith)
        ∙ encrypt_left-step (suc (suc (suc k))) w4 (base + 4 * n) (base + 5 * n)
            (written w3 (base + 3 * n)) (omega arith)
        ∙ encrypt_left-step (suc (suc k)) w5 (base + 5 * n) (base + 6 * n)
            (written w4 (base + 4 * n)) (omega arith)
        ∙ encrypt_left-step (suc k) w6 (base + 6 * n) (base + 7 * n) (written w5 (base + 5 * n))
            (omega arith)
        ∙ encrypt_left-step k w7 (base + 7 * n) (base + 8 * n) (written w6 (base + 6 * n))
            (omega arith))
    where
      written :
          (v : Work) (at : ℕ)
          → length (encrypt_step c (block_at c.block_size) v at).tbl ≡ c.block_size
      written v at = written_lem v at

  -- The loop of groups and the switch are the switch with all blocks as cases.
  pub encrypt_loop-left :
      (repeat left : ℕ) (w : Work) (base : ℕ)
      → length w.tbl ≡ c.block_size
      → encrypt_loop c part repeat left w base ≡ encrypt_left c part (8 * repeat + left) w base
  unfolding encrypt_loop
  encrypt_loop-left zero left w base h =
      let e : left ≡ 8 * 0 + left = omega arith in ap (λ k. encrypt_left c part k w base) e
  encrypt_loop-left (suc repeat) left w base h =
      let all : 8 + (8 * repeat + left) ≡ 8 * suc repeat + left = omega arith in
      encrypt_loop-left repeat left (encrypt_group c w base) (base + 8 * c.block_size)
        (group_written w base)
      ∙ sym (encrypt_left-group (8 * repeat + left) w base h)
      ∙ ap (λ k. encrypt_left c part k w base) all

  decrypt_step-part :
      (w : Work) (base : ℕ)
      → length w.tbl ≡ c.block_size
      → decrypt_step c part w base ≡ decrypt_step c (block_at c.block_size) w base
  unfolding decrypt_step xor_at
  decrypt_step-part w base h = rw (encrypt_part, xor_part w.buf w.tbl base h) refl

  -- A pair of the group, as two cases of the switch.
  decrypt_left-pair :
      (k : ℕ) (w : Work) (base next : ℕ)
      → length w.tbl ≡ c.block_size
      → base + 2 * c.block_size ≡ next
      → decrypt_left c part (suc (suc k)) w base
        ≡ decrypt_left c part k (decrypt_pair c w base) next
  unfolding decrypt_left decrypt_step decrypt_pair
  decrypt_left-pair k w base next h e =
      let n = c.block_size in
      let w1 = decrypt_step c (block_at n) w base in
      let e' : base + n + n ≡ next = omega arith in
      ap (λ v. decrypt_left c part k (decrypt_step c part v (base + n)) (base + n + n))
        (decrypt_step-part w base h)
      ∙ ap₂ (decrypt_left c part k)
          (decrypt_step-part w1 (base + n) (laws.writes_block (block_at n w.buf base))) e'

  pair_written : (w : Work) (base : ℕ) → length (decrypt_pair c w base).tbl ≡ c.block_size
  unfolding decrypt_pair
  pair_written w base =
      let n = c.block_size in
      laws.writes_block (block_at n (xor_at (block_at n) w.buf base w.tbl) (base + n))

  group_read : (w : Work) (base : ℕ) → length (decrypt_group c w base).tbl ≡ c.block_size
  unfolding decrypt_group
  group_read w base =
      let n = c.block_size in
      pair_written
        (decrypt_pair c (decrypt_pair c (decrypt_pair c w base) (base + 2 * n)) (base + 4 * n))
        (base + 6 * n)

  decrypt_left-group :
      (k : ℕ) (w : Work) (base : ℕ)
      → length w.tbl ≡ c.block_size
      → decrypt_left c part (8 + k) w base
        ≡ decrypt_left c part k (decrypt_group c w base) (base + 8 * c.block_size)
  unfolding decrypt_group
  decrypt_left-group k w base h =
      let n = c.block_size in
      let w2 = decrypt_pair c w base in
      let w4 = decrypt_pair c w2 (base + 2 * n) in
      let w6 = decrypt_pair c w4 (base + 4 * n) in
      let eight : 8 + k ≡ suc (suc (suc (suc (suc (suc (suc (suc k))))))) = omega arith in
      rw eight (
        decrypt_left-pair (suc (suc (suc (suc (suc (suc k)))))) w base (base + 2 * n) h refl
        ∙ decrypt_left-pair (suc (suc (suc (suc k)))) w2 (base + 2 * n) (base + 4 * n)
            (pair_written w base) (omega arith)
        ∙ decrypt_left-pair (suc (suc k)) w4 (base + 4 * n) (base + 6 * n)
            (pair_written w2 (base + 2 * n)) (omega arith)
        ∙ decrypt_left-pair k w6 (base + 6 * n) (base + 8 * n) (pair_written w4 (base + 4 * n))
            (omega arith))

  pub decrypt_loop-left :
      (repeat left : ℕ) (w : Work) (base : ℕ)
      → length w.tbl ≡ c.block_size
      → decrypt_loop c part repeat left w base ≡ decrypt_left c part (8 * repeat + left) w base
  unfolding decrypt_loop
  decrypt_loop-left zero left w base h =
      let e : left ≡ 8 * 0 + left = omega arith in ap (λ k. decrypt_left c part k w base) e
  decrypt_loop-left (suc repeat) left w base h =
      let all : 8 + (8 * repeat + left) ≡ 8 * suc repeat + left = omega arith in
      decrypt_loop-left repeat left (decrypt_group c w base) (base + 8 * c.block_size)
        (group_read w base)
      ∙ sym (decrypt_left-group (8 * repeat + left) w base h)
      ∙ ap (λ k. decrypt_left c part k w base) all
