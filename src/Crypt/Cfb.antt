-- ===== src/Crypt/Cfb.antt =====
-- crypt.go against the definition of cipher feedback, block by block.
use kcp_go.Crypt.Unrolled.{
  IsCipher, IsPart, xor_part, encrypt_part, block_at-IsPart, encrypt_loop-left, decrypt_loop-left,
  rest_at-IsPart,
}
use kcp_go.Prelude.{
  ℕ, zero, suc, ◌+◌, ◌*◌, ◌≤◌, ◌<◌, ◌≡◌, ap, ◌++◌, arith, length, take, drop, take-length-append,
  drop-length-append, sym, ap₂, ◌∙◌, append-nil, append_assoc, length-append, length-take,
  length-drop, drop_all, ◌/◌, ◌%◌, refl, subst, ◌≢◌, ◌⊎◌, inl, inr, none, some, [], ne→==, true,
  false, ◌==◌,
}
use kcp_go.Bytes.{Bytes}
use native.Mathlib.Nat.{div-mul-le_self, lt-div-mul-add}
use kcp_go.Crypt.{
  BlockCipher, xor_bytes, xor_at, rest_at, encrypt_left, decrypt_left, initial_vector, block_at,
  encrypt_loop, decrypt_loop, start_work, encrypt, decrypt,
}
use kcp_go.Crypt.Xor.{copy-append, length-xor_bytes}

-- Cipher feedback over `n` blocks and what is left: a block of the output is a block of the input with
-- the encryption of the ciphertext block before it.
unfoldable pub cfb_encrypt : BlockCipher → ℕ → Bytes → Bytes → Bytes
cfb_encrypt c zero pad b = xor_bytes b pad
cfb_encrypt c (suc n) pad b =
    let out = xor_bytes (take c.block_size b) pad in
    out ++ cfb_encrypt c n (c.encrypt_block out) (drop c.block_size b)

unfoldable pub cfb_decrypt : BlockCipher → ℕ → Bytes → Bytes → Bytes
cfb_decrypt c zero pad b = xor_bytes b pad
cfb_decrypt c (suc n) pad b =
    let here = take c.block_size b in
    xor_bytes here pad ++ cfb_decrypt c n (c.encrypt_block here) (drop c.block_size b)

-- `n` blocks of a size, and less than a block behind them.
abbrev pub HasBlocks : ℕ → ℕ → ℕ → Type 0
HasBlocks n size len = (n * size ≤ len) × (len < n * size + size)

pub suc-times : (n size : ℕ) → suc n * size ≡ n * size + size
suc-times n size = grind arith

-- A write at the end of what is done.
xor_at-append :
    (part : Bytes → ℕ → Bytes) (done rest pad out : Bytes) (base : ℕ)
    → base ≡ length done
    → xor_bytes (part (done ++ rest) base) pad ≡ out
    → length out ≤ length rest
    → xor_at part (done ++ rest) base pad ≡ done ++ (out ++ drop (length out) rest)
unfolding xor_at
xor_at-append part done rest pad out base e eo h =
    rw (eo, e, take-length-append done rest, drop-length-append done rest)
      (ap (λ ys. done ++ ys) (copy-append rest out h))

pub length-block :
    (c : BlockCipher) (n : ℕ) (rest pad : Bytes)
    → length pad ≡ c.block_size
    → HasBlocks (suc n) c.block_size (length rest)
    → length (xor_bytes (take c.block_size rest) pad) ≡ c.block_size
length-block c n rest pad h v = omega (
  arith,
  v,
  suc-times n c.block_size,
  length-xor_bytes (take c.block_size rest) pad,
  length-take c.block_size rest,
)

module _ (c : BlockCipher) (part : Bytes → ℕ → Bytes) (laws : IsCipher c)
    (ok : IsPart c.block_size part) where
  -- The block behind what is done, under the pad.
  block_out :
      (done rest pad : Bytes) (base : ℕ)
      → base ≡ length done
      → length pad ≡ c.block_size
      → xor_bytes (part (done ++ rest) base) pad ≡ xor_bytes (take c.block_size rest) pad
  block_out done rest pad base e h =
      xor_part c part laws ok (done ++ rest) pad base h
      ∙ ap (λ xs. xor_bytes (take c.block_size xs) pad)
          (ap (λ i. drop i (done ++ rest)) e ∙ drop-length-append done rest)

  block_encrypted :
      (done out rest : Bytes) (base : ℕ)
      → base ≡ length done
      → length out ≡ c.block_size
      → c.encrypt_block (part (done ++ (out ++ rest)) base) ≡ c.encrypt_block out
  block_encrypted done out rest base e h =
      encrypt_part c part laws ok (done ++ (out ++ rest)) base
      ∙ ap (λ xs. c.encrypt_block (take c.block_size xs))
          (ap (λ i. drop i (done ++ (out ++ rest))) e ∙ drop-length-append done (out ++ rest))
      ∙ ap c.encrypt_block (ap (λ i. take i (out ++ rest)) (sym h) ∙ take-length-append out rest)

  -- The end of the switch writes what is left of the last block.
  last_part :
      (done rest pad : Bytes) (base : ℕ)
      → base ≡ length done
      → length rest ≤ length pad
      → xor_at rest_at (done ++ rest) base pad ≡ done ++ xor_bytes rest pad
  last_part done rest pad base e h =
      let out = xor_bytes rest pad in
      let long : length out ≡ length rest = omega (arith, length-xor_bytes rest pad) in
      xor_at-append rest_at done rest pad out base e
        (ap (λ xs. xor_bytes xs pad)
          (ap (λ i. drop i (done ++ rest)) e ∙ drop-length-append done rest))
        (omega (arith, long))
      ∙ ap (λ xs. done ++ (out ++ xs)) (drop_all (length out) rest (omega (arith, long)))
      ∙ ap (λ xs. done ++ xs) (append-nil out)

  encrypt_left-cfb :
      (n : ℕ) (done rest tbl next : Bytes) (base : ℕ)
      → base ≡ length done
      → length tbl ≡ c.block_size
      → HasBlocks n c.block_size (length rest)
      → encrypt_left c part n (record { buf = done ++ rest; tbl = tbl; next = next }) base
        ≡ done ++ cfb_encrypt c n tbl rest
  unfolding encrypt_left cfb_encrypt
  encrypt_left-cfb zero done rest tbl next base e h v =
      last_part done rest tbl base e (omega (arith, h, v))
  encrypt_left-cfb (suc n) done rest tbl next base e h v =
      let out = xor_bytes (take c.block_size rest) tbl in
      let rest' = drop c.block_size rest in
      let long : length out ≡ c.block_size = length-block c n rest tbl h v in
      let written : xor_at part (done ++ rest) base tbl ≡ done ++ (out ++ rest') =
        xor_at-append part done rest tbl out base e (block_out done rest tbl base e h)
          (omega (arith, long, v, suc-times n c.block_size))
        ∙ ap (λ k. done ++ (out ++ drop k rest)) long in
      let pad : c.encrypt_block (part (xor_at part (done ++ rest) base tbl) base)
          ≡ c.encrypt_block out =
        ap (λ b. c.encrypt_block (part b base)) written
        ∙ block_encrypted done out rest' base e long in
      ap₂
        (λ b t.
          encrypt_left c part n (record { buf = b; tbl = t; next = next }) (base + c.block_size))
        (written ∙ sym (append_assoc done out rest')) pad
      ∙ encrypt_left-cfb n (done ++ out) rest' (c.encrypt_block out) next (base + c.block_size)
          (omega (arith, length-append done out, long, e)) (laws.writes_block out)
          (omega (arith, v, suc-times n c.block_size, length-drop c.block_size rest))
      ∙ append_assoc done out (cfb_encrypt c n (c.encrypt_block out) rest')

  decrypt_left-cfb :
      (n : ℕ) (done rest tbl next : Bytes) (base : ℕ)
      → base ≡ length done
      → length tbl ≡ c.block_size
      → HasBlocks n c.block_size (length rest)
      → decrypt_left c part n (record { buf = done ++ rest; tbl = tbl; next = next }) base
        ≡ done ++ cfb_decrypt c n tbl rest
  unfolding decrypt_left cfb_decrypt
  decrypt_left-cfb zero done rest tbl next base e h v =
      last_part done rest tbl base e (omega (arith, h, v))
  decrypt_left-cfb (suc n) done rest tbl next base e h v =
      let here = take c.block_size rest in
      let out = xor_bytes here tbl in
      let rest' = drop c.block_size rest in
      let long : length out ≡ c.block_size = length-block c n rest tbl h v in
      let written : xor_at part (done ++ rest) base tbl ≡ done ++ (out ++ rest') =
        xor_at-append part done rest tbl out base e (block_out done rest tbl base e h)
          (omega (arith, long, v, suc-times n c.block_size))
        ∙ ap (λ k. done ++ (out ++ drop k rest)) long in
      let pad : c.encrypt_block (part (done ++ rest) base) ≡ c.encrypt_block here =
        encrypt_part c part laws ok (done ++ rest) base
        ∙ ap (λ xs. c.encrypt_block (take c.block_size xs))
            (ap (λ i. drop i (done ++ rest)) e ∙ drop-length-append done rest) in
      ap₂
        (λ b t.
          decrypt_left c part n (record { buf = b; tbl = t; next = tbl }) (base + c.block_size))
        (written ∙ sym (append_assoc done out rest')) pad
      ∙ decrypt_left-cfb n (done ++ out) rest' (c.encrypt_block here) tbl (base + c.block_size)
          (omega (arith, length-append done out, long, e)) (laws.writes_block here)
          (omega (arith, v, suc-times n c.block_size, length-drop c.block_size rest))
      ∙ append_assoc done out (cfb_decrypt c n (c.encrypt_block here) rest')

pub length-HasBlocks : (len size : ℕ) → 0 < size → HasBlocks (len / size) size len
length-HasBlocks len size h = (div-mul-le_self len size, lt-div-mul-add {a = len} {b = size} h)

module _ (c : BlockCipher) (part : Bytes → ℕ → Bytes) (laws : IsCipher c)
    (ok : IsPart c.block_size part) where
  encrypt_loop-cfb :
      (b : Bytes) (n : ℕ)
      → HasBlocks n c.block_size (length b)
      → encrypt_loop c part (n / 8) (n % 8) (start_work c b) 0
        ≡ cfb_encrypt c n (c.encrypt_block initial_vector) b
  encrypt_loop-cfb b n v =
      let pad = c.encrypt_block initial_vector in
      let blocks : 8 * (n / 8) + n % 8 ≡ n = omega arith in
      encrypt_loop-left c part laws ok (n / 8) (n % 8) (start_work c b) 0
        (laws.writes_block initial_vector)
      ∙ ap (λ k. encrypt_left c part k (start_work c b) 0) blocks
      ∙ encrypt_left-cfb c part laws ok n [] b pad [] 0 refl (laws.writes_block initial_vector) v

  decrypt_loop-cfb :
      (b : Bytes) (n : ℕ)
      → HasBlocks n c.block_size (length b)
      → decrypt_loop c part (n / 8) (n % 8) (start_work c b) 0
        ≡ cfb_decrypt c n (c.encrypt_block initial_vector) b
  decrypt_loop-cfb b n v =
      let pad = c.encrypt_block initial_vector in
      let blocks : 8 * (n / 8) + n % 8 ≡ n = omega arith in
      decrypt_loop-left c part laws ok (n / 8) (n % 8) (start_work c b) 0
        (laws.writes_block initial_vector)
      ∙ ap (λ k. decrypt_left c part k (start_work c b) 0) blocks
      ∙ decrypt_left-cfb c part laws ok n [] b pad [] 0 refl (laws.writes_block initial_vector) v

-- With a block cipher of 8 or 16 bytes, the unrolled functions that work in place, with slices of either
-- kind and the buffers exchanged in decryption, compute cipher feedback as it is defined, with the
-- constant vector; with any other block size they panic.
pub encrypt-decrypt-cfb :
    (c : BlockCipher) (b : Bytes)
    → IsCipher c
    → ((c.block_size ≡ 8) ⊎ (c.block_size ≡ 16)
        → (encrypt c b
            ≡ some (cfb_encrypt c (length b / c.block_size) (c.encrypt_block initial_vector) b))
          × (decrypt c b
              ≡ some (cfb_decrypt c (length b / c.block_size) (c.encrypt_block initial_vector) b)))
      × (c.block_size ≢ 8 → c.block_size ≢ 16 → (encrypt c b ≡ none) × (decrypt c b ≡ none))
unfolding encrypt decrypt
encrypt-decrypt-cfb c b laws = (supported, refused)
  where
    at8 : c.block_size ≡ 8 → HasBlocks (length b / 8) c.block_size (length b)
    at8 e =
        subst (λ n. HasBlocks (length b / 8) n (length b)) (sym e)
          (length-HasBlocks (length b) 8 (omega arith))

    at16 : c.block_size ≡ 16 → HasBlocks (length b / 16) c.block_size (length b)
    at16 e =
        subst (λ n. HasBlocks (length b / 16) n (length b)) (sym e)
          (length-HasBlocks (length b) 16 (omega arith))

    part8 : c.block_size ≡ 8 → IsPart c.block_size (block_at 8)
    part8 e = subst (λ n. IsPart n (block_at 8)) (sym e) (block_at-IsPart 8)

    supported :
        (c.block_size ≡ 8) ⊎ (c.block_size ≡ 16)
        → (encrypt c b
            ≡ some (cfb_encrypt c (length b / c.block_size) (c.encrypt_block initial_vector) b))
          × (decrypt c b
              ≡ some (cfb_decrypt c (length b / c.block_size) (c.encrypt_block initial_vector) b))
    supported (inl e) =
        let test8 : (c.block_size == 8) ≡ true = ap (λ n. n == 8) e in
        (
          rw (test8) (
              ap some (
                encrypt_loop-cfb c (block_at 8) laws (part8 e) b (length b / 8) (at8 e)
                ∙ ap (λ k. cfb_encrypt c (length b / k) (c.encrypt_block initial_vector) b)
                    (sym e))),
          rw (test8) (
              ap some (
                decrypt_loop-cfb c (block_at 8) laws (part8 e) b (length b / 8) (at8 e)
                ∙ ap (λ k. cfb_decrypt c (length b / k) (c.encrypt_block initial_vector) b)
                    (sym e))),
        )
    supported (inr e) =
        let test8 : (c.block_size == 8) ≡ false = ap (λ n. n == 8) e in
        let test16 : (c.block_size == 16) ≡ true = ap (λ n. n == 16) e in
        (
          rw (test8, test16)
              (ap some (
                encrypt_loop-cfb c rest_at laws (rest_at-IsPart c.block_size) b (length b / 16)
                  (at16 e)
                ∙ ap (λ k. cfb_encrypt c (length b / k) (c.encrypt_block initial_vector) b)
                    (sym e))),
          rw (test8, test16)
              (ap some (
                decrypt_loop-cfb c rest_at laws (rest_at-IsPart c.block_size) b (length b / 16)
                  (at16 e)
                ∙ ap (λ k. cfb_decrypt c (length b / k) (c.encrypt_block initial_vector) b)
                    (sym e))),
        )

    refused : c.block_size ≢ 8 → c.block_size ≢ 16 → (encrypt c b ≡ none) × (decrypt c b ≡ none)
    refused n8 n16 = rw (ne→== c.block_size 8 n8, ne→== c.block_size 16 n16) (refl, refl)
