-- ===== src/Crypt/Roundtrip.antt =====
-- crypt.go: Decrypt undoes Encrypt, for every implementation of BlockCrypt modelled.
use kcp_go.Prelude.{
  ℕ, zero, suc, ◌≡◌, sym, ap, ap₂, ◌∙◌, [], ◌∷◌, ◌++◌, arith, length, take, drop, length-append,
  length-take, length-drop, take-append-drop, take-length-append, drop-length-append, ◌-◌, ◌/◌, ◌<◌,
  refl, ◌⊎◌, inl, inr, false, some, ltb, ◌==◌, ltb→le, Bool-cases, copy, length-copy, nat_zero,
}
use kcp_go.Bytes.{Bytes, AllBytes}
use kcp_go.Crypt.{
  BlockCipher, xor_bytes, initial_vector, BlockCrypt, block, salsa20, simple_xor, plain,
  encrypt_packet, decrypt_packet,
}
use kcp_go.Crypt.Xor.{xor_twice, xor_bytes-AllBytes, length-xor_bytes, xor_byte}
use kcp_go.Crypt.Unrolled.{IsCipher}
use kcp_go.Crypt.Cfb.{
  cfb_encrypt, cfb_decrypt, HasBlocks, suc-times, length-block, length-HasBlocks,
  encrypt-decrypt-cfb,
}

AllBytes-take : (n : ℕ) (b : Bytes) → AllBytes b → AllBytes (take n b)
AllBytes-take zero b v = tt
AllBytes-take (suc n) [] v = tt
AllBytes-take (suc n) (x ∷ b) v = (v.0, AllBytes-take n b v.1)

pub AllBytes-drop : (n : ℕ) (b : Bytes) → AllBytes b → AllBytes (drop n b)
AllBytes-drop zero b v = v
AllBytes-drop (suc n) [] v = tt
AllBytes-drop (suc n) (x ∷ b) v = AllBytes-drop n b v.1

module _ (c : BlockCipher) (laws : IsCipher c) where
  length-cfb_encrypt :
      (n : ℕ) (pad b : Bytes)
      → length pad ≡ c.block_size
      → HasBlocks n c.block_size (length b)
      → length (cfb_encrypt c n pad b) ≡ length b
  unfolding cfb_encrypt
  length-cfb_encrypt zero pad b h v = omega (arith, length-xor_bytes b pad, v)
  length-cfb_encrypt (suc n) pad b h v =
      let out = xor_bytes (take c.block_size b) pad in
      let rest =
        length-cfb_encrypt n (c.encrypt_block out) (drop c.block_size b) (laws.writes_block out)
          (omega (arith, v, suc-times n c.block_size, length-drop c.block_size b)) in
      omega (
        arith,
        rest,
        length-append out (cfb_encrypt c n (c.encrypt_block out) (drop c.block_size b)),
        length-block c n b pad h v,
        length-drop c.block_size b,
        v,
        suc-times n c.block_size,
      )

  cfb_decrypt-encrypt :
      (n : ℕ) (pad b : Bytes)
      → length pad ≡ c.block_size
      → AllBytes pad
      → AllBytes b
      → HasBlocks n c.block_size (length b)
      → cfb_decrypt c n pad (cfb_encrypt c n pad b) ≡ b
  unfolding cfb_encrypt cfb_decrypt
  cfb_decrypt-encrypt zero pad b h hp hb v = xor_twice b pad hb hp (omega (arith, v, h))
  cfb_decrypt-encrypt (suc n) pad b h hp hb v =
      let here = take c.block_size b in
      let out = xor_bytes here pad in
      let rest = cfb_encrypt c n (c.encrypt_block out) (drop c.block_size b) in
      let long : length out ≡ c.block_size = length-block c n b pad h v in
      let first : take c.block_size (out ++ rest) ≡ out =
        ap (λ k. take k (out ++ rest)) (sym long) ∙ take-length-append out rest in
      let later : drop c.block_size (out ++ rest) ≡ rest =
        ap (λ k. drop k (out ++ rest)) (sym long) ∙ drop-length-append out rest in
      ap₂ (λ x y. xor_bytes x pad ++ cfb_decrypt c n (c.encrypt_block x) y) first later
      ∙ ap₂ (λ x y. x ++ y)
          (xor_twice here pad (AllBytes-take c.block_size b hb) hp
            (omega (arith, h, length-take c.block_size b)))
          (cfb_decrypt-encrypt n (c.encrypt_block out) (drop c.block_size b) (laws.writes_block out)
            (laws.writes_bytes out
              (xor_bytes-AllBytes here pad (AllBytes-take c.block_size b hb) hp))
            (AllBytes-drop c.block_size b hb)
            (omega (arith, v, suc-times n c.block_size, length-drop c.block_size b)))
      ∙ take-append-drop c.block_size b

-- A pad over the front of a buffer, in place.
pad_twice :
    (b pad : Bytes)
    → AllBytes b
    → AllBytes pad
    → copy (copy b (xor_bytes b pad)) (xor_bytes (copy b (xor_bytes b pad)) pad) ≡ b
unfolding copy xor_bytes
pad_twice [] pad hb hp = refl
pad_twice (x ∷ b) [] hb hp = refl
pad_twice (x ∷ b) (y ∷ pad) hb hp =
    ap₂ (λ z zs. z ∷ zs) (xor_byte x y hb.0 hp.0).0 (pad_twice b pad hb.1 hp.1)

-- What the documentation promises of the parts that are parameters.
abbrev pub IsCrypt : BlockCrypt → Type 0
IsCrypt (block c) = IsCipher c × ((c.block_size ≡ 8) ⊎ (c.block_size ≡ 16))
IsCrypt (salsa20 stream) =
    (nonce : Bytes) (n : ℕ) → (length (stream nonce n) ≡ n) × AllBytes (stream nonce n)
IsCrypt (simple_xor table) = AllBytes table
IsCrypt plain = Unit

-- What Encrypt gives for a packet: one of its length, which Decrypt turns back.
abbrev Undone : BlockCrypt → Bytes → Type 0
Undone k b =
    (out : Bytes) × (encrypt_packet k b ≡ some out)
    × (length out ≡ length b)
    × (decrypt_packet k out ≡ some b)

block-Undone : (c : BlockCipher) (b : Bytes) → IsCrypt (block c) → AllBytes b → Undone (block c) b
unfolding encrypt_packet decrypt_packet
block-Undone c b (laws, size) hb =
    let pad = c.encrypt_block initial_vector in
    let n = length b / c.block_size in
    let out = cfb_encrypt c n pad b in
    let v = length-HasBlocks (length b) c.block_size (positive size) in
    let long : length out ≡ length b =
      length-cfb_encrypt c laws n pad b (laws.writes_block initial_vector) v in
    (
      out,
      ((encrypt-decrypt-cfb c b laws).0 size).0,
      long,
      ((encrypt-decrypt-cfb c out laws).0 size).1
          ∙ ap some (
              ap (λ k. cfb_decrypt c (k / c.block_size) pad out) long
              ∙ cfb_decrypt-encrypt c laws n pad b (laws.writes_block initial_vector)
                  (laws.writes_bytes initial_vector (omega arith)) hb v),
    )
  where
    positive : (c.block_size ≡ 8) ⊎ (c.block_size ≡ 16) → 0 < c.block_size
    positive (inl e) = omega arith
    positive (inr e) = omega arith

salsa20-Undone :
    (stream : Bytes → ℕ → Bytes) (b : Bytes)
    → IsCrypt (salsa20 stream)
    → AllBytes b
    → Undone (salsa20 stream) b
unfolding encrypt_packet decrypt_packet
salsa20-Undone stream b laws hb = elim (Bool-cases (ltb (length b) 8)) [
  | inl e ↦ (b, rw e refl, refl, rw e refl)
  | inr e ↦
      let key = stream (take 8 b) (length b - 8) in
      let body = copy (drop 8 b) (xor_bytes (drop 8 b) key) in
      let out = take 8 b ++ body in
      let front : length (take 8 b) ≡ 8 = omega (arith, length-take 8 b, ltb→le (length b) 8 e) in
      let first : take 8 out ≡ take 8 b =
        ap (λ k. take k out) (sym front) ∙ take-length-append (take 8 b) body in
      let later : drop 8 out ≡ body =
        ap (λ k. drop k out) (sym front) ∙ drop-length-append (take 8 b) body in
      let long : length out ≡ length b = omega (
        arith,
        length-append (take 8 b) body,
        front,
        length-copy (drop 8 b) (xor_bytes (drop 8 b) key),
        length-drop 8 b,
        ltb→le (length b) 8 e,
      ) in
      let big : ltb (length out) 8 ≡ false = ap (λ n. ltb n 8) long ∙ e in
      let pad : stream (take 8 out) (length out - 8) ≡ key =
        ap₂ (λ x n. stream x (n - 8)) first long in
      (
        out,
        rw e refl,
        long,
        rw (big, pad, first, later)
            (ap (λ d. some (take 8 b ++ d))
                (pad_twice (drop 8 b) key (AllBytes-drop 8 b hb) (laws (take 8 b) (length b - 8)).1)
              ∙ ap some (take-append-drop 8 b)),
      )
]

simple_xor-Undone :
    (table b : Bytes) → IsCrypt (simple_xor table) → AllBytes b → Undone (simple_xor table) b
unfolding encrypt_packet decrypt_packet
simple_xor-Undone table b ht hb =
    let out = copy b (xor_bytes b table) in
    let long : length out ≡ length b = length-copy b (xor_bytes b table) in
    elim (Bool-cases (length b == 0)) [
      | inl e ↦ (b, rw e refl, refl, rw e refl)
      | inr e ↦
          let more : (length out == 0) ≡ false = ap (λ n. n == 0) long ∙ e in
          (out, rw e refl, long, rw more (ap some (pad_twice b table hb ht)))
    ]

-- For each implementation, whose block cipher has blocks of 8 or 16 bytes and whose parts do what their
-- documentation says: Encrypt of a packet of bytes does not panic and keeps its length, and Decrypt
-- gives the packet back.
pub decrypt_packet-encrypt_packet :
    (k : BlockCrypt) (b : Bytes)
    → IsCrypt k
    → AllBytes b
    → (out : Bytes) × (encrypt_packet k b ≡ some out)
      × (length out ≡ length b)
      × (decrypt_packet k out ≡ some b)
unfolding encrypt_packet decrypt_packet
decrypt_packet-encrypt_packet (block c) b laws hb = block-Undone c b laws hb
decrypt_packet-encrypt_packet (salsa20 stream) b laws hb = salsa20-Undone stream b laws hb
decrypt_packet-encrypt_packet (simple_xor table) b laws hb = simple_xor-Undone table b laws hb
decrypt_packet-encrypt_packet plain b laws hb = (b, refl, refl, refl)
