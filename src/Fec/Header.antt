-- ===== src/Fec/Header.antt =====
-- fec.go: the header of a packet and of a parity shard, read back from the bytes that go out.
use kcp_go.Prelude.{
  ℕ, zero, suc, ◌+◌, ◌-◌, ◌%◌, ◌^◌, ◌≤◌, ◌<◌, ◌≡◌, refl, sym, ap, ◌∙◌, List, [], ◌∷◌, ◌++◌, arith,
  Zero, length, take, drop, length-append, length-replicate, length-drop, take-append-drop, copy,
  copy_from, make, length-copy, nat_zero,
}
use kcp_go.Bytes.{Bytes, put_u16, put_u32, u16_at, u32_at}
use kcp_go.Fec.{
  FecEncoder, type_data, type_parity, seqid, flag, header, seal_data, seal_parity, put_size,
}

module _ {ℓ} {A : Type ℓ} ⦃z : Zero A⦄ where
  -- The items of a copy where the copied ones went, and in front of a later one.
  take-copy :
      (n : ℕ) (dst src : List A) → length src ≡ n → n ≤ length dst → take n (copy dst src) ≡ src
  unfolding copy
  take-copy zero dst [] e h = refl
  take-copy (suc n) dst [] e h = absurd (omega arith)
  take-copy zero dst (s ∷ src) e h = absurd (omega arith)
  take-copy (suc n) [] (s ∷ src) e h = absurd (omega arith)
  take-copy (suc n) (d ∷ dst) (s ∷ src) e h =
      ap (λ ys. s ∷ ys) (take-copy n dst src (omega arith) (omega arith))

  drop-take-append : (n : ℕ) (xs ys : List A) → n ≤ length xs → drop n (take n xs ++ ys) ≡ ys
  drop-take-append zero xs ys h = refl
  drop-take-append (suc n) [] ys h = absurd (omega arith)
  drop-take-append (suc n) (x ∷ xs) ys h = drop-take-append n xs ys (omega arith)

  take-drop-take :
      (off n size : ℕ) (xs : List A)
      → off + n ≤ size
      → take n (drop off (take size xs)) ≡ take n (drop off xs)
  take-drop-take zero zero size xs h = refl
  take-drop-take zero (suc n) zero xs h = absurd (omega arith)
  take-drop-take zero (suc n) (suc size) [] h = refl
  take-drop-take zero (suc n) (suc size) (x ∷ xs) h =
      ap (λ ys. x ∷ ys) (take-drop-take zero n size xs (omega arith))
  take-drop-take (suc off) n zero xs h = absurd (omega arith)
  take-drop-take (suc off) n (suc size) [] h = refl
  take-drop-take (suc off) n (suc size) (x ∷ xs) h = take-drop-take off n size xs (omega arith)

  take-drop-append :
      (off n m : ℕ) (xs ys : List A)
      → off + n ≡ m
      → m ≤ length xs
      → take n (drop off (take m xs ++ ys)) ≡ take n (drop off xs)
  take-drop-append zero zero m xs ys e h = refl
  take-drop-append zero (suc n) zero xs ys e h = absurd (omega arith)
  take-drop-append zero (suc n) (suc m) [] ys e h = absurd (omega arith)
  take-drop-append zero (suc n) (suc m) (x ∷ xs) ys e h =
      ap (λ zs. x ∷ zs) (take-drop-append zero n m xs ys (omega arith) (omega arith))
  take-drop-append (suc off) n zero xs ys e h = absurd (omega arith)
  take-drop-append (suc off) n (suc m) [] ys e h = absurd (omega arith)
  take-drop-append (suc off) n (suc m) (x ∷ xs) ys e h =
      take-drop-append off n m xs ys (omega arith) (omega arith)

  length-copy_from : (b xs : List A) (n : ℕ) → n ≤ length b → length (copy_from b n xs) ≡ length b
  length-copy_from b xs n h = omega (
    arith,
    length-append (take n b) (copy (drop n b) xs),
    length-copy (drop n b) xs,
    length-append (take n b) (drop n b),
    ap length (take-append-drop n b),
  )

-- The number and the type stand in the first six bytes.
pub seqid-take : (b : Bytes) → seqid b ≡ seqid (take 6 b)
unfolding seqid u32_at
seqid-take [] = refl
seqid-take (b0 ∷ []) = refl
seqid-take (b0 ∷ (b1 ∷ [])) = refl
seqid-take (b0 ∷ (b1 ∷ (b2 ∷ []))) = refl
seqid-take (b0 ∷ (b1 ∷ (b2 ∷ (b3 ∷ bs)))) = refl

pub flag-take : (b : Bytes) → flag b ≡ flag (take 6 b)
unfolding flag u16_at
flag-take [] = refl
flag-take (b0 ∷ []) = refl
flag-take (b0 ∷ (b1 ∷ [])) = refl
flag-take (b0 ∷ (b1 ∷ (b2 ∷ []))) = refl
flag-take (b0 ∷ (b1 ∷ (b2 ∷ (b3 ∷ [])))) = refl
flag-take (b0 ∷ (b1 ∷ (b2 ∷ (b3 ∷ (b4 ∷ []))))) = refl
flag-take (b0 ∷ (b1 ∷ (b2 ∷ (b3 ∷ (b4 ∷ (b5 ∷ bs)))))) = refl

pub seqid-header : (number kind : ℕ) → number < 2 ^ 32 → seqid (header number kind) ≡ number
unfolding seqid u32_at put_u32
seqid-header number kind h = omega arith

pub flag-header : (number kind : ℕ) → kind < 2 ^ 16 → flag (header number kind) ≡ kind
unfolding flag u16_at put_u32 put_u16
flag-header number kind h = omega arith

length-header : (number kind : ℕ) → length (header number kind) ≡ 6
unfolding put_u32 put_u16
length-header number kind = refl

-- The header of a data packet stays when the size is written behind it.
pub sealed_header :
    (enc : FecEncoder) (b : Bytes)
    → enc.payload_offset ≡ enc.header_offset + 6
    → enc.header_offset + 8 ≤ length b
    → take 6 (drop enc.header_offset (put_size enc.payload_offset (seal_data enc b).0))
      ≡ header enc.next type_data
unfolding put_size seal_data
sealed_header enc b ho hb =
    let h = header enc.next type_data in
    let c = copy_from b enc.header_offset h in
    let long : length c ≡ length b = length-copy_from b h enc.header_offset (omega arith) in
    take-drop-append enc.header_offset 6 enc.payload_offset c
      (copy (drop enc.payload_offset c) (put_u16 ((length c - enc.payload_offset) % 2 ^ 16)))
      (sym ho) (omega (arith, long))
    ∙ ap (take 6)
        (drop-take-append enc.header_offset b (copy (drop enc.header_offset b) h) (omega arith))
    ∙ take-copy 6 (drop enc.header_offset b) h (length-header enc.next type_data)
        (omega (arith, length-drop enc.header_offset b))

-- The header of a parity shard that is cut to the longest size.
pub parity_header :
    (enc : FecEncoder) (size : ℕ) (p : Bytes)
    → enc.payload_offset ≡ enc.header_offset + 6
    → enc.header_offset + 6 ≤ size
    → take 6 (drop enc.header_offset (take size (seal_parity enc (make enc.payload_offset ++ p)).0))
      ≡ header enc.next type_parity
unfolding seal_parity
parity_header enc size p ho hs =
    let h = header enc.next type_parity in
    let b = make enc.payload_offset ++ p in
    let long : length b ≡ enc.payload_offset + length p = omega (
      arith,
      length-append (make enc.payload_offset) p,
      length-replicate {A = ℕ} enc.payload_offset 0,
    ) in
    take-drop-take enc.header_offset 6 size (copy_from b enc.header_offset h) hs
    ∙ ap (take 6) (
        drop-take-append enc.header_offset b (copy (drop enc.header_offset b) h)
          (omega (arith, long)))
    ∙ take-copy 6 (drop enc.header_offset b) h (length-header enc.next type_parity)
        (omega (arith, length-drop enc.header_offset b, long))

pub length-sealed :
    (enc : FecEncoder) (b : Bytes)
    → enc.payload_offset ≡ enc.header_offset + 6
    → enc.header_offset + 8 ≤ length b
    → length (put_size enc.payload_offset (seal_data enc b).0) ≡ length b
unfolding put_size seal_data
length-sealed enc b ho hb =
    let h = header enc.next type_data in
    let c = copy_from b enc.header_offset h in
    let long : length c ≡ length b = length-copy_from b h enc.header_offset (omega arith) in
    length-copy_from c (put_u16 ((length c - enc.payload_offset) % 2 ^ 16)) enc.payload_offset
      (omega (arith, long))
    ∙ long
