-- ===== src/Fec/Expected.antt =====
-- fec.go: what encode sends, read by the decoder's test of a packet's type.
use kcp_go.Prelude.{
  ℕ, ◌+◌, ◌-◌, ◌*◌, ◌%◌, ◌^◌, ◌≤◌, ◌<◌, ◌≡◌, refl, sym, ap, ◌∙◌, ◌⊎◌, inl, inr, true, List, [], ◌∷◌,
  ◌++◌, arith, ltb, leb, ◌==◌, if◌then◌else◌, lt→ltb, le→ltb, eq→==, ==→eq, Bool-cases,
  Option-cases, length, take, drop, All, make, nat_zero,
}
use kcp_go.Bytes.{Bytes}
use kcp_go.Fec.{
  Codec, type_data, type_parity, seqid, flag, FecEncoder, header, next_number, seal_data,
  seal_parity, put_size, data_columns, seal_all, cache_data, encode_group, encode,
}
use kcp_go.Fec.Align.{IsAligned, IsComplete, place_bound}
use kcp_go.Fec.Decoder.{FecDecoder, is_expected}
use kcp_go.Fec.Header.{
  seqid-take, flag-take, seqid-header, flag-header, sealed_header, parity_header, length-sealed,
}
use native.Mathlib.Nat.{mod-eq_of_lt, mul-add-mod_self_right}

-- A decoder that was made for the encoder's counts.
abbrev pub IsPeer : FecEncoder → FecDecoder → Type 0
IsPeer enc dec = (dec.data_shards ≡ enc.data_shards) × (dec.shard_size ≡ enc.shard_size)

-- The packet `b`, from the encoder's offset on, is of the type that its number asks for.
unfoldable pub IsExpected : FecDecoder → ℕ → Bytes → Type 0
IsExpected dec offset b = is_expected dec (drop offset b) ≡ true

-- A packet of a header with the right kind for the place `k` of a set.
header-IsExpected :
    (dec : FecDecoder) (offset g k number kind : ℕ) (b : Bytes)
    → take 6 (drop offset b) ≡ header number kind
    → number ≡ g * dec.shard_size + k
    → number < 2 ^ 32
    → k < dec.shard_size
    → ((k < dec.data_shards) × (kind ≡ type_data)) ⊎ ((dec.data_shards ≤ k) × (kind ≡ type_parity))
    → IsExpected dec offset b
unfolding IsExpected is_expected
header-IsExpected dec offset g k number kind b hb hn h32 hk c =
    let place : number % dec.shard_size ≡ k =
      ap (λ n. n % dec.shard_size) hn
      ∙ mul-add-mod_self_right g dec.shard_size k
      ∙ mod-eq_of_lt hk in
    let its_seqid : seqid (drop offset b) ≡ number =
      seqid-take (drop offset b) ∙ ap seqid hb ∙ seqid-header number kind h32 in
    let its_flag : flag (drop offset b) ≡ kind =
      flag-take (drop offset b) ∙ ap flag hb ∙ flag-header number kind (fits c) in
    rw (its_seqid, its_flag, place) (right c)
  where
    fits :
        ((k < dec.data_shards) × (kind ≡ type_data))
          ⊎ ((dec.data_shards ≤ k) × (kind ≡ type_parity))
        → kind < 2 ^ 16
    fits (inl (p, e)) = omega arith
    fits (inr (p, e)) = omega arith

    right :
        ((k < dec.data_shards) × (kind ≡ type_data))
          ⊎ ((dec.data_shards ≤ k) × (kind ≡ type_parity))
        → (if ltb k dec.data_shards then kind == type_data else kind == type_parity) ≡ true
    right (inl (p, e)) = rw (lt→ltb k dec.data_shards p) (eq→== kind type_data e)
    right (inr (p, e)) = rw (le→ltb k dec.data_shards p) (eq→== kind type_parity e)

-- The parity shards have the places from `k` on, behind the data shards.
seal_all-IsExpected :
    (dec : FecDecoder) (enc : FecEncoder) (size g gs k : ℕ) (ps : List Bytes)
    → IsPeer enc dec
    → enc.payload_offset ≡ enc.header_offset + 6
    → enc.header_offset + 6 ≤ size
    → enc.paws ≡ gs * enc.shard_size
    → g < gs
    → enc.paws < 2 ^ 32
    → enc.data_shards ≤ k
    → k + length ps ≤ enc.shard_size
    → (0 < length ps → enc.next ≡ g * enc.shard_size + k)
    → All (IsExpected dec enc.header_offset) (seal_all enc size ps).0
unfolding seal_all seal_parity next_number
seal_all-IsExpected dec enc size g gs k [] peer ho hs hp hg h32 hd hk hn = tt
seal_all-IsExpected dec enc size g gs k (p ∷ ps) (pd, pz) ho hs hp hg h32 hd hk hn =
    let room : g * enc.shard_size + (k + 1) ≤ gs * enc.shard_size =
      place_bound g gs enc.shard_size (k + 1) hg (omega arith) in
    let here : enc.next ≡ g * enc.shard_size + k = hn (omega arith) in
    let mine : enc.next ≡ g * dec.shard_size + k = here ∙ ap (λ n. g * n + k) (sym pz) in
    (
      header-IsExpected dec enc.header_offset g k enc.next type_parity
          (take size (seal_parity enc (make enc.payload_offset ++ p)).0)
          (parity_header enc size p ho hs) mine (omega (arith, room, here)) (omega arith)
          (inr (omega arith, refl)),
      seal_all-IsExpected dec (next_number enc) size g gs (k + 1) ps (pd, pz) ho hs hp hg h32
          (omega arith) (omega arith) (after here),
    )
  where
    after :
        enc.next ≡ g * enc.shard_size + k
        → 0 < length ps
        → (next_number enc).next ≡ g * enc.shard_size + (k + 1)
    after here h =
        let room : g * enc.shard_size + (k + 2) ≤ gs * enc.shard_size =
          place_bound g gs enc.shard_size (k + 2) hg (omega arith) in
        mod-eq_of_lt (omega (arith, room, here)) ∙ omega (arith, here)

-- The parity shards of a group that is complete.
encode_group-IsExpected :
    (codec : Codec) (dec : FecDecoder) (enc : FecEncoder) (size gap rto g gs : ℕ)
    → IsComplete codec
    → IsPeer enc dec
    → enc.payload_offset ≡ enc.header_offset + 6
    → enc.header_offset + 6 ≤ size
    → enc.paws ≡ gs * enc.shard_size
    → g < gs
    → enc.paws < 2 ^ 32
    → enc.data_shards + enc.parity_shards ≡ enc.shard_size
    → enc.next ≡ g * enc.shard_size + enc.data_shards
    → All (IsExpected dec enc.header_offset) (encode_group codec enc size gap rto).0
unfolding encode_group
encode_group-IsExpected codec dec enc size gap rto g gs hc peer ho hs hp hg h32 hz hn =
    elim (Bool-cases (leb rto gap)) [
      | inl e ↦ rw e tt
      | inr e ↦
          let columns =
            data_columns enc.payload_offset size (take enc.data_shards enc.shard_cache) in
          let reset = record enc { shard_count = 0; max_size = 0 } in
          elim (Option-cases (codec.encode_shards enc.data_shards enc.parity_shards columns)) [
            | inl n ↦ rw (e, n) tt
            | inr (ps, s) ↦
                rw (e, s)
                  (seal_all-IsExpected dec reset size g gs enc.data_shards ps peer ho hs hp hg h32
                    (omega arith) (omega (arith, hc enc.data_shards enc.parity_shards columns ps s))
                    (λ h. hn))
          ]
    ]

-- On an aligned encoder with a codec that makes as many parity shards as it was made for, and a packet
-- with room for the headers, a decoder made for the same counts expects the type of all that encode
-- sends, the data packet and the parity shards.
pub encode-IsExpected :
    (codec : Codec) (now : ℕ) (enc : FecEncoder) (b : Bytes) (rto : ℕ) (dec : FecDecoder)
    → IsComplete codec
    → IsAligned enc
    → IsPeer enc dec
    → enc.payload_offset ≡ enc.header_offset + 6
    → enc.header_offset + 8 ≤ length b
    → IsExpected dec enc.header_offset (encode codec now enc b rto).1
      × All (IsExpected dec enc.header_offset) (encode codec now enc b rto).0
unfolding encode seal_data cache_data next_number
encode-IsExpected codec now enc b rto dec hc v (pd, pz) ho hb =
    let sealed = put_size enc.payload_offset (seal_data enc b).0 in
    let enc2 = cache_data (next_number enc) sealed now in
    let room : v.group * enc.shard_size + (enc.shard_count + 2) ≤ v.groups * enc.shard_size =
      place_bound v.group v.groups enc.shard_size (enc.shard_count + 2) v.in_groups
        (omega (arith, v.in_set, v.some_parity, v.sizes)) in
    let small : enc.next + 2 ≤ enc.paws = omega (arith, room, v.place, v.wraps) in
    let step : (enc.next + 1) % enc.paws ≡ enc.next + 1 = mod-eq_of_lt (omega (arith, small)) in
    let first : IsExpected dec enc.header_offset sealed =
      header-IsExpected dec enc.header_offset v.group enc.shard_count enc.next type_data sealed
        (sealed_header enc b ho hb) (v.place ∙ ap (λ n. v.group * n + enc.shard_count) (sym pz))
        (omega (arith, small, v.is_word)) (omega (arith, v.in_set, v.some_parity, v.sizes, pz))
        (inl (omega (arith, v.in_set, pd), refl)) in
    elim (Bool-cases (enc.shard_count + 1 == enc.data_shards)) [
      | inl e ↦ rw e (
        first,
        encode_group-IsExpected codec dec enc2 enc2.max_size (now - enc.ts_latest_packet) rto
            v.group v.groups hc (pd, pz) ho (omega (arith, length-sealed enc b ho hb)) v.wraps
            v.in_groups v.is_word v.sizes
            (omega (arith, step, v.place, ==→eq (enc.shard_count + 1) enc.data_shards e)),
      )
      | inr e ↦ rw e (first, tt)
    ]
