-- ===== src/Transmit/Arrival.antt =====
-- fec.go: from encode to decode of the peer, through a network that loses and reorders packets.
use kcp_go.Prelude.{
  ℕ, suc, ◌+◌, ◌-◌, ◌*◌, ◌/◌, ◌≤◌, ◌<◌, ◌≡◌, sym, subst, ◌⊎◌, inl, inr, false, some, List, [], ◌∷◌,
  length, ◌%◌, ap, ap₂, ◌∙◌, ◌++◌, arith, ltb, ltb→lt, ltb→le, eq→==, Bool-cases, All,
}
use kcp_go.Bytes.{Bytes}
use kcp_go.Fec.{max_packet_size, FecEncoder, Codec, type_data, type_parity, seqid, flag}
use kcp_go.Fec.Align.{IsAligned, place_bound}
use kcp_go.Fec.Decoder.{FecDecoder, new_shard_heap, find_set, get_shard_id, is_expected}
use kcp_go.Fec.Encode.{Holds, columns_of}
use kcp_go.Fec.Recover.{IsCode, IsPart, IsSpread, lost}
use kcp_go.Fec.Rebuild.{IsEnough}
use kcp_go.Fec.Gather.{IsOfNewest}
use kcp_go.Fec.Restore.{decode_all, decode_all-lost}
use kcp_go.Transmit.Group.{IsPlaced, PlacedFrom, NumberedFrom}
use kcp_go.Transmit.Loss.{IsSized, group_packets, group_packets-PlacedFrom}
use native.Mathlib.Nat.{mod-lt, mul-add-div_right, div-eq_of_lt}

abbrev pub IsIn : Bytes → List Bytes → Type 0
IsIn x [] = ⊥
IsIn x (y ∷ ys) = (x ≡ y) ⊎ IsIn x ys

-- The last packet of a group: the encoder has the ones before it, numbered from the beginning of a
-- shard set, and the codec makes the parity shards.
pub record IsLast (codec : Codec) (now : ℕ) (enc : FecEncoder) (b : Bytes) (rto : ℕ)
    (pkts ps : List Bytes) : Type 0 where
  pub aligned : IsAligned enc
  pub holds : Holds enc pkts
  pub numbered :
      NumberedFrom enc.header_offset enc.payload_offset (aligned.group * enc.shard_size) pkts
  pub offsets : enc.payload_offset ≡ enc.header_offset + 6
  pub room : enc.header_offset + 8 ≤ length b
  pub small : length b ≤ max_packet_size
  pub completes : suc (length pkts) ≡ enc.data_shards
  pub cache : enc.data_shards ≤ length enc.shard_cache
  pub soon : now - enc.ts_latest_packet < rto
  pub coded :
      codec.encode_shards enc.data_shards enc.parity_shards (columns_of enc pkts b) ≡ some ps

-- A decoder for the same counts that has got nothing of the group yet, which is its newest.
pub record IsWaiting (enc : FecEncoder) (group : ℕ) (dec : FecDecoder) : Type 0 where
  pub data_count : dec.data_shards ≡ enc.data_shards
  pub parity_count : dec.parity_shards ≡ enc.parity_shards
  pub set_size : dec.shard_size ≡ enc.shard_size
  pub same_paws : dec.paws ≡ enc.paws
  pub newest : dec.newest_shard_id ≡ group
  pub calm : dec.should_tune ≡ false
  pub none_held : find_set dec.newest_shard_id dec.shard_set ≡ new_shard_heap

-- A packet of the group has a place.
IsPlaced-member :
    (d n size : ℕ) (ws : List Bytes) (g k : ℕ) (pkts : List Bytes) (x : Bytes)
    → PlacedFrom d n size ws g k pkts
    → IsIn x pkts
    → (j : ℕ) × IsPlaced d n size ws g j x
IsPlaced-member d n size ws g k [] x v h = absurd h
IsPlaced-member d n size ws g k (p ∷ pkts) x v (inl e) =
    (k, subst (IsPlaced d n size ws g k) (sym e) v.0)
IsPlaced-member d n size ws g k (p ∷ pkts) x v (inr h) =
    IsPlaced-member d n size ws g (suc k) pkts x v.1 h

div_place : (n g k : ℕ) → k < n → (g * n + k) / n ≡ g
div_place n g k h =
    mul-add-div_right (omega (arith, h)) g k ∙ ap (λ q. g + q) (div-eq_of_lt h) ∙ omega arith

member-IsOfNewest :
    (enc : FecEncoder) (v : IsAligned enc) (dec : FecDecoder) (size : ℕ) (ws : List Bytes) (k : ℕ)
    (x : Bytes)
    → IsWaiting enc v.group dec
    → IsPlaced enc.data_shards enc.shard_size size ws v.group k x
    → IsOfNewest dec x
unfolding get_shard_id is_expected
member-IsOfNewest enc v dec size ws k x w p =
    let n = enc.shard_size in
    let some_size : 0 < n = omega (arith, v.sizes, v.some_parity) in
    let inside : k < n = subst (λ j. j < n) p.place (mod-lt (seqid x) some_size) in
    let bound = place_bound v.group v.groups n n v.in_groups (omega arith) in
    let place : seqid x % dec.shard_size ≡ k = ap (λ j. seqid x % j) w.set_size ∙ p.place in
    record {
      in_set =
          ap (λ j. seqid x / j) w.set_size
          ∙ ap (λ j. j / n) p.number
          ∙ div_place n v.group k inside
          ∙ sym w.newest;
      below_paws = omega (arith, w.same_paws, v.wraps, bound, p.number, inside);
      expected = elim (Bool-cases (ltb k enc.data_shards)) [
        | inl e ↦
            rw (place, w.data_count, e)
              (eq→== (flag x) type_data (p.as_data (ltb→lt k enc.data_shards e)))
        | inr e ↦
            rw (place, w.data_count, e)
              (eq→== (flag x) type_parity (p.as_parity (ltb→le k enc.data_shards e)))
      ];
    }

-- What holds of a packet that has a place holds of all packets of the group that arrive.
All-arrived :
    (P : Bytes → Type 0) (d n size : ℕ) (ws : List Bytes) (g : ℕ) (pkts got : List Bytes)
    → PlacedFrom d n size ws g 0 pkts
    → ((k : ℕ) (x : Bytes) → IsPlaced d n size ws g k x → P x)
    → All (λ x. IsIn x pkts) got
    → All P got
All-arrived P d n size ws g pkts [] v f h = tt
All-arrived P d n size ws g pkts (x ∷ got) v f h =
    let (k, placed) = IsPlaced-member d n size ws g 0 pkts x v h.0 in
    (f k x placed, All-arrived P d n size ws g pkts got v f h.1)

-- With a code as documented, the last packet of a group, given to encode soon enough, and a decoder of
-- the same counts to which the group is new: whatever the network loses and in whatever order it
-- delivers, as long as as many different packets of the group arrive as it has data packets, decode gives
-- back in all exactly the data packets that did not arrive, in order, from their size on, with zeros up
-- to the longest.
pub arrival_lem :
    (codec : Codec) (now : ℕ) (enc : FecEncoder) (b : Bytes) (rto : ℕ) (pkts ps : List Bytes)
    (v : IsLast codec now enc b rto pkts ps) (dec : FecDecoder) (got : List Bytes)
    → IsCode codec
    → IsSized codec
    → IsWaiting enc v.aligned.group dec
    → All (λ x. IsIn x (group_packets codec now enc pkts b rto)) got
    → IsSpread enc.shard_size got
    → length got ≡ enc.data_shards
    → (decode_all codec dec got).0 ≡ lost enc.shard_size got 0 (columns_of enc pkts b)
arrival_lem codec now enc b rto pkts ps v dec got hc hs w all spread enough =
    let a = v.aligned in
    let columns = columns_of enc pkts b in
    let (size, len_columns, len_ps, placed) =
      group_packets-PlacedFrom codec now enc b rto pkts ps a hs v.holds v.numbered v.offsets v.room
        v.small v.completes v.cache v.soon v.coded in
    let newest =
      All-arrived (IsOfNewest dec) enc.data_shards enc.shard_size size (columns ++ ps) a.group
        (group_packets codec now enc pkts b rto) got placed
        (λ k x p. member-IsOfNewest enc a dec size (columns ++ ps) k x w p) all in
    let parts =
      All-arrived (IsPart enc.data_shards enc.shard_size size (columns ++ ps)) enc.data_shards
        enc.shard_size size (columns ++ ps) a.group (group_packets codec now enc pkts b rto) got
        placed (λ k x p. p.part) all in
    let for_decoder : IsEnough codec dec columns ps got = record {
      coded = ap₂ (λ d p. codec.encode_shards d p columns) w.data_count w.parity_count ∙ v.coded;
      data_count = len_columns ∙ sym w.data_count;
      parity_count = len_ps ∙ sym w.parity_count;
      set_size = omega (arith, w.set_size, w.data_count, w.parity_count, a.sizes);
      size = size;
      parts =
          subst (λ d. All (IsPart d dec.shard_size size (columns ++ ps)) got) (sym w.data_count)
            (subst (λ n. All (IsPart enc.data_shards n size (columns ++ ps)) got) (sym w.set_size)
              parts);
      spread = subst (λ n. IsSpread n got) (sym w.set_size) spread;
      enough = enough ∙ sym w.data_count;
      some_data = omega (arith, w.data_count, a.in_set);
    } in
    decode_all-lost codec dec columns ps got hc w.calm w.none_held newest for_decoder
    ∙ ap (λ n. lost n got 0 columns) w.set_size
