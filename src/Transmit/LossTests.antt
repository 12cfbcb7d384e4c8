-- ===== src/Transmit/LossTests.antt =====
-- fec.go: a group of two packets and a parity shard, of which the first packet is lost.
use kcp_go.Prelude.{
  ℕ, suc, ◌≤◌, ◌≡◌, refl, sym, ap, ◌∙◌, subst, inl, inr, List, [], ◌∷◌, arith, length,
  length-replicate, All, copy, make, nat_zero, false, sub_slice, clear,
}
use kcp_go.Bytes.{Bytes, put_u16, put_u32, u32_at}
use kcp_go.AutoTune.{new_auto_tune}
use kcp_go.Fec.{
  max_packet_size, paws_of, Shard, FecEncoder, encode, seal_all, next_number, cache_data, seal_data,
  put_size, seqid, encode_group, data_columns, seal_parity, skip_parity,
}
use kcp_go.Fec.Summing.{plus, summing, two_columns, asked_for, summing-IsCode}
use kcp_go.Fec.Align.{IsAligned}
use kcp_go.Fec.Decoder.{FecDecoder, find_set}
use kcp_go.Fec.Recover.{lost, IsSpread}
use kcp_go.Fec.Restore.{decode_all}
use kcp_go.Fec.Encode.{Holds, sealed_packet, columns_of, encode_more, more_cached}
use kcp_go.Transmit.Loss.{IsSized, group_packets}
use kcp_go.Transmit.Arrival.{IsIn, IsLast, IsWaiting, arrival_lem}

length-plus : (a b : Bytes) → length a ≡ length b → length (plus a b) ≡ length a
length-plus [] b e = refl
length-plus (x ∷ a) [] e = absurd (omega (arith, e))
length-plus (x ∷ a) (y ∷ b) e = ap suc (length-plus a b (omega (arith, e)))

summing-IsSized : IsSized summing
summing-IsSized = record {
  sized = λ d p size columns ps coded all.
      let (one, made) = asked_for p columns ps coded in
      let (a, (b, two, same, sum)) = two_columns columns ps made in
      let long : All (λ c. length c ≡ size) (a ∷ b ∷ []) =
        subst (All (λ c. length c ≡ size)) two all in
      (
        ap (λ (c : List Bytes). length c) sum ∙ sym one,
        subst (All (λ c. length c ≡ size)) (sym sum) (length-plus a b same ∙ long.0, tt),
      );
}

abbrev blank : Shard
blank = record { memory = make 1472; size = 1472 }

abbrev fresh : FecEncoder
fresh = record {
  data_shards = 2;
  parity_shards = 1;
  shard_size = 3;
  paws = paws_of 3;
  next = 0;
  shard_count = 0;
  max_size = 0;
  header_offset = 0;
  payload_offset = 6;
  shard_cache = blank ∷ blank ∷ blank ∷ [];
  ts_latest_packet = 50;
}

blank-capacity : max_packet_size ≤ length blank.memory
blank-capacity = omega (arith, length-replicate {A = ℕ} 1472 0)

fresh-Holds : Holds fresh []
fresh-Holds = record {
  count = refl;
  cached = tt;
  capacity = (blank-capacity, (blank-capacity, (blank-capacity, tt)));
  fits = tt;
  bounded = omega arith;
}

abbrev first_packet : Bytes
first_packet = 0 ∷ 0 ∷ 0 ∷ 0 ∷ 0 ∷ 0 ∷ 0 ∷ 0 ∷ 5 ∷ 6 ∷ 7 ∷ []

abbrev second_packet : Bytes
second_packet = 0 ∷ 0 ∷ 0 ∷ 0 ∷ 0 ∷ 0 ∷ 0 ∷ 0 ∷ 8 ∷ []

-- The encoder behind the first packet.
abbrev half : FecEncoder
half = more_cached fresh first_packet 60

half-Holds : Holds half (sealed_packet fresh first_packet ∷ [])
half-Holds =
    (encode_more summing 60 fresh first_packet 100 [] fresh-Holds refl (omega arith) (omega arith)
      (omega arith) (omega arith)).1

abbrev group : List Bytes
group = group_packets summing 70 half (sealed_packet fresh first_packet ∷ []) second_packet 100

abbrev parity : List Bytes
parity = (8 ∷ 0 ∷ 13 ∷ 6 ∷ 7 ∷ []) ∷ []

second_packet-IsLast :
    IsLast summing 70 half second_packet 100 (sealed_packet fresh first_packet ∷ []) parity
unfolding cache_data next_number put_size seal_data paws_of put_u32 put_u16 copy
second_packet-IsLast = record {
  aligned = record {
    group = 0;
    groups = 1431655765;
    sizes = refl;
    some_parity = omega arith;
    in_set = omega arith;
    wraps = refl;
    in_groups = omega arith;
    is_word = omega arith;
    place = refl;
  };
  holds = half-Holds;
  numbered = (record { head = refl; long = omega arith }, tt);
  offsets = refl;
  room = omega arith;
  small = omega arith;
  completes = refl;
  cache = omega arith;
  soon = omega arith;
  coded = refl;
}

abbrev waiting : FecDecoder
waiting = record {
  data_shards = 2;
  parity_shards = 1;
  shard_size = 3;
  shard_set = [];
  paws = paws_of 3;
  newest_shard_id = 0;
  auto_tune = new_auto_tune;
  should_tune = false;
}

group_zero : (v : IsAligned half) → 0 ≡ v.group
unfolding cache_data next_number
group_zero v = omega (arith, v.place, v.wraps)

waiting-IsWaiting : IsWaiting half second_packet-IsLast.aligned.group waiting
unfolding cache_data next_number find_set
waiting-IsWaiting = record {
  data_count = refl;
  parity_count = refl;
  set_size = refl;
  same_paws = refl;
  newest = group_zero second_packet-IsLast.aligned;
  calm = refl;
  none_held = refl;
}

-- The parity shard overtakes the second packet.
abbrev arrived : List Bytes
arrived =
    (2 ∷ 0 ∷ 0 ∷ 0 ∷ 242 ∷ 0 ∷ 8 ∷ 0 ∷ 13 ∷ 6 ∷ 7 ∷ [])
    ∷ (1 ∷ 0 ∷ 0 ∷ 0 ∷ 241 ∷ 0 ∷ 3 ∷ 0 ∷ 8 ∷ [])
    ∷ []

arrived-IsIn : All (λ x. IsIn x group) arrived
unfolding encode encode_group cache_data next_number put_size seal_data seal_all seal_parity
    skip_parity data_columns paws_of put_u32 put_u16 copy clear sub_slice
arrived-IsIn = (inr (inr (inl refl)), (inr (inl refl), tt))

arrived-IsSpread : IsSpread 3 arrived
unfolding seqid u32_at
arrived-IsSpread = (((λ e. omega (arith, e)), tt), (tt, tt))

arrival_lem_example :
    (decode_all summing waiting arrived).0
    ≡ lost half.shard_size arrived 0
        (columns_of half (sealed_packet fresh first_packet ∷ []) second_packet)
unfolding cache_data next_number
arrival_lem_example =
    arrival_lem summing 70 half second_packet 100 (sealed_packet fresh first_packet ∷ []) parity
      second_packet-IsLast waiting arrived summing-IsCode summing-IsSized waiting-IsWaiting
      arrived-IsIn arrived-IsSpread refl

-- The first packet from its size on.
lost-arrived :
    lost half.shard_size arrived 0
      (columns_of half (sealed_packet fresh first_packet ∷ []) second_packet)
    ≡ (5 ∷ 0 ∷ 5 ∷ 6 ∷ 7 ∷ []) ∷ []
unfolding cache_data next_number put_size seal_data put_u32 put_u16 copy seqid u32_at
lost-arrived = refl
