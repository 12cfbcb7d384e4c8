-- ===== src/Fec/RestoreTests.antt =====
-- fec.go: recovery of a data shard from the other one and a parity shard.
use kcp_go.Prelude.{◌≡◌, refl, false, List, [], ◌∷◌, arith, All}
use kcp_go.Bytes.{Bytes, u16_at, u32_at}
use kcp_go.Fec.{seqid, flag, payload_of, paws_of}
use kcp_go.AutoTune.{new_auto_tune}
use kcp_go.Fec.Decoder.{FecDecoder, new_shard_heap, find_set, get_shard_id, is_expected}
use kcp_go.Fec.Recover.{lost}
use kcp_go.Fec.Summing.{summing, summing-IsCode}
use kcp_go.Fec.Rebuild.{IsEnough}
use kcp_go.Fec.Gather.{IsOfNewest}
use kcp_go.Fec.Restore.{decode_all, decode_all-lost}

abbrev waiting : FecDecoder
waiting = record {
  data_shards = 2;
  parity_shards = 1;
  shard_size = 3;
  shard_set = [];
  paws = paws_of 3;
  newest_shard_id = 0;
  auto_tune = new_auto_tune;
  should_tune = false;
}

abbrev sent : List Bytes
sent = (3 ∷ 0 ∷ 9 ∷ []) ∷ (3 ∷ 0 ∷ 4 ∷ []) ∷ []

-- The parity shard of the set comes before its second data shard. The first one is lost.
abbrev arrived : List Bytes
arrived =
    (2 ∷ 0 ∷ 0 ∷ 0 ∷ 242 ∷ 0 ∷ 6 ∷ 0 ∷ 13 ∷ []) ∷ (1 ∷ 0 ∷ 0 ∷ 0 ∷ 241 ∷ 0 ∷ 3 ∷ 0 ∷ 4 ∷ []) ∷ []

arrived-IsEnough : IsEnough summing waiting sent ((6 ∷ 0 ∷ 13 ∷ []) ∷ []) arrived
unfolding seqid flag payload_of u16_at u32_at
arrived-IsEnough = record {
  coded = refl;
  data_count = refl;
  parity_count = refl;
  set_size = refl;
  size = 3;
  parts = (
    record {
      short = omega arith;
      padded = refl;
      whole = λ h. refl;
      typed_data = λ h. absurd (omega (arith, h));
      typed_parity = λ h e. omega (arith, e);
    },
    (
      record {
        short = omega arith;
        padded = refl;
        whole = λ h. refl;
        typed_data = λ h. refl;
        typed_parity = λ h. absurd (omega (arith, h));
      },
      tt,
    ),
  );
  spread = (((λ e. omega (arith, e)), tt), (tt, tt));
  enough = refl;
  some_data = omega arith;
}

arrived-IsOfNewest : All (IsOfNewest waiting) arrived
unfolding get_shard_id is_expected paws_of seqid flag u16_at u32_at
arrived-IsOfNewest = (
  record { in_set = refl; below_paws = omega arith; expected = refl },
  (record { in_set = refl; below_paws = omega arith; expected = refl }, tt),
)

none_held : find_set waiting.newest_shard_id waiting.shard_set ≡ new_shard_heap
unfolding find_set
none_held = refl

decode_all-lost_example : (decode_all summing waiting arrived).0 ≡ lost 3 arrived 0 sent
decode_all-lost_example =
    decode_all-lost summing waiting sent ((6 ∷ 0 ∷ 13 ∷ []) ∷ []) arrived summing-IsCode refl
      none_held arrived-IsOfNewest arrived-IsEnough

-- It is the first data shard.
lost-arrived : lost 3 arrived 0 sent ≡ (3 ∷ 0 ∷ 9 ∷ []) ∷ []
unfolding seqid u32_at
lost-arrived = refl
