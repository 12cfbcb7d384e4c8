-- ===== src/Fec/Tests.antt =====
-- fec.go: an encoder whose numbers wrap, and the theorems at it.
use kcp_go.Prelude.{
  refl, sym, ap, ◌∙◌, true, none, some, List, [], ◌∷◌, arith, length, replicate, length-replicate,
  make, nat_zero, ◌≡◌, false, All, sub_slice, copy, clear, ◌+◌, pos,
}
use kcp_go.Bytes.{Bytes, put_u16, put_u32, u32_at}
use kcp_go.Fec.{
  Codec, paws_of, FecEncoder, encode, seqid, next_number, seal_data, seal_parity, skip_parity,
  put_size, data_columns, seal_all, cache_data, encode_group, new_fec_encoder,
}
use kcp_go.AutoTune.{new_auto_tune}
use kcp_go.Fec.Decoder.{FecDecoder, new_fec_decoder}
use kcp_go.Fec.Expected.{IsExpected, encode-IsExpected, IsPeer}
use kcp_go.Fec.Start.{new_fec_encoder-IsAligned}
use kcp_go.Fec.Align.{encode-IsAligned, IsAligned, IsComplete}

-- Each parity shard is the first data shard.
unfoldable first_column : List Bytes → Bytes
first_column [] = []
first_column (c ∷ cs) = c

abbrev repeating : Codec
repeating = record {
  accepts = λ d p. true;
  encode_shards = λ d p columns. some (replicate p (first_column columns));
  reconstruct = λ d p shards. none;
}

repeating-IsComplete : IsComplete repeating
repeating-IsComplete d p columns ps e =
    sym (ap (λ o. elim o [ none ↦ p | some xs ↦ length xs ]) e)
    ∙ length-replicate p (first_column columns)

-- Two data shards and a parity shard. The next packet ends the last set below 2^32.
abbrev worn : FecEncoder
worn = record {
  data_shards = 2;
  parity_shards = 1;
  shard_size = 3;
  paws = paws_of 3;
  next = 4294967293;
  shard_count = 1;
  max_size = 12;
  header_offset = 0;
  payload_offset = 6;
  shard_cache = replicate 3 (record { memory = make 16; size = 12 });
  ts_latest_packet = 50;
}

worn-IsAligned : IsAligned worn
unfolding paws_of
worn-IsAligned = record {
  group = 1431655764;
  groups = 1431655765;
  sizes = refl;
  some_parity = omega arith;
  in_set = omega arith;
  wraps = refl;
  in_groups = omega arith;
  is_word = omega arith;
  place = refl;
}

encode-IsAligned_example : IsAligned (encode repeating 60 worn (make 12) 100).2
encode-IsAligned_example =
    encode-IsAligned repeating 60 worn (make 12) 100 repeating-IsComplete worn-IsAligned

abbrev listening : FecDecoder
listening = record {
  data_shards = 2;
  parity_shards = 1;
  shard_size = 3;
  shard_set = [];
  paws = paws_of 3;
  newest_shard_id = 1431655764;
  auto_tune = new_auto_tune;
  should_tune = false;
}

-- The data packet has the last but one number below 2^32, the parity shard the last one.
encode-worn :
    (length (encode repeating 60 worn (make 12) 100).0 ≡ 1)
    × (seqid (encode repeating 60 worn (make 12) 100).1 ≡ 4294967293)
    × ((encode repeating 60 worn (make 12) 100).2.next ≡ 0)
unfolding encode seal_data next_number put_size cache_data encode_group data_columns seal_all
    seal_parity skip_parity paws_of seqid u32_at put_u32 put_u16 first_column copy clear sub_slice
encode-worn = (refl, refl, refl)

encode-IsExpected_example :
    IsExpected listening 0 (encode repeating 60 worn (make 12) 100).1
    × All (IsExpected listening 0) (encode repeating 60 worn (make 12) 100).0
encode-IsExpected_example =
    encode-IsExpected repeating 60 worn (make 12) 100 listening repeating-IsComplete worn-IsAligned
      (refl, refl) refl (omega arith)

new_fec_encoder-IsAligned_example :
    (enc : FecEncoder) × (dec : FecDecoder) × (new_fec_encoder repeating (pos 10) (pos 3) 20
      ≡ some enc)
    × (new_fec_decoder repeating (pos 10) (pos 3) ≡ some dec)
    × IsAligned enc
    × IsPeer enc dec
    × (enc.payload_offset ≡ enc.header_offset + 6)
new_fec_encoder-IsAligned_example = new_fec_encoder-IsAligned repeating 9 2 20 (omega arith) refl
