-- ===== src/Fec.antt =====
-- fec.go: the encoder and the decoder of forward error correction. The Reed-Solomon codec of
-- github.com/klauspost/reedsolomon is a parameter of the definitions that call it.
pub mod Decoder
pub mod Align
pub mod Header
pub mod Expected
pub mod Start
pub mod Recover
pub mod Tables
pub mod Rebuild
pub mod Gather
pub mod Restore
pub mod Summing
pub mod Group
pub mod Encode
mod Tests
mod RestoreTests
use kcp_go.Prelude.{
  ℕ, suc, ◌+◌, ◌-◌, ◌*◌, ◌/◌, ◌%◌, ◌^◌, max, Bool, Option, none, some, List, [], ◌∷◌, ◌++◌, leb,
  ◌==◌, if◌then◌else◌, Zero, length, set, take, drop, replicate, get, slice, copy, copy_from, clear,
  make, ℤ, pos, nat_zero,
}
use kcp_go.Bytes.{Bytes, put_u16, put_u32, u16_at, u32_at}

abbrev pub fec_header_size : ℕ
fec_header_size = 6

abbrev pub type_data : ℕ
type_data = 0xf1

abbrev pub type_parity : ℕ
type_parity = 0xf2

abbrev pub type_oob : ℕ
type_oob = 0xf3

-- maxPacketSize of sess.go.
abbrev pub max_packet_size : ℕ
max_packet_size = 1472

-- fecPacket
unfoldable pub seqid : Bytes → ℕ
seqid bts = u32_at bts 0

unfoldable pub flag : Bytes → ℕ
flag bts = u16_at bts 4

unfoldable pub payload_of : Bytes → Bytes
payload_of bts = drop 6 bts

-- The number at which the sequence starts again: the multiple of the shard size below 2^32.
unfoldable pub paws_of : ℕ → ℕ
paws_of size = (2 ^ 32 - 1) / size * size

-- A cached shard is its memory of 1472 bytes, with the length of its slice beside it.
pub record Shard : Type 0 where
  pub memory : Bytes
  pub size : ℕ

instance abbrev pub shard_zero : Zero Shard
shard_zero = record { zero_value = record { memory = []; size = 0 } }

pub record FecEncoder : Type 0 where
  pub data_shards : ℕ
  pub parity_shards : ℕ
  pub shard_size : ℕ
  pub paws : ℕ
  pub next : ℕ
  pub shard_count : ℕ
  pub max_size : ℕ
  pub header_offset : ℕ
  pub payload_offset : ℕ
  pub shard_cache : List Shard
  pub ts_latest_packet : ℕ

-- What the library does: whether it makes a codec for the two counts, and, from the data shards of
-- equal length, the parity shards.
pub record Codec : Type 0 where
  pub accepts : ℕ → ℕ → Bool
  pub encode_shards : ℕ → ℕ → List Bytes → Option (List Bytes)
  pub reconstruct : ℕ → ℕ → List (Option Bytes) → Option (List Bytes)

unfoldable pub new_fec_encoder : Codec → ℤ → ℤ → ℕ → Option FecEncoder
new_fec_encoder codec (pos (suc d)) (pos (suc p)) offset =
    let size = suc d + suc p in
    if codec.accepts (suc d) (suc p)
    then some (record {
      data_shards = suc d;
      parity_shards = suc p;
      shard_size = size;
      paws = paws_of size;
      next = 0;
      shard_count = 0;
      max_size = 0;
      header_offset = offset;
      payload_offset = offset + fec_header_size;
      shard_cache =
          replicate size (record { memory = make max_packet_size; size = max_packet_size });
      ts_latest_packet = 0;
    })
    else none
new_fec_encoder codec data_shards parity_shards offset = none

-- The header that a shard gets at the offset, and the number after it.
abbrev pub header : ℕ → ℕ → Bytes
header number kind = put_u32 number ++ put_u16 kind

unfoldable pub next_number : FecEncoder → FecEncoder
next_number enc = record enc { next = (enc.next + 1) % enc.paws }

unfoldable pub seal_data : FecEncoder → Bytes → Bytes × FecEncoder
seal_data enc b = (copy_from b enc.header_offset (header enc.next type_data), next_number enc)

unfoldable pub seal_parity : FecEncoder → Bytes → Bytes × FecEncoder
seal_parity enc b = (copy_from b enc.header_offset (header enc.next type_parity), next_number enc)

unfoldable pub skip_parity : FecEncoder → FecEncoder
skip_parity enc = record enc { next = (enc.next + enc.parity_shards) % enc.paws }

-- The size field in front of the payload counts itself.
unfoldable pub put_size : ℕ → Bytes → Bytes
put_size offset b = copy_from b offset (put_u16 ((length b - offset) % 2 ^ 16))

unfoldable pub encode_oob : FecEncoder → Bytes → Bytes
encode_oob enc b =
    put_size enc.payload_offset (copy_from b enc.header_offset (header (2 ^ 32 - 1) type_oob))

-- The equal-sized data shards, from the payload on, with cleared tails.
unfoldable pub data_columns : ℕ → ℕ → List Shard → List Bytes
data_columns offset size [] = []
data_columns offset size (s ∷ ss) =
    slice (clear s.memory s.size (size - s.size)) offset size ∷ data_columns offset size ss

-- Seals the parity shards one after the other.
unfoldable pub seal_all : FecEncoder → ℕ → List Bytes → List Bytes × FecEncoder
seal_all enc size [] = ([], enc)
seal_all enc size (p ∷ ps) =
    let (b, enc') = seal_parity enc (make enc.payload_offset ++ p) in
    let (bs, enc'') = seal_all enc' size ps in (take size b ∷ bs, enc'')

-- The cache and the counts after a data packet, sealed as `b`.
unfoldable pub cache_data : FecEncoder → Bytes → ℕ → FecEncoder
cache_data enc b now =
    let old = get enc.shard_cache enc.shard_count in
    let kept = take enc.payload_offset old.memory ++ drop enc.payload_offset b in
    record enc {
      shard_cache =
          set enc.shard_cache enc.shard_count
            (record { memory = copy old.memory kept; size = length b });
      shard_count = enc.shard_count + 1;
      max_size = max enc.max_size (length b);
      ts_latest_packet = now;
    }

-- The end of a group: parity shards, unless the packets were too far apart or the codec fails. Bytes
-- of a parity shard in front of the header are left over from before; they are zero here, and the
-- caller overwrites them.
unfoldable pub encode_group : Codec → FecEncoder → ℕ → ℕ → ℕ → List Bytes × FecEncoder
encode_group codec enc size gap rto =
    let reset = record enc { shard_count = 0; max_size = 0 } in
    let columns = data_columns enc.payload_offset size (take enc.data_shards enc.shard_cache) in
    if leb rto gap
    then ([], skip_parity reset)
    else elim (codec.encode_shards enc.data_shards enc.parity_shards columns) [
      | none ↦ ([], skip_parity reset)
      | some ps ↦ seal_all reset size ps
    ]

-- encode: the parity shards that go out, the packet with its header, and the encoder afterwards.
-- `now` is the clock in milliseconds, which does not run backwards.
unfoldable pub encode : Codec → ℕ → FecEncoder → Bytes → ℕ → List Bytes × Bytes × FecEncoder
encode codec now enc b rto =
    let (headed, enc1) = seal_data enc b in
    let sealed = put_size enc.payload_offset headed in
    let enc2 = cache_data enc1 sealed now in
    let (ps, enc3) = encode_group codec enc2 enc2.max_size (now - enc.ts_latest_packet) rto in
    if enc2.shard_count == enc2.data_shards then (ps, sealed, enc3) else ([], sealed, enc2)
