-- ===== src/Fec/Decoder.antt =====
-- fec.go: the decoder. A shard set is found by its number in an association list; the heap's order
-- does not matter to the decoder, which empties it at once, so a set is the list of its packets.
use kcp_go.Prelude.{
  ℕ, suc, ◌+◌, ◌-◌, ◌*◌, ◌/◌, ◌%◌, max, Bool, true, false, not, ◌&&◌, ◌||◌, Option, none, some,
  List, [], ◌∷◌, ◌++◌, ltb, leb, ◌==◌, if◌then◌else◌, length, set, take, replicate, make, ℤ, pos,
  ltz, mul32, nat_zero,
}
use kcp_go.Bytes.{Bytes}
use kcp_go.Serial.{itimediff, is_pos}
use kcp_go.AutoTune.{AutoTune, new_auto_tune, sample, find_period}
use kcp_go.Fec.{type_data, type_parity, seqid, flag, payload_of, paws_of, Codec}

abbrev pub max_shard_sets : ℕ
max_shard_sets = 3

-- shardHeap: the packets and the marks, which are the numbers of the packets.
pub record ShardHeap : Type 0 where
  pub elements : List Bytes
  pub marks : ℕ → Bool

abbrev pub new_shard_heap : ShardHeap
new_shard_heap = record { elements = []; marks = λ sn. false }

abbrev pub push_packet : ShardHeap → Bytes → ShardHeap
push_packet h pkt = record {
  elements = pkt ∷ h.elements;
  marks = λ sn. if sn == seqid pkt then true else h.marks sn;
}

pub record FecDecoder : Type 0 where
  pub data_shards : ℕ
  pub parity_shards : ℕ
  pub shard_size : ℕ
  pub shard_set : List (ℕ × ShardHeap)
  pub paws : ℕ
  pub newest_shard_id : ℕ
  pub auto_tune : AutoTune
  pub should_tune : Bool

unfoldable pub new_fec_decoder : Codec → ℤ → ℤ → Option FecDecoder
new_fec_decoder codec (pos (suc d)) (pos (suc p)) =
    let size = suc d + suc p in
    if ltb 256 size || not (codec.accepts (suc d) (suc p))
    then none
    else some (record {
      data_shards = suc d;
      parity_shards = suc p;
      shard_size = size;
      shard_set = [];
      paws = paws_of size;
      newest_shard_id = 0;
      auto_tune = new_auto_tune;
      should_tune = false;
    })
new_fec_decoder codec data_shards parity_shards = none

unfoldable pub find_set : ℕ → List (ℕ × ShardHeap) → ShardHeap
find_set id [] = new_shard_heap
find_set id ((k, h) ∷ sets) = if k == id then h else find_set id sets

unfoldable pub put_set : ℕ → ShardHeap → List (ℕ × ShardHeap) → List (ℕ × ShardHeap)
put_set id h [] = (id, h) ∷ []
put_set id h ((k, g) ∷ sets) = if k == id then (id, h) ∷ sets else (k, g) ∷ put_set id h sets

unfoldable pub get_shard_id : FecDecoder → ℕ → ℕ
get_shard_id dec number = number / dec.shard_size

-- Whether the type of a packet is the one that its place in the shard set asks for.
unfoldable pub is_expected : FecDecoder → Bytes → Bool
is_expected dec pkt =
    if ltb (seqid pkt % dec.shard_size) dec.data_shards
    then flag pkt == type_data
    else flag pkt == type_parity

unfoldable pub is_old : FecDecoder → ℕ → Bool
is_old dec id =
    ltz (pos (max_shard_sets * dec.shard_size))
      (itimediff (mul32 dec.newest_shard_id dec.shard_size) (mul32 id dec.shard_size))

-- discardShards
unfoldable pub discard_shards : FecDecoder → List (ℕ × ShardHeap) → List (ℕ × ShardHeap)
discard_shards dec [] = []
discard_shards dec ((id, h) ∷ sets) =
    let rest = discard_shards dec sets in if is_old dec id then rest else (id, h) ∷ rest

-- Whether the counts that were found are usable.
unfoldable pub valid_counts : ℤ → ℤ → Option (ℕ × ℕ)
valid_counts (pos (suc d)) (pos (suc p)) =
    if leb (suc d + suc p) 256 then some (suc d, suc p) else none
valid_counts d p = none

unfoldable pub tuned : AutoTune → Option (ℕ × ℕ)
tuned tune = valid_counts (find_period tune true) (find_period tune false)

-- The branch for packets of an unexpected type. Nothing is recovered then. Where the codec refuses the
-- new counts, the source keeps the old codec and caches; here the codec is called with the new counts.
unfoldable pub retune : Codec → FecDecoder → ℕ → FecDecoder
retune codec dec number = elim (tuned dec.auto_tune) [
  | none ↦ dec
  | some (d, p) ↦
      let emptied = record dec {
        data_shards = d;
        parity_shards = p;
        shard_size = d + p;
        shard_set = [];
      } in
      if d == dec.data_shards && p == dec.parity_shards
      then record dec { should_tune = false }
      else if codec.accepts d p
      then record emptied {
        paws = paws_of (d + p);
        newest_shard_id = number / (d + p);
        should_tune = false;
      }
      else emptied
]

-- The decode cache: the payloads by their place in the set.
unfoldable pub fill_cache : ℕ → List Bytes → List (Option Bytes) → List (Option Bytes)
fill_cache size [] cache = cache
fill_cache size (pkt ∷ pkts) cache =
    fill_cache size pkts (set cache (seqid pkt % size) (some (payload_of pkt)))

unfoldable pub count_data : List Bytes → ℕ
count_data [] = 0
count_data (pkt ∷ pkts) = let n = count_data pkts in if flag pkt == type_data then suc n else n

unfoldable pub longest : List Bytes → ℕ
longest [] = 0
longest (pkt ∷ pkts) = max (length (payload_of pkt)) (longest pkts)

-- Shards are filled with zeros to one length.
unfoldable pub pad : ℕ → List (Option Bytes) → List (Option Bytes)
pad size [] = []
pad size (none ∷ cache) = none ∷ pad size cache
pad size (some b ∷ cache) = some (b ++ make (size - length b)) ∷ pad size cache

-- The reconstructed shards of the places that were empty.
unfoldable pub missing : List (Option Bytes) → List Bytes → List Bytes
missing [] shards = []
missing (c ∷ cache) [] = []
missing (none ∷ cache) (s ∷ shards) = s ∷ missing cache shards
missing (some b ∷ cache) (s ∷ shards) = missing cache shards

-- Recovery from the packets of a set that is large enough.
unfoldable pub recover : Codec → FecDecoder → List Bytes → List Bytes
recover codec dec pkts =
    let empty : Option Bytes = none in
    let cache = fill_cache dec.shard_size pkts (replicate dec.shard_size empty) in
    if count_data pkts == dec.data_shards
    then []
    else elim (codec.reconstruct dec.data_shards dec.parity_shards (pad (longest pkts) cache)) [
      | none ↦ []
      | some shards ↦ missing (take dec.data_shards cache) (take dec.data_shards shards)
    ]

-- A packet that is new in its set: it is kept, the newest set is updated, a set that is large enough
-- is emptied and used, and old sets are discarded.
unfoldable pub accept : Codec → FecDecoder → Bytes → List Bytes × FecDecoder
accept codec dec pkt =
    let id = get_shard_id dec (seqid pkt) in
    let shard = find_set id dec.shard_set in
    let pushed = push_packet shard pkt in
    let enough = leb dec.data_shards (length pushed.elements) in
    let newer =
      is_pos (itimediff (mul32 id dec.shard_size) (mul32 dec.newest_shard_id dec.shard_size)) in
    let dec' = record dec {
      shard_set = put_set id (if enough then new_shard_heap else pushed) dec.shard_set;
      newest_shard_id = if newer then id else dec.newest_shard_id;
    } in
    (
      if enough then recover codec dec pushed.elements else [],
      record dec' { shard_set = discard_shards dec' dec'.shard_set },
    )

unfoldable pub decode : Codec → FecDecoder → Bytes → List Bytes × FecDecoder
decode codec dec pkt =
    let number = seqid pkt in
    let sampled = record dec { auto_tune = sample dec.auto_tune (flag pkt == type_data) number } in
    let judged = record sampled { should_tune = dec.should_tune || not (is_expected dec pkt) } in
    let id = get_shard_id dec number in
    if leb dec.paws number
    then ([], sampled)
    else if judged.should_tune
    then ([], retune codec judged number)
    else if (find_set id dec.shard_set).marks number
    then ([], record judged { shard_set = put_set id (find_set id dec.shard_set) dec.shard_set })
    else accept codec judged pkt
