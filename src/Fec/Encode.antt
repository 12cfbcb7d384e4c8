-- ===== src/Fec/Encode.antt =====
-- fec.go: encode on the packets of a group.
use kcp_go.Prelude.{
  ℕ, zero, suc, ◌≤◌, ◌<◌, max, ◌≡◌, refl, sym, subst, List, [], ◌∷◌, ◌++◌, arith, length, set, take,
  drop, length-append, length-take, length-drop, All, get, copy, length-copy, nat_zero, ◌+◌, ◌-◌,
  some, map, ap, ◌∙◌, true, false, ◌==◌, if◌then◌else◌, lt→leb, ne→==, eq→==,
}
use kcp_go.Bytes.{Bytes}
use kcp_go.Crypt.Xor.{copy-append}
use kcp_go.Fec.{
  max_packet_size, Shard, shard_zero, FecEncoder, Codec, next_number, seal_parity, seal_data,
  put_size, seal_all, data_columns, cache_data, encode_group, encode,
}
use kcp_go.Fec.Header.{length-sealed}
use kcp_go.Fec.Group.{column, Keeps, Cached, data_columns-Cached, Cached-set}

-- The encoder has got `pkts` of its group.
pub record Holds (enc : FecEncoder) (pkts : List Bytes) : Type 0 where
  pub count : enc.shard_count ≡ length pkts
  pub cached : Cached enc.payload_offset enc.shard_cache pkts
  pub capacity : All (λ s. max_packet_size ≤ length s.memory) enc.shard_cache
  pub fits : All (λ pkt. length pkt ≤ enc.max_size) pkts
  pub bounded : enc.max_size ≤ max_packet_size

All-get : (P : Shard → Type 0) (ss : List Shard) (k : ℕ) → All P ss → k < length ss → P (get ss k)
All-get P [] k v h = absurd (omega (arith, h))
All-get P (s ∷ ss) zero v h = v.0
All-get P (s ∷ ss) (suc k) v h = All-get P ss k v.1 (omega (arith, h))

All-set :
    (P : Shard → Type 0) (ss : List Shard) (k : ℕ) (s : Shard) → All P ss → P s → All P (set ss k s)
All-set P [] k s v h = tt
All-set P (t ∷ ss) zero s v h = (h, v.1)
All-set P (t ∷ ss) (suc k) s v h = (v.0, All-set P ss k s v.1 h)

pub All-snoc :
    (m n : ℕ) (pkts : List Bytes) (p : Bytes)
    → All (λ pkt. length pkt ≤ m) pkts
    → m ≤ n
    → length p ≤ n
    → All (λ pkt. length pkt ≤ n) (pkts ++ p ∷ [])
All-snoc m n [] p v h k = (k, tt)
All-snoc m n (q ∷ pkts) p v h k = (omega (arith, v.0, h), All-snoc m n pkts p v.1 h k)

-- The shard that cache_data writes.
abbrev written : FecEncoder → Bytes → Shard
written enc p =
    let old = get enc.shard_cache enc.shard_count in
    record {
      memory = copy old.memory (take enc.payload_offset old.memory ++ drop enc.payload_offset p);
      size = length p;
    }

written-Keeps :
    (enc : FecEncoder) (p : Bytes)
    → max_packet_size ≤ length (get enc.shard_cache enc.shard_count).memory
    → enc.payload_offset ≤ length p
    → length p ≤ max_packet_size
    → Keeps enc.payload_offset (written enc p) p × (max_packet_size ≤ length (written enc p).memory)
written-Keeps enc p room long small =
    let off = enc.payload_offset in
    let old = get enc.shard_cache enc.shard_count in
    let kept = take off old.memory ++ drop off p in
    let front : length (take off old.memory) ≡ off =
      omega (arith, length-take off old.memory, room, long, small) in
    let size : length kept ≡ length p =
      omega
        (arith, length-append (take off old.memory) (drop off p), front, length-drop off p, long) in
    (
      record {
        front = take off old.memory;
        rest = drop (length kept) old.memory;
        memory_is = copy-append old.memory kept (omega (arith, size, room, small));
        front_size = front;
        size_is = refl;
        long = long;
      },
      omega (arith, room, length-copy old.memory kept),
    )

-- One more packet in the cache.
cache_data-Holds :
    (enc : FecEncoder) (pkts : List Bytes) (p : Bytes) (now : ℕ)
    → Holds enc pkts
    → length pkts < length enc.shard_cache
    → enc.payload_offset ≤ length p
    → length p ≤ max_packet_size
    → Holds (cache_data enc p now) (pkts ++ p ∷ [])
unfolding cache_data
cache_data-Holds enc pkts p now v h long small =
    let at : enc.shard_count < length enc.shard_cache = omega (arith, v.count, h) in
    let room =
      All-get (λ s. max_packet_size ≤ length s.memory) enc.shard_cache enc.shard_count v.capacity
        at in
    let (keeps, wide) = written-Keeps enc p room long small in
    record {
      count = omega (arith, v.count, length-append pkts (p ∷ []));
      cached =
          subst
            (λ k.
              Cached enc.payload_offset (set enc.shard_cache k (written enc p)) (pkts ++ p ∷ []))
            (sym v.count)
            (Cached-set enc.payload_offset enc.shard_cache pkts (written enc p) p v.cached h keeps);
      capacity =
          All-set (λ s. max_packet_size ≤ length s.memory) enc.shard_cache enc.shard_count
            (written enc p) v.capacity wide;
      fits =
          All-snoc enc.max_size (max enc.max_size (length p)) pkts p v.fits (omega arith)
            (omega arith);
      bounded = omega (arith, v.bounded, small);
    }

capacity_for :
    (m : ℕ) (ss : List Shard)
    → m ≤ max_packet_size
    → All (λ s. max_packet_size ≤ length s.memory) ss
    → All (λ s. m ≤ length s.memory) ss
capacity_for m [] h v = tt
capacity_for m (s ∷ ss) h v = (omega (arith, h, v.0), capacity_for m ss h v.1)

-- The packet that encode gives back.
abbrev pub sealed_packet : FecEncoder → Bytes → Bytes
sealed_packet enc b = put_size enc.payload_offset (seal_data enc b).0

-- The encoder in front of the parity shards.
abbrev pub ended : FecEncoder → Bytes → ℕ → FecEncoder
ended enc b now = record (cache_data (next_number enc) (sealed_packet enc b) now) {
  shard_count = 0;
  max_size = 0;
}

-- The group's columns.
abbrev pub columns_of : FecEncoder → List Bytes → Bytes → List Bytes
columns_of enc pkts b =
    let p = sealed_packet enc b in
    map (column enc.payload_offset (max enc.max_size (length p))) (pkts ++ p ∷ [])

seal_all-Holds :
    (enc : FecEncoder) (size : ℕ) (ps : List Bytes)
    → Holds enc []
    → Holds (seal_all enc size ps).1 []
unfolding seal_all seal_parity next_number
seal_all-Holds enc size [] v = v
seal_all-Holds enc size (p ∷ ps) v =
    seal_all-Holds (next_number enc) size ps (record {
      count = v.count;
      cached = tt;
      capacity = v.capacity;
      fits = tt;
      bounded = v.bounded;
    })

next_number-Holds :
    (enc : FecEncoder) (pkts : List Bytes) → Holds enc pkts → Holds (next_number enc) pkts
unfolding next_number
next_number-Holds enc pkts v = record {
  count = v.count;
  cached = v.cached;
  capacity = v.capacity;
  fits = v.fits;
  bounded = v.bounded;
}

-- The cache with one more packet.
abbrev pub more_cached : FecEncoder → Bytes → ℕ → FecEncoder
more_cached enc b now = cache_data (next_number enc) (sealed_packet enc b) now

encode_cases :
    (codec : Codec) (now : ℕ) (enc : FecEncoder) (b : Bytes) (rto : ℕ)
    → let p = sealed_packet enc b in
      let m = max enc.max_size (length p) in
      let group = encode_group codec (more_cached enc b now) m (now - enc.ts_latest_packet) rto in
      encode codec now enc b rto ≡ (
        if enc.shard_count + 1 == enc.data_shards
        then (group.0, p, group.1)
        else ([], p, more_cached enc b now))
unfolding encode seal_data cache_data next_number
encode_cases codec now enc b rto = refl

more_cached-Holds :
    (enc : FecEncoder) (b : Bytes) (now : ℕ) (pkts : List Bytes)
    → Holds enc pkts
    → enc.payload_offset ≡ enc.header_offset + 6
    → enc.header_offset + 8 ≤ length b
    → length b ≤ max_packet_size
    → length pkts < length enc.shard_cache
    → Holds (more_cached enc b now) (pkts ++ sealed_packet enc b ∷ [])
unfolding next_number
more_cached-Holds enc b now pkts v ho hb small room =
    let size = length-sealed enc b ho hb in
    cache_data-Holds (next_number enc) pkts (sealed_packet enc b) now (next_number-Holds enc pkts v)
      room (omega (arith, size, ho, hb)) (omega (arith, size, small))

-- A packet that does not fill its group is kept behind the others, and nothing else goes out.
pub encode_more :
    (codec : Codec) (now : ℕ) (enc : FecEncoder) (b : Bytes) (rto : ℕ) (pkts : List Bytes)
    → Holds enc pkts
    → enc.payload_offset ≡ enc.header_offset + 6
    → enc.header_offset + 8 ≤ length b
    → length b ≤ max_packet_size
    → suc (length pkts) < enc.data_shards
    → enc.data_shards ≤ length enc.shard_cache
    → (encode codec now enc b rto ≡ ([], sealed_packet enc b, more_cached enc b now))
      × Holds (more_cached enc b now) (pkts ++ sealed_packet enc b ∷ [])
encode_more codec now enc b rto pkts v ho hb small fewer room =
    let open_group : (enc.shard_count + 1 == enc.data_shards) ≡ false =
      ne→== (enc.shard_count + 1) enc.data_shards (λ e. omega (arith, e, fewer, v.count)) in
    (
      encode_cases codec now enc b rto ∙ rw (open_group) refl,
      more_cached-Holds enc b now pkts v ho hb small (omega (arith, fewer, room)),
    )

group-coded :
    (codec : Codec) (enc : FecEncoder) (m gap rto : ℕ) (columns ps : List Bytes)
    → gap < rto
    → data_columns enc.payload_offset m (take enc.data_shards enc.shard_cache) ≡ columns
    → codec.encode_shards enc.data_shards enc.parity_shards columns ≡ some ps
    → encode_group codec enc m gap rto
      ≡ seal_all (record enc { shard_count = 0; max_size = 0 }) m ps
unfolding encode_group
group-coded codec enc m gap rto columns ps soon same coded =
    rw (lt→leb rto gap soon, same, coded) refl

-- A packet, with room for its headers, that makes the group of an encoder full, soon enough after the one
-- before: it comes back sealed. The codec is given the packets of the group in order, each from the
-- payload on and with zeros up to the longest, and what it makes goes out sealed as parity shards. Then
-- the encoder holds no packet.
pub encode_lem :
    (codec : Codec) (now : ℕ) (enc : FecEncoder) (b : Bytes) (rto : ℕ) (pkts ps : List Bytes)
    → Holds enc pkts
    → enc.payload_offset ≡ enc.header_offset + 6
    → enc.header_offset + 8 ≤ length b
    → length b ≤ max_packet_size
    → suc (length pkts) ≡ enc.data_shards
    → enc.data_shards ≤ length enc.shard_cache
    → now - enc.ts_latest_packet < rto
    → codec.encode_shards enc.data_shards enc.parity_shards (columns_of enc pkts b) ≡ some ps
    → ((encode codec now enc b rto).0
        ≡ (seal_all (ended enc b now) (max enc.max_size (length (sealed_packet enc b))) ps).0)
      × ((encode codec now enc b rto).1 ≡ sealed_packet enc b)
      × Holds (encode codec now enc b rto).2 []
unfolding next_number cache_data
encode_lem codec now enc b rto pkts ps v ho hb small full_group room soon coded =
    let p = sealed_packet enc b in
    let m = max enc.max_size (length p) in
    let size = length-sealed enc b ho hb in
    let at_end : (enc.shard_count + 1 == enc.data_shards) ≡ true =
      eq→== (enc.shard_count + 1) enc.data_shards (omega (arith, full_group, v.count)) in
    let holds = more_cached-Holds enc b now pkts v ho hb small (omega (arith, full_group, room)) in
    let bound : m ≤ max_packet_size = holds.bounded in
    let columns : data_columns enc.payload_offset m
          (take enc.data_shards (more_cached enc b now).shard_cache)
        ≡ columns_of enc pkts b =
      ap (λ k. data_columns enc.payload_offset m (take k (more_cached enc b now).shard_cache))
        (omega (arith, full_group, length-append pkts (p ∷ [])))
      ∙ data_columns-Cached enc.payload_offset m (more_cached enc b now).shard_cache
          (pkts ++ p ∷ []) holds.cached holds.fits
          (capacity_for m (more_cached enc b now).shard_cache bound holds.capacity) in
    let group =
      group-coded codec (more_cached enc b now) m (now - enc.ts_latest_packet) rto
        (columns_of enc pkts b) ps soon columns coded in
    let whole : encode codec now enc b rto
        ≡ ((seal_all (ended enc b now) m ps).0, p, (seal_all (ended enc b now) m ps).1) =
      encode_cases codec now enc b rto ∙ rw (at_end) (ap (λ g. (g.0, p, g.1)) group) in
    let reset : Holds (ended enc b now) [] = record {
      count = refl;
      cached = tt;
      capacity = holds.capacity;
      fits = tt;
      bounded = omega arith;
    } in
    (
      ap (λ o. o.0) whole,
      ap (λ o. o.1) whole,
      subst (λ o. Holds o.2 []) (sym whole) (seal_all-Holds (ended enc b now) m ps reset),
    )
