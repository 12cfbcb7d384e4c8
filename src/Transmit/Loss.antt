-- ===== src/Transmit/Loss.antt =====
-- fec.go: a group on its way through a network that loses packets.
use kcp_go.Prelude.{
  ℕ, suc, ◌+◌, ◌-◌, ◌*◌, ◌≤◌, ◌<◌, ◌≡◌, refl, ap, some, List, [], ◌∷◌, ◌++◌, map, arith, length,
  drop, length-append, length-replicate, length-drop, All, make, max, sym, ◌∙◌, subst, get_or,
  get_or-append_left, get_or-append_right,
}
use kcp_go.Bytes.{Bytes}
use kcp_go.Fec.{max_packet_size, FecEncoder, Codec, next_number, cache_data, seal_all, encode}
use kcp_go.Fec.Header.{sealed_header, length-sealed}
use kcp_go.Fec.Align.{IsAligned, place_bound}
use kcp_go.Fec.Group.{column}
use kcp_go.Fec.Encode.{All-snoc, Holds, sealed_packet, ended, columns_of, encode_lem}
use kcp_go.Transmit.Group.{
  PlacedFrom, PlacedFrom-append, IsSealed, NumberedFrom, NumberedFrom-snoc, data-PlacedFrom,
  parity-PlacedFrom,
}
use native.Mathlib.Nat.{mod-eq_of_lt}

-- What the documentation of reedsolomon says of Encode: as many parity shards as asked for, and as long
-- as the data shards.
pub record IsSized (codec : Codec) : Type 0 where
  pub sized :
      (d p size : ℕ) (columns ps : List Bytes)
      → codec.encode_shards d p columns ≡ some ps
      → All (λ c. length c ≡ size) columns
      → (length ps ≡ p) × All (λ c. length c ≡ size) ps

-- The packets of the group that the last packet `b` makes full: those before it, itself, and the parity
-- shards, each from the header of forward error correction on.
abbrev pub group_packets : Codec → ℕ → FecEncoder → List Bytes → Bytes → ℕ → List Bytes
group_packets codec now enc pkts b rto =
    map (drop enc.header_offset)
      ((pkts ++ sealed_packet enc b ∷ []) ++ (encode codec now enc b rto).0)

columns_sized :
    (off m : ℕ) (pkts : List Bytes)
    → All (λ p. length p ≤ m) pkts
    → All (λ p. off ≤ length p) pkts
    → All (λ c. length c ≡ m - off) (map (column off m) pkts)
columns_sized off m [] v w = tt
columns_sized off m (p ∷ pkts) v w = (
  omega (
    arith,
    length-append (drop off p) (make (m - length p)),
    length-drop off p,
    length-replicate {A = ℕ} (m - length p) 0,
    v.0,
    w.0,
  ),
  columns_sized off m pkts v.1 w.1,
)

NumberedFrom-long :
    (ho off number : ℕ) (pkts : List Bytes)
    → NumberedFrom ho off number pkts
    → All (λ p. off ≤ length p) pkts
NumberedFrom-long ho off number [] v = tt
NumberedFrom-long ho off number (p ∷ pkts) v =
    (v.0.long, NumberedFrom-long ho off (suc number) pkts v.1)

map-append : (f : Bytes → Bytes) (xs ys : List Bytes) → map f (xs ++ ys) ≡ map f xs ++ map f ys
map-append f [] ys = refl
map-append f (x ∷ xs) ys = ap (λ zs. f x ∷ zs) (map-append f xs ys)

length-map : (f : Bytes → Bytes) (xs : List Bytes) → length (map f xs) ≡ length xs
length-map f [] = refl
length-map f (x ∷ xs) = ap suc (length-map f xs)

-- The header of the last packet.
sealed_packet-IsSealed :
    (enc : FecEncoder) (b : Bytes)
    → enc.payload_offset ≡ enc.header_offset + 6
    → enc.header_offset + 8 ≤ length b
    → IsSealed enc.header_offset enc.payload_offset enc.next (sealed_packet enc b)
sealed_packet-IsSealed enc b ho hb = record {
  head = sealed_header enc b ho hb;
  long = omega (arith, length-sealed enc b ho hb, ho, hb);
}

pub group_packets-PlacedFrom :
    (codec : Codec) (now : ℕ) (enc : FecEncoder) (b : Bytes) (rto : ℕ) (pkts ps : List Bytes)
    (v : IsAligned enc)
    → IsSized codec
    → Holds enc pkts
    → NumberedFrom enc.header_offset enc.payload_offset (v.group * enc.shard_size) pkts
    → enc.payload_offset ≡ enc.header_offset + 6
    → enc.header_offset + 8 ≤ length b
    → length b ≤ max_packet_size
    → suc (length pkts) ≡ enc.data_shards
    → enc.data_shards ≤ length enc.shard_cache
    → now - enc.ts_latest_packet < rto
    → codec.encode_shards enc.data_shards enc.parity_shards (columns_of enc pkts b) ≡ some ps
    → (size : ℕ) × (length (columns_of enc pkts b) ≡ enc.data_shards)
      × (length ps ≡ enc.parity_shards)
      × PlacedFrom enc.data_shards enc.shard_size size
          (columns_of enc pkts b ++ ps)
          v.group
          0
          (group_packets codec now enc pkts b rto)
unfolding cache_data next_number
group_packets-PlacedFrom codec now enc b rto pkts ps v hc holds numbered ho hb small full_group room
      soon coded =
    let off = enc.payload_offset in
    let n = enc.shard_size in
    let d = enc.data_shards in
    let g = v.group in
    let p = sealed_packet enc b in
    let m = max enc.max_size (length p) in
    let qs = pkts ++ p ∷ [] in
    let columns = columns_of enc pkts b in
    let ws = columns ++ ps in
    let fits_all = All-snoc enc.max_size m pkts p holds.fits (omega arith) (omega arith) in
    let next : enc.next ≡ g * n + length pkts = v.place ∙ ap (λ k. g * n + k) holds.count in
    let last = sealed_packet-IsSealed enc b ho hb in
    let numbered_all : NumberedFrom enc.header_offset off (g * n) qs =
      NumberedFrom-snoc enc.header_offset off (g * n) pkts p numbered
        (subst (λ k. IsSealed enc.header_offset off k p) next last) in
    let len_qs : length qs ≡ d = omega (arith, length-append pkts (p ∷ []), full_group) in
    let len_columns : length columns ≡ d = length-map (column off m) qs ∙ len_qs in
    let (len_ps, all_sized) = hc.sized d enc.parity_shards (m - off) columns ps coded (
      columns_sized off m qs fits_all
        (NumberedFrom-long enc.header_offset off (g * n) qs numbered_all)) in
    let set_room : g * n + n ≤ v.groups * n =
      place_bound g v.groups n n v.in_groups (omega arith) in
    let long : off ≤ m = omega (arith, last.long) in
    let front =
      data-PlacedFrom enc.header_offset off d n m g 0 ws qs ho
        (subst (λ k. NumberedFrom enc.header_offset off k qs) (omega arith) numbered_all) fits_all
        (omega (arith, len_qs)) (omega (arith, v.sizes))
        (omega (arith, set_room, v.wraps, v.is_word))
        (λ i h.
          ap (λ k. get_or ws k []) (zero_left i)
          ∙ get_or-append_left columns ps i [] (omega (arith, h, len_columns, len_qs))) in
    let after : 0 < length ps → (ended enc b now).next ≡ g * n + d = λ h.
      mod-eq_of_lt (omega (arith, h, len_ps, v.sizes, next, full_group, set_room, v.wraps))
      ∙ omega (arith, next, full_group) in
    let parity =
      parity-PlacedFrom (ended enc b now) m g v.groups d ws ps ho long v.wraps v.in_groups v.is_word
        (omega arith) (omega (arith, len_ps, v.sizes)) after all_sized
        (λ i h.
          ap (λ k. get_or ws (k + i) []) (sym len_columns) ∙ get_or-append_right columns ps i []) in
    let out =
      (encode_lem codec now enc b rto pkts ps holds ho hb small full_group room soon coded).0 in
    (
      m - off,
      len_columns,
      len_ps,
      subst (PlacedFrom d n (m - off) ws g 0)
          (sym (
            ap (λ o. map (drop enc.header_offset) (qs ++ o)) out
            ∙ map-append (drop enc.header_offset) qs (seal_all (ended enc b now) m ps).0))
          (PlacedFrom-append d n (m - off) ws g 0 d (map (drop enc.header_offset) qs)
            (map (drop enc.header_offset) (seal_all (ended enc b now) m ps).0)
            (omega (arith, length-map (drop enc.header_offset) qs, len_qs)) front parity),
    )
  where
    zero_left : (i : ℕ) → 0 + i ≡ i
    zero_left i = omega arith
