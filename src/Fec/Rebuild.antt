-- ===== src/Fec/Rebuild.antt =====
-- fec.go: recovery of the missing data shards.
use kcp_go.Prelude.{
  ℕ, suc, ◌+◌, ◌%◌, ◌<◌, ◌≡◌, refl, sym, ap, ◌∙◌, subst, inl, inr, Option, none, some, List, [],
  ◌∷◌, ◌++◌, arith, ◌==◌, ==→eq, Bool-cases, length, get_or, replicate, All, nat_zero, ◌≤◌, true,
  ltb, ltb→lt, ltb→le, eq→==, ==→ne, take, length-append,
}
use native.Mathlib.Nat.{mod-lt}
use kcp_go.Bytes.{Bytes}
use kcp_go.Fec.{seqid, type_data, flag, Codec}
use kcp_go.Fec.Decoder.{fill_cache, pad, count_data, longest, missing, FecDecoder, recover}
use kcp_go.Fec.Recover.{
  unless_found, IsPart, IsSpread, found, table, present, lost, IsCode, table-append,
}
use kcp_go.Fec.Tables.{fill_cache-table, pad-Agrees, present-pad, present-table, present-lost}

missing-table :
    (n : ℕ) (pkts : List Bytes) (j : ℕ) (ws : List Bytes)
    → missing (table n pkts j ws) ws ≡ lost n pkts j ws
unfolding missing
missing-table n pkts j [] = refl
missing-table n pkts j (w ∷ ws) =
    one_place (found n j pkts) (table n pkts (suc j) ws) w ws
    ∙ ap (unless_found (found n j pkts) w) (missing-table n pkts (suc j) ws)
  where
    one_place :
        (c : Option Bytes) (cs : List (Option Bytes)) (w : Bytes) (ws : List Bytes)
        → missing (c ∷ cs) (w ∷ ws) ≡ unless_found c w (missing cs ws)
    one_place none cs w ws = refl
    one_place (some b) cs w ws = refl

longest-le :
    (d n size : ℕ) (ws pkts : List Bytes) → All (IsPart d n size ws) pkts → longest pkts ≤ size
unfolding longest
longest-le d n size ws [] v = omega arith
longest-le d n size ws (pkt ∷ pkts) v = omega (arith, v.0.short, longest-le d n size ws pkts v.1)

count_data-le : (pkts : List Bytes) → count_data pkts ≤ length pkts
unfolding count_data
count_data-le [] = omega arith
count_data-le (pkt ∷ pkts) = ground (arith, count_data-le pkts)

-- With a parity shard among the packets the longest one has the full size.
longest-ge :
    (d n size : ℕ) (ws pkts : List Bytes)
    → All (IsPart d n size ws) pkts
    → count_data pkts < length pkts
    → size ≤ longest pkts
unfolding longest count_data
longest-ge d n size ws [] v h = absurd (omega (arith, h))
longest-ge d n size ws (pkt ∷ pkts) v h = elim (Bool-cases (ltb (seqid pkt % n) d)) [
  | inl t ↦
      let is_data : (flag pkt == type_data) ≡ true =
        eq→== (flag pkt) type_data (v.0.typed_data (ltb→lt (seqid pkt % n) d t)) in
      let fewer : suc (count_data pkts) < suc (length pkts) = rw is_data at h in
      omega (arith, longest-ge d n size ws pkts v.1 (omega (arith, fewer)))
  | inr t ↦ omega (arith, v.0.whole (ltb→le (seqid pkt % n) d t))
]

are_data :
    (d n size : ℕ) (ws pkts : List Bytes)
    → All (IsPart d n size ws) pkts
    → count_data pkts ≡ length pkts
    → All (λ pkt. seqid pkt % n < d) pkts
unfolding count_data
are_data d n size ws [] v h = tt
are_data d n size ws (pkt ∷ pkts) v h = elim (Bool-cases (flag pkt == type_data)) [
  | inl t ↦
      let count : suc (count_data pkts) ≡ suc (length pkts) = rw t at h in
      (
        elim (Bool-cases (ltb (seqid pkt % n) d)) [
          | inl p ↦ ltb→lt (seqid pkt % n) d p
          | inr p ↦
              absurd (v.0.typed_parity (ltb→le (seqid pkt % n) d p) (==→eq (flag pkt) type_data t))
        ],
        are_data d n size ws pkts v.1 (omega (arith, count)),
      )
  | inr t ↦
      let count : count_data pkts ≡ suc (length pkts) = rw t at h in
      absurd (omega (arith, count, count_data-le pkts))
]

lost_none :
    (n : ℕ) (pkts : List Bytes) (ws : List Bytes)
    → length (lost n pkts 0 ws) ≡ 0
    → lost n pkts 0 ws ≡ []
lost_none n pkts ws h = empty (lost n pkts 0 ws) h
  where
    empty : (xs : List Bytes) → length xs ≡ 0 → xs ≡ []
    empty [] e = refl
    empty (x ∷ xs) e = absurd (omega (arith, e))

-- As many packets of a set as it has data shards, at different places: `ps` are the parity shards of
-- `columns`, and a packet carries the shard at its place.
pub record IsEnough (codec : Codec) (dec : FecDecoder) (columns ps pkts : List Bytes) : Type 0 where
  pub coded : codec.encode_shards dec.data_shards dec.parity_shards columns ≡ some ps
  pub data_count : length columns ≡ dec.data_shards
  pub parity_count : length ps ≡ dec.parity_shards
  pub set_size : dec.shard_size ≡ dec.data_shards + dec.parity_shards
  pub size : ℕ
  pub parts : All (IsPart dec.data_shards dec.shard_size size (columns ++ ps)) pkts
  pub spread : IsSpread dec.shard_size pkts
  pub enough : length pkts ≡ dec.data_shards
  pub some_data : 0 < dec.data_shards

places_below :
    (n d size : ℕ) (ws pkts : List Bytes)
    → 0 < n
    → All (IsPart d n size ws) pkts
    → All (λ pkt. seqid pkt % n < n) pkts
places_below n d size ws [] h v = tt
places_below n d size ws (pkt ∷ pkts) h v =
    (mod-lt (seqid pkt) h, places_below n d size ws pkts h v.1)

-- With a code that is maximum distance separable, as documented: from any `d` different packets of a
-- set, recovery gives exactly the data shards that are not among them, in order, with their zeros.
pub recover-lost :
    (codec : Codec) (dec : FecDecoder) (columns ps pkts : List Bytes)
    → IsCode codec
    → IsEnough codec dec columns ps pkts
    → recover codec dec pkts ≡ lost dec.shard_size pkts 0 columns
unfolding recover
recover-lost codec dec columns ps pkts hc v =
    let d = dec.data_shards in
    let n = dec.shard_size in
    let ws = columns ++ ps in
    let len : length ws ≡ n =
      omega (arith, length-append columns ps, v.data_count, v.parity_count, v.set_size) in
    elim (Bool-cases (count_data pkts == d)) [
      | inl e ↦
          let all_here =
            are_data d n v.size ws pkts v.parts (==→eq (count_data pkts) d e ∙ sym v.enough) in
          let count =
            present-table n pkts columns v.spread
              (subst (λ k. All (λ pkt. seqid pkt % n < k) pkts) (sym v.data_count) all_here) in
          rw (e) (
            sym (
              lost_none n pkts columns
                (omega (arith, count, present-lost n pkts 0 columns, v.enough, v.data_count))))
      | inr e ↦
          let full : longest pkts ≡ v.size = omega (
            arith,
            longest-le d n v.size ws pkts v.parts,
            longest-ge d n v.size ws pkts v.parts
                (omega (arith, ==→ne (count_data pkts) d e, count_data-le pkts, v.enough)),
          ) in
          let cache : fill_cache n pkts (replicate n none) ≡ table n pkts 0 ws =
            fill_cache-table n pkts ws v.spread len in
          let agrees =
            pad-Agrees d n v.size ws pkts 0 ws v.parts
              (λ k lt. ap (λ i. get_or ws i []) (omega arith)) in
          let count : d ≤ present (pad v.size (table n pkts 0 ws)) = omega (
            arith,
            present-pad v.size (table n pkts 0 ws),
            present-table n pkts ws v.spread (
                subst (λ k. All (λ pkt. seqid pkt % n < k) pkts) (sym len)
                  (places_below n d v.size ws pkts (omega (arith, v.set_size, v.some_data))
                    v.parts)),
            v.enough,
          ) in
          let (shards, done, rebuilt) =
            hc.rebuilds d dec.parity_shards columns ps (pad v.size (table n pkts 0 ws)) v.coded
              v.data_count agrees count in
          rw (e, cache, full, done, rebuilt)
            (ap (λ c. missing (take d c) columns) cache
              ∙ ap (λ t. missing t columns)
                  (ap (λ k. take k (table n pkts 0 ws)) (sym v.data_count)
                    ∙ table-append n pkts 0 columns ps)
              ∙ missing-table n pkts 0 columns)
    ]
