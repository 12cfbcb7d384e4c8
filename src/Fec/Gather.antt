-- ===== src/Fec/Gather.antt =====
-- fec.go: decode on the packets of one shard set, in any order.
use kcp_go.AutoTune.{sample}
use kcp_go.Prelude.{
  ℕ, ◌≡◌, refl, ap, ◌∙◌, inl, inr, false, List, [], ◌∷◌, ◌==◌, ==→eq, ==_refl, Bool-cases, mul32,
  suc, ◌+◌, ◌*◌, ◌%◌, ◌<◌, ap₂, true, not, ◌||◌, arith, ltb, leb, if◌then◌else◌, lt→leb, le→ltb,
  length, sym, subst, ne→==,
}
use kcp_go.Bytes.{Bytes}
use kcp_go.Serial.{itimediff_self}
use kcp_go.Fec.{seqid, Codec, type_data, flag}
use kcp_go.Fec.Decoder.{
  max_shard_sets, ShardHeap, new_shard_heap, push_packet, FecDecoder, find_set, put_set,
  get_shard_id, is_expected, is_old, discard_shards, recover, accept, decode,
}
use kcp_go.Fec.Recover.{IsAway}

find-put_self :
    (id : ℕ) (h : ShardHeap) (sets : List (ℕ × ShardHeap)) → find_set id (put_set id h sets) ≡ h
unfolding find_set put_set
find-put_self id h [] = rw (==_refl id) refl
find-put_self id h ((k, g) ∷ sets) = elim (Bool-cases (k == id)) [
  | inl e ↦ rw (e, put_set) (rw (==_refl id) refl)
  | inr e ↦ rw (e, put_set, find_set) (rw (e) (find-put_self id h sets))
]

find-discard :
    (dec : FecDecoder) (id : ℕ) (sets : List (ℕ × ShardHeap))
    → is_old dec id ≡ false
    → find_set id (discard_shards dec sets) ≡ find_set id sets
unfolding find_set discard_shards
find-discard dec id [] young = refl
find-discard dec id ((k, g) ∷ sets) young = elim (Bool-cases (k == id)) [
  | inl e ↦
      let same : is_old dec k ≡ false = ap (is_old dec) (==→eq k id e) ∙ young in
      rw (same, discard_shards) (rw (e) refl)
  | inr e ↦ elim (Bool-cases (is_old dec k)) [
    | inl o ↦ rw (o, discard_shards, e) (find-discard dec id sets young)
    | inr o ↦ rw (o, discard_shards, e, find_set) (find-discard dec id sets young)
  ]
]

newest_young : (dec : FecDecoder) → is_old dec dec.newest_shard_id ≡ false
unfolding is_old
newest_young dec =
    rw (itimediff_self (mul32 dec.newest_shard_id dec.shard_size))
      (ltb_zero (max_shard_sets * dec.shard_size + 0))
  where
    ltb_zero : (n : ℕ) → ltb n 0 ≡ false
    ltb_zero n = le→ltb n 0 (omega arith)

-- The newest set holds the packets `held`, and no marks but theirs.
pub record IsGathering (dec : FecDecoder) (held : List Bytes) : Type 0 where
  pub calm : dec.should_tune ≡ false
  pub elements : (find_set dec.newest_shard_id dec.shard_set).elements ≡ held
  pub unmarked :
      (sn : ℕ)
      → IsAway dec.shard_size (sn % dec.shard_size) held
      → (find_set dec.newest_shard_id dec.shard_set).marks sn ≡ false

-- A packet of the newest set, of the type that its place asks for.
pub record IsOfNewest (dec : FecDecoder) (pkt : Bytes) : Type 0 where
  pub in_set : get_shard_id dec (seqid pkt) ≡ dec.newest_shard_id
  pub below_paws : seqid pkt < dec.paws
  pub expected : is_expected dec pkt ≡ true

abbrev pub judged : FecDecoder → Bytes → FecDecoder
judged dec pkt = record dec {
  auto_tune = sample dec.auto_tune (flag pkt == type_data) (seqid pkt);
  should_tune = dec.should_tune || not (is_expected dec pkt);
}

pub decode-accept :
    (codec : Codec) (dec : FecDecoder) (held : List Bytes) (pkt : Bytes)
    → IsGathering dec held
    → IsOfNewest dec pkt
    → IsAway dec.shard_size (seqid pkt % dec.shard_size) held
    → decode codec dec pkt ≡ accept codec (judged dec pkt) pkt
unfolding decode
decode-accept codec dec held pkt g o away =
    let calm : (dec.should_tune || not (is_expected dec pkt)) ≡ false =
      ap₂ (λ a b. a || not b) g.calm o.expected in
    let young : leb dec.paws (seqid pkt) ≡ false = lt→leb dec.paws (seqid pkt) o.below_paws in
    let new : (find_set (get_shard_id dec (seqid pkt)) dec.shard_set).marks (seqid pkt) ≡ false =
      ap (λ i. (find_set i dec.shard_set).marks (seqid pkt)) o.in_set
      ∙ g.unmarked (seqid pkt) away in
    simp (young, calm, new) refl

-- What accept does on a packet of the newest set, of which `shard` is there.
abbrev pub accepted : Codec → FecDecoder → Bytes → ShardHeap → List Bytes × FecDecoder
accepted codec dec pkt shard =
    let enough = leb dec.data_shards (suc (length shard.elements)) in
    let dec' = record dec {
      shard_set =
          put_set dec.newest_shard_id (if enough then new_shard_heap else push_packet shard pkt)
            dec.shard_set;
    } in
    (
      if enough then recover codec dec (pkt ∷ shard.elements) else [],
      record dec' { shard_set = discard_shards dec' dec'.shard_set },
    )

pub accept_newest :
    (codec : Codec) (dec : FecDecoder) (pkt : Bytes)
    → get_shard_id dec (seqid pkt) ≡ dec.newest_shard_id
    → accept codec dec pkt ≡ accepted codec dec pkt (find_set dec.newest_shard_id dec.shard_set)
unfolding accept
accept_newest codec dec pkt e = simp (e, itimediff_self) refl

pub accept_gathers :
    (codec : Codec) (dec : FecDecoder) (held : List Bytes) (pkt : Bytes)
    → IsGathering dec held
    → get_shard_id dec (seqid pkt) ≡ dec.newest_shard_id
    → ((accept codec dec pkt).0
        ≡ (if leb dec.data_shards (suc (length held)) then recover codec dec (pkt ∷ held) else []))
      × (suc (length held) < dec.data_shards → IsGathering (accept codec dec pkt).1 (pkt ∷ held))
accept_gathers codec dec held pkt g e =
    let shard = find_set dec.newest_shard_id dec.shard_set in
    let same = accept_newest codec dec pkt e in
    (
      ap (λ o. o.0) same
          ∙ ap
              (λ xs.
                if leb dec.data_shards (suc (length xs)) then recover codec dec (pkt ∷ xs) else [])
              g.elements,
      (λ fewer.
          let few : leb dec.data_shards (suc (length shard.elements)) ≡ false =
            lt→leb dec.data_shards (suc (length shard.elements))
              (omega (arith, fewer, ap (λ (xs : List Bytes). length xs) g.elements)) in
          let dec' : FecDecoder = record dec {
            shard_set = put_set dec.newest_shard_id (push_packet shard pkt) dec.shard_set;
          } in
          let kept : find_set dec.newest_shard_id (discard_shards dec' dec'.shard_set)
              ≡ push_packet shard pkt =
            find-discard dec' dec.newest_shard_id dec'.shard_set (newest_young dec')
            ∙ find-put_self dec.newest_shard_id (push_packet shard pkt) dec.shard_set in
          subst (λ o. IsGathering o.1 (pkt ∷ held)) (sym same)
            (rw (few) (record {
              calm = g.calm;
              elements = ap (λ h. h.elements) kept ∙ ap (λ xs. pkt ∷ xs) g.elements;
              unmarked = λ sn away.
                  ap (λ h. h.marks sn) kept
                  ∙ rw (ne→== sn (seqid pkt) (λ z. away.0 (ap (λ k. k % dec.shard_size) (sym z))))
                      (g.unmarked sn away.1);
            }))),
    )
