-- ===== src/Fec/Restore.antt =====
-- fec.go: decode on the packets of one shard set, until there are as many as data shards.
use kcp_go.Prelude.{
  ℕ, ◌+◌, ◌%◌, ◌≡◌, refl, sym, List, [], ◌∷◌, ◌++◌, arith, length, All, suc, ◌<◌, ap, ap₂, ◌∙◌,
  subst, true, false, not, ◌||◌, leb, if◌then◌else◌, le→leb, lt→leb, inl, inr, Bool, Option, none,
  some, ◌==◌, Bool-cases, append-nil,
}
use kcp_go.Bytes.{Bytes}
use kcp_go.Fec.{seqid, Codec}
use kcp_go.Fec.Decoder.{
  new_shard_heap, FecDecoder, find_set, get_shard_id, is_expected, recover, decode,
}
use kcp_go.Fec.Recover.{IsCode, IsAway, IsSpread, IsPart, found, lost, unless_found}
use kcp_go.Fec.Rebuild.{IsEnough, recover-lost}
use kcp_go.Fec.Gather.{
  IsGathering, IsOfNewest, judged, decode-accept, accepted, accept_newest, accept_gathers,
}

-- What decode gives on packets that come one after another, and the decoder behind them.
unfoldable pub decode_all : Codec → FecDecoder → List Bytes → List Bytes × FecDecoder
decode_all codec dec [] = ([], dec)
decode_all codec dec (pkt ∷ pkts) =
    let (recovered, dec') = decode codec dec pkt in
    let (later, dec'') = decode_all codec dec' pkts in (recovered ++ later, dec'')

abbrev reverse_onto : List Bytes → List Bytes → List Bytes
reverse_onto [] held = held
reverse_onto (pkt ∷ pkts) held = reverse_onto pkts (pkt ∷ held)

length-reverse_onto :
    (pkts held : List Bytes) → length (reverse_onto pkts held) ≡ length pkts + length held
length-reverse_onto [] held = omega arith
length-reverse_onto (pkt ∷ pkts) held = omega (arith, length-reverse_onto pkts (pkt ∷ held))

All-reverse_onto :
    (P : Bytes → Type 0) (pkts held : List Bytes)
    → All P pkts
    → All P held
    → All P (reverse_onto pkts held)
All-reverse_onto P [] held v w = w
All-reverse_onto P (pkt ∷ pkts) held v w = All-reverse_onto P pkts (pkt ∷ held) v.1 (v.0, w)

-- The places of `pkts` are not those of `held`.
abbrev AreAway : ℕ → List Bytes → List Bytes → Type 0
AreAway n held [] = Unit
AreAway n held (pkt ∷ pkts) = IsAway n (seqid pkt % n) held × AreAway n held pkts

AreAway-cons :
    (n : ℕ) (held : List Bytes) (p : Bytes) (pkts : List Bytes)
    → IsAway n (seqid p % n) pkts
    → AreAway n held pkts
    → AreAway n (p ∷ held) pkts
AreAway-cons n held p [] v w = tt
AreAway-cons n held p (pkt ∷ pkts) v w =
    (((λ e. v.0 (sym e)), w.0), AreAway-cons n held p pkts v.1 w.1)

AreAway-nil : (n : ℕ) (pkts : List Bytes) → AreAway n [] pkts
AreAway-nil n [] = tt
AreAway-nil n (pkt ∷ pkts) = (tt, AreAway-nil n pkts)

IsSpread-reverse_onto :
    (n : ℕ) (pkts held : List Bytes)
    → IsSpread n pkts
    → IsSpread n held
    → AreAway n held pkts
    → IsSpread n (reverse_onto pkts held)
IsSpread-reverse_onto n [] held v w a = w
IsSpread-reverse_onto n (pkt ∷ pkts) held v w a =
    IsSpread-reverse_onto n pkts (pkt ∷ held) v.1 (a.0, w) (AreAway-cons n held pkt pkts v.0 a.1)

abbrev stepped : Codec → FecDecoder → Bytes → List Bytes × FecDecoder
stepped codec dec pkt =
    accepted codec (judged dec pkt) pkt (find_set dec.newest_shard_id dec.shard_set)

judged-IsGathering :
    (dec : FecDecoder) (held : List Bytes) (pkt : Bytes)
    → IsGathering dec held
    → IsOfNewest dec pkt
    → IsGathering (judged dec pkt) held
judged-IsGathering dec held pkt g o = record {
  calm = ap₂ (λ a b. a || not b) g.calm o.expected;
  elements = g.elements;
  unmarked = g.unmarked;
}

in_set-judged :
    (dec : FecDecoder) (pkt : Bytes)
    → IsOfNewest dec pkt
    → get_shard_id (judged dec pkt) (seqid pkt) ≡ dec.newest_shard_id
unfolding get_shard_id
in_set-judged dec pkt o = o.in_set

recover-judged :
    (codec : Codec) (dec : FecDecoder) (pkt : Bytes) (pkts : List Bytes)
    → recover codec (judged dec pkt) pkts ≡ recover codec dec pkts
unfolding recover
recover-judged codec dec pkt pkts = refl

-- A packet of the newest set: what decode gives, and what it holds from then on.
decode-stepped :
    (codec : Codec) (dec : FecDecoder) (held : List Bytes) (pkt : Bytes)
    → IsGathering dec held
    → IsOfNewest dec pkt
    → IsAway dec.shard_size (seqid pkt % dec.shard_size) held
    → (decode codec dec pkt ≡ stepped codec dec pkt)
      × ((stepped codec dec pkt).0 ≡ (
          if leb dec.data_shards (suc (length held)) then recover codec dec (pkt ∷ held) else []))
      × (suc (length held) < dec.data_shards → IsGathering (stepped codec dec pkt).1 (pkt ∷ held))
decode-stepped codec dec held pkt g o away =
    let newest = accept_newest codec (judged dec pkt) pkt (in_set-judged dec pkt o) in
    let gathers =
      accept_gathers codec (judged dec pkt) held pkt (judged-IsGathering dec held pkt g o)
        (in_set-judged dec pkt o) in
    (
      decode-accept codec dec held pkt g o away ∙ newest,
      ap (λ r. r.0) (sym newest)
          ∙ gathers.0
          ∙ ap (λ r. if leb dec.data_shards (suc (length held)) then r else [])
              (recover-judged codec dec pkt (pkt ∷ held)),
      (λ fewer. subst (λ r. IsGathering r.1 (pkt ∷ held)) newest (gathers.1 fewer)),
    )

stepped-IsOfNewest :
    (codec : Codec) (dec : FecDecoder) (pkt : Bytes) (pkts : List Bytes)
    → All (IsOfNewest dec) pkts
    → All (IsOfNewest (stepped codec dec pkt).1) pkts
unfolding get_shard_id is_expected
stepped-IsOfNewest codec dec pkt [] v = tt
stepped-IsOfNewest codec dec pkt (p ∷ pkts) v = (
  record { in_set = v.0.in_set; below_paws = v.0.below_paws; expected = v.0.expected },
  stepped-IsOfNewest codec dec pkt pkts v.1,
)

recover-stepped :
    (codec : Codec) (dec : FecDecoder) (pkt : Bytes) (pkts : List Bytes)
    → recover codec (stepped codec dec pkt).1 pkts ≡ recover codec dec pkts
unfolding recover
recover-stepped codec dec pkt pkts = refl

-- Packets of the newest set, at places of their own, as many as make its data shards with those held:
-- what decode gives is what recover makes of all of them.
decode_all-recover :
    (codec : Codec) (dec : FecDecoder) (held : List Bytes) (pkt : Bytes) (pkts : List Bytes)
    → IsGathering dec held
    → All (IsOfNewest dec) (pkt ∷ pkts)
    → IsSpread dec.shard_size (pkt ∷ pkts)
    → AreAway dec.shard_size held (pkt ∷ pkts)
    → suc (length pkts) + length held ≡ dec.data_shards
    → (decode_all codec dec (pkt ∷ pkts)).0 ≡ recover codec dec (reverse_onto (pkt ∷ pkts) held)
unfolding decode_all
decode_all-recover codec dec held pkt [] g o v a e =
    let step = decode-stepped codec dec held pkt g o.0 a.0 in
    let last : leb dec.data_shards (suc (length held)) ≡ true = le→leb _ _ (omega (arith, e)) in
    ap (λ r. r.0 ++ []) step.0 ∙ append-nil (stepped codec dec pkt).0 ∙ step.1 ∙ rw (last) refl
decode_all-recover codec dec held pkt (pkt' ∷ pkts) g o v a e =
    let step = decode-stepped codec dec held pkt g o.0 a.0 in
    let fewer : suc (length held) < dec.data_shards = omega (arith, e) in
    let waits : leb dec.data_shards (suc (length held)) ≡ false =
      lt→leb dec.data_shards (suc (length held)) fewer in
    let rest =
      decode_all-recover codec (stepped codec dec pkt).1 (pkt ∷ held) pkt' pkts (step.2 fewer)
        (stepped-IsOfNewest codec dec pkt (pkt' ∷ pkts) o.1) v.1
        (AreAway-cons dec.shard_size held pkt (pkt' ∷ pkts) v.0 a.1) (omega (arith, e)) in
    let nothing : (stepped codec dec pkt).0 ≡ [] = step.1 ∙ rw (waits) refl in
    ap (λ r. r.0 ++ (decode_all codec r.1 (pkt' ∷ pkts)).0) step.0
    ∙ ap (λ r. r ++ (decode_all codec (stepped codec dec pkt).1 (pkt' ∷ pkts)).0) nothing
    ∙ rest
    ∙ recover-stepped codec dec pkt (reverse_onto (pkt' ∷ pkts) (pkt ∷ held))

-- A packet has the place `k`.
abbrev is_found : Option Bytes → Bool
is_found none = false
is_found (some b) = true

unless_found-same :
    (a b : Option Bytes) (w : Bytes) (rest : List Bytes)
    → is_found a ≡ is_found b
    → unless_found a w rest ≡ unless_found b w rest
unless_found-same none none w rest e = refl
unless_found-same none (some b) w rest e = cc
unless_found-same (some a) none w rest e = cc
unless_found-same (some a) (some b) w rest e = refl

found-reverse_onto :
    (n k : ℕ) (pkts held : List Bytes)
    → is_found (found n k (reverse_onto pkts held))
      ≡ (is_found (found n k pkts) || is_found (found n k held))
found-reverse_onto n k [] held = refl
found-reverse_onto n k (pkt ∷ pkts) held =
    found-reverse_onto n k pkts (pkt ∷ held) ∙ elim (Bool-cases (seqid pkt % n == k)) [
      | inl e ↦ rw (e) (or_true (is_found (found n k pkts)))
      | inr e ↦ rw (e) refl
    ]
  where
    or_true : (b : Bool) → (b || true) ≡ true
    or_true true = refl
    or_true false = refl

lost-reverse_onto :
    (n : ℕ) (pkts : List Bytes) (k : ℕ) (ws : List Bytes)
    → lost n (reverse_onto pkts []) k ws ≡ lost n pkts k ws
lost-reverse_onto n pkts k [] = refl
lost-reverse_onto n pkts k (w ∷ ws) =
    ap (unless_found (found n k (reverse_onto pkts [])) w) (lost-reverse_onto n pkts (suc k) ws)
    ∙ unless_found-same (found n k (reverse_onto pkts [])) (found n k pkts) w
        (lost n pkts (suc k) ws)
        (found-reverse_onto n k pkts [] ∙ or_false (is_found (found n k pkts)))
  where
    or_false : (b : Bool) → (b || false) ≡ b
    or_false true = refl
    or_false false = refl

-- With a maximum distance separable code, as documented: a decoder that holds nothing of its newest set
-- and gets, in any order, as many packets of that set as it has data shards gives back in all exactly
-- the data shards that are not among them.
pub decode_all-lost :
    (codec : Codec) (dec : FecDecoder) (columns ps : List Bytes) (pkts : List Bytes)
    → IsCode codec
    → dec.should_tune ≡ false
    → find_set dec.newest_shard_id dec.shard_set ≡ new_shard_heap
    → All (IsOfNewest dec) pkts
    → IsEnough codec dec columns ps pkts
    → (decode_all codec dec pkts).0 ≡ lost dec.shard_size pkts 0 columns
decode_all-lost codec dec columns ps [] hc calm none_held o v =
    absurd (omega (arith, v.enough, v.some_data))
decode_all-lost codec dec columns ps (pkt ∷ pkts) hc calm none_held o v =
    let all = pkt ∷ pkts in
    let gathering : IsGathering dec [] = record {
      calm = calm;
      elements = ap (λ h. h.elements) none_held;
      unmarked = λ sn away. ap (λ h. h.marks sn) none_held;
    } in
    let enough : IsEnough codec dec columns ps (reverse_onto all []) = record {
      coded = v.coded;
      data_count = v.data_count;
      parity_count = v.parity_count;
      set_size = v.set_size;
      size = v.size;
      parts =
          All-reverse_onto (IsPart dec.data_shards dec.shard_size v.size (columns ++ ps)) all []
            v.parts tt;
      spread =
          IsSpread-reverse_onto dec.shard_size all [] v.spread tt (AreAway-nil dec.shard_size all);
      enough = length-reverse_onto all [] ∙ omega (arith, v.enough);
      some_data = v.some_data;
    } in
    decode_all-recover codec dec [] pkt pkts gathering o v.spread (AreAway-nil dec.shard_size all)
      (omega (arith, v.enough))
    ∙ recover-lost codec dec columns ps (reverse_onto all []) hc enough
    ∙ lost-reverse_onto dec.shard_size all 0 columns
