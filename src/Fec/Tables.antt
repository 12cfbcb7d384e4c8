-- ===== src/Fec/Tables.antt =====
-- fec.go: the cache that recovery fills from the packets of a set.
use kcp_go.Prelude.{
  ℕ, zero, suc, ◌+◌, ◌-◌, ◌%◌, ◌<◌, ◌≡◌, refl, sym, ap, ◌∙◌, subst, inl, inr, Option, none, some,
  List, [], ◌∷◌, ◌++◌, arith, ◌==◌, ==→eq, Bool-cases, Option-cases, length, get_or, replicate,
  length-replicate, All, make, nat_zero, ◌≤◌, ap₂, ◌⊎◌, false, ne→==, ==→ne,
}
use kcp_go.Bytes.{Bytes}
use kcp_go.Fec.{seqid, payload_of}
use kcp_go.Fec.Decoder.{fill_cache, pad}
use kcp_go.Fec.Recover.{
  unless_found, Agrees, IsPart, IsSpread, found, table, list_ext, table-get, length-table,
  fill_cache-get, length-fill_cache, or_else, present, IsAway, lost, found_away,
}

get_or-replicate : (n k : ℕ) → get_or {A = Option Bytes} (replicate n none) k none ≡ none
get_or-replicate zero k = refl
get_or-replicate (suc n) zero = refl
get_or-replicate (suc n) (suc k) = get_or-replicate n k

or_else-none : (c : Option Bytes) → or_else c none ≡ c
or_else-none none = refl
or_else-none (some b) = refl

-- The cache holds the payloads by their places.
pub fill_cache-table :
    (n : ℕ) (pkts ws : List Bytes)
    → IsSpread n pkts
    → length ws ≡ n
    → fill_cache n pkts (replicate n none) ≡ table n pkts 0 ws
fill_cache-table n pkts ws v e =
    let empty : List (Option Bytes) = replicate n none in
    let len : length (fill_cache n pkts empty) ≡ n =
      length-fill_cache n pkts empty ∙ length-replicate n none in
    list_ext none (fill_cache n pkts empty) (table n pkts 0 ws)
      (len ∙ sym e ∙ sym (length-table n pkts 0 ws))
      (λ k lt.
        fill_cache-get n pkts empty k v
          (omega (arith, lt, len, length-replicate {A = Option Bytes} n none))
        ∙ ap (or_else (found n k pkts)) (get_or-replicate n k)
        ∙ or_else-none (found n k pkts)
        ∙ ap (λ i. found n i pkts) (plus_left k)
        ∙ sym (table-get n pkts 0 ws k (omega (arith, lt, len, e))))
  where
    plus_left : (k : ℕ) → k ≡ 0 + k
    plus_left k = omega arith

-- A payload with its zeros is the shard at its place.
found-padded :
    (d n size : ℕ) (ws : List Bytes) (k : ℕ) (pkts : List Bytes) (b : Bytes)
    → All (IsPart d n size ws) pkts
    → found n k pkts ≡ some b
    → b ++ make (size - length b) ≡ get_or ws k []
found-padded d n size ws k [] b v e = cc
found-padded d n size ws k (pkt ∷ pkts) b v e = elim (Bool-cases (seqid pkt % n == k)) [
  | inl t ↦
      let same : some (payload_of pkt) ≡ some b = rw t at e in
      let here : payload_of pkt ≡ b = cc in
      subst (λ x. x ++ make (size - length x) ≡ get_or ws k []) here
        (subst (λ i. payload_of pkt ++ make (size - length (payload_of pkt)) ≡ get_or ws i [])
          (==→eq (seqid pkt % n) k t) v.0.padded)
  | inr t ↦
      let later : found n k pkts ≡ some b = rw t at e in found-padded d n size ws k pkts b v.1 later
]

pub pad-Agrees :
    (d n size : ℕ) (all : List Bytes) (pkts : List Bytes) (j : ℕ) (ws : List Bytes)
    → All (IsPart d n size all) pkts
    → ((k : ℕ) → k < length ws → get_or ws k [] ≡ get_or all (j + k) [])
    → Agrees (pad size (table n pkts j ws)) ws
unfolding pad
pad-Agrees d n size all pkts j [] v h = tt
pad-Agrees d n size all pkts j (w ∷ ws) v h =
    let rest =
      pad-Agrees d n size all pkts (suc j) ws v
        (λ k lt. h (suc k) (omega arith) ∙ ap (λ i. get_or all i []) (omega arith)) in
    elim (Option-cases (found n j pkts)) [
      | inl e ↦ rw (e, pad) rest
      | inr (b, e) ↦
          rw (e, pad)
            (
              found-padded d n size all j pkts b v e
                  ∙ ap (λ i. get_or all i []) (omega arith)
                  ∙ sym (h 0 (omega arith)),
              rest,
            )
    ]

pub present-pad :
    (size : ℕ) (cache : List (Option Bytes)) → present (pad size cache) ≡ present cache
unfolding pad
present-pad size [] = refl
present-pad size (none ∷ cache) = present-pad size cache
present-pad size (some b ∷ cache) = ap (λ k. 1 + k) (present-pad size cache)

-- A packet in front at a place outside the table changes nothing; one at a free place inside fills it.
table_out :
    (n : ℕ) (pkt : Bytes) (pkts : List Bytes) (j : ℕ) (ws : List Bytes)
    → (seqid pkt % n < j) ⊎ (j + length ws ≤ seqid pkt % n)
    → table n (pkt ∷ pkts) j ws ≡ table n pkts j ws
table_out n pkt pkts j [] h = refl
table_out n pkt pkts j (w ∷ ws) h =
    let away : (seqid pkt % n == j) ≡ false =
      ne→== (seqid pkt % n) j
        (λ e. elim h [ inl a ↦ omega (arith, a, e) | inr b ↦ omega (arith, b, e) ]) in
    ap₂ (λ c cs. c ∷ cs) (rw (away) refl)
      (table_out n pkt pkts (suc j) ws
        (elim h [ inl a ↦ inl (omega (arith, a)) | inr b ↦ inr (omega (arith, b)) ]))

table_in :
    (n : ℕ) (pkt : Bytes) (pkts : List Bytes) (j : ℕ) (ws : List Bytes)
    → IsAway n (seqid pkt % n) pkts
    → j ≤ seqid pkt % n
    → seqid pkt % n < j + length ws
    → present (table n (pkt ∷ pkts) j ws) ≡ suc (present (table n pkts j ws))
table_in n pkt pkts j [] v h lt = absurd (omega (arith, h, lt))
table_in n pkt pkts j (w ∷ ws) v h lt = elim (Bool-cases (seqid pkt % n == j)) [
  | inl e ↦
      let same : seqid pkt % n ≡ j = ==→eq (seqid pkt % n) j e in
      let free : found n j pkts ≡ none =
        found_away n j pkts (subst (λ i. IsAway n i pkts) same v) in
      rw (e, free)
        (ap (λ t. 1 + present t) (table_out n pkt pkts (suc j) ws (inl (omega (arith, same))))
          ∙ one_more (present (table n pkts (suc j) ws)))
  | inr e ↦
      let ne = ==→ne (seqid pkt % n) j e in
      let rest = table_in n pkt pkts (suc j) ws v (omega (arith, h, ne)) (omega (arith, lt)) in
      elim (Option-cases (found n j pkts)) [
        | inl f ↦ rw (e, f) rest
        | inr (b, f) ↦ rw (e, f) (omega (arith, rest))
      ]
]
  where
    one_more : (k : ℕ) → 1 + k ≡ suc k
    one_more k = omega arith

pub present-table :
    (n : ℕ) (pkts ws : List Bytes)
    → IsSpread n pkts
    → All (λ pkt. seqid pkt % n < length ws) pkts
    → present (table n pkts 0 ws) ≡ length pkts
present-table n [] ws v h = none_found n 0 ws
  where
    none_found : (n j : ℕ) (ws : List Bytes) → present (table n [] j ws) ≡ 0
    none_found n j [] = refl
    none_found n j (w ∷ ws) = none_found n (suc j) ws
present-table n (pkt ∷ pkts) ws v h =
    table_in n pkt pkts 0 ws v.0 (omega arith) (omega (arith, h.0))
    ∙ ap suc (present-table n pkts ws v.1 h.1)

-- Each shard is there or lost.
pub present-lost :
    (n : ℕ) (pkts : List Bytes) (j : ℕ) (ws : List Bytes)
    → present (table n pkts j ws) + length (lost n pkts j ws) ≡ length ws
present-lost n pkts j [] = refl
present-lost n pkts j (w ∷ ws) = omega (
  arith,
  one_place (found n j pkts) (table n pkts (suc j) ws) w (lost n pkts (suc j) ws),
  present-lost n pkts (suc j) ws,
)
  where
    one_place :
        (c : Option Bytes) (cs : List (Option Bytes)) (w : Bytes) (rest : List Bytes)
        → present (c ∷ cs) + length (unless_found c w rest) ≡ suc (present cs + length rest)
    one_place none cs w rest = omega arith
    one_place (some b) cs w rest = omega arith
