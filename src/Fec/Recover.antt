-- ===== src/Fec/Recover.antt =====
-- fec.go: what the decoder makes of a shard set from which packets are missing.
use kcp_go.Fec.Decoder.{fill_cache}
use kcp_go.Prelude.{
  ℕ, suc, ◌+◌, ◌-◌, ◌%◌, ◌≤◌, ◌<◌, ◌≡◌, ◌≢◌, Option, none, some, List, [], ◌∷◌, ◌++◌, ◌==◌,
  if◌then◌else◌, length, get_or, take, make, nat_zero, zero, refl, sym, ap, ap₂, ◌∙◌, subst, inl,
  inr, arith, ne→==, ==→eq, ==→ne, Bool-cases, set, length-set, get_or-set_self, get_or-set_ne,
}
use kcp_go.Bytes.{Bytes}
use kcp_go.Fec.{type_data, seqid, flag, payload_of, Codec}

-- The shards that are there are those of the set.
abbrev pub Agrees : List (Option Bytes) → List Bytes → Type 0
Agrees [] [] = Unit
Agrees [] (w ∷ ws) = ⊥
Agrees (c ∷ cs) [] = ⊥
Agrees (none ∷ cs) (w ∷ ws) = Agrees cs ws
Agrees (some b ∷ cs) (w ∷ ws) = (b ≡ w) × Agrees cs ws

abbrev pub present : List (Option Bytes) → ℕ
present [] = 0
present (none ∷ cs) = present cs
present (some b ∷ cs) = 1 + present cs

-- What the documentation of reedsolomon says of Encode and ReconstructData: the parity shards are as
-- many and as long as asked for, and any `d` shards of a set give back its data shards.
pub record IsCode (codec : Codec) : Type 0 where
  pub rebuilds :
      (d p : ℕ) (columns ps : List Bytes) (cache : List (Option Bytes))
      → codec.encode_shards d p columns ≡ some ps
      → length columns ≡ d
      → Agrees cache (columns ++ ps)
      → d ≤ present cache
      → (shards : List Bytes) × (codec.reconstruct d p cache ≡ some shards)
        × (take d shards ≡ columns)

-- A packet whose payload is the shard at its place, up to zeros at the end of a data shard. The
-- shards have `size` bytes, and `d` of them are data.
pub record IsPart (d n size : ℕ) (ws : List Bytes) (pkt : Bytes) : Type 0 where
  pub short : length (payload_of pkt) ≤ size
  pub padded :
      payload_of pkt ++ make (size - length (payload_of pkt)) ≡ get_or ws (seqid pkt % n) []
  pub whole : d ≤ seqid pkt % n → length (payload_of pkt) ≡ size
  pub typed_data : seqid pkt % n < d → flag pkt ≡ type_data
  pub typed_parity : d ≤ seqid pkt % n → flag pkt ≢ type_data

-- No two packets have one place.
abbrev pub IsAway : ℕ → ℕ → List Bytes → Type 0
IsAway n k [] = Unit
IsAway n k (pkt ∷ pkts) = (seqid pkt % n ≢ k) × IsAway n k pkts

abbrev pub IsSpread : ℕ → List Bytes → Type 0
IsSpread n [] = Unit
IsSpread n (pkt ∷ pkts) = IsAway n (seqid pkt % n) pkts × IsSpread n pkts

-- The payload of the packet that has the place `k`.
abbrev pub found : ℕ → ℕ → List Bytes → Option Bytes
found n k [] = none
found n k (pkt ∷ pkts) = if seqid pkt % n == k then some (payload_of pkt) else found n k pkts

-- A shard, in front of others, if no packet has it.
abbrev pub unless_found : Option Bytes → Bytes → List Bytes → List Bytes
unless_found none w rest = w ∷ rest
unless_found (some b) w rest = rest

-- The shards from place `k` on that no packet has.
abbrev pub lost : ℕ → List Bytes → ℕ → List Bytes → List Bytes
lost n pkts k [] = []
lost n pkts k (w ∷ ws) = unless_found (found n k pkts) w (lost n pkts (suc k) ws)

-- What is at the places from `k` on, one for each shard.
abbrev pub table : ℕ → List Bytes → ℕ → List Bytes → List (Option Bytes)
table n pkts k [] = []
table n pkts k (w ∷ ws) = found n k pkts ∷ table n pkts (suc k) ws

pub list_ext {ℓ} :
    {A : Type ℓ} (d : A) (xs ys : List A)
    → length xs ≡ length ys
    → ((k : ℕ) → k < length xs → get_or xs k d ≡ get_or ys k d)
    → xs ≡ ys
list_ext d [] [] e h = refl
list_ext d [] (y ∷ ys) e h = absurd (omega arith)
list_ext d (x ∷ xs) [] e h = absurd (omega arith)
list_ext d (x ∷ xs) (y ∷ ys) e h =
    ap₂ (λ z zs. z ∷ zs) (h 0 (omega arith))
      (list_ext d xs ys (omega (arith, e)) (λ k lt. h (suc k) (omega arith)))

pub table-get :
    (n : ℕ) (pkts : List Bytes) (j : ℕ) (ws : List Bytes) (k : ℕ)
    → k < length ws
    → get_or (table n pkts j ws) k none ≡ found n (j + k) pkts
table-get n pkts j [] k h = absurd (omega arith)
table-get n pkts j (w ∷ ws) zero h = ap (λ i. found n i pkts) (omega arith)
table-get n pkts j (w ∷ ws) (suc k) h =
    table-get n pkts (suc j) ws k (omega arith) ∙ ap (λ i. found n i pkts) (omega arith)

pub length-table :
    (n : ℕ) (pkts : List Bytes) (j : ℕ) (ws : List Bytes) → length (table n pkts j ws) ≡ length ws
length-table n pkts j [] = refl
length-table n pkts j (w ∷ ws) = ap suc (length-table n pkts (suc j) ws)

pub table-append :
    (n : ℕ) (pkts : List Bytes) (j : ℕ) (ws vs : List Bytes)
    → take (length ws) (table n pkts j (ws ++ vs)) ≡ table n pkts j ws
table-append n pkts j [] vs = refl
table-append n pkts j (w ∷ ws) vs = ap (λ t. found n j pkts ∷ t) (table-append n pkts (suc j) ws vs)

pub found_away : (n k : ℕ) (pkts : List Bytes) → IsAway n k pkts → found n k pkts ≡ none
found_away n k [] h = refl
found_away n k (pkt ∷ pkts) h = rw (ne→== (seqid pkt % n) k h.0) (found_away n k pkts h.1)

-- What is at a place of the cache: a packet's payload, or what was there.
abbrev pub or_else : Option Bytes → Option Bytes → Option Bytes
or_else none c = c
or_else (some b) c = some b

pub fill_cache-get :
    (n : ℕ) (pkts : List Bytes) (cache : List (Option Bytes)) (k : ℕ)
    → IsSpread n pkts
    → k < length cache
    → get_or (fill_cache n pkts cache) k none ≡ or_else (found n k pkts) (get_or cache k none)
unfolding fill_cache
fill_cache-get n [] cache k v h = refl
fill_cache-get n (pkt ∷ pkts) cache k v h =
    let q = seqid pkt % n in
    let later =
      fill_cache-get n pkts (set cache q (some (payload_of pkt))) k v.1
        (omega (arith, length-set cache q (some (payload_of pkt)))) in
    elim (Bool-cases (q == k)) [
      | inl e ↦
          let same : q ≡ k = ==→eq q k e in
          rw (e) (
            later
            ∙ ap (λ f. or_else f (get_or (set cache q (some (payload_of pkt))) k none))
                (found_away n k pkts (subst (λ i. IsAway n i pkts) same v.0))
            ∙ ap (λ i. get_or (set cache q (some (payload_of pkt))) i none) (sym same)
            ∙ get_or-set_self cache q (some (payload_of pkt)) none (omega (arith, h, same)))
      | inr e ↦ rw (e) (
          later
          ∙ ap (or_else (found n k pkts))
              (get_or-set_ne cache q k (some (payload_of pkt)) none (==→ne q k e)))
    ]

pub length-fill_cache :
    (n : ℕ) (pkts : List Bytes) (cache : List (Option Bytes))
    → length (fill_cache n pkts cache) ≡ length cache
unfolding fill_cache
length-fill_cache n [] cache = refl
length-fill_cache n (pkt ∷ pkts) cache =
    length-fill_cache n pkts (set cache (seqid pkt % n) (some (payload_of pkt)))
    ∙ length-set cache (seqid pkt % n) (some (payload_of pkt))
