-- ===== src/Fec/Group.antt =====
-- fec.go: the packets of a group in the encoder's cache, and what the codec is given at its end.
use kcp_go.Prelude.{
  ℕ, zero, suc, ◌-◌, ◌≤◌, ◌<◌, ◌≡◌, refl, sym, ap, ap₂, ◌∙◌, List, [], ◌∷◌, ◌++◌, map, append_assoc,
  arith, length, set, take, drop, length-append, length-replicate, length-drop, All, get, sub_slice,
  slice, clear, make, nat_zero,
}
use kcp_go.Bytes.{Bytes}
use kcp_go.Fec.{Shard, data_columns}

-- What the codec is given of a packet: all behind the header, with zeros up to the size.
abbrev pub column : ℕ → ℕ → Bytes → Bytes
column off m pkt = drop off pkt ++ make (m - length pkt)

-- A shard that holds a packet from the payload on, with more memory behind it.
pub record Keeps (off : ℕ) (s : Shard) (pkt : Bytes) : Type 0 where
  pub front : Bytes
  pub rest : Bytes
  pub memory_is : s.memory ≡ (front ++ drop off pkt) ++ rest
  pub front_size : length front ≡ off
  pub size_is : s.size ≡ length pkt
  pub long : off ≤ length pkt

abbrev pub Cached : ℕ → List Shard → List Bytes → Type 0
Cached off ss [] = Unit
Cached off [] (p ∷ ps) = ⊥
Cached off (s ∷ ss) (p ∷ ps) = Keeps off s p × Cached off ss ps

set_behind {ℓ} :
    {A : Type ℓ} (i : ℕ) (xs ys : List A) (y v : A)
    → i ≡ length xs
    → set (xs ++ (y ∷ ys)) i v ≡ (xs ++ (v ∷ [])) ++ ys
set_behind zero [] ys y v e = refl
set_behind zero (x ∷ xs) ys y v e = absurd (omega (arith, e))
set_behind (suc i) [] ys y v e = absurd (omega (arith, e))
set_behind (suc i) (x ∷ xs) ys y v e = ap (λ zs. x ∷ zs) (set_behind i xs ys y v (omega (arith, e)))

get_behind : (i : ℕ) (xs ys : Bytes) (y : ℕ) → i ≡ length xs → get (xs ++ (y ∷ ys)) i ≡ y
get_behind zero [] ys y e = refl
get_behind zero (x ∷ xs) ys y e = absurd (omega (arith, e))
get_behind (suc i) [] ys y e = absurd (omega (arith, e))
get_behind (suc i) (x ∷ xs) ys y e = get_behind i xs ys y (omega (arith, e))

clear_behind :
    (n i : ℕ) (xs ys : Bytes)
    → i ≡ length xs
    → n ≤ length ys
    → clear (xs ++ ys) i n ≡ xs ++ (make n ++ drop n ys)
unfolding clear
clear_behind zero i xs ys e h = refl
clear_behind (suc n) i xs [] e h = absurd (omega (arith, h))
clear_behind (suc n) i xs (y ∷ ys) e h =
    ap (λ zs. clear zs (suc i) n) (set_behind i xs ys y 0 e)
    ∙ clear_behind n (suc i) (xs ++ (0 ∷ [])) ys (omega (arith, e, length-append xs (0 ∷ [])))
        (omega (arith, h))
    ∙ append_assoc xs (0 ∷ []) (make n ++ drop n ys)

sub_slice_behind :
    (xs mid ys : Bytes) (i : ℕ) → i ≡ length xs → sub_slice (xs ++ (mid ++ ys)) i (length mid) ≡ mid
unfolding sub_slice
sub_slice_behind xs [] ys i e = refl
sub_slice_behind xs (m ∷ mid) ys i e =
    ap₂ (λ z zs. z ∷ zs) (get_behind i xs (mid ++ ys) m e)
      (ap (λ zs. sub_slice zs (suc i) (length mid)) (sym (append_assoc xs (m ∷ []) (mid ++ ys)))
        ∙ sub_slice_behind (xs ++ (m ∷ [])) mid ys (suc i)
            (omega (arith, e, length-append xs (m ∷ []))))

slice-column :
    (off m : ℕ) (s : Shard) (pkt : Bytes)
    → Keeps off s pkt
    → length pkt ≤ m
    → m ≤ length s.memory
    → slice (clear s.memory s.size (m - s.size)) off m ≡ column off m pkt
slice-column off m s pkt v small fits =
    let n = m - length pkt in
    let body = drop off pkt in
    let size : length (v.front ++ body) ≡ length pkt =
      omega (arith, length-append v.front body, v.front_size, length-drop off pkt, v.long) in
    let room : n ≤ length v.rest = omega (
      arith,
      fits,
      ap (λ (x : Bytes). length x) v.memory_is,
      length-append (v.front ++ body) v.rest,
      size,
    ) in
    let wide : length (body ++ make n) ≡ m - off = omega (
      arith,
      length-append body (make n),
      length-replicate {A = ℕ} n 0,
      length-drop off pkt,
      v.long,
      small,
    ) in
    ap₂ (λ x k. sub_slice (clear x k (m - k)) off (m - off)) v.memory_is v.size_is
    ∙ ap (λ x. sub_slice x off (m - off))
        (clear_behind n (length pkt) (v.front ++ body) v.rest (sym size) room
          ∙ append_assoc v.front body (make n ++ drop n v.rest)
          ∙ ap (λ x. v.front ++ x) (sym (append_assoc body (make n) (drop n v.rest))))
    ∙ ap (λ k. sub_slice (v.front ++ ((body ++ make n) ++ drop n v.rest)) off k) (sym wide)
    ∙ sub_slice_behind v.front (body ++ make n) (drop n v.rest) off (sym v.front_size)

-- All packets are at most as long as `m`, and all shards can hold as much.
pub data_columns-Cached :
    (off m : ℕ) (ss : List Shard) (pkts : List Bytes)
    → Cached off ss pkts
    → All (λ pkt. length pkt ≤ m) pkts
    → All (λ s. m ≤ length s.memory) ss
    → data_columns off m (take (length pkts) ss) ≡ map (column off m) pkts
unfolding data_columns
data_columns-Cached off m [] [] v small fits = refl
data_columns-Cached off m (s ∷ ss) [] v small fits = refl
data_columns-Cached off m [] (p ∷ ps) v small fits = absurd v
data_columns-Cached off m (s ∷ ss) (p ∷ ps) v small fits =
    ap₂ (λ c cs. c ∷ cs) (slice-column off m s p v.0 small.0 fits.0)
      (data_columns-Cached off m ss ps v.1 small.1 fits.1)

pub Cached-set :
    (off : ℕ) (ss : List Shard) (pkts : List Bytes) (s : Shard) (pkt : Bytes)
    → Cached off ss pkts
    → length pkts < length ss
    → Keeps off s pkt
    → Cached off (set ss (length pkts) s) (pkts ++ pkt ∷ [])
Cached-set off [] pkts s pkt v h k = absurd (omega (arith, h))
Cached-set off (t ∷ ss) [] s pkt v h k = (k, tt)
Cached-set off (t ∷ ss) (p ∷ ps) s pkt v h k =
    (v.0, Cached-set off ss ps s pkt v.1 (omega (arith, h)) k)
