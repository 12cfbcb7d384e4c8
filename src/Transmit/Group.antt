-- ===== src/Transmit/Group.antt =====
-- fec.go: the packets of a group on the wire, as the decoder of the peer takes them.
use kcp_go.Transmit.Framing.{replicate-append, copy_from_behind, drop_left}
use kcp_go.Packet.Roundtrip.{drop-drop}
use kcp_go.Fec.Group.{column}
use kcp_go.Fec.Align.{place_bound}
use kcp_go.Prelude.{
  ℕ, suc, ◌+◌, ◌-◌, ◌*◌, ◌%◌, ◌^◌, ◌≤◌, ◌<◌, ◌≡◌, sym, ap, ◌∙◌, subst, ◌≢◌, ◌⊎◌, inl, inr, List, [],
  ◌∷◌, ◌++◌, arith, length, get_or, take, All, make, nat_zero, refl, map, append-nil, drop,
  length-drop, zero, append_assoc, length-append, length-replicate, copy_from,
}
use kcp_go.Bytes.{Bytes, put_u16, put_u32}
use kcp_go.Fec.{
  type_data, type_parity, seqid, flag, payload_of, header, FecEncoder, next_number, seal_parity,
  seal_all,
}
use kcp_go.Fec.Header.{seqid-take, flag-take, seqid-header, flag-header, parity_header}
use kcp_go.Fec.Recover.{IsPart, IsAway, IsSpread}
use native.Mathlib.Nat.{mod-eq_of_lt, mul-add-mod_self_right}

-- A part of the set that has the place `k`.
pub record IsPlaced (d n size : ℕ) (ws : List Bytes) (g k : ℕ) (pkt : Bytes) : Type 0 where
  pub number : seqid pkt ≡ g * n + k
  pub place : seqid pkt % n ≡ k
  pub as_data : k < d → flag pkt ≡ type_data
  pub as_parity : d ≤ k → flag pkt ≡ type_parity
  pub part : IsPart d n size ws pkt

-- The places are consecutive.
abbrev pub PlacedFrom : ℕ → ℕ → ℕ → List Bytes → ℕ → ℕ → List Bytes → Type 0
PlacedFrom d n size ws g k [] = Unit
PlacedFrom d n size ws g k (p ∷ ps) =
    IsPlaced d n size ws g k p × PlacedFrom d n size ws g (suc k) ps

pub PlacedFrom-parts :
    (d n size : ℕ) (ws : List Bytes) (g k : ℕ) (pkts : List Bytes)
    → PlacedFrom d n size ws g k pkts
    → All (IsPart d n size ws) pkts
PlacedFrom-parts d n size ws g k [] v = tt
PlacedFrom-parts d n size ws g k (p ∷ ps) v =
    (v.0.part, PlacedFrom-parts d n size ws g (suc k) ps v.1)

PlacedFrom-IsAway :
    (d n size : ℕ) (ws : List Bytes) (g j k : ℕ) (pkts : List Bytes)
    → j < k
    → PlacedFrom d n size ws g k pkts
    → IsAway n j pkts
PlacedFrom-IsAway d n size ws g j k [] h v = tt
PlacedFrom-IsAway d n size ws g j k (p ∷ ps) h v = (
  (λ e. omega (arith, e, h, v.0.place)),
  PlacedFrom-IsAway d n size ws g j (suc k) ps (omega (arith, h)) v.1,
)

pub PlacedFrom-IsSpread :
    (d n size : ℕ) (ws : List Bytes) (g k : ℕ) (pkts : List Bytes)
    → PlacedFrom d n size ws g k pkts
    → IsSpread n pkts
PlacedFrom-IsSpread d n size ws g k [] v = tt
PlacedFrom-IsSpread d n size ws g k (p ∷ ps) v = (
  PlacedFrom-IsAway d n size ws g (seqid p % n) (suc k) ps (omega (arith, v.0.place)) v.1,
  PlacedFrom-IsSpread d n size ws g (suc k) ps v.1,
)

pub PlacedFrom-append :
    (d n size : ℕ) (ws : List Bytes) (g k j : ℕ) (xs ys : List Bytes)
    → k + length xs ≡ j
    → PlacedFrom d n size ws g k xs
    → PlacedFrom d n size ws g j ys
    → PlacedFrom d n size ws g k (xs ++ ys)
PlacedFrom-append d n size ws g k j [] ys e v w =
    subst (λ i. PlacedFrom d n size ws g i ys) (omega (arith, e)) w
PlacedFrom-append d n size ws g k j (x ∷ xs) ys e v w =
    (v.0, PlacedFrom-append d n size ws g (suc k) j xs ys (omega (arith, e)) v.1 w)

-- The type and the length that a place asks for.
abbrev IsFor : ℕ → ℕ → ℕ → ℕ → Bytes → Type 0
IsFor d size k kind body =
    ((k < d) × (kind ≡ type_data)) ⊎ ((d ≤ k) × (kind ≡ type_parity) × (length body ≡ size))

header-IsPlaced :
    (d n size : ℕ) (ws : List Bytes) (g k number kind : ℕ) (pkt : Bytes)
    → take 6 pkt ≡ header number kind
    → number ≡ g * n + k
    → number < 2 ^ 32
    → k < n
    → length (payload_of pkt) ≤ size
    → payload_of pkt ++ make (size - length (payload_of pkt)) ≡ get_or ws k []
    → IsFor d size k kind (payload_of pkt)
    → IsPlaced d n size ws g k pkt
header-IsPlaced d n size ws g k number kind pkt hb hn h32 hk small padded c =
    let its_seqid : seqid pkt ≡ number =
      seqid-take pkt ∙ ap seqid hb ∙ seqid-header number kind h32 in
    let its_flag : flag pkt ≡ kind =
      flag-take pkt ∙ ap flag hb ∙ flag-header number kind (fits c) in
    let place : seqid pkt % n ≡ k =
      ap (λ x. x % n) (its_seqid ∙ hn) ∙ mul-add-mod_self_right g n k ∙ mod-eq_of_lt hk in
    record {
      number = its_seqid ∙ hn;
      place = place;
      as_data = λ h. its_flag ∙ data_of c h;
      as_parity = λ h. its_flag ∙ kind_of c h;
      part = record {
        short = small;
        padded = padded ∙ ap (λ i. get_or ws i []) (sym place);
        whole = λ h. whole_of c (omega (arith, h, place));
        typed_data = λ h. its_flag ∙ data_of c (omega (arith, h, place));
        typed_parity = λ h e. parity_of c (omega (arith, h, place)) (sym its_flag ∙ e);
      };
    }
  where
    fits : IsFor d size k kind (payload_of pkt) → kind < 2 ^ 16
    fits (inl (p, e)) = omega (arith, e)
    fits (inr (p, e, l)) = omega (arith, e)

    whole_of : IsFor d size k kind (payload_of pkt) → d ≤ k → length (payload_of pkt) ≡ size
    whole_of (inl (p, e)) h = absurd (omega (arith, p, h))
    whole_of (inr (p, e, l)) h = l

    data_of : IsFor d size k kind (payload_of pkt) → k < d → kind ≡ type_data
    data_of (inl (p, e)) h = e
    data_of (inr (p, e, l)) h = absurd (omega (arith, p, h))

    kind_of : IsFor d size k kind (payload_of pkt) → d ≤ k → kind ≡ type_parity
    kind_of (inl (p, e)) h = absurd (omega (arith, p, h))
    kind_of (inr (p, e, l)) h = e

    parity_of : IsFor d size k kind (payload_of pkt) → d ≤ k → kind ≢ type_data
    parity_of (inl (p, e)) h = absurd (omega (arith, p, h))
    parity_of (inr (p, e, l)) h = λ z. omega (arith, e, z)

-- A packet with the header of a data packet, and the packets of a group, numbered one after the other.
pub record IsSealed (ho off number : ℕ) (p : Bytes) : Type 0 where
  pub head : take 6 (drop ho p) ≡ header number type_data
  pub long : off ≤ length p

abbrev pub NumberedFrom : ℕ → ℕ → ℕ → List Bytes → Type 0
NumberedFrom ho off number [] = Unit
NumberedFrom ho off number (p ∷ ps) = IsSealed ho off number p × NumberedFrom ho off (suc number) ps

pub NumberedFrom-snoc :
    (ho off number : ℕ) (pkts : List Bytes) (p : Bytes)
    → NumberedFrom ho off number pkts
    → IsSealed ho off (number + length pkts) p
    → NumberedFrom ho off number (pkts ++ p ∷ [])
NumberedFrom-snoc ho off number [] p v h = (subst (λ k. IsSealed ho off k p) (omega arith) h, tt)
NumberedFrom-snoc ho off number (q ∷ pkts) p v h = (
  v.0,
  NumberedFrom-snoc ho off (suc number) pkts p v.1
      (subst (λ k. IsSealed ho off k p) (omega arith) h),
)

pub data-PlacedFrom :
    (ho off d n m g k : ℕ) (ws qs : List Bytes)
    → off ≡ ho + 6
    → NumberedFrom ho off (g * n + k) qs
    → All (λ p. length p ≤ m) qs
    → k + length qs ≤ d
    → d ≤ n
    → g * n + n < 2 ^ 32
    → ((i : ℕ) → i < length qs → get_or ws (k + i) [] ≡ get_or (map (column off m) qs) i [])
    → PlacedFrom d n (m - off) ws g k (map (drop ho) qs)
unfolding payload_of
data-PlacedFrom ho off d n m g k ws [] e v fits kd dn small same = tt
data-PlacedFrom ho off d n m g k ws (q ∷ qs) e v fits kd dn small same =
    let body : payload_of (drop ho q) ≡ drop off q = drop-drop ho 6 off q (sym e) in
    let size : length (drop off q) ≡ length q - off = length-drop off q in
    let rest : m - off - (length q - off) ≡ m - length q = omega (arith, v.0.long, fits.0) in
    (
      header-IsPlaced d n (m - off) ws g k (g * n + k) type_data (drop ho q) v.0.head refl
          (omega (arith, small, kd, dn)) (omega (arith, kd, dn))
          (omega (arith, ap (λ (x : Bytes). length x) body, size, fits.0))
          (ap (λ x. x ++ make (m - off - length x)) body
            ∙ ap (λ j. drop off q ++ make (m - off - j)) size
            ∙ ap (λ j. drop off q ++ make j) rest
            ∙ sym (same 0 (omega arith))
            ∙ ap (λ i. get_or ws i []) (omega arith))
          (inl (omega (arith, kd), refl)),
      data-PlacedFrom ho off d n m g (suc k) ws qs e
          (subst (λ j. NumberedFrom ho off j qs) (omega arith) v.1) fits.1 (omega (arith, kd)) dn
          small (λ i h. ap (λ j. get_or ws j []) (omega arith) ∙ same (suc i) (omega (arith, h))),
    )

take_whole : (n : ℕ) (xs : Bytes) → length xs ≡ n → take n xs ≡ xs
take_whole zero [] e = refl
take_whole zero (x ∷ xs) e = absurd (omega (arith, e))
take_whole (suc n) [] e = refl
take_whole (suc n) (x ∷ xs) e = ap (λ ys. x ∷ ys) (take_whole n xs (omega (arith, e)))

-- The bytes of a parity shard behind its header.
parity-body :
    (enc : FecEncoder) (m : ℕ) (q : Bytes)
    → enc.payload_offset ≡ enc.header_offset + 6
    → length q + enc.payload_offset ≡ m
    → drop enc.payload_offset (take m (seal_parity enc (make enc.payload_offset ++ q)).0) ≡ q
unfolding seal_parity put_u32 put_u16
parity-body enc m q e size =
    let ho = enc.header_offset in
    let off = enc.payload_offset in
    let h = header enc.next type_parity in
    let whole : copy_from (make off ++ q) ho h ≡ (make ho ++ h) ++ q =
      ap (λ k. copy_from (make k ++ q) ho h) e
      ∙ ap (λ x. copy_from (x ++ q) ho h) (replicate-append ho 6 0)
      ∙ ap (λ x. copy_from x ho h) (append_assoc (make ho) (make 6) q)
      ∙ copy_from_behind ho (make ho) (make 6 ++ q) h (length-replicate ho 0)
          (omega (arith, length-append (make 6) q, length-replicate {A = ℕ} 6 0))
      ∙ sym (append_assoc (make ho) h q) in
    let front : length (make ho ++ h) ≡ off =
      omega (arith, length-append (make ho) h, length-replicate {A = ℕ} ho 0, e) in
    ap (λ x. drop off (take m x)) whole
    ∙ ap (drop off) (
        take_whole m ((make ho ++ h) ++ q)
          (omega (arith, length-append (make ho ++ h) q, front, size)))
    ∙ drop_left off (make ho ++ h) q front

pub parity-PlacedFrom :
    (enc : FecEncoder) (m g gs k : ℕ) (ws ps : List Bytes)
    → enc.payload_offset ≡ enc.header_offset + 6
    → enc.payload_offset ≤ m
    → enc.paws ≡ gs * enc.shard_size
    → g < gs
    → enc.paws < 2 ^ 32
    → enc.data_shards ≤ k
    → k + length ps ≤ enc.shard_size
    → (0 < length ps → enc.next ≡ g * enc.shard_size + k)
    → All (λ q. length q ≡ m - enc.payload_offset) ps
    → ((i : ℕ) → i < length ps → get_or ws (k + i) [] ≡ get_or ps i [])
    → PlacedFrom enc.data_shards enc.shard_size
        (m - enc.payload_offset)
        ws
        g
        k
        (map (drop enc.header_offset) (seal_all enc m ps).0)
unfolding seal_all next_number seal_parity payload_of
parity-PlacedFrom enc m g gs k ws [] e hm hp hg h32 hd hk hn sized same = tt
parity-PlacedFrom enc m g gs k ws (q ∷ ps) e hm hp hg h32 hd hk hn sized same =
    let off = enc.payload_offset in
    let x = take m (seal_parity enc (make off ++ q)).0 in
    let room : g * enc.shard_size + (k + 1) ≤ gs * enc.shard_size =
      place_bound g gs enc.shard_size (k + 1) hg (omega arith) in
    let here : enc.next ≡ g * enc.shard_size + k = hn (omega arith) in
    let no_zeros : m - off - (m - off) ≡ 0 = omega arith in
    let body : payload_of (drop enc.header_offset x) ≡ q =
      drop-drop enc.header_offset 6 off x (sym e)
      ∙ parity-body enc m q e (omega (arith, sized.0, hm)) in
    let size : length (payload_of (drop enc.header_offset x)) ≡ m - off =
      ap (λ (y : Bytes). length y) body ∙ sized.0 in
    (
      header-IsPlaced enc.data_shards enc.shard_size (m - off) ws g k enc.next type_parity
          (drop enc.header_offset x) (parity_header enc m q e (omega (arith, e, hm))) here
          (omega (arith, room, here, hp, h32)) (omega (arith, hk)) (omega (arith, size))
          (ap (λ j. payload_of (drop enc.header_offset x) ++ make (m - off - j)) size
            ∙ ap (λ j. payload_of (drop enc.header_offset x) ++ make j) no_zeros
            ∙ append-nil (payload_of (drop enc.header_offset x))
            ∙ body
            ∙ sym (same 0 (omega arith))
            ∙ ap (λ i. get_or ws i []) (omega arith))
          (inr (hd, refl, size)),
      parity-PlacedFrom (next_number enc) m g gs (suc k) ws ps e hm hp hg h32 (omega (arith, hd))
          (omega (arith, hk)) (after here) sized.1
          (λ i h. ap (λ j. get_or ws j []) (omega arith) ∙ same (suc i) (omega (arith, h))),
    )
  where
    after :
        enc.next ≡ g * enc.shard_size + k
        → 0 < length ps
        → (next_number enc).next ≡ g * enc.shard_size + suc k
    after here h =
        let room : g * enc.shard_size + (k + 2) ≤ gs * enc.shard_size =
          place_bound g gs enc.shard_size (k + 2) hg (omega arith) in
        mod-eq_of_lt (omega (arith, room, here)) ∙ omega (arith, here)
