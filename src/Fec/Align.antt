-- ===== src/Fec/Align.antt =====
-- fec.go: the numbers that the encoder gives out. The peer's decoder tells data from parity by the
-- place of a number in its shard set.
use kcp_go.Prelude.{
  ℕ, suc, ◌+◌, ◌*◌, ◌%◌, ◌≤◌, ◌<◌, ◌≡◌, refl, sym, ap, ◌∙◌, inl, inr, some, List, [], ◌∷◌, arith,
  leb, Bool-cases, Option-cases, length, take, ◌-◌, subst, ◌==◌, ==→eq, ==→ne, ◌^◌,
}
use kcp_go.Bytes.{Bytes}
use kcp_go.Fec.{
  Codec, FecEncoder, next_number, seal_parity, skip_parity, data_columns, seal_all, encode_group,
  seal_data, cache_data, encode, put_size,
}
use native.Mathlib.Decide.{dec_lt}
use native.Mathlib.Nat.{mod-lt, mod-add-mod, mod_self, mod-eq_of_lt, mul-le-mul_right}

-- The next number is the one of the place `shard_count` in the `group`-th of `groups` shard sets.
pub record IsAligned (enc : FecEncoder) : Type 0 where
  pub group : ℕ
  pub groups : ℕ
  pub sizes : enc.data_shards + enc.parity_shards ≡ enc.shard_size
  pub some_parity : 0 < enc.parity_shards
  pub in_set : enc.shard_count < enc.data_shards
  pub wraps : enc.paws ≡ groups * enc.shard_size
  pub in_groups : group < groups
  pub is_word : enc.paws < 2 ^ 32
  pub place : enc.next ≡ group * enc.shard_size + enc.shard_count

-- What the codec's documentation promises: as many parity shards as it was made for.
abbrev pub IsComplete : Codec → Type 0
IsComplete codec =
    (d p : ℕ) (columns ps : List Bytes) → codec.encode_shards d p columns ≡ some ps → length ps ≡ p

-- A number of a set is below the number at which the sequence starts again.
pub place_bound : (g gs size k : ℕ) → g < gs → k ≤ size → g * size + k ≤ gs * size
place_bound g gs size k hg hk =
    let more : suc g * size ≤ gs * size = mul-le-mul_right size (omega arith) in grind arith

-- seal_all gives out a number for each parity shard.
seal_all_lem :
    (enc : FecEncoder) (size : ℕ) (ps : List Bytes)
    → enc.next < enc.paws
    → (seal_all enc size ps).1 ≡ record enc { next = (enc.next + length ps) % enc.paws }
unfolding seal_all seal_parity next_number
seal_all_lem enc size [] h =
    let same : (enc.next + 0) % enc.paws ≡ enc.next =
      let plain : enc.next + 0 ≡ enc.next = omega arith in
      ap (λ n. n % enc.paws) plain ∙ mod-eq_of_lt h in
    ap (λ n. record enc { next = n }) (sym same)
seal_all_lem enc size (p ∷ ps) h =
    let step : ((enc.next + 1) % enc.paws + length ps) % enc.paws
        ≡ (enc.next + suc (length ps)) % enc.paws =
      let shift : enc.next + 1 + length ps ≡ enc.next + suc (length ps) = omega arith in
      mod-add-mod (enc.next + 1) enc.paws (length ps) ∙ ap (λ n. n % enc.paws) shift in
    seal_all_lem (next_number enc) size ps (mod-lt (enc.next + 1) (omega arith))
    ∙ ap (λ n. record enc { next = n }) step

-- The end of a group resets the counts and goes to the next shard set, parity or not.
encode_group_lem :
    (codec : Codec) (enc : FecEncoder) (size gap rto : ℕ)
    → IsComplete codec
    → enc.next < enc.paws
    → (encode_group codec enc size gap rto).1 ≡ record enc {
      shard_count = 0;
      max_size = 0;
      next = (enc.next + enc.parity_shards) % enc.paws;
    }
unfolding encode_group skip_parity
encode_group_lem codec enc size gap rto hc h = elim (Bool-cases (leb rto gap)) [
  | inl e ↦ rw e refl
  | inr e ↦
      let columns = data_columns enc.payload_offset size (take enc.data_shards enc.shard_cache) in
      let reset = record enc { shard_count = 0; max_size = 0 } in
      elim (Option-cases (codec.encode_shards enc.data_shards enc.parity_shards columns)) [
        | inl n ↦ rw (e, n) refl
        | inr (ps, s) ↦
            rw (e, s)
              (seal_all_lem reset size ps h
                ∙ ap (λ m. record reset { next = (enc.next + m) % enc.paws })
                    (hc enc.data_shards enc.parity_shards columns ps s))
      ]
]

-- The number after a set is the first of the next one, or of the first one.
next_group :
    (g gs size paws n : ℕ)
    → g < gs
    → 0 < size
    → paws ≡ gs * size
    → n ≡ g * size + size
    → (g' : ℕ) × (g' < gs) × (n % paws ≡ g' * size + 0)
next_group g gs size paws n hg hs hp hn = elim (dec_lt (g + 1) gs) [
  | yes p ↦
      let far : (g + 1) * size + size ≤ gs * size =
        place_bound (g + 1) gs size size p (omega arith) in
      let same : (g + 1) * size ≡ g * size + size = grind arith in
      (g + 1, p, omega (arith, far, same, hp, hn, mod-eq_of_lt (below far same)))
  | no np ↦
      let e : suc g ≡ gs = omega arith in
      let last : suc g * size ≡ g * size + size = grind arith in
      let all : n ≡ paws = hn ∙ sym last ∙ ap (λ k. k * size) e ∙ sym hp in
      (0, omega arith, rw all (mod_self paws ∙ omega arith))
]
  where
    below : (g + 1) * size + size ≤ gs * size → (g + 1) * size ≡ g * size + size → n < paws
    below far same = omega (arith, far, same, hp, hn)

-- With a codec that makes as many parity shards as it was made for, encode keeps the alignment:
-- whether or not the packet completes a set, and whether or not parity goes out for it.
pub encode-IsAligned :
    (codec : Codec) (now : ℕ) (enc : FecEncoder) (b : Bytes) (rto : ℕ)
    → IsComplete codec
    → IsAligned enc
    → IsAligned (encode codec now enc b rto).2
unfolding encode seal_data next_number cache_data
encode-IsAligned codec now enc b rto hc v =
    let room : v.group * enc.shard_size + (enc.shard_count + 2) ≤ v.groups * enc.shard_size =
      place_bound v.group v.groups enc.shard_size (enc.shard_count + 2) v.in_groups
        (omega (arith, v.in_set, v.some_parity, v.sizes)) in
    let small : enc.next + 2 ≤ enc.paws = omega (arith, room, v.place, v.wraps) in
    let step : (enc.next + 1) % enc.paws ≡ enc.next + 1 = mod-eq_of_lt (omega (arith, small)) in
    let sealed = put_size enc.payload_offset (seal_data enc b).0 in
    let enc2 = cache_data (next_number enc) sealed now in
    elim (Bool-cases (enc.shard_count + 1 == enc.data_shards)) [
      | inl e ↦
          let (g, hg, h) =
            next_group v.group v.groups enc.shard_size enc.paws (enc.next + 1 + enc.parity_shards)
              v.in_groups (omega (arith, v.sizes, v.some_parity)) v.wraps
              (omega (arith, v.sizes, v.place, ==→eq (enc.shard_count + 1) enc.data_shards e)) in
          let ended =
            encode_group_lem codec enc2 enc2.max_size (now - enc.ts_latest_packet) rto hc
              (omega (arith, small, step)) in
          rw e (
            subst IsAligned (sym ended) (record {
              group = g;
              groups = v.groups;
              sizes = v.sizes;
              some_parity = v.some_parity;
              in_set = omega (arith, v.in_set);
              wraps = v.wraps;
              in_groups = hg;
              is_word = v.is_word;
              place = ap (λ n. (n + enc.parity_shards) % enc.paws) step ∙ h;
            }))
      | inr e ↦ rw e (record {
        group = v.group;
        groups = v.groups;
        sizes = v.sizes;
        some_parity = v.some_parity;
        in_set = omega (arith, v.in_set, ==→ne (enc.shard_count + 1) enc.data_shards e);
        wraps = v.wraps;
        in_groups = v.in_groups;
        is_word = v.is_word;
        place = omega (arith, step, v.place);
      })
    ]
