-- ===== src/Fec/Summing.antt =====
-- A code of two data shards and one parity shard, their sum, for tests of fec.go.
use kcp_go.Prelude.{
  ℕ, ◌+◌, ◌-◌, ◌≤◌, ◌≡◌, refl, sym, ap, ap₂, ◌∙◌, subst, inl, inr, true, Option, none, some, List,
  [], ◌∷◌, ◌++◌, arith, ◌==◌, if◌then◌else◌, ==→eq, Bool-cases, length, take,
}
use kcp_go.Bytes.{Bytes}
use kcp_go.Fec.{Codec}
use kcp_go.Fec.Recover.{IsCode, Agrees, present}

abbrev pub plus : Bytes → Bytes → Bytes
plus [] bs = []
plus (a ∷ xs) [] = []
plus (a ∷ xs) (b ∷ ys) = (a + b) ∷ plus xs ys

abbrev minus : Bytes → Bytes → Bytes
minus [] bs = []
minus (a ∷ xs) [] = []
minus (a ∷ xs) (b ∷ ys) = (a - b) ∷ minus xs ys

minus-plus_left : (a b : Bytes) → length a ≡ length b → minus (plus a b) a ≡ b
minus-plus_left [] [] e = refl
minus-plus_left [] (y ∷ b) e = absurd (omega (arith, e))
minus-plus_left (x ∷ a) [] e = absurd (omega (arith, e))
minus-plus_left (x ∷ a) (y ∷ b) e =
    ap₂ (λ z zs. z ∷ zs) (omega arith) (minus-plus_left a b (omega (arith, e)))

minus-plus_right : (a b : Bytes) → length a ≡ length b → minus (plus a b) b ≡ a
minus-plus_right [] [] e = refl
minus-plus_right [] (y ∷ b) e = absurd (omega (arith, e))
minus-plus_right (x ∷ a) [] e = absurd (omega (arith, e))
minus-plus_right (x ∷ a) (y ∷ b) e =
    ap₂ (λ z zs. z ∷ zs) (omega arith) (minus-plus_right a b (omega (arith, e)))

-- The parity shard is the sum of the two data shards.
abbrev parity_sum : List Bytes → Option (List Bytes)
parity_sum (a ∷ b ∷ []) = if length a == length b then some (plus a b ∷ []) else none
parity_sum columns = none

abbrev third : List (Option Bytes) → Option (List Bytes)
third (some a ∷ some b ∷ cs) = some (a ∷ b ∷ [])
third (some a ∷ none ∷ some q ∷ cs) = some (a ∷ minus q a ∷ [])
third (none ∷ some b ∷ some q ∷ cs) = some (minus q b ∷ b ∷ [])
third cs = none

abbrev pub summing : Codec
summing = record {
  accepts = λ d p. true;
  encode_shards = λ d p columns. if p == 1 then parity_sum columns else none;
  reconstruct = λ d p. third;
}

pub two_columns :
    (columns ps : List Bytes)
    → parity_sum columns ≡ some ps
    → (a : Bytes) × ((b : Bytes) × (columns ≡ a ∷ b ∷ [])
        × (length a ≡ length b)
        × (ps ≡ plus a b ∷ []))
two_columns [] ps e = cc
two_columns (a ∷ []) ps e = cc
two_columns (a ∷ b ∷ []) ps e = elim (Bool-cases (length a == length b)) [
  | inl t ↦
      let same : some (plus a b ∷ []) ≡ some ps = rw t at e in
      (a, (b, refl, ==→eq (length a) (length b) t, cc))
  | inr t ↦ let none_made : none ≡ some ps = rw t at e in cc
]
two_columns (a ∷ b ∷ c ∷ columns) ps e = cc

third-rebuilds :
    (a b : Bytes) (cache : List (Option Bytes))
    → length a ≡ length b
    → Agrees cache (a ∷ b ∷ plus a b ∷ [])
    → 2 ≤ present cache
    → (shards : List Bytes) × (third cache ≡ some shards) × (take 2 shards ≡ a ∷ b ∷ [])
third-rebuilds a b (some x ∷ some y ∷ cs) e v h =
    (x ∷ y ∷ [], refl, ap₂ (λ s t. s ∷ t ∷ []) v.0 v.1.0)
third-rebuilds a b (some x ∷ none ∷ some q ∷ cs) e v h = (
  x ∷ minus q x ∷ [],
  refl,
  ap₂ (λ s t. s ∷ t ∷ []) v.0 (ap₂ minus v.1.0 v.0 ∙ minus-plus_left a b e),
)
third-rebuilds a b (none ∷ some y ∷ some q ∷ cs) e v h = (
  minus q y ∷ y ∷ [],
  refl,
  ap₂ (λ s t. s ∷ t ∷ []) (ap₂ minus v.1.0 v.0 ∙ minus-plus_right a b e) v.0,
)
third-rebuilds a b (some x ∷ none ∷ none ∷ []) e v h = absurd (omega (arith, h))
third-rebuilds a b (none ∷ none ∷ none ∷ []) e v h = absurd (omega (arith, h))
third-rebuilds a b (none ∷ none ∷ some q ∷ []) e v h = absurd (omega (arith, h))
third-rebuilds a b (none ∷ some y ∷ none ∷ []) e v h = absurd (omega (arith, h))
third-rebuilds a b [] e v h = absurd v
third-rebuilds a b (none ∷ []) e v h = absurd v
third-rebuilds a b (some x ∷ []) e v h = absurd v.1
third-rebuilds a b (none ∷ none ∷ []) e v h = absurd v
third-rebuilds a b (none ∷ some y ∷ []) e v h = absurd v.1
third-rebuilds a b (some x ∷ none ∷ []) e v h = absurd v.1
third-rebuilds a b (none ∷ none ∷ none ∷ c ∷ cs) e v h = absurd v
third-rebuilds a b (none ∷ none ∷ some q ∷ c ∷ cs) e v h = absurd v.1
third-rebuilds a b (none ∷ some y ∷ none ∷ c ∷ cs) e v h = absurd v.1
third-rebuilds a b (some x ∷ none ∷ none ∷ c ∷ cs) e v h = absurd v.1

-- Parity is made only for one parity shard.
pub asked_for :
    (p : ℕ) (columns ps : List Bytes)
    → (if p == 1 then parity_sum columns else none) ≡ some ps
    → (p ≡ 1) × (parity_sum columns ≡ some ps)
asked_for p columns ps e = elim (Bool-cases (p == 1)) [
  | inl t ↦ (==→eq p 1 t, rw t at e)
  | inr t ↦ let none_made : none ≡ some ps = rw t at e in cc
]

pub summing-IsCode : IsCode summing
summing-IsCode = record {
  rebuilds = λ d p columns ps cache coded len agrees count.
      let (a, (b, two, same, sum)) = two_columns columns ps (asked_for p columns ps coded).1 in
      let data_two : d ≡ 2 = sym len ∙ ap (λ (c : List Bytes). length c) two in
      let (shards, done, rebuilt) =
        third-rebuilds a b cache same (subst (Agrees cache) (ap₂ (λ c q. c ++ q) two sum) agrees)
          (subst (λ k. k ≤ present cache) data_two count) in
      (shards, done, ap (λ k. take k shards) data_two ∙ rebuilt ∙ sym two);
}
