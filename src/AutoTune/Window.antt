-- ===== src/AutoTune/Window.antt =====
-- autotune.go: the ring of samples against the plain list of them.
use kcp_go.Prelude.{
  ℕ, zero, suc, ◌+◌, ◌%◌, ◌≤◌, ◌<◌, ◌≡◌, refl, sym, ap, ap₂, ◌∙◌, inl, inr, Bool, List, [], ◌∷◌,
  ◌++◌, arith, ltb, if◌then◌else◌, Bool-cases, length, drop, get, ltb→lt, ltb→le, set, length-set,
  get_or-set_self, get_or-set_ne,
}
use kcp_go.AutoTune.{AutoTune, Pulse, sample, samples_from, max_samples, pulse_zero}

-- The kept samples, oldest first.
abbrev pub samples : AutoTune → List Pulse
samples tune = samples_from tune 0 tune.count

pub record IsRing (tune : AutoTune) : Type 0 where
  pub places : length tune.pulses ≡ max_samples
  pub head_in : tune.head < max_samples
  pub count_in : tune.count ≤ max_samples
  pub tail_at : tune.tail ≡ (tune.head + tune.count) % max_samples

samples_from-snoc :
    (tune : AutoTune) (i n : ℕ)
    → samples_from tune i (suc n)
      ≡ samples_from tune i n ++ get tune.pulses ((tune.head + (i + n)) % max_samples) ∷ []
unfolding samples_from
samples_from-snoc tune i zero =
    let e : i ≡ i + 0 = omega arith in
    ap (λ j. get tune.pulses ((tune.head + j) % max_samples) ∷ []) e
samples_from-snoc tune i (suc n) =
    let e : i + 1 + n ≡ i + suc n = omega arith in
    ap (λ ys. get tune.pulses ((tune.head + i) % max_samples) ∷ ys)
      (samples_from-snoc tune (i + 1) n
        ∙ ap
            (λ j.
              samples_from tune (i + 1) n ++ get tune.pulses ((tune.head + j) % max_samples) ∷ [])
            e)

-- Two rings with the same samples at places that are one apart or the same.
samples_from-same :
    (a b : AutoTune) (i j n : ℕ)
    → ((k : ℕ)
        → k < n
        → get a.pulses ((a.head + (i + k)) % max_samples)
          ≡ get b.pulses ((b.head + (j + k)) % max_samples))
    → samples_from a i n ≡ samples_from b j n
unfolding samples_from
samples_from-same a b i j zero h = refl
samples_from-same a b i j (suc n) h =
    ap₂ (λ y ys. y ∷ ys) (first (h 0 (omega arith)))
      (samples_from-same a b (i + 1) (j + 1) n (λ k lt. next k (h (suc k) (omega arith))))
  where
    first :
        get a.pulses ((a.head + (i + 0)) % max_samples)
          ≡ get b.pulses ((b.head + (j + 0)) % max_samples)
        → get a.pulses ((a.head + i) % max_samples) ≡ get b.pulses ((b.head + j) % max_samples)
    first e =
        let p : i + 0 ≡ i = omega arith in
        let q : j + 0 ≡ j = omega arith in
        sym (ap (λ m. get a.pulses ((a.head + m) % max_samples)) p)
        ∙ e
        ∙ ap (λ m. get b.pulses ((b.head + m) % max_samples)) q

    next :
        (k : ℕ)
        → get a.pulses ((a.head + (i + suc k)) % max_samples)
          ≡ get b.pulses ((b.head + (j + suc k)) % max_samples)
        → get a.pulses ((a.head + (i + 1 + k)) % max_samples)
          ≡ get b.pulses ((b.head + (j + 1 + k)) % max_samples)
    next k e =
        let p : i + suc k ≡ i + 1 + k = omega arith in
        let q : j + suc k ≡ j + 1 + k = omega arith in
        sym (ap (λ m. get a.pulses ((a.head + m) % max_samples)) p)
        ∙ e
        ∙ ap (λ m. get b.pulses ((b.head + m) % max_samples)) q

drop-samples_from :
    (tune : AutoTune) (i n : ℕ) → drop 1 (samples_from tune i (suc n)) ≡ samples_from tune (i + 1) n
unfolding samples_from
drop-samples_from tune i n = refl

-- A sample written at the tail of a ring that is not full.
appended :
    (tune t : AutoTune) (p : Pulse)
    → IsRing tune
    → tune.count < max_samples
    → t.pulses ≡ set tune.pulses tune.tail p
    → t.head ≡ tune.head
    → samples_from t 0 (tune.count + 1) ≡ samples tune ++ p ∷ []
appended tune t p v room ep eh =
    let one : tune.count + 1 ≡ suc tune.count = omega arith in
    ap (samples_from t 0) one
    ∙ samples_from-snoc t 0 tune.count
    ∙ ap₂ (λ ys y. ys ++ y ∷ []) (samples_from-same t tune 0 0 tune.count (λ k lt. kept k lt)) last
  where
    kept :
        (k : ℕ)
        → k < tune.count
        → get t.pulses ((t.head + (0 + k)) % max_samples)
          ≡ get tune.pulses ((tune.head + (0 + k)) % max_samples)
    kept k lt =
        ap₂ (λ ps h. get ps ((h + (0 + k)) % max_samples)) ep eh
        ∙ get_or-set_ne tune.pulses tune.tail ((tune.head + (0 + k)) % max_samples) p
            pulse_zero.zero_value (omega (arith, v.tail_at, v.head_in))

    last : get t.pulses ((t.head + (0 + tune.count)) % max_samples) ≡ p
    last =
        let at : (tune.head + (0 + tune.count)) % max_samples ≡ tune.tail =
          omega (arith, v.tail_at) in
        ap₂ (λ ps h. get ps ((h + (0 + tune.count)) % max_samples)) ep eh
        ∙ ap (get (set tune.pulses tune.tail p)) at
        ∙ get_or-set_self tune.pulses tune.tail p pulse_zero.zero_value
            (omega (arith, v.tail_at, v.places))

-- A sample written over the oldest of a full ring.
replaced :
    (tune t : AutoTune) (p : Pulse) (n : ℕ)
    → IsRing tune
    → tune.count ≡ suc n
    → suc n ≡ max_samples
    → t.pulses ≡ set tune.pulses tune.tail p
    → t.head ≡ (tune.head + 1) % max_samples
    → samples_from t 0 tune.count ≡ drop 1 (samples tune) ++ p ∷ []
replaced tune t p n v ec em ep eh =
    ap (samples_from t 0) ec
    ∙ samples_from-snoc t 0 n
    ∙ ap₂ (λ ys y. ys ++ y ∷ []) (samples_from-same t tune 0 1 n (λ k lt. kept k lt)) last
    ∙ ap (λ ys. ys ++ p ∷ [])
        (sym (ap (λ m. drop 1 (samples_from tune 0 m)) ec ∙ drop-samples_from tune 0 n))
  where
    kept :
        (k : ℕ)
        → k < n
        → get t.pulses ((t.head + (0 + k)) % max_samples)
          ≡ get tune.pulses ((tune.head + (1 + k)) % max_samples)
    kept k lt =
        let at : ((tune.head + 1) % max_samples + (0 + k)) % max_samples
            ≡ (tune.head + (1 + k)) % max_samples =
          omega arith in
        ap₂ (λ ps h. get ps ((h + (0 + k)) % max_samples)) ep eh
        ∙ ap (get (set tune.pulses tune.tail p)) at
        ∙ get_or-set_ne tune.pulses tune.tail ((tune.head + (1 + k)) % max_samples) p
            pulse_zero.zero_value (omega (arith, v.tail_at, v.head_in))

    last : get t.pulses ((t.head + (0 + n)) % max_samples) ≡ p
    last =
        let at : ((tune.head + 1) % max_samples + (0 + n)) % max_samples ≡ tune.tail =
          omega (arith, v.tail_at) in
        ap₂ (λ ps h. get ps ((h + (0 + n)) % max_samples)) ep eh
        ∙ ap (get (set tune.pulses tune.tail p)) at
        ∙ get_or-set_self tune.pulses tune.tail p pulse_zero.zero_value
            (omega (arith, v.tail_at, v.places))

-- On a valid ring, Sample appends the sample while there are fewer than 258, and else drops the oldest
-- for it. The ring stays valid.
pub sample_lem :
    (tune : AutoTune) (bit : Bool) (seq : ℕ)
    → IsRing tune
    → IsRing (sample tune bit seq)
      × (samples (sample tune bit seq)
          ≡ drop (if ltb tune.count max_samples then 0 else 1) (samples tune)
            ++ record { bit = bit; seq = seq } ∷ [])
unfolding sample
sample_lem tune bit seq v =
    let p : Pulse = record { bit = bit; seq = seq } in
    let written : length (set tune.pulses tune.tail p) ≡ length tune.pulses =
      length-set tune.pulses tune.tail p in
    elim (Bool-cases (ltb tune.count max_samples)) [
      | inl e ↦ rw e (
        record {
          places = written ∙ v.places;
          head_in = v.head_in;
          count_in = omega (arith, ltb→lt tune.count max_samples e);
          tail_at = omega (arith, v.tail_at);
        },
        appended tune
            (record tune {
              pulses = set tune.pulses tune.tail p;
              tail = (tune.tail + 1) % max_samples;
              count = tune.count + 1;
            })
            p v (ltb→lt tune.count max_samples e) refl refl,
      )
      | inr e ↦ rw e (
        record {
          places = written ∙ v.places;
          head_in = omega arith;
          count_in = v.count_in;
          tail_at = omega (arith, v.tail_at);
        },
        replaced tune
            (record tune {
              pulses = set tune.pulses tune.tail p;
              head = (tune.head + 1) % max_samples;
              tail = (tune.tail + 1) % max_samples;
            })
            p 257 v (omega (arith, v.count_in, ltb→le tune.count max_samples e)) refl refl refl,
      )
    ]
