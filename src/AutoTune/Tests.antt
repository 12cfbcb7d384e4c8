-- ===== src/AutoTune/Tests.antt =====
-- autotune.go: samples of three data and two parity shards, and the theorem at a wrapping pulse.
use kcp_go.Serial.{itimediff}
use kcp_go.Prelude.{
  ℕ, ◌≡◌, refl, Bool, true, false, List, [], ◌∷◌, ◌++◌, arith, pos, ltb, if◌then◌else◌, drop,
  length-replicate, make,
}
use kcp_go.AutoTune.{
  AutoTune, new_auto_tune, sample, samples_from, insert_pulse, sort_pulses, same_number, collapse,
  right_edge, find_pulse, find_period, itimediff, max_samples, pulse_zero,
}
use kcp_go.AutoTune.Window.{samples, IsRing, sample_lem}

unfoldable sampled : List (Bool × ℕ) → AutoTune → AutoTune
sampled [] tune = tune
sampled ((bit, seq) ∷ xs) tune = sampled xs (sample tune bit seq)

-- The samples came out of order, and one came twice.
abbrev arrivals : List (Bool × ℕ)
arrivals =
    (false, 4)
    ∷ (true, 5)
    ∷ (true, 7)
    ∷ (true, 6)
    ∷ (false, 9)
    ∷ (true, 6)
    ∷ (false, 8)
    ∷ (true, 10)
    ∷ []

find_period-arrivals :
    (find_period (sampled arrivals new_auto_tune) true ≡ pos 3)
    × (find_period (sampled arrivals new_auto_tune) false ≡ pos 2)
unfolding find_period sampled sample samples_from insert_pulse sort_pulses same_number collapse
    find_pulse right_edge itimediff
find_period-arrivals = (refl, refl)

-- A full ring, whose oldest sample is the sixth.
abbrev full : AutoTune
full = record { pulses = make max_samples; head = 5; tail = 5; count = max_samples }

full-IsRing : IsRing full
full-IsRing = record {
  places = length-replicate max_samples pulse_zero.zero_value;
  head_in = omega arith;
  count_in = omega arith;
  tail_at = refl;
}

sample_lem_example :
    IsRing (sample full true 9)
    × (samples (sample full true 9)
        ≡ drop (if ltb full.count max_samples then 0 else 1) (samples full)
          ++ record { bit = true; seq = 9 } ∷ [])
sample_lem_example = sample_lem full true 9 full-IsRing
