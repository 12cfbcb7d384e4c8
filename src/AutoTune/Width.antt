-- ===== src/AutoTune/Width.antt =====
-- autotune.go: FindPeriod on a stream without gaps.
use kcp_go.Prelude.{
  ℕ, zero, suc, ◌^◌, ◌<◌, ◌≡◌, refl, Bool, true, false, not, some, List, [], ◌∷◌, ◌++◌, arith, ◌==◌,
  ==_refl, pos, add32,
}
use kcp_go.Serial.{itimediff, itimediff_ahead}
use kcp_go.AutoTune.{Pulse, same_bit, right_edge, find_pulse}

-- `n` samples of one kind, with numbers from `seq` on.
unfoldable pub pulse_run : Bool → ℕ → ℕ → List Pulse
pulse_run bit seq zero = []
pulse_run bit seq (suc n) = record { bit = bit; seq = seq } ∷ pulse_run bit (add32 seq 1) n

same_bit_refl : (b : Bool) → same_bit b b ≡ true
same_bit_refl true = refl
same_bit_refl false = refl

same_bit-not : (b : Bool) → same_bit (not b) b ≡ false
same_bit-not true = refl
same_bit-not false = refl

-- The scan runs to the end of the pulse.
right_edge-pulse_run :
    (bit : Bool) (left n : ℕ) (prev : Pulse) (rest : List Pulse)
    → right_edge bit left prev (
        pulse_run bit (add32 prev.seq 1) n
        ++ record { bit = not bit; seq = add32 prev.seq (suc n) } ∷ rest)
      ≡ some (itimediff (add32 prev.seq (suc n)) left)
unfolding right_edge pulse_run
right_edge-pulse_run bit left zero prev rest =
    let step : (add32 prev.seq 1 == add32 prev.seq 1) ≡ true = ==_refl (add32 prev.seq 1) in
    rw (step, same_bit-not bit) refl
right_edge-pulse_run bit left (suc n) prev rest =
    let p : Pulse = record { bit = bit; seq = add32 prev.seq 1 } in
    let step : (add32 prev.seq 1 == add32 prev.seq 1) ≡ true = ==_refl (add32 prev.seq 1) in
    let far : add32 prev.seq (suc (suc n)) ≡ add32 (add32 prev.seq 1) (suc n) = omega arith in
    rw (step, same_bit_refl bit, far) (right_edge-pulse_run bit left n p rest)

-- On samples that begin with the other kind, then n of the kind asked for, then the other kind
-- again, with consecutive 32-bit numbers, which may wrap, the width found is n.
pub find_pulse_width :
    (bit : Bool) (seq n : ℕ) (rest : List Pulse)
    → seq < 2 ^ 32
    → suc n < 2 ^ 31
    → find_pulse bit (
        record { bit = not bit; seq = seq }
        ∷ (pulse_run bit (add32 seq 1) (suc n)
            ++ record { bit = not bit; seq = add32 (add32 seq 1) (suc n) } ∷ rest))
      ≡ pos (suc n)
unfolding find_pulse pulse_run
find_pulse_width bit seq n rest hs hn =
    let step : (add32 seq 1 == add32 seq 1) ≡ true = ==_refl (add32 seq 1) in
    let p : Pulse = record { bit = bit; seq = add32 seq 1 } in
    rw (same_bit-not bit, same_bit_refl bit, step, right_edge-pulse_run bit (add32 seq 1) n p rest)
      (itimediff_ahead (add32 seq 1) (suc n) (omega arith) hn)
