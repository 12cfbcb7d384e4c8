-- ===== src/Kcp/Acks/Rtt.antt =====
-- kcp.go: the bounds of the round trip estimate.
use native.Mathlib.Decide.{dec_lt}
use kcp_go.Prelude.{
  ℕ, ◌^◌, ◌≤◌, ◌<◌, min, max, ◌≡◌, arith, ℤ, pos, pos_part, neg_part, suc, ◌+◌, ◌-◌, ◌/◌, refl, inl,
  inr, Bool, true, false, ◌==◌, ==→eq, Bool-cases, negsuc, ◌-ℤ◌, ltz, wrap32, wrap32_pos,
  wrap32_negsuc,
}
use kcp_go.Kcp.Acks.{smooth, step_srtt, abs32, step_rttvar}

-- a - b for numbers that the order is known of.
diff_le : (a b : ℕ) → b ≤ a → pos a -ℤ pos b ≡ pos (a - b)
diff_le a b h = ground arith

diff_lt : (a b : ℕ) → a < b → pos a -ℤ pos b ≡ negsuc (b - a - 1)
diff_lt a b h = ground arith

step_srtt-up :
    (srtt d : ℕ) → srtt < 2 ^ 29 → d < 2 ^ 29 → step_srtt (pos srtt) (pos d) ≡ pos (srtt + d / 8)
unfolding step_srtt
step_srtt-up srtt d hs hd = ground arith

step_srtt-down :
    (srtt d : ℕ)
    → srtt < 2 ^ 29
    → d < srtt
    → step_srtt (pos srtt) (negsuc d) ≡ pos (srtt - d / 8 - 1)
unfolding step_srtt
step_srtt-down srtt d hs hd = ground arith

step_rttvar_bounds :
    (v d : ℕ) (below : Bool)
    → v < 2 ^ 29
    → d < 2 ^ 29
    → (neg_part (step_rttvar (pos v) (pos d) below) ≡ 0)
      × (pos_part (step_rttvar (pos v) (pos d) below) < 2 ^ 29)
unfolding step_rttvar
step_rttvar_bounds v d true hv hd = ground arith
step_rttvar_bounds v d false hv hd = ground arith

abs32-negsuc : (d : ℕ) → d < 2 ^ 29 → abs32 (negsuc d) ≡ pos (suc d)
unfolding abs32
abs32-negsuc d h = ground arith

abs32-pos : (d : ℕ) → abs32 (pos d) ≡ pos d
unfolding abs32
abs32-pos d = ground arith

-- What the estimator promises of its two results.
abbrev pub Between : ℕ → ℕ → ℤ × ℤ → Type 0
Between lo hi out =
    (neg_part out.0 ≡ 0)
    × (lo ≤ pos_part out.0)
    × (pos_part out.0 ≤ hi)
    × (neg_part out.1 ≡ 0)
    × (pos_part out.1 < 2 ^ 29)

-- From estimates that are not negative and a sample that is not, the new estimates are not, and the
-- smoothed time lies between the old one and the sample, while all three are below 2^29 ms: no
-- 32-bit step wraps then.
pub smooth_bounds :
    (srtt rttvar rtt : ℕ)
    → srtt < 2 ^ 29
    → rttvar < 2 ^ 29
    → rtt < 2 ^ 29
    → Between (min srtt rtt) (max srtt rtt) (smooth (pos srtt) (pos rttvar) (pos rtt))
unfolding smooth
smooth_bounds srtt rttvar rtt hs hv hr = elim (Bool-cases (srtt == 0)) [
  | inl first ↦ rw first (omega (arith, ==→eq srtt 0 first))
  | inr later ↦ elim (dec_lt rtt srtt) [
    | yes p ↦
        let d = srtt - rtt - 1 in
        let below = ltz (pos rtt) (wrap32 (pos (srtt - d / 8 - 1) -ℤ pos rttvar)) in
        let v = step_rttvar_bounds rttvar (suc d) below hv (omega arith) in
        rw
          (
            later,
            diff_lt rtt srtt p,
            wrap32_negsuc d (omega arith),
            step_srtt-down srtt d hs (omega arith),
            abs32-negsuc d (omega arith),
          )
          (refl, omega arith, omega arith, v.0, v.1)
    | no p ↦
        let d = rtt - srtt in
        let below = ltz (pos rtt) (wrap32 (pos (srtt + d / 8) -ℤ pos rttvar)) in
        let v = step_rttvar_bounds rttvar d below hv (omega arith) in
        rw
          (
            later,
            diff_le rtt srtt (omega arith),
            wrap32_pos d (omega arith),
            step_srtt-up srtt d hs (omega arith),
            abs32-pos d,
          )
          (refl, omega arith, omega arith, v.0, v.1)
  ]
]
