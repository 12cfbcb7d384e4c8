-- ===== src/Serial.antt =====
-- _itimediff of kcp.go: the signed distance of two 32-bit counters that wrap.
use kcp_go.Prelude.{ℕ, suc, ◌^◌, ◌<◌, ◌≡◌, Bool, arith, ℤ, pos, negsuc, ltz, add32, sub32, signed32}

unfoldable pub itimediff : ℕ → ℕ → ℤ
itimediff later earlier = signed32 (sub32 later earlier)

-- The tests that the code makes on such a distance.
abbrev pub is_neg : ℤ → Bool
is_neg a = ltz a (pos 0)

abbrev pub is_pos : ℤ → Bool
is_pos a = ltz (pos 0) a

-- Counters less than half the range apart are ordered as the steps between them say, also across
-- the wrap.
pub itimediff_ahead : (a k : ℕ) → a < 2 ^ 32 → k < 2 ^ 31 → itimediff (add32 a k) a ≡ pos k
unfolding itimediff
itimediff_ahead a k ha hk = ground arith

pub itimediff_behind :
    (a k : ℕ) → a < 2 ^ 32 → k < 2 ^ 31 → itimediff a (add32 a (suc k)) ≡ negsuc k
unfolding itimediff
itimediff_behind a k ha hk = ground arith

pub itimediff_self : (a : ℕ) → itimediff a a ≡ pos 0
unfolding itimediff
itimediff_self a = ground arith
