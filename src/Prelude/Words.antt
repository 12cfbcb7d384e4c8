-- ===== src/Prelude/Words.antt =====
-- Machine words as native numbers, and the signed reading of 32 bits.
use Prim.Native.Nat.{ℕ, ◌+◌, ◌-◌, ◌*◌, ◌%◌, ◌^◌, ◌<◌}
use mathlib.Core.Path.{◌≡◌}
use mathlib.Core.Logic.{◌⊎◌, inl, inr}
use native.Mathlib.Nat.{mod-eq_of_lt}
use native.Mathlib.Decide.{dec_lt}
use native.Mathlib.Omega.{arith}
use kcp_go.Prelude.Tests.{ltb, if◌then◌else◌}
use kcp_go.Prelude.Ints.{ℤ, pos, negsuc}

-- `uint32(x)`, and sum, difference and product of two `uint32`.
abbrev pub u32 : ℕ → ℕ
u32 x = x % 2 ^ 32

abbrev pub add32 : ℕ → ℕ → ℕ
add32 a b = (a + b) % 2 ^ 32

abbrev pub sub32 : ℕ → ℕ → ℕ
sub32 a b = (a + 2 ^ 32 - b) % 2 ^ 32

abbrev pub mul32 : ℕ → ℕ → ℕ
mul32 a b = (a * b) % 2 ^ 32

-- The `int32` that a pattern of 32 bits stands for, and the pattern of an integer.
abbrev pub signed32 : ℕ → ℤ
signed32 w = if ltb w (2 ^ 31) then pos w else negsuc (2 ^ 32 - w - 1)

abbrev pub bits32 : ℤ → ℕ
bits32 (pos n) = n % 2 ^ 32
bits32 (negsuc n) = 2 ^ 32 - 1 - n % 2 ^ 32

-- `int32` arithmetic wraps.
abbrev pub wrap32 : ℤ → ℤ
wrap32 a = signed32 (bits32 a)

-- One step round a ring of `n` places.
pub next_mod :
    (i n : ℕ) → i < n → ((i + 1 ≡ n) × ((i + 1) % n ≡ 0)) ⊎ ((i + 1 < n) × ((i + 1) % n ≡ i + 1))
next_mod i n h = elim (dec_lt (i + 1) n) [
  | yes p ↦ inr (p, mod-eq_of_lt p)
  | no p ↦ inl (omega arith, full (i + 1) (omega arith))
]
  where
    full : (k : ℕ) → k ≡ n → k % n ≡ 0
    full k e = grind arith

pub wrap32_pos : (n : ℕ) → n < 2 ^ 31 → wrap32 (pos n) ≡ pos n
wrap32_pos n h = ground arith

pub wrap32_negsuc : (n : ℕ) → n < 2 ^ 31 → wrap32 (negsuc n) ≡ negsuc n
wrap32_negsuc n h = ground arith
