-- ===== src/Bytes.antt =====
-- encoding/binary as the package uses it: little-endian 16- and 32-bit words in byte slices.
use kcp_go.Prelude.{ℕ, ◌+◌, ◌*◌, ◌/◌, ◌%◌, ◌<◌, List, [], ◌∷◌, get, nat_zero}

-- A slice of bytes; each is below 256.
abbrev pub Bytes : Type 0
Bytes = List ℕ

unfoldable pub put_u16 : ℕ → Bytes
put_u16 x = (x % 256) ∷ (x / 256 % 256) ∷ []

unfoldable pub put_u32 : ℕ → Bytes
put_u32 x = (x % 256) ∷ (x / 256 % 256) ∷ (x / 65536 % 256) ∷ (x / 16777216 % 256) ∷ []

-- The word at offset `i`.
unfoldable pub u16_at : Bytes → ℕ → ℕ
u16_at b i = get b i + 256 * get b (i + 1)

unfoldable pub u32_at : Bytes → ℕ → ℕ
u32_at b i = get b i + 256 * get b (i + 1) + 65536 * get b (i + 2) + 16777216 * get b (i + 3)

abbrev pub AllBytes : Bytes → Type 0
AllBytes [] = Unit
AllBytes (x ∷ xs) = (x < 256) × AllBytes xs
