-- ===== src/Crypt.antt =====
-- crypt.go: cipher feedback over a block cipher, and the legacy packet ciphers. The block ciphers and
-- the key stream of Salsa20 are parameters. All calls of the package pass one buffer as `dst` and
-- `src`, so encryption and decryption work in place, and the order of reads and writes matters.
pub mod Xor
pub mod Cfb
pub mod Unrolled
pub mod Roundtrip
mod Tests
use kcp_go.Prelude.{
  ℕ, zero, suc, ◌+◌, ◌-◌, ◌*◌, ◌/◌, ◌%◌, bit_xor, Option, none, some, [], ◌∷◌, ltb, ◌==◌,
  if◌then◌else◌, length, take, drop, copy, copy_from, nat_zero,
}
use kcp_go.Bytes.{Bytes}

-- cipher.Block: Encrypt reads the first block of its source.
pub record BlockCipher : Type 0 where
  pub block_size : ℕ
  pub encrypt_block : Bytes → Bytes

abbrev pub initial_vector : Bytes
initial_vector =
    167 ∷ 115 ∷ 79 ∷ 156 ∷ 18 ∷ 172 ∷ 27 ∷ 1 ∷ 164 ∷ 21 ∷ 242 ∷ 193 ∷ 252 ∷ 120 ∷ 230 ∷ 107 ∷ []

-- subtle.XORBytes: what it writes, as long as the shorter operand.
unfoldable pub xor_bytes : Bytes → Bytes → Bytes
xor_bytes [] ys = []
xor_bytes (x ∷ xs) [] = []
xor_bytes (x ∷ xs) (y ∷ ys) = bit_xor x y ∷ xor_bytes xs ys

-- The buffer, and the two halves of the working memory.
pub record Work : Type 0 where
  pub buf : Bytes
  pub tbl : Bytes
  pub next : Bytes

-- `buf[base:][0:n]` and `buf[base:]`
abbrev pub block_at : ℕ → Bytes → ℕ → Bytes
block_at n b base = take n (drop base b)

abbrev pub rest_at : Bytes → ℕ → Bytes
rest_at b base = drop base b

-- XORBytes over the part of the buffer that a slice takes, in place.
unfoldable pub xor_at : (Bytes → ℕ → Bytes) → Bytes → ℕ → Bytes → Bytes
xor_at part b base pad = copy_from b base (xor_bytes (part b base) pad)

module _ (c : BlockCipher) (part : Bytes → ℕ → Bytes) where
  -- One block: XORBytes(d, s, tbl); block.Encrypt(tbl, d).
  unfoldable pub encrypt_step : Work → ℕ → Work
  unfolding xor_at
  encrypt_step w base =
      let b = xor_at part w.buf base w.tbl in
      record w { buf = b; tbl = c.encrypt_block (part b base) }

  -- The switch: a case falls through to the one below it.
  unfoldable pub encrypt_left : ℕ → Work → ℕ → Bytes
  unfolding encrypt_step
  encrypt_left zero w base = xor_at rest_at w.buf base w.tbl
  encrypt_left (suc k) w base = encrypt_left k (encrypt_step w base) (base + c.block_size)

  -- One block with the buffers exchanged: block.Encrypt(next, s); XORBytes(d, s, tbl).
  unfoldable pub decrypt_step : Work → ℕ → Work
  unfolding xor_at
  decrypt_step w base = record {
    buf = xor_at part w.buf base w.tbl;
    tbl = c.encrypt_block (part w.buf base);
    next = w.tbl;
  }

  unfoldable pub decrypt_left : ℕ → Work → ℕ → Bytes
  unfolding decrypt_step
  decrypt_left zero w base = xor_at rest_at w.buf base w.tbl
  decrypt_left (suc k) w base = decrypt_left k (decrypt_step w base) (base + c.block_size)

module _ (c : BlockCipher) where
  -- Eight blocks, written out.
  unfoldable pub encrypt_group : Work → ℕ → Work
  unfolding encrypt_step
  encrypt_group w base =
      let n = c.block_size in
      let w1 = encrypt_step c (block_at n) w base in
      let w2 = encrypt_step c (block_at n) w1 (base + n) in
      let w3 = encrypt_step c (block_at n) w2 (base + 2 * n) in
      let w4 = encrypt_step c (block_at n) w3 (base + 3 * n) in
      let w5 = encrypt_step c (block_at n) w4 (base + 4 * n) in
      let w6 = encrypt_step c (block_at n) w5 (base + 5 * n) in
      let w7 = encrypt_step c (block_at n) w6 (base + 6 * n) in
      encrypt_step c (block_at n) w7 (base + 7 * n)

  -- Two blocks: the odd one is read into `next` and uses `tbl`, the even one the other way.
  unfoldable pub decrypt_pair : Work → ℕ → Work
  unfolding xor_at
  decrypt_pair w base =
      let n = c.block_size in
      let odd = record w {
        next = c.encrypt_block (block_at n w.buf base);
        buf = xor_at (block_at n) w.buf base w.tbl;
      } in
      record odd {
        tbl = c.encrypt_block (block_at n odd.buf (base + n));
        buf = xor_at (block_at n) odd.buf (base + n) odd.next;
      }

  unfoldable pub decrypt_group : Work → ℕ → Work
  unfolding decrypt_pair
  decrypt_group w base =
      let n = c.block_size in
      let w2 = decrypt_pair w base in
      let w4 = decrypt_pair w2 (base + 2 * n) in
      let w6 = decrypt_pair w4 (base + 4 * n) in decrypt_pair w6 (base + 6 * n)

-- `for range repeat`, then the switch on what is left.
module _ (c : BlockCipher) (part : Bytes → ℕ → Bytes) where
  unfoldable pub encrypt_loop : ℕ → ℕ → Work → ℕ → Bytes
  unfolding encrypt_left encrypt_group
  encrypt_loop zero left w base = encrypt_left c part left w base
  encrypt_loop (suc repeat) left w base =
      encrypt_loop repeat left (encrypt_group c w base) (base + 8 * c.block_size)

  unfoldable pub decrypt_loop : ℕ → ℕ → Work → ℕ → Bytes
  unfolding decrypt_left decrypt_group
  decrypt_loop zero left w base = decrypt_left c part left w base
  decrypt_loop (suc repeat) left w base =
      decrypt_loop repeat left (decrypt_group c w base) (base + 8 * c.block_size)

abbrev pub start_work : BlockCipher → Bytes → Work
start_work c b = record { buf = b; tbl = c.encrypt_block initial_vector; next = [] }

-- The switch slices one block in the 8-byte functions, and the rest of the buffer in the 16-byte ones.
unfoldable pub encrypt8 : BlockCipher → Bytes → Bytes
unfolding encrypt_loop
encrypt8 c b =
    let n = length b / 8 in encrypt_loop c (block_at 8) (n / 8) (n % 8) (start_work c b) 0

unfoldable pub encrypt16 : BlockCipher → Bytes → Bytes
unfolding encrypt_loop
encrypt16 c b = let n = length b / 16 in encrypt_loop c rest_at (n / 8) (n % 8) (start_work c b) 0

unfoldable pub decrypt8 : BlockCipher → Bytes → Bytes
unfolding decrypt_loop
decrypt8 c b =
    let n = length b / 8 in decrypt_loop c (block_at 8) (n / 8) (n % 8) (start_work c b) 0

unfoldable pub decrypt16 : BlockCipher → Bytes → Bytes
unfolding decrypt_loop
decrypt16 c b = let n = length b / 16 in decrypt_loop c rest_at (n / 8) (n % 8) (start_work c b) 0

-- `none` is the panic on another block size.
unfoldable pub encrypt : BlockCipher → Bytes → Option Bytes
unfolding encrypt8 encrypt16
encrypt c b =
    if c.block_size == 8
    then some (encrypt8 c b)
    else if c.block_size == 16
    then some (encrypt16 c b)
    else none

unfoldable pub decrypt : BlockCipher → Bytes → Option Bytes
unfolding decrypt8 decrypt16
decrypt c b =
    if c.block_size == 8
    then some (decrypt8 c b)
    else if c.block_size == 16
    then some (decrypt16 c b)
    else none

-- The implementations of BlockCrypt but aeadCrypt. Salsa20 keeps the key stream for a nonce and a
-- length, the simple cipher its table.
pub data BlockCrypt : Type 0 where
  block : BlockCipher → BlockCrypt
  salsa20 : (Bytes → ℕ → Bytes) → BlockCrypt
  simple_xor : Bytes → BlockCrypt
  plain : BlockCrypt

-- salsa20BlockCrypt: both directions.
unfoldable pub salsa20_crypt : (Bytes → ℕ → Bytes) → Bytes → Bytes
unfolding xor_bytes
salsa20_crypt stream b =
    if ltb (length b) 8
    then b
    else copy_from b 8 (xor_bytes (drop 8 b) (stream (take 8 b) (length b - 8)))

-- simpleXORBlockCrypt: both directions. Bytes behind the table stay.
unfoldable pub simple_xor_crypt : Bytes → Bytes → Bytes
unfolding xor_bytes
simple_xor_crypt table b = if length b == 0 then b else copy b (xor_bytes b table)

-- Encrypt(b, b) and Decrypt(b, b).
unfoldable pub encrypt_packet : BlockCrypt → Bytes → Option Bytes
unfolding encrypt salsa20_crypt simple_xor_crypt
encrypt_packet (block c) b = encrypt c b
encrypt_packet (salsa20 stream) b = some (salsa20_crypt stream b)
encrypt_packet (simple_xor table) b = some (simple_xor_crypt table b)
encrypt_packet plain b = some b

unfoldable pub decrypt_packet : BlockCrypt → Bytes → Option Bytes
unfolding decrypt salsa20_crypt simple_xor_crypt
decrypt_packet (block c) b = decrypt c b
decrypt_packet (salsa20 stream) b = some (salsa20_crypt stream b)
decrypt_packet (simple_xor table) b = some (simple_xor_crypt table b)
decrypt_packet plain b = some b
