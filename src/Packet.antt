-- ===== src/Packet.antt =====
-- sess.go and crypt.go: how a packet is sealed on its way out (postProcess) and opened on its way in
-- (packetInput). The AEAD, CRC32 and the random bytes of a nonce are parameters.
pub mod Roundtrip
mod Tests
use kcp_go.Prelude.{
  ℕ, ◌+◌, ◌-◌, Option, none, some, ◌++◌, ltb, ◌==◌, if◌then◌else◌, length, take, drop, copy,
  copy_from, nat_zero,
}
use kcp_go.Bytes.{Bytes, put_u32, u32_at}
use kcp_go.Crypt.{BlockCrypt, encrypt_packet, decrypt_packet, plain}

abbrev pub nonce_size : ℕ
nonce_size = 16

abbrev pub crc_size : ℕ
crc_size = 4

abbrev pub crypt_header_size : ℕ
crypt_header_size = 20

-- maxPacketSize, the capacity of a pooled buffer.
abbrev pub pool_size : ℕ
pool_size = 1472

-- cipher.AEAD, without additional data.
pub record Aead : Type 0 where
  pub aead_nonce_size : ℕ
  pub aead_overhead : ℕ
  pub seal_bytes : Bytes → Bytes → Bytes
  pub open_bytes : Bytes → Bytes → Option Bytes

-- The `block` of a session: nil, *aeadCrypt, or another BlockCrypt.
pub data Security : Type 0 where
  insecure : Security
  sealing : Aead → Security
  legacy : BlockCrypt → Security

-- The header that encryption takes in front of a packet.
unfoldable pub security_header : Security → ℕ
security_header insecure = 0
security_header (sealing a) = a.aead_nonce_size
security_header (legacy k) = crypt_header_size

-- aeadCrypt.Seal into the buffer of the packet: `none` is the panic on a buffer that is too small.
unfoldable pub seal_in_place : Aead → Bytes → Bytes → Option Bytes
seal_in_place a nonce plaintext =
    if ltb (pool_size - a.aead_nonce_size) (length plaintext + a.aead_overhead)
    then none
    else some (nonce ++ a.seal_bytes nonce plaintext)

-- The header of cipher feedback mode: the nonce, and the checksum of what is behind the header.
unfoldable pub sign : (Bytes → ℕ) → Bytes → Bytes → Bytes
sign checksum nonce b =
    let filled = copy b nonce in
    copy_from filled nonce_size (put_u32 (checksum (drop crypt_header_size filled)))

-- Stage 2 of postProcess on one packet.
unfoldable pub seal_packet : Security → (Bytes → ℕ) → Bytes → Bytes → Option Bytes
unfolding seal_in_place sign
seal_packet insecure checksum nonce b = some b
seal_packet (sealing a) checksum nonce b = seal_in_place a nonce (drop a.aead_nonce_size b)
seal_packet (legacy k) checksum nonce b = encrypt_packet k (sign checksum nonce b)

-- What becomes of a packet that comes in.
pub data Opened : Type 0 where
  too_short : Opened
  corrupt : Opened
  opened : Bytes → Opened
  panicked : Opened

abbrev pub opened_or_corrupt : Option Bytes → Opened
opened_or_corrupt none = corrupt
opened_or_corrupt (some b) = opened b

-- The checksum of a packet that was decrypted.
unfoldable pub verify : (Bytes → ℕ) → Bytes → Opened
verify checksum text =
    let signed = drop nonce_size text in
    if checksum (drop crc_size signed) == u32_at signed 0
    then opened (drop crc_size signed)
    else corrupt

unfoldable pub verify_decrypted : (Bytes → ℕ) → Option Bytes → Opened
unfolding verify
verify_decrypted checksum none = panicked
verify_decrypted checksum (some text) = verify checksum text

-- The first half of packetInput, the same in UDPSession and Listener.
unfoldable pub open_packet : Security → (Bytes → ℕ) → Bytes → Opened
unfolding verify_decrypted
open_packet insecure checksum b = opened b
open_packet (sealing a) checksum b =
    if ltb (length b) (a.aead_nonce_size + a.aead_overhead)
    then too_short
    else opened_or_corrupt (a.open_bytes (take a.aead_nonce_size b) (drop a.aead_nonce_size b))
open_packet (legacy k) checksum b =
    if ltb (length b) crypt_header_size
    then too_short
    else verify_decrypted checksum (decrypt_packet k b)
