-- ===== src/Packet/Tests.antt =====
-- sess.go and crypt.go: a packet of nine bytes behind its header, sealed with a toy AEAD.
use kcp_go.Prelude.{
  ◌≡◌, refl, Option, none, some, [], ◌∷◌, arith, ◌==◌, if◌then◌else◌, length, drop,
}
use kcp_go.Bytes.{Bytes}
use kcp_go.Packet.{Aead, sealing, security_header, seal_packet, opened, open_packet, corrupt}
use kcp_go.Packet.Roundtrip.{IsAead, open_packet-seal_packet}

abbrev strip_tag : Bytes → Option Bytes
strip_tag [] = none
strip_tag (x ∷ b) = if x == 99 then some b else none

-- Its tag is one byte in front.
abbrev tagging : Aead
tagging = record {
  aead_nonce_size = 2;
  aead_overhead = 1;
  seal_bytes = λ nonce b. 99 ∷ b;
  open_bytes = λ nonce b. strip_tag b;
}

tagging-IsAead : IsAead tagging
tagging-IsAead = record { open-seal = λ nonce b. refl; length-seal = λ nonce b. omega arith }

abbrev packet : Bytes
packet = 0 ∷ 0 ∷ 1 ∷ 2 ∷ 3 ∷ 4 ∷ 5 ∷ 6 ∷ 7 ∷ 8 ∷ 9 ∷ []

open_packet-seal_packet_example :
    (out : Bytes) × (seal_packet (sealing tagging) (λ b. 5) (40 ∷ 41 ∷ []) packet ≡ some out)
    × (length out ≡ 12)
    × (open_packet (sealing tagging) (λ b. 5) out ≡ opened (drop 2 packet))
unfolding security_header
open_packet-seal_packet_example =
    open_packet-seal_packet (sealing tagging) (λ b. 5) (40 ∷ 41 ∷ []) packet tagging-IsAead refl
      (λ x. omega arith) (omega arith) (omega arith) (omega arith)

-- A byte that is changed on the way is noticed.
corrupt_tag : open_packet (sealing tagging) (λ b. 5) (40 ∷ 41 ∷ 98 ∷ 1 ∷ []) ≡ corrupt
unfolding open_packet
corrupt_tag = refl
