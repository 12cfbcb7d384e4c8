-- ===== src/Crypt/Tests.antt =====
-- crypt.go: a toy cipher of 8 bytes, and the theorems at it.
use kcp_go.Prelude.{
  ◌+◌, ◌/◌, ◌%◌, ◌≡◌, refl, ◌≢◌, ◌⊎◌, inl, none, some, [], ◌∷◌, arith, length, take,
}
use kcp_go.Bytes.{Bytes, AllBytes}
use kcp_go.Crypt.{
  BlockCipher, initial_vector, encrypt, decrypt, block, encrypt_packet, decrypt_packet,
}
use kcp_go.Crypt.Unrolled.{IsCipher}
use kcp_go.Crypt.Cfb.{cfb_encrypt, cfb_decrypt, encrypt-decrypt-cfb}
use kcp_go.Crypt.Roundtrip.{decrypt_packet-encrypt_packet}

-- Its block shows the first byte of the source.
abbrev show_first : Bytes → Bytes
show_first [] = 0 ∷ 1 ∷ 2 ∷ 3 ∷ 4 ∷ 5 ∷ 6 ∷ 7 ∷ []
show_first (x ∷ xs) = (x + 1) % 256 ∷ 1 ∷ 2 ∷ 3 ∷ 4 ∷ 5 ∷ 6 ∷ 7 ∷ []

abbrev toy : BlockCipher
toy = record { block_size = 8; encrypt_block = show_first }

show_first-length : (b : Bytes) → length (show_first b) ≡ 8
show_first-length [] = refl
show_first-length (x ∷ b) = refl

show_first-AllBytes : (b : Bytes) → AllBytes (show_first b)
show_first-AllBytes [] = omega arith
show_first-AllBytes (x ∷ b) = omega arith

show_first-take : (b : Bytes) → show_first b ≡ show_first (take 8 b)
show_first-take [] = refl
show_first-take (x ∷ b) = refl

toy-IsCipher : IsCipher toy
toy-IsCipher = record {
  writes_block = show_first-length;
  writes_bytes = λ b h. show_first-AllBytes b;
  reads_block = show_first-take;
}

-- Two blocks and three bytes.
abbrev text : Bytes
text =
    10 ∷ 11 ∷ 12 ∷ 13 ∷ 14 ∷ 15 ∷ 16 ∷ 17 ∷ 18 ∷ 19 ∷ 20 ∷ 21 ∷ 22 ∷ 23 ∷ 24 ∷ 25 ∷ 26 ∷ 27 ∷ 28
    ∷ []

encrypt-decrypt-cfb_example :
    ((toy.block_size ≡ 8) ⊎ (toy.block_size ≡ 16)
      → (encrypt toy text
          ≡ some (cfb_encrypt toy (length text / 8) (toy.encrypt_block initial_vector) text))
        × (decrypt toy text
            ≡ some (cfb_decrypt toy (length text / 8) (toy.encrypt_block initial_vector) text)))
    × (toy.block_size ≢ 8
        → toy.block_size ≢ 16
        → (encrypt toy text ≡ none) × (decrypt toy text ≡ none))
encrypt-decrypt-cfb_example = encrypt-decrypt-cfb toy text toy-IsCipher

decrypt_packet-encrypt_packet_example :
    (out : Bytes) × (encrypt_packet (block toy) text ≡ some out)
    × (length out ≡ length text)
    × (decrypt_packet (block toy) out ≡ some text)
decrypt_packet-encrypt_packet_example =
    decrypt_packet-encrypt_packet (block toy) text (toy-IsCipher, inl refl) (omega arith)
