-- ===== src/Packet/Roundtrip.antt =====
-- sess.go: packetInput opens what postProcess of the peer sealed.
use kcp_go.Prelude.{
  ℕ, ◌+◌, ◌^◌, ◌≤◌, ◌<◌, ◌≡◌, refl, some, [], ◌∷◌, ◌++◌, arith, length, drop, zero, suc, ◌-◌, sym,
  ap, ap₂, ◌∙◌, true, List, ◌==◌, le→ltb, eq→==, take, length-append, length-drop,
  take-length-append, drop-length-append, copy, nat_zero,
}
use kcp_go.Bytes.{Bytes, AllBytes, put_u32, u32_at}
use kcp_go.Crypt.{BlockCrypt, encrypt_packet}
use kcp_go.Crypt.Xor.{copy-append}
use kcp_go.Crypt.Roundtrip.{IsCrypt, AllBytes-drop, decrypt_packet-encrypt_packet}
use kcp_go.Packet.{
  nonce_size, crypt_header_size, pool_size, Aead, Security, insecure, sealing, legacy, sign,
  crc_size, security_header, seal_packet, opened, verify, open_packet,
}

-- What the documentation of cipher.AEAD says: Open undoes Seal with the same nonce, and a sealed text is
-- longer than its plaintext by the overhead.
pub record IsAead (a : Aead) : Type 0 where
  pub open-seal :
      (nonce plaintext : Bytes) → a.open_bytes nonce (a.seal_bytes nonce plaintext) ≡ some plaintext
  pub length-seal :
      (nonce plaintext : Bytes)
      → length (a.seal_bytes nonce plaintext) ≡ length plaintext + a.aead_overhead

abbrev pub IsSecurity : Security → Type 0
IsSecurity insecure = Unit
IsSecurity (sealing a) = IsAead a
IsSecurity (legacy k) = IsCrypt k

-- The random bytes that a mode asks for.
abbrev pub IsNonce : Security → Bytes → Type 0
IsNonce insecure nonce = Unit
IsNonce (sealing a) nonce = length nonce ≡ a.aead_nonce_size
IsNonce (legacy k) nonce = (length nonce ≡ nonce_size) × AllBytes nonce

-- What has to fit into a pooled buffer.
abbrev pub Fits : Security → Bytes → Type 0
Fits insecure b = Unit
Fits (sealing a) b = length b + a.aead_overhead ≤ pool_size
Fits (legacy k) b = Unit

pub AllBytes-append : (xs ys : Bytes) → AllBytes xs → AllBytes ys → AllBytes (xs ++ ys)
AllBytes-append [] ys hx hy = hy
AllBytes-append (x ∷ xs) ys hx hy = (hx.0, AllBytes-append xs ys hx.1 hy)

pub put_u32-AllBytes : (x : ℕ) → AllBytes (put_u32 x)
unfolding put_u32
put_u32-AllBytes x = omega arith

pub length-put_u32 : (x : ℕ) → length (put_u32 x) ≡ 4
unfolding put_u32
length-put_u32 x = refl

u32_at-put_u32 : (x : ℕ) (b : Bytes) → x < 2 ^ 32 → u32_at (put_u32 x ++ b) 0 ≡ x
unfolding u32_at put_u32
u32_at-put_u32 x b h = omega arith

pub drop-drop {ℓ} :
    {A : Type ℓ} (m n k : ℕ) (xs : List A) → m + n ≡ k → drop n (drop m xs) ≡ drop k xs
drop-drop zero n k xs e = let same : n ≡ k = omega arith in ap (λ i. drop i xs) same
drop-drop (suc m) zero zero xs e = absurd (omega arith)
drop-drop (suc m) (suc n) zero xs e = absurd (omega arith)
drop-drop (suc m) zero (suc k) [] e = refl
drop-drop (suc m) (suc n) (suc k) [] e = refl
drop-drop (suc m) n (suc k) (x ∷ xs) e = drop-drop m n k xs (omega arith)

drop-append {ℓ} : {A : Type ℓ} (n : ℕ) (xs ys : List A) → length xs ≡ n → drop n (xs ++ ys) ≡ ys
drop-append n xs ys e = ap (λ k. drop k (xs ++ ys)) (sym e) ∙ drop-length-append xs ys

take-append {ℓ} : {A : Type ℓ} (n : ℕ) (xs ys : List A) → length xs ≡ n → take n (xs ++ ys) ≡ xs
take-append n xs ys e = ap (λ k. take k (xs ++ ys)) (sym e) ∙ take-length-append xs ys

-- The signed packet: the nonce, the checksum and the payload.
sign_lem :
    (checksum : Bytes → ℕ) (nonce b : Bytes)
    → length nonce ≡ nonce_size
    → crypt_header_size ≤ length b
    → sign checksum nonce b
      ≡ nonce ++ (put_u32 (checksum (drop crypt_header_size b)) ++ drop crypt_header_size b)
unfolding sign
sign_lem checksum nonce b hn hb =
    let body = drop nonce_size b in
    let payload = drop crypt_header_size b in
    let filled : copy b nonce ≡ nonce ++ body =
      copy-append b nonce (omega arith) ∙ ap (λ k. nonce ++ drop k b) hn in
    let behind : drop crypt_header_size (copy b nonce) ≡ payload =
      ap (drop crypt_header_size) filled
      ∙ sym (drop-drop nonce_size crc_size crypt_header_size (nonce ++ body) refl)
      ∙ ap (drop crc_size) (drop-append nonce_size nonce body hn)
      ∙ drop-drop nonce_size crc_size crypt_header_size b refl in
    let word = put_u32 (checksum payload) in
    ap₂
      (λ p c.
        take nonce_size (copy b nonce)
        ++ copy (drop nonce_size (copy b nonce)) (put_u32 (checksum c)))
      filled behind
    ∙ ap (λ f. take nonce_size f ++ copy (drop nonce_size f) word) filled
    ∙ ap₂ (λ x y. x ++ copy y word) (take-append nonce_size nonce body hn)
        (drop-append nonce_size nonce body hn)
    ∙ ap (λ x. nonce ++ x)
        (copy-append body word
            (omega (arith, length-drop nonce_size b, length-put_u32 (checksum payload)))
          ∙ ap₂ (λ k x. word ++ x) (length-put_u32 (checksum payload))
              (ap (λ k. drop k body) (length-put_u32 (checksum payload))
                ∙ drop-drop nonce_size crc_size crypt_header_size b refl))

-- The overhead behind the payload.
abbrev pub trailer : Security → ℕ
trailer (sealing a) = a.aead_overhead
trailer s = 0

legacy_opens :
    (k : BlockCrypt) (checksum : Bytes → ℕ) (nonce b : Bytes)
    → IsCrypt k
    → IsNonce (legacy k) nonce
    → ((x : Bytes) → checksum x < 2 ^ 32)
    → AllBytes b
    → crypt_header_size ≤ length b
    → (out : Bytes) × (seal_packet (legacy k) checksum nonce b ≡ some out)
      × (length out ≡ length b)
      × (open_packet (legacy k) checksum out ≡ opened (drop crypt_header_size b))
unfolding seal_packet open_packet verify
legacy_opens k checksum nonce b hk (hn, hnb) hc hb hl =
    let payload = drop crypt_header_size b in
    let word = put_u32 (checksum payload) in
    let text = nonce ++ (word ++ payload) in
    let signed : sign checksum nonce b ≡ text = sign_lem checksum nonce b hn hl in
    let bytes : AllBytes text = AllBytes-append nonce (word ++ payload) hnb (
      AllBytes-append word payload (put_u32-AllBytes (checksum payload))
        (AllBytes-drop crypt_header_size b hb)) in
    let (out, enc, long, dec) = decrypt_packet-encrypt_packet k text hk bytes in
    let size : length out ≡ length b = omega (
      arith,
      long,
      length-append nonce (word ++ payload),
      length-append word payload,
      length-put_u32 (checksum payload),
      length-drop crypt_header_size b,
    ) in
    let body : drop nonce_size text ≡ word ++ payload =
      drop-append nonce_size nonce (word ++ payload) hn in
    let rest : drop crc_size (word ++ payload) ≡ payload =
      drop-append crc_size word payload (length-put_u32 (checksum payload)) in
    let sum : (checksum payload == u32_at (word ++ payload) 0) ≡ true =
      eq→== (checksum payload) (u32_at (word ++ payload) 0)
        (sym (u32_at-put_u32 (checksum payload) payload (hc payload))) in
    (
      out,
      ap (encrypt_packet k) signed ∙ enc,
      size,
      rw (le→ltb (length out) crypt_header_size (omega arith), dec, body, rest, sum) refl,
    )

-- With the parts that are parameters as documented, a nonce of the length asked for, and a packet of
-- bytes with room for the header and, with an AEAD, for the overhead in a pooled buffer: sealing does
-- not panic, lengthens the packet by the overhead alone, and the peer opens it to what stood behind the
-- header.
pub open_packet-seal_packet :
    (s : Security) (checksum : Bytes → ℕ) (nonce b : Bytes)
    → IsSecurity s
    → IsNonce s nonce
    → ((x : Bytes) → checksum x < 2 ^ 32)
    → AllBytes b
    → Fits s b
    → security_header s ≤ length b
    → (out : Bytes) × (seal_packet s checksum nonce b ≡ some out)
      × (length out ≡ length b + trailer s)
      × (open_packet s checksum out ≡ opened (drop (security_header s) b))
unfolding seal_packet open_packet security_header
open_packet-seal_packet insecure checksum nonce b hs hn hc hb hf hl = (b, refl, omega arith, refl)
open_packet-seal_packet (sealing a) checksum nonce b hs hn hc hb hf hl =
    let text = drop a.aead_nonce_size b in
    let sealed = a.seal_bytes nonce text in
    let out = nonce ++ sealed in
    let size : length out ≡ length b + a.aead_overhead = omega (
      arith,
      length-append nonce sealed,
      hs.length-seal nonce text,
      length-drop a.aead_nonce_size b,
      hn,
    ) in
    (
      out,
      rw
          (le→ltb (pool_size - a.aead_nonce_size) (length text + a.aead_overhead)
            (omega (arith, length-drop a.aead_nonce_size b)))
          refl,
      size,
      rw
          (
            le→ltb (length out) (a.aead_nonce_size + a.aead_overhead) (omega (arith, size)),
            take-append a.aead_nonce_size nonce sealed hn,
            drop-append a.aead_nonce_size nonce sealed hn,
            hs.open-seal nonce text,
          )
          refl,
    )
open_packet-seal_packet (legacy k) checksum nonce b hs hn hc hb hf hl =
    let (out, enc, size, dec) = legacy_opens k checksum nonce b hs hn hc hb hl in
    (out, enc, omega (arith, size), dec)
