-- ===== src/Transmit/Framing.antt =====
-- sess.go and fec.go: the bytes of a packet behind the room for encryption, when it has its header.
use kcp_go.Prelude.{
  ℕ, zero, suc, ◌+◌, ◌-◌, ◌%◌, ◌^◌, ◌≤◌, ◌<◌, ◌≡◌, refl, sym, ap, ap₂, ◌∙◌, List, ◌∷◌, ◌++◌,
  append_assoc, arith, length, take, drop, replicate, length-append, length-replicate,
  take-length-append, drop-length-append, copy, copy_from, make, nat_zero, ◌/◌,
}
use kcp_go.Bytes.{Bytes, AllBytes, put_u16, put_u32, u16_at, u32_at}
use kcp_go.Crypt.Xor.{copy-append}
use kcp_go.Fec.{header, seqid, flag, put_size}

-- A packet of forward error correction that carries `b`.
abbrev pub packet : ℕ → ℕ → Bytes → Bytes
packet number kind b = header number kind ++ (put_u16 ((2 + length b) % 2 ^ 16) ++ b)

pub replicate-append {ℓ} :
    {A : Type ℓ} (m n : ℕ) (x : A) → replicate (m + n) x ≡ replicate m x ++ replicate n x
replicate-append zero n x = let same : 0 + n ≡ n = omega arith in ap (λ k. replicate k x) same
replicate-append (suc m) n x =
    let same : suc m + n ≡ suc (m + n) = omega arith in
    ap (λ k. replicate k x) same ∙ ap (λ xs. x ∷ xs) (replicate-append m n x)

take_left {ℓ} : {A : Type ℓ} (n : ℕ) (xs ys : List A) → length xs ≡ n → take n (xs ++ ys) ≡ xs
take_left n xs ys e = ap (λ k. take k (xs ++ ys)) (sym e) ∙ take-length-append xs ys

pub drop_left {ℓ} : {A : Type ℓ} (n : ℕ) (xs ys : List A) → length xs ≡ n → drop n (xs ++ ys) ≡ ys
drop_left n xs ys e = ap (λ k. drop k (xs ++ ys)) (sym e) ∙ drop-length-append xs ys

-- A copy that lies behind `xs`.
pub copy_from_behind :
    (n : ℕ) (xs ys src : Bytes)
    → length xs ≡ n
    → length src ≤ length ys
    → copy_from (xs ++ ys) n src ≡ xs ++ (src ++ drop (length src) ys)
copy_from_behind n xs ys src e h =
    ap₂ (λ a c. a ++ copy c src) (take_left n xs ys e) (drop_left n xs ys e)
    ∙ ap (λ c. xs ++ c) (copy-append ys src h)

length-header : (number kind : ℕ) → length (header number kind) ≡ 6
unfolding put_u32 put_u16
length-header number kind = refl

length-put_u16 : (x : ℕ) → length (put_u16 x) ≡ 2
unfolding put_u16
length-put_u16 x = refl

-- The header and the size, written into a packet with room for them.
pub put_size-header :
    (off number kind : ℕ) (b : Bytes)
    → put_size (off + 6) (copy_from (make (off + 8) ++ b) off (header number kind))
      ≡ make off ++ packet number kind b
unfolding put_size
put_size-header off number kind b =
    let h = header number kind in
    let room : make (off + 8) ++ b ≡ make off ++ (make 8 ++ b) =
      ap (λ xs. xs ++ b) (replicate-append off 8 0) ∙ append_assoc (make off) (make 8) b in
    let headed : copy_from (make (off + 8) ++ b) off h ≡ (make off ++ h) ++ (make 2 ++ b) =
      ap (λ xs. copy_from xs off h) room
      ∙ copy_from_behind off (make off) (make 8 ++ b) h (length-replicate off 0) (
          omega (
            arith,
            length-header number kind,
            length-append (make 8) b,
            length-replicate {A = ℕ} 8 0,
          ))
      ∙ ap (λ k. make off ++ (h ++ drop k (make 8 ++ b))) (length-header number kind)
      ∙ sym (append_assoc (make off) h (make 2 ++ b)) in
    let front : length (make off ++ h) ≡ off + 6 = omega (
      arith,
      length-append (make off) h,
      length-replicate {A = ℕ} off 0,
      length-header number kind,
    ) in
    let size : length ((make off ++ h) ++ (make 2 ++ b)) - (off + 6) ≡ 2 + length b = omega (
      arith,
      length-append (make off ++ h) (make 2 ++ b),
      length-append (make 2) b,
      length-replicate {A = ℕ} 2 0,
      front,
    ) in
    ap (λ c. copy_from c (off + 6) (put_u16 ((length c - (off + 6)) % 2 ^ 16))) headed
    ∙ ap (λ n. copy_from ((make off ++ h) ++ (make 2 ++ b)) (off + 6) (put_u16 (n % 2 ^ 16))) size
    ∙ copy_from_behind (off + 6) (make off ++ h) (make 2 ++ b) (put_u16 ((2 + length b) % 2 ^ 16))
        front
        (omega (
          arith,
          length-put_u16 ((2 + length b) % 2 ^ 16),
          length-append (make 2) b,
          length-replicate {A = ℕ} 2 0,
        ))
    ∙ ap (λ k. (make off ++ h) ++ (put_u16 ((2 + length b) % 2 ^ 16) ++ drop k (make 2 ++ b)))
        (length-put_u16 ((2 + length b) % 2 ^ 16))
    ∙ append_assoc (make off) h (put_u16 ((2 + length b) % 2 ^ 16) ++ b)

pub seqid-packet :
    (number kind : ℕ) (b : Bytes) → number < 2 ^ 32 → seqid (packet number kind b) ≡ number
unfolding seqid u32_at put_u32
seqid-packet number kind b h = omega arith

pub flag-packet : (number kind : ℕ) (b : Bytes) → kind < 2 ^ 16 → flag (packet number kind b) ≡ kind
unfolding flag u16_at put_u32 put_u16
flag-packet number kind b h = omega arith

pub drop-packet : (number kind : ℕ) (b : Bytes) → drop 8 (packet number kind b) ≡ b
unfolding put_u32 put_u16
drop-packet number kind b = refl

pub length-packet : (number kind : ℕ) (b : Bytes) → length (packet number kind b) ≡ 8 + length b
unfolding put_u32 put_u16
length-packet number kind b = omega arith

pub packet-AllBytes : (number kind : ℕ) (b : Bytes) → AllBytes b → AllBytes (packet number kind b)
unfolding put_u32 put_u16
packet-AllBytes number kind b h =
    let low : (n : ℕ) → n % 256 < 256 = λ n. omega arith in
    let size = (2 + length b) % 65536 in
    (
      low number,
      (
        low (number / 256),
        (
          low (number / 65536),
          (
            low (number / 16777216),
            (low kind, (low (kind / 256), (low size, (low (size / 256), h)))),
          ),
        ),
      ),
    )
