-- ===== src/Transmit/Peer.antt =====
-- sess.go: what the packetInput of a peer makes of the datagrams of postProcess.
use kcp_go.Prelude.{
  ℕ, zero, suc, ◌+◌, ◌^◌, ◌≤◌, ◌<◌, ◌≡◌, refl, ap₂, false, Option, none, some, List, [], ◌∷◌, ◌++◌,
  arith, length, drop, All, make, nat_zero, ap, ◌∙◌, inl, inr, ◌==◌, le→ltb, Bool-cases, replicate,
  length-append, length-replicate, copy_from, copy,
}
use kcp_go.Bytes.{Bytes, AllBytes}
use kcp_go.Segment.{overhead}
use kcp_go.Fec.{
  Codec, header, put_size, cache_data, FecEncoder, encode, seal_data, type_data, next_number,
}
use kcp_go.Kcp.{Clock}
use kcp_go.Packet.{
  Security, insecure, sealing, legacy, security_header, pool_size, open_packet, opened,
}
use kcp_go.Packet.Roundtrip.{
  IsSecurity, IsNonce, Fits, trailer, open_packet-seal_packet, AllBytes-append,
}
use kcp_go.Session.{Session, min_packet_size, packet_input, accept_opened, kcp_input}
use kcp_go.Transmit.{
  max_fec_encode_latency, SendRequest, Line, Around, frame, seal_each, cons_sealed, datagrams,
  duplicated, image,
}
use kcp_go.Transmit.Framing.{packet, put_size-header, length-packet, packet-AllBytes, drop_left}

-- The security of a line, and the random bytes for it, are as documented.
pub record IsSecure (l : Line) (random : ℕ → Bytes) : Type 0 where
  pub security_holds : IsSecurity l.security
  pub nonces : (j : ℕ) → IsNonce l.security (random j)
  pub is_word : (x : Bytes) → l.checksum x < 2 ^ 32

-- Bytes with room for the header in front and for the overhead behind.
abbrev pub Sealable : Security → Bytes → Type 0
Sealable s b = AllBytes b × Fits s b × (security_header s ≤ length b)

-- Each datagram opens to what stands behind the header of its packet.
abbrev pub Opens : Line → List Bytes → List Bytes → Type 0
Opens l [] [] = Unit
Opens l [] (d ∷ ds) = ⊥
Opens l (b ∷ bs) [] = ⊥
Opens l (b ∷ bs) (d ∷ ds) =
    (open_packet l.security l.checksum d ≡ opened (drop (security_header l.security) b))
    × Opens l bs ds

seal_each-Opens :
    (l : Line) (random : ℕ → Bytes) (j : ℕ) (bs : List Bytes)
    → IsSecure l random
    → All (Sealable l.security) bs
    → (ds : List Bytes) × (seal_each l.security l.checksum random j bs ≡ some ds) × Opens l bs ds
unfolding seal_each
seal_each-Opens l random j [] v h = ([], refl, tt)
seal_each-Opens l random j (b ∷ bs) v h =
    let (bytes, fits, long) = h.0 in
    let (d, made, size, back) =
      open_packet-seal_packet l.security l.checksum (random j) b v.security_holds (v.nonces j)
        v.is_word bytes fits long in
    let (ds, rest, opens) = seal_each-Opens l random (suc j) bs v h.1 in
    (d ∷ ds, ap₂ cons_sealed made rest, (back, opens))

-- The headers that the encoder writes stand behind the room for encryption.
abbrev pub IsHeaded : Line → Option FecEncoder → Type 0
IsHeaded l none = Unit
IsHeaded l (some enc) =
    (enc.header_offset ≡ security_header l.security) × (enc.payload_offset ≡ enc.header_offset + 6)

-- headerSize of sess.go.
abbrev pub header_room : Line → Option FecEncoder → ℕ
header_room l none = security_header l.security
header_room l (some enc) = security_header l.security + 8

-- What the peer finds behind encryption, if the sender put `b` behind room for the headers.
abbrev pub carried : Option FecEncoder → Bytes → Bytes
carried none b = b
carried (some enc) b = packet enc.next type_data b

abbrev pub data_request : Line → Option FecEncoder → Bytes → SendRequest
data_request l enc b = record { buffer = make (header_room l enc) ++ b; oob = false }

-- The packet that encode gives back, whether or not the group ends.
encode-packet :
    (codec : Codec) (now : ℕ) (enc : FecEncoder) (b : Bytes) (rto : ℕ)
    → (encode codec now enc b rto).1
      ≡ put_size enc.payload_offset (copy_from b enc.header_offset (header enc.next type_data))
unfolding encode seal_data cache_data put_size next_number copy
encode-packet codec now enc b rto = elim (Bool-cases (enc.shard_count + 1 == enc.data_shards)) [
  | inl e ↦ rw (e) refl
  | inr e ↦ rw (e) refl
]

pub at_offsets :
    (off head size number kind : ℕ) (b : Bytes)
    → head ≡ off
    → size ≡ head + 6
    → put_size size (copy_from (make (off + 8) ++ b) head (header number kind))
      ≡ make off ++ packet number kind b
at_offsets off head size number kind b e f =
    ap₂ (λ p o. put_size p (copy_from (make (off + 8) ++ b) o (header number kind)))
      (f ∙ ap (λ o. o + 6) e) e
    ∙ put_size-header off number kind b

frame-carried :
    (l : Line) (now : ℕ) (enc : Option FecEncoder) (b : Bytes)
    → IsHeaded l enc
    → (frame l.codec now enc (data_request l enc b)).1
      ≡ make (security_header l.security) ++ carried enc b
unfolding frame encode seal_data
frame-carried l now none b h = refl
frame-carried l now (some enc) b h =
    encode-packet l.codec now enc (data_request l (some enc) b).buffer max_fec_encode_latency
    ∙ at_offsets (security_header l.security) enc.header_offset enc.payload_offset enc.next
        type_data b h.0 h.1

make-AllBytes : (n : ℕ) → AllBytes (make n)
make-AllBytes zero = tt
make-AllBytes (suc n) = (omega arith, make-AllBytes n)

Fits-trailer : (s : Security) (b : Bytes) → length b + trailer s ≤ pool_size → Fits s b
Fits-trailer insecure b h = tt
Fits-trailer (sealing a) b h = h
Fits-trailer (legacy k) b h = tt

carried-AllBytes : (enc : Option FecEncoder) (b : Bytes) → AllBytes b → AllBytes (carried enc b)
carried-AllBytes none b h = h
carried-AllBytes (some enc) b h = packet-AllBytes enc.next type_data b h

length-carried :
    (l : Line) (enc : Option FecEncoder) (b : Bytes)
    → security_header l.security + length (carried enc b) ≡ header_room l enc + length b
length-carried l none b = refl
length-carried l (some enc) b = omega (arith, length-packet enc.next type_data b)

-- A sealed list is not empty where its packets are not.
Opens-first :
    (l : Line) (b : Bytes) (bs ds : List Bytes)
    → Opens l (b ∷ bs) ds
    → (d : Bytes) × (ps : List Bytes) × (ds ≡ d ∷ ps)
      × (open_packet l.security l.checksum d ≡ opened (drop (security_header l.security) b))
      × Opens l bs ps
Opens-first l b bs [] h = absurd h
Opens-first l b bs (d ∷ ps) h = (d, ps, refl, h.0, h.1)

pub packet_input-opened :
    (l : Line) (clock : Clock) (codec : Codec) (peer : Session) (d x : Bytes)
    → peer.security ≡ l.security
    → open_packet l.security l.checksum d ≡ opened x
    → min_packet_size ≤ length x
    → packet_input clock codec l.checksum d peer ≡ some (kcp_input clock codec x peer)
unfolding packet_input accept_opened
packet_input-opened l clock codec peer d x same e h =
    ap (λ s. accept_opened clock codec (open_packet s l.checksum d) peer) same
    ∙ ap (λ o. accept_opened clock codec o peer) e
    ∙ rw (le→ltb (length x) min_packet_size h) refl

-- A packet and its parity shards that have room: the datagrams are the sealed packet, its copies and the
-- sealed parity shards.
pub image-Opens :
    (l : Line) (w : Around) (k : ℕ) (enc : Option FecEncoder) (req : SendRequest) (x : Bytes)
    → IsSecure l (w.random k)
    → (frame l.codec (w.now k) enc req).1 ≡ make (security_header l.security) ++ x
    → AllBytes x
    → security_header l.security + length x + trailer l.security ≤ pool_size
    → All (Sealable l.security) (frame l.codec (w.now k) enc req).0
    → (d : Bytes) × (ps : List Bytes) × (image l w k enc req
        ≡ some (d ∷ (replicate l.dup d ++ ps), (frame l.codec (w.now k) enc req).2))
      × (open_packet l.security l.checksum d ≡ opened x)
      × Opens l (frame l.codec (w.now k) enc req).0 ps
unfolding image datagrams
image-Opens l w k enc req x v framed bytes room ecc =
    let n = security_header l.security in
    let long : length (make n ++ x) ≡ n + length x =
      omega (arith, length-append (make n) x, length-replicate {A = ℕ} n 0) in
    let front : Sealable l.security (make n ++ x) = (
      AllBytes-append (make n) x (make-AllBytes n) bytes,
      Fits-trailer l.security (make n ++ x) (omega (arith, long, room)),
      omega (arith, long),
    ) in
    let (ds, made, opens) =
      seal_each-Opens l (w.random k) 0 ((make n ++ x) ∷ (frame l.codec (w.now k) enc req).0) v
        (front, ecc) in
    let (d, ps, same, first, rest) =
      Opens-first l (make n ++ x) (frame l.codec (w.now k) enc req).0 ds opens in
    (
      d,
      ps,
      ap
            (λ b. duplicated l.dup (frame l.codec (w.now k) enc req).2 (
              seal_each l.security l.checksum (w.random k) 0
                (b ∷ (frame l.codec (w.now k) enc req).0)))
            framed
          ∙ ap (duplicated l.dup (frame l.codec (w.now k) enc req).2)
              (made ∙ ap (λ z. some z) same),
      first ∙ ap (λ z. opened z) (drop_left n (make n) x (length-replicate n 0)),
      rest,
    )

long_enough :
    (enc : Option FecEncoder) (b : Bytes)
    → overhead ≤ length b
    → min_packet_size ≤ length (carried enc b)
long_enough none b h = omega (arith, h)
long_enough (some enc) b h = omega (arith, h, length-packet enc.next type_data b)

-- A datagram of the protocol machine, behind room for the headers, with room for the overhead: it goes
-- out, with its copies and the parity shards, and what its datagram makes the peer's packetInput do is
-- to give the datagram to kcpInput, bare or behind the header of a data packet. A parity shard opens to
-- what the encoder made.
pub image_lem :
    (l : Line) (w : Around) (k : ℕ) (enc : Option FecEncoder) (b : Bytes) (clock : Clock)
    (codec : Codec) (peer : Session)
    → IsSecure l (w.random k)
    → IsHeaded l enc
    → peer.security ≡ l.security
    → AllBytes b
    → overhead ≤ length b
    → header_room l enc + length b + trailer l.security ≤ pool_size
    → All (Sealable l.security) (frame l.codec (w.now k) enc (data_request l enc b)).0
    → (d : Bytes) × (ps : List Bytes) × (image l w k enc (data_request l enc b)
        ≡ some
            (d ∷ (replicate l.dup d ++ ps), (frame l.codec (w.now k) enc (data_request l enc b)).2))
      × Opens l (frame l.codec (w.now k) enc (data_request l enc b)).0 ps
      × (packet_input clock codec l.checksum d peer
          ≡ some (kcp_input clock codec (carried enc b) peer))
image_lem l w k enc b clock codec peer v headed same bytes long room ecc =
    let (d, ps, made, first, rest) =
      image-Opens l w k enc (data_request l enc b) (carried enc b) v
        (frame-carried l (w.now k) enc b headed) (carried-AllBytes enc b bytes)
        (omega (arith, length-carried l enc b, room)) ecc in
    (
      d,
      ps,
      made,
      rest,
      packet_input-opened l clock codec peer d (carried enc b) same first
          (omega (arith, long_enough enc b long)),
    )
