-- ===== src/Transmit/Oob.antt =====
-- sess.go: out-of-band data, from SendOOB to the callback of the peer.
use kcp_go.Prelude.{
  ℕ, ◌+◌, ◌-◌, ◌%◌, ◌^◌, ◌≡◌, refl, ap, ◌∙◌, true, some, [], ◌∷◌, ◌++◌, length, copy_from, make,
  nat_zero, ◌≤◌, arith, le→ltb, replicate, length-append, All, List, if◌then◌else◌, drop,
}
use kcp_go.Bytes.{put_u16, Bytes, AllBytes, put_u32}
use kcp_go.Fec.{header, Codec, FecEncoder, encode_oob, put_size, flag, type_oob, header}
use kcp_go.Kcp.{Clock}
use kcp_go.Packet.{pool_size, security_header}
use kcp_go.Packet.Roundtrip.{trailer, put_u32-AllBytes, length-put_u32, AllBytes-append}
use kcp_go.Session.{
  Session, packet_input, kcp_input, input_oob, send_oob, queued, conv_size, count_packet,
}
use kcp_go.Transmit.{SendRequest, Line, Around, frame, image}
use kcp_go.Transmit.Framing.{drop_left, packet, flag-packet, length-packet, packet-AllBytes}
use kcp_go.Transmit.Peer.{
  Sealable, IsSecure, IsHeaded, header_room, Opens, image-Opens, packet_input-opened, at_offsets,
}

abbrev oob_number : ℕ
oob_number = 2 ^ 32 - 1

-- The conversation and the data.
abbrev pub oob_body : Session → Bytes → Bytes
oob_body s payload = put_u32 s.kcp.conv ++ payload

abbrev pub oob_request : Session → Bytes → SendRequest
oob_request s payload = record { buffer = make s.header_size ++ oob_body s payload; oob = true }

frame-oob :
    (l : Line) (now : ℕ) (enc : FecEncoder) (s : Session) (payload : Bytes)
    → IsHeaded l (some enc)
    → s.header_size ≡ header_room l (some enc)
    → (frame l.codec now (some enc) (oob_request s payload)).1
      ≡ make (security_header l.security) ++ packet oob_number type_oob (oob_body s payload)
unfolding frame encode_oob
frame-oob l now enc s payload h room =
    ap
      (λ n.
        put_size enc.payload_offset
          (copy_from (make n ++ oob_body s payload) enc.header_offset (header oob_number type_oob)))
      room
    ∙ at_offsets (security_header l.security) enc.header_offset enc.payload_offset oob_number
        type_oob (oob_body s payload) h.0 h.1

no_parity :
    (l : Line) (now : ℕ) (enc : FecEncoder) (s : Session) (payload : Bytes)
    → All (Sealable l.security) (frame l.codec now (some enc) (oob_request s payload)).0
unfolding frame
no_parity l now enc s payload = tt

only_one :
    (l : Line) (now : ℕ) (enc : FecEncoder) (s : Session) (payload : Bytes) (ps : List Bytes)
    → Opens l (frame l.codec now (some enc) (oob_request s payload)).0 ps
    → ps ≡ []
unfolding frame
only_one l now enc s payload [] h = refl
only_one l now enc s payload (p ∷ ps) h = absurd h

kcp_input-oob :
    (clock : Clock) (codec : Codec) (peer : Session) (b : Bytes)
    → flag b ≡ type_oob
    → kcp_input clock codec b peer ≡ input_oob b (count_packet b peer)
unfolding kcp_input
kcp_input-oob clock codec peer b e = rw (e) refl

-- The peer when it has counted a packet of `n` bytes.
abbrev counted_as : ℕ → Session → Session
counted_as n s = record s {
  in_pkts = (s.in_pkts + 1) % 2 ^ 64;
  in_bytes = (s.in_bytes + n) % 2 ^ 64;
}

input_oob-packet :
    (peer : Session) (word payload : Bytes)
    → length word ≡ 4
    → peer.has_oob_callback ≡ true
    → input_oob (packet oob_number type_oob (word ++ payload)) peer ≡ record peer {
      oob_packets = (peer.oob_packets + 1) % 2 ^ 64;
      oob_inbox = peer.oob_inbox ++ payload ∷ [];
    }
unfolding input_oob put_u32 put_u16
input_oob-packet peer word payload four callback =
    let counted = record peer { oob_packets = (peer.oob_packets + 1) % 2 ^ 64 } in
    ap
      (λ c.
        if c
        then record counted { oob_inbox = peer.oob_inbox ++ drop 4 (word ++ payload) ∷ [] }
        else counted)
      callback
    ∙ ap (λ x. record counted { oob_inbox = peer.oob_inbox ++ x ∷ [] })
        (drop_left 4 word payload four)

queued-send_oob :
    (s : Session) (payload : Bytes)
    → s.has_fec_encoder ≡ true
    → conv_size + length payload ≤ s.kcp.mtu
    → send_oob s payload ≡ queued (oob_request s payload).buffer
unfolding send_oob
queued-send_oob s payload with_fec small =
    rw (with_fec, le→ltb s.kcp.mtu (conv_size + length payload) small) refl

-- In a session with forward error correction whose headers and MTU fit a packet, data that the MTU has
-- room for: SendOOB queues it, it goes out as one datagram and its copies without touching the encoder,
-- and the peer with the same security gives exactly the data to its callback and does nothing else but
-- count the packet, its bytes and the out-of-band packet.
pub send_oob_lem :
    (l : Line) (w : Around) (k : ℕ) (enc : FecEncoder) (s : Session) (payload : Bytes)
    (clock : Clock) (codec : Codec) (peer : Session)
    → IsSecure l (w.random k)
    → IsHeaded l (some enc)
    → s.has_fec_encoder ≡ true
    → s.header_size ≡ header_room l (some enc)
    → s.header_size + s.kcp.mtu + trailer l.security ≤ pool_size
    → conv_size + length payload ≤ s.kcp.mtu
    → AllBytes payload
    → peer.security ≡ l.security
    → peer.has_oob_callback ≡ true
    → (send_oob s payload ≡ queued (oob_request s payload).buffer)
      × ((d : Bytes) × (image l w k (some enc) (oob_request s payload)
            ≡ some (d ∷ (replicate l.dup d ++ []), some enc))
          × (packet_input clock codec l.checksum d peer
              ≡ some (record peer {
                oob_packets = (peer.oob_packets + 1) % 2 ^ 64;
                oob_inbox = peer.oob_inbox ++ payload ∷ [];
                in_pkts = (peer.in_pkts + 1) % 2 ^ 64;
                in_bytes = (peer.in_bytes + (length payload + 12)) % 2 ^ 64;
              })))
unfolding frame
send_oob_lem l w k enc s payload clock codec peer v headed with_fec room fits small bytes same
      callback =
    let word = put_u32 s.kcp.conv in
    let body = oob_body s payload in
    let x = packet oob_number type_oob body in
    let four : length word ≡ 4 = length-put_u32 s.kcp.conv in
    let size : length x ≡ 8 + (4 + length payload) =
      omega (arith, length-packet oob_number type_oob body, length-append word payload, four) in
    let (d, ps, made, first, rest) =
      image-Opens l w k (some enc) (oob_request s payload) x v
        (frame-oob l (w.now k) enc s payload headed room)
        (packet-AllBytes oob_number type_oob body
          (AllBytes-append word payload (put_u32-AllBytes s.kcp.conv) bytes))
        (omega (arith, size, room, fits, small)) (no_parity l (w.now k) enc s payload) in
    (
      queued-send_oob s payload with_fec small,
      (
        d,
        made
            ∙ ap (λ z. some (d ∷ (replicate l.dup d ++ z), some enc))
                (only_one l (w.now k) enc s payload ps rest),
        packet_input-opened l clock codec peer d x same first (omega (arith, size))
            ∙ ap (λ z. some z)
                (kcp_input-oob clock codec peer x
                    (flag-packet oob_number type_oob body (omega arith))
                  ∙ ap (λ n. input_oob x (counted_as n peer)) (size ∙ omega arith)
                  ∙ input_oob-packet (counted_as (length payload + 12) peer) word payload four
                      callback),
      ),
    )
