-- ===== src/Session.antt =====
-- sess.go: UDPSession between its user, its KCP machine and the network. A method that takes the lock
-- is one step. The Reed-Solomon codec, the checksum and the clock are parameters.
pub mod Read
pub mod Write
pub mod Streaming
pub mod Mtu
pub mod Create
pub mod Listener
mod Tests
use kcp_go.Prelude.{
  ℕ, zero, suc, ◌+◌, ◌%◌, ◌^◌, min, Bool, true, not, ◌&&◌, ◌||◌, Option, none, some, List, [], ◌∷◌,
  ◌++◌, ltb, leb, ◌==◌, if◌then◌else◌, length, take, drop, make, ℤ, pos, pos_part, ◌-ℤ◌, ltz, lez,
  nat_zero,
}
use kcp_go.Bytes.{Bytes, put_u32, u16_at}
use kcp_go.Segment.{overhead}
use kcp_go.Fec.{type_data, type_parity, type_oob, max_packet_size, flag, Codec}
use kcp_go.Fec.Decoder.{FecDecoder, new_fec_decoder, decode}
use kcp_go.Kcp.{PacketType, regular, fec, full, Kcp, World, Clock, is_zero}
use kcp_go.Kcp.Recv.{peek_size, recv}
use kcp_go.Kcp.Send.{send, wait_snd}
use kcp_go.Kcp.Flush.{flush}
use kcp_go.Kcp.Timer.{set_mtu}
use kcp_go.Kcp.Input.{input}
use kcp_go.Packet.{Security, sealing, Opened, too_short, corrupt, opened, panicked, open_packet}

abbrev pub fec_header_size_plus2 : ℕ
fec_header_size_plus2 = 8

abbrev pub conv_size : ℕ
conv_size = 4

-- `unread` is what `input`, the reader over `recvbuf`, has left. The events are the channels of one
-- place; `oob_inbox` is what the callback for out-of-band data was called with, where there is one.
pub record Session : Type 0 where
  pub kcp : Kcp
  pub world : World
  pub unread : Bytes
  pub fec_decoder : Option FecDecoder
  pub has_fec_encoder : Bool
  pub security : Security
  pub header_size : ℕ
  pub ack_no_delay : Bool
  pub write_delay : Bool
  pub read_event : Bool
  pub write_event : Bool
  pub has_oob_callback : Bool
  pub oob_inbox : List Bytes
  pub kcp_in_errors : ℕ
  pub in_csum_errors : ℕ
  pub in_errs : ℕ
  pub oob_packets : ℕ
  pub in_pkts : ℕ
  pub in_bytes : ℕ

abbrev pub aead_overhead_of : Security → ℕ
aead_overhead_of (sealing a) = a.aead_overhead
aead_overhead_of s = 0

-- SetMtu: whether KCP took the MTU that is left below the headers.
unfoldable pub set_session_mtu : Session → ℤ → Bool × Session
set_session_mtu s mtu =
    let capped = if ltz (pos max_packet_size) mtu then pos max_packet_size else mtu in
    let inner = capped -ℤ pos s.header_size -ℤ pos (aead_overhead_of s.security) in
    let (ret, kcp) = set_mtu s.kcp inner in (is_zero ret, record s { kcp = kcp })

-- notifyReadIfAvailableLocked
unfoldable pub notify_read_if_available : Session → Session
notify_read_if_available s =
    if ltb 0 (length s.unread) || ltz (pos 0) (peek_size s.kcp)
    then record s { read_event = true }
    else s

-- readLocked for a buffer of length `room`: what was copied, or `none` if nothing was ready.
unfoldable pub read_locked : Session → ℕ → Option Bytes × Session
read_locked s room =
    let size = peek_size s.kcp in
    let (_, direct, kcp) = recv s.kcp room in
    let (_, whole, kcp') = recv s.kcp (pos_part size) in
    if ltb 0 (length s.unread)
    then (
      some (take room s.unread),
      notify_read_if_available (record s { unread = drop room s.unread }),
    )
    else if lez size (pos 0)
    then (none, s)
    else if lez size (pos room)
    then (some direct, notify_read_if_available (record s { kcp = kcp }))
    else (
      some (take room whole),
      notify_read_if_available (record s { kcp = kcp'; unread = drop room whole }),
    )

-- The inner loop of writeBuffersLocked: pieces of mss bytes, each given to Send, whose result is not
-- looked at.
unfoldable pub send_pieces : ℕ → Bytes → Kcp → Kcp
send_pieces zero b kcp = kcp
send_pieces (suc fuel) b kcp =
    let rest = send_pieces fuel (drop kcp.mss b) (send kcp (take kcp.mss b)).1 in
    if leb (length b) kcp.mss then (send kcp b).1 else rest

unfoldable pub send_buffers : List Bytes → Kcp → Kcp
unfolding send_pieces
send_buffers [] kcp = kcp
send_buffers (b ∷ bs) kcp = send_buffers bs (send_pieces (suc (length b)) b kcp)

abbrev pub total_length : List Bytes → ℕ
total_length [] = 0
total_length (b ∷ bs) = length b + total_length bs

-- writeBuffersLocked: how many bytes were taken, or `none` if the send window is full.
unfoldable pub write_buffers_locked : Clock → Session → List Bytes → Option ℕ × Session
write_buffers_locked clock s v =
    let kcp = send_buffers v s.kcp in
    let (_, flushed, world) = flush clock full kcp s.world in
    if leb s.kcp.snd_wnd (wait_snd s.kcp)
    then (none, s)
    else if leb kcp.snd_wnd (wait_snd kcp) || not s.write_delay
    then (some (total_length v), record s { kcp = flushed; world = world })
    else (some (total_length v), record s { kcp = kcp })

-- update of an open session: a flush, and the interval after which the scheduler calls it again.
unfoldable pub update_session : Clock → Session → ℕ × Session
update_session clock s =
    let (interval, kcp, world) = flush clock full s.kcp s.world in
    (
      interval,
      record s {
        kcp = kcp;
        world = world;
        write_event = if ltb (wait_snd kcp) kcp.snd_wnd then true else s.write_event;
      },
    )

-- The wake-ups after a packet.
unfoldable pub notify_after_input : Session → Session
notify_after_input s = record s {
  read_event = if ltz (pos 0) (peek_size s.kcp) then true else s.read_event;
  write_event = if ltb (wait_snd s.kcp) s.kcp.snd_wnd then true else s.write_event;
}

-- One call of KCP's Input, and the count of those that failed.
unfoldable pub feed : Clock → PacketType → Bytes → ℕ × Session → ℕ × Session
feed clock kind b (errors, s) =
    let (ret, kcp, world) = input clock b kind s.ack_no_delay s.kcp s.world in
    (if is_zero ret then errors else errors + 1, record s { kcp = kcp; world = world })

-- The recovered packets, each a size that counts itself and as many bytes.
unfoldable pub feed_recovered : Clock → List Bytes → ℕ × Session → ℕ × Session
unfolding feed
feed_recovered clock [] es = es
feed_recovered clock (r ∷ rs) es =
    let size = u16_at r 0 in
    feed_recovered clock rs (
      if leb 2 (length r) && leb size (length r) && leb 2 size
      then feed clock fec (drop 2 (take size r)) es
      else es)

unfoldable pub count_kcp_errors : ℕ → Session → Session
count_kcp_errors n s =
    if ltb 0 n then record s { kcp_in_errors = (s.kcp_in_errors + n) % 2 ^ 64 } else s

-- The decoder of the session, made for one data and one parity shard if there is none yet.
unfoldable pub decoder_of : Codec → Session → Option FecDecoder
decoder_of codec s = elim s.fec_decoder [
  | some dec ↦ some dec
  | none ↦ new_fec_decoder codec (pos 1) (pos 1)
]

-- Decoding: what was recovered, and the session with the decoder afterwards. A missing decoder is the
-- crash on a nil pointer, which only a codec that refuses one data and one parity shard could cause.
unfoldable pub decode_packet : Codec → Bytes → Session → List Bytes × Session
unfolding decoder_of
decode_packet codec b s = elim (decoder_of codec s) [
  | none ↦ ([], s)
  | some dec ↦
      let (recovered, dec') = decode codec dec b in
      (recovered, record s { fec_decoder = some dec' })
]

unfoldable pub input_fec : Clock → Codec → Bytes → Session → Session
unfolding feed feed_recovered decode_packet count_kcp_errors notify_after_input
input_fec clock codec b s =
    let fed =
      if flag b == type_data
      then feed clock regular (drop fec_header_size_plus2 b) (0, s)
      else (0, s) in
    let (recovered, decoded) = decode_packet codec b fed.1 in
    let (errors, done) = feed_recovered clock recovered (fed.0, decoded) in
    if ltb (length b) fec_header_size_plus2
    then record s { in_errs = (s.in_errs + 1) % 2 ^ 64 }
    else count_kcp_errors errors (notify_after_input done)

unfoldable pub input_oob : Bytes → Session → Session
input_oob b s =
    let counted = record s { oob_packets = (s.oob_packets + 1) % 2 ^ 64 } in
    if s.has_oob_callback
    then record counted {
      oob_inbox = s.oob_inbox ++ drop (fec_header_size_plus2 + conv_size) b ∷ [];
    }
    else counted

unfoldable pub input_plain : Clock → Bytes → Session → Session
unfolding feed count_kcp_errors notify_after_input
input_plain clock b s =
    let (errors, fed) = feed clock regular b (0, s) in
    notify_after_input (count_kcp_errors errors fed)

-- kcpInput counts the packet; the 16 bits at offset 4 tell the kinds of packets apart.
abbrev pub count_packet : Bytes → Session → Session
count_packet b s = record s {
  in_pkts = (s.in_pkts + 1) % 2 ^ 64;
  in_bytes = (s.in_bytes + length b) % 2 ^ 64;
}

unfoldable pub kcp_input : Clock → Codec → Bytes → Session → Session
unfolding input_fec input_oob input_plain
kcp_input clock codec b s =
    if flag b == type_data || flag b == type_parity
    then input_fec clock codec b (count_packet b s)
    else if flag b == type_oob
    then input_oob b (count_packet b s)
    else input_plain clock b (count_packet b s)

-- What a packet needs at least, behind encryption.
abbrev pub min_packet_size : ℕ
min_packet_size = min overhead (fec_header_size_plus2 + conv_size)

-- packetInput on what the first half made of the packet; `none` is a panic.
unfoldable pub accept_opened : Clock → Codec → Opened → Session → Option Session
unfolding kcp_input
accept_opened clock codec too_short s = some s
accept_opened clock codec corrupt s =
    some (record s { in_csum_errors = (s.in_csum_errors + 1) % 2 ^ 64 })
accept_opened clock codec panicked s = none
accept_opened clock codec (opened b) s =
    if ltb (length b) min_packet_size
    then some (count_kcp_errors 1 s)
    else some (kcp_input clock codec b s)

unfoldable pub packet_input : Clock → Codec → (Bytes → ℕ) → Bytes → Session → Option Session
unfolding accept_opened
packet_input clock codec checksum b s =
    accept_opened clock codec (open_packet s.security checksum b) s

-- The KCP output callback up to the queue: datagrams of a header and more, behind room for the headers.
unfoldable pub output_packet : Session → Bytes → Option Bytes
output_packet s b = if leb overhead (length b) then some (make s.header_size ++ b) else none

-- SendOOB of an open session: the packet for the queue.
pub data OobResult : Type 0 where
  refused_no_fec : OobResult
  refused_too_large : OobResult
  queued : Bytes → OobResult

unfoldable pub send_oob : Session → Bytes → OobResult
send_oob s payload =
    if not s.has_fec_encoder
    then refused_no_fec
    else if ltb s.kcp.mtu (conv_size + length payload)
    then refused_too_large
    else queued (make s.header_size ++ (put_u32 s.kcp.conv ++ payload))
