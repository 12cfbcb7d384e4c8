-- ===== src/Session/Tests.antt =====
-- sess.go: sessions in small states, and the theorems at them.
use kcp_go.Prelude.{
  ℕ, ◌+◌, ◌*◌, ◌≤◌, ◌<◌, ◌≡◌, refl, ◌⊎◌, true, false, none, some, [], ◌∷◌, arith, ◌==◌,
  if◌then◌else◌, length, sub_slice, pos,
}
use kcp_go.Bytes.{Bytes}
use kcp_go.Snmp.{new_snmp}
use kcp_go.Ring.{RingBuffer, held}
use kcp_go.Ring.Bounds.{IsValid}
use kcp_go.Segment.{Segment, zero_segment}
use kcp_go.Kcp.{full, Kcp, World, Clock, new_kcp}
use kcp_go.Kcp.Send.{wait_snd}
use kcp_go.Kcp.Flush.{flush}
use kcp_go.Packet.{insecure, open_packet, security_header}
use kcp_go.Session.{Session, set_session_mtu, write_buffers_locked}
use kcp_go.Session.Write.{Pieces, write_buffers_locked_lem}
use kcp_go.Session.Streaming.{IsStreaming, write_stream}
use kcp_go.Kcp.Send.Stream.{Streamed}
use kcp_go.Session.Mtu.{HasRoom, set_session_mtu_lem}
use kcp_go.Session.Listener.{Listener, find_session, listener_input}
use kcp_go.Session.Listener.Isolation.{IsListener}
use kcp_go.Session.Listener.Isolation.Steps.{Handles}
use kcp_go.Session.Listener.Isolation.Input.{listener_input-Handles}
use kcp_go.Fec.{Codec}

abbrev piece : ℕ → ℕ → Bytes → Segment
piece sn frg payload = record zero_segment { conv = 7; sn = sn; frg = frg; payload = payload }

-- A ring that starts at its last place.
abbrev wrapped : Segment → Segment → RingBuffer Segment
wrapped a b = record { head = 3; tail = 1; elements = b ∷ zero_segment ∷ zero_segment ∷ a ∷ [] }

-- A message of two segments is received, another queued, and a segment carries 4 bytes.
abbrev machine : Kcp
machine = record (new_kcp 7) {
  mtu = 28;
  mss = 4;
  snd_buf = wrapped (piece 0 0 (1 ∷ [])) (piece 1 0 (2 ∷ []));
  snd_nxt = 2;
  snd_queue = wrapped (piece 0 1 (4 ∷ 5 ∷ 6 ∷ 7 ∷ [])) (piece 0 0 (8 ∷ []));
  rcv_queue = wrapped (piece 3 1 (20 ∷ 21 ∷ [])) (piece 4 0 (22 ∷ []));
  rcv_nxt = 5;
}

abbrev start : World
start = record { tick = 0; sent = []; snmp = new_snmp }

abbrev ticking : Clock
ticking n = 1000 + 10 * n

abbrev open_session : Session
open_session = record {
  kcp = machine;
  world = start;
  unread = [];
  fec_decoder = none;
  has_fec_encoder = false;
  security = insecure;
  header_size = 8;
  ack_no_delay = false;
  write_delay = false;
  read_event = false;
  write_event = false;
  has_oob_callback = false;
  oob_inbox = [];
  kcp_in_errors = 0;
  in_csum_errors = 0;
  in_errs = 0;
  oob_packets = 0;
  in_pkts = 0;
  in_bytes = 0;
}

machine_queue-IsValid : IsValid machine.snd_queue
unfolding new_kcp
machine_queue-IsValid = omega arith

machine_buf-IsValid : IsValid machine.snd_buf
unfolding new_kcp
machine_buf-IsValid = omega arith

write_buffers_locked_lem_example :
    (machine.snd_wnd ≤ wait_snd machine
      → write_buffers_locked ticking open_session ((1 ∷ 2 ∷ 3 ∷ 4 ∷ 5 ∷ []) ∷ [])
        ≡ (none, open_session))
    × (wait_snd machine < machine.snd_wnd
        → ((write_buffers_locked ticking open_session ((1 ∷ 2 ∷ 3 ∷ 4 ∷ 5 ∷ []) ∷ [])).0 ≡ some 5)
          × ((k : Kcp) × Pieces machine k (1 ∷ 2 ∷ 3 ∷ 4 ∷ 5 ∷ [])
              × (((write_buffers_locked ticking open_session ((1 ∷ 2 ∷ 3 ∷ 4 ∷ 5 ∷ []) ∷ [])).1.kcp
                    ≡ k)
                  ⊎ ((write_buffers_locked ticking open_session
                        ((1 ∷ 2 ∷ 3 ∷ 4 ∷ 5 ∷ []) ∷ [])).1.kcp
                      ≡ (flush ticking full k start).1))))
unfolding new_kcp
write_buffers_locked_lem_example =
    write_buffers_locked_lem ticking open_session ((1 ∷ 2 ∷ 3 ∷ 4 ∷ 5 ∷ []) ∷ [])
      machine_queue-IsValid refl (omega arith)

abbrev stream_session : Session
stream_session = record open_session { kcp = record machine { stream = pos 1 } }

stream_session-IsStreaming : IsStreaming stream_session.kcp
unfolding new_kcp held sub_slice
stream_session-IsStreaming = record {
  queue = machine_queue-IsValid;
  fits = omega arith;
  room = omega arith;
  mode = refl;
}

-- Three of the five bytes fill up the segment that waits.
write_stream_example :
    (machine.snd_wnd ≤ wait_snd stream_session.kcp
      → write_buffers_locked ticking stream_session ((1 ∷ 2 ∷ 3 ∷ 4 ∷ 5 ∷ []) ∷ [])
        ≡ (none, stream_session))
    × (wait_snd stream_session.kcp < machine.snd_wnd
        → ((write_buffers_locked ticking stream_session ((1 ∷ 2 ∷ 3 ∷ 4 ∷ 5 ∷ []) ∷ [])).0 ≡ some 5)
          × ((k : Kcp) × Streamed stream_session.kcp k (1 ∷ 2 ∷ 3 ∷ 4 ∷ 5 ∷ [])
              × (((write_buffers_locked ticking stream_session
                      ((1 ∷ 2 ∷ 3 ∷ 4 ∷ 5 ∷ []) ∷ [])).1.kcp
                    ≡ k)
                  ⊎ ((write_buffers_locked ticking stream_session
                        ((1 ∷ 2 ∷ 3 ∷ 4 ∷ 5 ∷ []) ∷ [])).1.kcp
                      ≡ (flush ticking full k start).1))))
unfolding new_kcp
write_stream_example =
    write_stream ticking stream_session ((1 ∷ 2 ∷ 3 ∷ 4 ∷ 5 ∷ []) ∷ []) stream_session-IsStreaming

set_session_mtu_lem_example :
    ((set_session_mtu open_session (pos 9000)).0 ≡ true
      → HasRoom (set_session_mtu open_session (pos 9000)).1
        × (24 < (set_session_mtu open_session (pos 9000)).1.kcp.mtu))
    × ((set_session_mtu open_session (pos 9000)).0 ≡ false
        → (set_session_mtu open_session (pos 9000)).1.kcp ≡ machine)
set_session_mtu_lem_example = set_session_mtu_lem open_session (pos 9000)

abbrev refusing : Codec
refusing = record {
  accepts = λ d p. false;
  encode_shards = λ d p columns. none;
  reconstruct = λ d p shards. none;
}

-- Two sessions, of the addresses 50 and 60.
abbrev serving : Listener
serving = record {
  security = insecure;
  data_shards = pos 0;
  parity_shards = pos 0;
  sessions = (60, 1) ∷ (50, 0) ∷ [];
  store =
      λ id. record { session = open_session; remote = if id == 0 then 50 else 60; closed = false };
  next_id = 2;
  accepts = 1 ∷ [];
  dead = false;
  in_csum_errors = 0;
}

serving-IsListener : IsListener serving
unfolding find_session
serving-IsListener = record {
  entries = ((omega arith, refl, refl), ((omega arith, refl, refl), tt));
  keyed = (refl, (refl, tt));
  within = omega arith;
}

-- A datagram of another conversation, with the number 0, from the address of the second session.
abbrev stranger : Bytes
stranger =
    9 ∷ 0 ∷ 0 ∷ 0 ∷ 81 ∷ 0 ∷ 128 ∷ 0 ∷ 0 ∷ 0 ∷ 0 ∷ 0 ∷ 0 ∷ 0 ∷ 0 ∷ 0 ∷ 0 ∷ 0 ∷ 0 ∷ 0 ∷ 1 ∷ 0 ∷ 0 ∷ 0
    ∷ 5 ∷ []

listener_input-Handles_example :
    Handles serving 60 (listener_input ticking refusing length start stranger 60 serving)
unfolding open_packet security_header
listener_input-Handles_example =
    listener_input-Handles ticking refusing length start stranger 60 serving serving-IsListener
      (omega arith) (λ e. cc)
