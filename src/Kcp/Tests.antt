-- ===== src/Kcp/Tests.antt =====
-- kcp.go: the methods on small states, and the theorems at inputs that exercise them.
use kcp_go.Heap.{heap_push, heap_sink}
use kcp_go.Prelude.{
  ℕ, ◌+◌, ◌*◌, ◌≤◌, ◌≡◌, refl, ◌⊎◌, true, false, not, ◌||◌, List, [], ◌∷◌, ◌++◌, map, arith, ◌==◌,
  sub_slice, pos, negsuc, add32, length, ◌<◌,
}
use kcp_go.Bytes.{Bytes}
use kcp_go.Serial.{itimediff, is_neg}
use kcp_go.Snmp.{new_snmp}
use kcp_go.Ring.{RingBuffer, len, held, contents, push, pop, peek, scan_ring, at_index, at, set_at}
use kcp_go.Ring.Bounds.{IsValid}
use kcp_go.Segment.{Segment, zero_segment, encode, read_header, segment_zero}
use kcp_go.Segment.Roundtrip.{FitsWire, header_of, read_header-encode}
use kcp_go.SegmentHeap.{less, heap_len, has, push_segment, pop_segment}
use kcp_go.Kcp.{full, Kcp, World, Clock, new_kcp}
use kcp_go.Kcp.Message.{payloads}
use kcp_go.Kcp.Acks.{smooth, parse_una}
use kcp_go.Kcp.Acks.Una.{unacked, count_acked, parse_una_lem}
use kcp_go.Kcp.Acks.Rtt.{Between, smooth_bounds}
use kcp_go.Kcp.Send.{
  extend_last, fragment_count, new_fragment, push_fragments, queue_fragments, send,
}
use kcp_go.Kcp.Send.Fragments.{cut, Queued, send_message}
use kcp_go.Kcp.Recv.{size_body, peek_size, merge_fragment, move_ready, recv, parse_data}
use kcp_go.Kcp.Recv.Messages.{recv-message}
use kcp_go.Kcp.Recv.Order.{Delivered, move_ready_lem}
use kcp_go.Kcp.Recv.Once.{with_new, parse_data_lem}
use kcp_go.Items.{count, SameItems}
use kcp_go.SegmentHeap.Marks.{IsMarked}
use kcp_go.Kcp.Flush.{fill_window, flush}
use kcp_go.Kcp.Flush.Window.{Filled, fill_window_lem, in_flight, IsSender, fill_window-in_flight}
use kcp_go.Kcp.Flush.Mtu.{AllFit, IsFitting, flush-AllFit}

-- A segment with a number, a fragment count and a payload.
abbrev piece : ℕ → ℕ → Bytes → Segment
piece sn frg payload = record zero_segment { conv = 7; sn = sn; frg = frg; payload = payload }

-- Two segments round the end of the backing slice.
abbrev pair : Segment → Segment → RingBuffer Segment
pair a b = record {
  head = 7;
  tail = 1;
  elements =
      b ∷ zero_segment ∷ zero_segment ∷ zero_segment ∷ zero_segment ∷ zero_segment ∷ zero_segment
      ∷ a ∷ [];
}

abbrev no_segments : RingBuffer Segment
no_segments = record {
  head = 3;
  tail = 3;
  elements =
      zero_segment ∷ zero_segment ∷ zero_segment ∷ zero_segment ∷ zero_segment ∷ zero_segment
      ∷ zero_segment ∷ zero_segment ∷ [];
}

-- Two segments in flight, two queued, a message of two segments received, and a tiny MTU.
abbrev busy : Kcp
busy = record (new_kcp 7) {
  mtu = 28;
  mss = 4;
  snd_una = 4294967294;
  snd_nxt = 0;
  rcv_nxt = 5;
  cwnd = 8;
  snd_buf = pair (piece 4294967294 0 (1 ∷ 2 ∷ [])) (piece 4294967295 0 (3 ∷ []));
  snd_queue = pair (piece 0 1 (4 ∷ 5 ∷ 6 ∷ 7 ∷ [])) (piece 0 0 (8 ∷ []));
  rcv_queue = pair (piece 3 1 (20 ∷ 21 ∷ [])) (piece 4 0 (22 ∷ []));
  rcv_buf = record { segments = piece 6 0 (24 ∷ []) ∷ []; marks = λ sn. sn == 6 };
}

abbrev start : World
start = record { tick = 0; sent = []; snmp = new_snmp }

-- A clock that reads 10 ms more each time.
abbrev ticking : Clock
ticking n = 1000 + 10 * n

busy_queue-IsValid : IsValid busy.snd_queue
unfolding new_kcp
busy_queue-IsValid = omega arith

busy_buf-IsValid : IsValid busy.snd_buf
unfolding new_kcp
busy_buf-IsValid = omega arith

busy_rcv-IsValid : IsValid busy.rcv_queue
unfolding new_kcp
busy_rcv-IsValid = omega arith

serial_wraps : (itimediff 1 4294967295 ≡ pos 2) × (itimediff 4294967295 1 ≡ negsuc 1)
unfolding itimediff
serial_wraps = (refl, refl)

-- A second message waits behind the first: 9 bytes, in three segments.
send-busy :
    map (λ seg. seg.frg) (contents (send busy (1 ∷ 2 ∷ 3 ∷ 4 ∷ 5 ∷ 6 ∷ 7 ∷ 8 ∷ 9 ∷ [])).1.snd_queue)
    ≡ 1 ∷ 0 ∷ 2 ∷ 1 ∷ 0 ∷ []
unfolding send extend_last queue_fragments fragment_count push_fragments new_fragment push len held
    sub_slice new_kcp
send-busy = refl

recv-busy : (recv busy 100).1 ≡ 20 ∷ 21 ∷ 22 ∷ []
unfolding recv peek_size peek scan_ring size_body merge_fragment pop len held sub_slice new_kcp
recv-busy = refl

flush-AllFit_example : AllFit 28 (flush ticking full busy start).2.sent
unfolding new_kcp held sub_slice
flush-AllFit_example =
    flush-AllFit ticking full busy 4 start busy_queue-IsValid busy_buf-IsValid (omega arith)
      (omega arith) (omega arith) (omega arith) tt

fill_window_lem_example : Filled busy (fill_window 2 8 busy).0 (fill_window 2 8 busy).1
unfolding new_kcp
fill_window_lem_example = fill_window_lem 2 8 busy busy_queue-IsValid busy_buf-IsValid (omega arith)

busy-IsSender : IsSender busy
unfolding new_kcp
busy-IsSender = record {
  queue_valid = busy_queue-IsValid;
  buf_valid = busy_buf-IsValid;
  nxt_word = omega arith;
  una_word = omega arith;
  near = omega arith;
}

fill_window-in_flight_example :
    (in_flight (fill_window 2 3 busy).1 ≤ 3)
    × ((3 ≤ in_flight (fill_window 2 3 busy).1)
        ⊎ (contents (fill_window 2 3 busy).1.snd_queue ≡ []))
unfolding new_kcp held sub_slice
fill_window-in_flight_example =
    fill_window-in_flight 2 3 busy busy-IsSender (omega arith) (omega arith)

abbrev nine : Bytes
nine = 1 ∷ 2 ∷ 3 ∷ 4 ∷ 5 ∷ 6 ∷ 7 ∷ 8 ∷ 9 ∷ []

send_message_example : Queued busy nine (send busy nine) (cut true 4 3 3 0 nine)
unfolding new_kcp fragment_count
send_message_example =
    send_message busy nine busy_queue-IsValid (omega arith) refl (omega arith) (omega arith)

recv-message_example :
    ((recv busy 3).0 ≡ pos 3)
    × ((recv busy 3).1 ≡ 20 ∷ 21 ∷ 22 ∷ [])
    × ((q : RingBuffer Segment) × IsValid q
        × (contents q ≡ [])
        × ((recv busy 3).2.rcv_queue
            ≡ (move_ready (heap_len busy.rcv_buf) (record busy { rcv_queue = q })).rcv_queue))
unfolding new_kcp held sub_slice payloads
recv-message_example =
    recv-message busy 3 (piece 3 1 (20 ∷ 21 ∷ [])) (piece 4 0 (22 ∷ []) ∷ []) [] busy_rcv-IsValid
      (omega arith) (omega arith) refl (omega arith)

move_ready_lem_example : (segs : List Segment) × Delivered busy (move_ready 1 busy) segs
unfolding new_kcp
move_ready_lem_example = move_ready_lem 1 busy busy_rcv-IsValid (omega arith)

abbrev fifth : Segment
fifth = piece 5 0 (23 ∷ [])

-- The missing segment makes the one behind it ready too.
parse_data-busy : (parse_data busy fifth).1.rcv_nxt ≡ 7
unfolding parse_data has move_ready heap_len push_segment pop_segment less itimediff push len
    new_kcp heap_push heap_sink
parse_data-busy = refl

busy_rcv-IsMarked : IsMarked busy.rcv_buf
unfolding new_kcp count
busy_rcv-IsMarked sn = omega arith

parse_data_lem_example :
    let outside =
      not (is_neg (itimediff 5 (add32 busy.rcv_nxt busy.rcv_wnd)))
      || is_neg (itimediff 5 busy.rcv_nxt) in
    let (repeat, out) = parse_data busy fifth in
    (outside ≡ true → (repeat ≡ true) × (out ≡ busy))
    × (outside ≡ false
        → (repeat ≡ has busy.rcv_buf 5)
          × ((segs : List Segment) × Delivered busy out segs
              × SameItems (segs ++ out.rcv_buf.segments) (with_new busy.rcv_buf fifth))
          × IsMarked out.rcv_buf
          × (heap_len busy.rcv_buf ≡ 0
              → 5 ≡ busy.rcv_nxt
              → len busy.rcv_queue < busy.rcv_wnd
              → contents out.rcv_queue ≡ contents busy.rcv_queue ++ fifth ∷ []))
unfolding new_kcp
parse_data_lem_example = parse_data_lem busy fifth busy_rcv-IsValid (omega arith) busy_rcv-IsMarked

parse_una_lem_example :
    ((parse_una busy 0).0 ≡ count_acked 0 (contents busy.snd_buf))
    × (contents (parse_una busy 0).1.snd_buf ≡ unacked 0 (contents busy.snd_buf))
    × IsValid (parse_una busy 0).1.snd_buf
    × ((parse_una busy 0).1 ≡ record busy { snd_buf = (parse_una busy 0).1.snd_buf })
parse_una_lem_example = parse_una_lem busy 0 busy_buf-IsValid

smooth_bounds_example : Between 180 200 (smooth (pos 200) (pos 40) (pos 180))
smooth_bounds_example = smooth_bounds 200 40 180 (omega arith) (omega arith) (omega arith)

fifth-FitsWire : FitsWire fifth
fifth-FitsWire = omega arith

read_header-encode_example : read_header (encode fifth ++ 23 ∷ 99 ∷ []) ≡ header_of fifth
read_header-encode_example = read_header-encode fifth (23 ∷ 99 ∷ []) fifth-FitsWire

crowded_box-IsFitting : IsFitting 28 (record { pending = 1 ∷ 2 ∷ 3 ∷ 4 ∷ 5 ∷ []; world = start })
crowded_box-IsFitting = omega arith

-- The last queued segment has room for three of nine bytes.
abbrev streaming : Kcp
streaming = record busy { stream = pos 1 }

send-streaming :
    map (λ seg. length seg.payload) (contents (send streaming nine).1.snd_queue)
    ≡ 4 ∷ 4 ∷ 4 ∷ 2 ∷ []
unfolding send extend_last queue_fragments fragment_count push_fragments new_fragment push len held
    sub_slice new_kcp at set_at at_index
send-streaming = refl
