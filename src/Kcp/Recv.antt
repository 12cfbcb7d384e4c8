-- ===== src/Kcp/Recv.antt =====
-- kcp.go: the receiver's side (PeekSize, Recv, parse_data, wnd_unused).
pub mod Messages
pub mod Order
pub mod Once
use kcp_go.Prelude.{
  ℕ, zero, suc, ◌+◌, ◌-◌, ◌%◌, ◌^◌, bit_or, Bool, true, false, not, ◌&&◌, ◌||◌, none, some, [],
  ◌++◌, ltb, leb, ◌==◌, if◌then◌else◌, length, ℤ, pos, negsuc, ltz, add32,
}
use kcp_go.Bytes.{Bytes}
use kcp_go.Serial.{itimediff, is_neg}
use kcp_go.Ring.{RingBuffer, len, push, pop, peek, Body, scan_ring}
use kcp_go.Segment.{Segment, segment_zero}
use kcp_go.SegmentHeap.{heap_len, has, push_segment, pop_segment}
use kcp_go.Kcp.{Kcp}
use kcp_go.Kcp.Consts

unfoldable pub size_body : Body ℕ Segment
size_body total seg = (total + length seg.payload, seg, not (seg.frg == 0))

-- -1 if no whole message is there. `seg.frg + 1` is a sum of two uint8.
unfoldable pub peek_size : Kcp → ℤ
peek_size kcp = elim (peek kcp.rcv_queue) [
  | none ↦ negsuc 0
  | some seg ↦
      if seg.frg == 0
      then pos (length seg.payload)
      else if ltb (len kcp.rcv_queue) ((seg.frg + 1) % 256)
      then negsuc 0
      else pos (scan_ring size_body 0 kcp.rcv_queue).0
]

-- Pops segments up to the one that ends a message, and appends what they carry. Each round takes an
-- element, so the length of the queue is enough fuel.
unfoldable pub merge_fragment : ℕ → RingBuffer Segment → Bytes → Bytes × RingBuffer Segment
merge_fragment zero q out = (out, q)
merge_fragment (suc fuel) q out = elim (pop q).0 [
  | none ↦ (out, (pop q).1)
  | some seg ↦ elim (seg.frg == 0) [
    | true ↦ (out ++ seg.payload, (pop q).1)
    | false ↦ merge_fragment fuel (pop q).1 (out ++ seg.payload)
  ]
]

-- Moves segments from rcv_buf to rcv_queue while they are next in order and the queue has room.
unfoldable pub move_ready : ℕ → Kcp → Kcp
move_ready zero kcp = kcp
move_ready (suc fuel) kcp = elim (heap_len kcp.rcv_buf == 0) [
  | true ↦ kcp
  | false ↦
      let (seg, rest) = pop_segment kcp.rcv_buf in
      let next = record kcp {
        rcv_buf = rest;
        rcv_queue = push kcp.rcv_queue seg;
        rcv_nxt = add32 kcp.rcv_nxt 1;
      } in
      elim (seg.sn == kcp.rcv_nxt && ltb (len kcp.rcv_queue) kcp.rcv_wnd) [
        | true ↦ move_ready fuel next
        | false ↦ record kcp { rcv_buf = push_segment rest seg }
      ]
]

-- The buffer's length comes in; the bytes that are copied to its start, and the result, go out.
unfoldable pub recv : Kcp → ℕ → ℤ × Bytes × Kcp
recv kcp room =
    let peeksize = peek_size kcp in
    let fast_recover = leb kcp.rcv_wnd (len kcp.rcv_queue) in
    let (out, queue) = merge_fragment (len kcp.rcv_queue) kcp.rcv_queue [] in
    let moved = move_ready (heap_len kcp.rcv_buf) (record kcp { rcv_queue = queue }) in
    let told = record moved { probe = bit_or moved.probe Consts.ask_tell } in
    if is_neg peeksize
    then (negsuc 0, [], kcp)
    else if ltz (pos room) peeksize
    then (negsuc 1, [], kcp)
    else (
      pos (length out),
      out,
      if ltb (len moved.rcv_queue) moved.rcv_wnd && fast_recover then told else moved,
    )

-- True for a segment outside the window or received before. The pool's copy of the payload is the
-- payload.
unfoldable pub parse_data : Kcp → Segment → Bool × Kcp
parse_data kcp newseg =
    let kept = if has kcp.rcv_buf newseg.sn then kcp.rcv_buf else push_segment kcp.rcv_buf newseg in
    if not (is_neg (itimediff newseg.sn (add32 kcp.rcv_nxt kcp.rcv_wnd)))
      || is_neg (itimediff newseg.sn kcp.rcv_nxt)
    then (true, kcp)
    else (has kcp.rcv_buf newseg.sn, move_ready (heap_len kept) (record kcp { rcv_buf = kept }))

unfoldable pub wnd_unused : Kcp → ℕ
wnd_unused kcp =
    if ltb (len kcp.rcv_queue) kcp.rcv_wnd then (kcp.rcv_wnd - len kcp.rcv_queue) % 2 ^ 16 else 0
