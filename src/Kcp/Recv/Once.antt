-- ===== src/Kcp/Recv/Once.antt =====
-- kcp.go: a segment that arrives is kept once, and none is lost on the way to the receive queue.
use kcp_go.Prelude.{
  ℕ, zero, suc, ◌+◌, ◌^◌, ◌<◌, ◌≡◌, refl, ap, ◌∙◌, inl, inr, Bool, true, false, not, ◌&&◌, ◌||◌,
  List, [], ◌∷◌, ◌++◌, arith, ltb, ◌==◌, if◌then◌else◌, ==→ne, Bool-cases, add32, sym, lt→ltb,
  eq→==, length-eq_zero,
}
use kcp_go.Items.{count, SameItems, count-append, one_if}
use kcp_go.Serial.{itimediff, is_neg}
use kcp_go.Ring.{len, contents, push}
use kcp_go.Ring.Bounds.{IsValid, push-IsValid}
use kcp_go.Ring.Trace.{push_refines}
use kcp_go.Segment.{Segment, segment_zero}
use kcp_go.Heap.{heap_push, heap_sink, up, down, swap}
use kcp_go.SegmentHeap.{SegmentHeap, heap_len, has, push_segment, pop_segment}
use kcp_go.SegmentHeap.Marks.{
  IsMarked, push_segment-items, pop_segment-items, push_segment-IsMarked, pop_segment-IsMarked,
  pop_segment-free, has_number,
}
use kcp_go.Kcp.{Kcp}
use kcp_go.Kcp.Recv.{move_ready, parse_data}
use kcp_go.Kcp.Recv.Order.{Delivered, next_state, move_ready_lem}

-- The queue and the heap of `out` together hold what those of `kcp` hold, and the marks are right.
record Conserved (kcp out : Kcp) : Type 0 where
  items :
      (p : Segment → Bool)
      → count p (contents out.rcv_queue) + count p out.rcv_buf.segments
        ≡ count p (contents kcp.rcv_queue) + count p kcp.rcv_buf.segments
  marked : IsMarked out.rcv_buf

next_state-items :
    (kcp : Kcp) (p : Segment → Bool)
    → IsValid kcp.rcv_queue
    → 0 < heap_len kcp.rcv_buf
    → count p (contents (next_state kcp).rcv_queue) + count p (next_state kcp).rcv_buf.segments
      ≡ count p (contents kcp.rcv_queue) + count p kcp.rcv_buf.segments
unfolding count
next_state-items kcp p v some_ =
    let seg = (pop_segment kcp.rcv_buf).0 in
    let pushed : count p (contents (next_state kcp).rcv_queue)
        ≡ count p (contents kcp.rcv_queue ++ seg ∷ []) =
      ap (count p) (push_refines kcp.rcv_queue seg v).0 in
    omega (
      arith,
      pushed,
      count-append p (contents kcp.rcv_queue) (seg ∷ []),
      pop_segment-items kcp.rcv_buf p some_,
    )

move_ready-Conserved :
    (fuel : ℕ) (kcp : Kcp)
    → IsValid kcp.rcv_queue
    → IsMarked kcp.rcv_buf
    → Conserved kcp (move_ready fuel kcp)
unfolding move_ready
move_ready-Conserved zero kcp v m = record { items = λ p. refl; marked = m }
move_ready-Conserved (suc fuel) kcp v m = elim (Bool-cases (heap_len kcp.rcv_buf == 0)) [
  | inl empty ↦ rw (empty, move_ready) (record { items = λ p. refl; marked = m })
  | inr some_left ↦
      let seg = (pop_segment kcp.rcv_buf).0 in
      let rest = (pop_segment kcp.rcv_buf).1 in
      let some_ : 0 < heap_len kcp.rcv_buf =
        omega (arith, ==→ne (heap_len kcp.rcv_buf) 0 some_left) in
      let m' = pop_segment-IsMarked kcp.rcv_buf some_ m in
      elim (Bool-cases (seg.sn == kcp.rcv_nxt && ltb (len kcp.rcv_queue) kcp.rcv_wnd)) [
        | inr stop ↦
            rw (some_left, stop, move_ready)
              (record {
                items = λ p.
                    omega
                      (arith, pop_segment-items kcp.rcv_buf p some_, push_segment-items rest seg p);
                marked = push_segment-IsMarked rest seg m' (pop_segment-free kcp.rcv_buf);
              })
        | inl go ↦
            let ih =
              move_ready-Conserved fuel (next_state kcp) (push-IsValid kcp.rcv_queue _ v) m' in
            rw (some_left, go, move_ready)
              (record {
                items = λ p. ih.items p ∙ next_state-items kcp p v some_;
                marked = ih.marked;
              })
      ]
]

-- What the heap holds once the segment has come: the segment too, if its number is new.
abbrev pub with_segment : SegmentHeap → Segment → SegmentHeap
with_segment h seg = if has h seg.sn then h else push_segment h seg

abbrev pub with_new : SegmentHeap → Segment → List Segment
with_new h seg = if has h seg.sn then h.segments else seg ∷ h.segments

with_segment-items :
    (h : SegmentHeap) (seg : Segment)
    → IsMarked h
    → SameItems (with_segment h seg).segments (with_new h seg) × IsMarked (with_segment h seg)
unfolding count
with_segment-items h seg m = elim (Bool-cases (has h seg.sn)) [
  | inl e ↦ rw e ((λ p. refl), m)
  | inr e ↦ rw e ((λ p. push_segment-items h seg p), push_segment-IsMarked h seg m e)
]

-- A segment alone in the heap, which is next in order and has room in the queue, moves there.
alone_moves :
    (kcp : Kcp) (marks : ℕ → Bool) (seg : Segment)
    → (seg.sn == kcp.rcv_nxt && ltb (len kcp.rcv_queue) kcp.rcv_wnd) ≡ true
    → let alone = push_segment (record { segments = []; marks = marks }) seg in
      (move_ready (heap_len alone) (record kcp { rcv_buf = alone })).rcv_queue
      ≡ push kcp.rcv_queue seg
unfolding move_ready push_segment pop_segment heap_len heap_push heap_sink up down swap
alone_moves kcp marks seg go = rw (go, move_ready) refl

not_marked : (b : Bool) → one_if b ≡ 0 → b ≡ false
not_marked true e = cc
not_marked false e = refl

next_moves :
    (kcp : Kcp) (seg : Segment)
    → IsValid kcp.rcv_queue
    → IsMarked kcp.rcv_buf
    → heap_len kcp.rcv_buf ≡ 0
    → seg.sn ≡ kcp.rcv_nxt
    → len kcp.rcv_queue < kcp.rcv_wnd
    → let kept = with_segment kcp.rcv_buf seg in
      contents (move_ready (heap_len kept) (record kcp { rcv_buf = kept })).rcv_queue
      ≡ contents kcp.rcv_queue ++ seg ∷ []
unfolding heap_len count has
next_moves kcp seg v m none_waits e room =
    let segments : kcp.rcv_buf.segments ≡ [] = length-eq_zero kcp.rcv_buf.segments none_waits in
    let free : kcp.rcv_buf.marks seg.sn ≡ false =
      not_marked (kcp.rcv_buf.marks seg.sn)
        (sym (m seg.sn) ∙ ap (count (has_number seg.sn)) segments) in
    let go : (seg.sn == kcp.rcv_nxt && ltb (len kcp.rcv_queue) kcp.rcv_wnd) ≡ true =
      rw (eq→== seg.sn kcp.rcv_nxt e, lt→ltb (len kcp.rcv_queue) kcp.rcv_wnd room) refl in
    let after =
      λ (h : SegmentHeap). (move_ready (heap_len h) (record kcp { rcv_buf = h })).rcv_queue in
    let empty : kcp.rcv_buf ≡ record { segments = []; marks = kcp.rcv_buf.marks } =
      ap {A = List Segment} {B = SegmentHeap}
        (λ xs. record { segments = xs; marks = kcp.rcv_buf.marks }) segments in
    ap (λ b. contents (after (if b then kcp.rcv_buf else push_segment kcp.rcv_buf seg))) free
    ∙ ap (λ h. contents (after (push_segment h seg))) empty
    ∙ ap contents (alone_moves kcp kcp.rcv_buf.marks seg go)
    ∙ (push_refines kcp.rcv_queue seg v).0

-- A segment outside the window changes nothing, and counts as a repeat. Any other counts as a
-- repeat if its number is marked. The segments that move to the receive queue then, in order and
-- within the window, and those that stay in the heap are together the heap's segments and, if its
-- number was not marked, the new one. So it is kept once, a repeat not at all, and nothing is lost.
-- A number is marked still if and only if it is in the heap, where it is once. A segment that is
-- next in order, with an empty heap and room in the queue, moves to the queue at once.
pub parse_data_lem :
    (kcp : Kcp) (seg : Segment)
    → IsValid kcp.rcv_queue
    → kcp.rcv_nxt < 2 ^ 32
    → IsMarked kcp.rcv_buf
    → let outside =
        not (is_neg (itimediff seg.sn (add32 kcp.rcv_nxt kcp.rcv_wnd)))
        || is_neg (itimediff seg.sn kcp.rcv_nxt) in
      let (repeat, out) = parse_data kcp seg in
      (outside ≡ true → (repeat ≡ true) × (out ≡ kcp))
      × (outside ≡ false
          → (repeat ≡ has kcp.rcv_buf seg.sn)
            × ((segs : List Segment) × Delivered kcp out segs
                × SameItems (segs ++ out.rcv_buf.segments) (with_new kcp.rcv_buf seg))
            × IsMarked out.rcv_buf
            × (heap_len kcp.rcv_buf ≡ 0
                → seg.sn ≡ kcp.rcv_nxt
                → len kcp.rcv_queue < kcp.rcv_wnd
                → contents out.rcv_queue ≡ contents kcp.rcv_queue ++ seg ∷ []))
unfolding parse_data
parse_data_lem kcp seg v lt m = (
  (λ e. rw e (refl, refl)),
  (λ e.
      let kept = with_segment kcp.rcv_buf seg in
      let d = move_ready_lem (heap_len kept) (record kcp { rcv_buf = kept }) v lt in
      let w = with_segment-items kcp.rcv_buf seg m in
      let c = move_ready-Conserved (heap_len kept) (record kcp { rcv_buf = kept }) v w.1 in
      let out = move_ready (heap_len kept) (record kcp { rcv_buf = kept }) in
      rw e (
        refl,
        (
          d.0,
          record {
            appended = d.1.appended;
            in_order = d.1.in_order;
            advanced = d.1.advanced;
            bounded = d.1.bounded;
            valid = d.1.valid;
            untouched = d.1.untouched;
          },
          (λ p.
              let queue : count p (contents out.rcv_queue)
                  ≡ count p (contents kcp.rcv_queue ++ d.0) =
                ap (count p) d.1.appended in
              omega (
                arith,
                queue,
                count-append p (contents kcp.rcv_queue) d.0,
                count-append p d.0 out.rcv_buf.segments,
                c.items p,
                w.0 p,
              )),
        ),
        c.marked,
        (λ none_waits next room. next_moves kcp seg v m none_waits next room),
      )),
)
