-- ===== src/Kcp/Recv/Order.antt =====
-- kcp.go: segments reach the receive queue in order, and only as far as it has room.
use kcp_go.Prelude.{
  ℕ, zero, suc, ◌+◌, ◌%◌, ◌^◌, ◌≤◌, ◌<◌, max, ◌≡◌, refl, sym, ap, ◌∙◌, inl, inr, Bool, true, false,
  ◌&&◌, List, [], ◌∷◌, ◌++◌, append-nil, append_assoc, arith, ltb, ◌==◌, ltb→lt, ==→eq, Bool-cases,
  length, add32,
}
use kcp_go.Ring.{len, contents, push}
use kcp_go.Ring.Bounds.{IsValid, push-IsValid}
use kcp_go.Ring.Trace.{push_refines}
use kcp_go.Segment.{Segment, segment_zero}
use kcp_go.SegmentHeap.{SegmentHeap, heap_len, pop_segment}
use kcp_go.Kcp.{Kcp}
use kcp_go.Kcp.Recv.{move_ready}

-- Numbers that follow one another from `nxt` on.
abbrev pub IsInOrder : ℕ → List Segment → Type 0
IsInOrder nxt [] = Unit
IsInOrder nxt (seg ∷ segs) = (seg.sn ≡ nxt) × IsInOrder (add32 nxt 1) segs

-- `out` has the segments `segs` more in its receive queue than `kcp`.
pub record Delivered (kcp out : Kcp) (segs : List Segment) : Type 0 where
  pub appended : contents out.rcv_queue ≡ contents kcp.rcv_queue ++ segs
  pub in_order : IsInOrder kcp.rcv_nxt segs
  pub advanced : out.rcv_nxt ≡ (kcp.rcv_nxt + length segs) % 2 ^ 32
  pub bounded : len out.rcv_queue ≤ max (len kcp.rcv_queue) kcp.rcv_wnd
  pub valid : IsValid out.rcv_queue
  pub untouched :
      out ≡ record kcp { rcv_queue = out.rcv_queue; rcv_nxt = out.rcv_nxt; rcv_buf = out.rcv_buf }

none-Delivered :
    (kcp : Kcp) (h : SegmentHeap)
    → IsValid kcp.rcv_queue
    → kcp.rcv_nxt < 2 ^ 32
    → Delivered kcp (record kcp { rcv_buf = h }) []
none-Delivered kcp h v lt = record {
  appended = sym (append-nil (contents kcp.rcv_queue));
  in_order = tt;
  advanced = omega arith;
  bounded = omega arith;
  valid = v;
  untouched = refl;
}

abbrev pub next_state : Kcp → Kcp
next_state kcp = record kcp {
  rcv_buf = (pop_segment kcp.rcv_buf).1;
  rcv_queue = push kcp.rcv_queue (pop_segment kcp.rcv_buf).0;
  rcv_nxt = add32 kcp.rcv_nxt 1;
}

one-Delivered :
    (kcp out : Kcp) (segs : List Segment)
    → IsValid kcp.rcv_queue
    → (pop_segment kcp.rcv_buf).0.sn ≡ kcp.rcv_nxt
    → len kcp.rcv_queue < kcp.rcv_wnd
    → Delivered (next_state kcp) out segs
    → Delivered kcp out ((pop_segment kcp.rcv_buf).0 ∷ segs)
one-Delivered kcp out segs v e room d =
    let seg = (pop_segment kcp.rcv_buf).0 in
    let p = push_refines kcp.rcv_queue seg v in
    record {
      appended =
          d.appended
          ∙ ap (λ xs. xs ++ segs) p.0
          ∙ append_assoc (contents kcp.rcv_queue) (seg ∷ []) segs;
      in_order = (e, d.in_order);
      advanced = d.advanced ∙ omega arith;
      bounded = omega (arith, d.bounded, p.1);
      valid = d.valid;
      untouched = d.untouched;
    }

&&-true : (a b : Bool) → (a && b) ≡ true → (a ≡ true) × (b ≡ true)
&&-true true b e = (refl, e)
&&-true false b e = cc

-- Whatever the heap holds: the segments that move to the receive queue have the numbers from rcv_nxt
-- on, one after the other, rcv_nxt advances by as many, and the queue does not grow past the receive
-- window. Only the queue, the heap and rcv_nxt change.
pub move_ready_lem :
    (fuel : ℕ) (kcp : Kcp)
    → IsValid kcp.rcv_queue
    → kcp.rcv_nxt < 2 ^ 32
    → (segs : List Segment) × Delivered kcp (move_ready fuel kcp) segs
unfolding move_ready
move_ready_lem zero kcp v lt = ([], none-Delivered kcp kcp.rcv_buf v lt)
move_ready_lem (suc fuel) kcp v lt = elim (Bool-cases (heap_len kcp.rcv_buf == 0)) [
  | inl empty ↦ ([], rw (empty, move_ready) (none-Delivered kcp kcp.rcv_buf v lt))
  | inr some_left ↦
      elim (Bool-cases
        ((pop_segment kcp.rcv_buf).0.sn == kcp.rcv_nxt && ltb (len kcp.rcv_queue) kcp.rcv_wnd)) [
          | inr stop ↦ ([], rw (some_left, stop, move_ready) (none-Delivered kcp _ v lt))
          | inl go ↦
              let both =
                &&-true ((pop_segment kcp.rcv_buf).0.sn == kcp.rcv_nxt)
                  (ltb (len kcp.rcv_queue) kcp.rcv_wnd) go in
              let ih =
                move_ready_lem fuel (next_state kcp) (push-IsValid kcp.rcv_queue _ v)
                  (omega arith) in
              (
                (pop_segment kcp.rcv_buf).0 ∷ ih.0,
                rw (some_left, go, move_ready)
                    (one-Delivered kcp (move_ready fuel (next_state kcp)) ih.0 v
                      (==→eq (pop_segment kcp.rcv_buf).0.sn kcp.rcv_nxt both.0)
                      (ltb→lt (len kcp.rcv_queue) kcp.rcv_wnd both.1) ih.1),
              )
        ]
]
