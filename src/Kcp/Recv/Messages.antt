-- ===== src/Kcp/Recv/Messages.antt =====
-- kcp.go: PeekSize and Recv on a queue that begins with a whole message.
use kcp_go.SegmentHeap.{heap_len}
use kcp_go.Ring.Scan.{scan_ring_refines}
use kcp_go.Ring.Fifo.{length-contents}
use kcp_go.Prelude.{
  ℕ, zero, suc, ◌+◌, ◌<◌, ◌≡◌, sym, ap, ◌∙◌, Option, some, List, [], ◌∷◌, ◌++◌, append-nil,
  append_assoc, arith, ne→==, eq→==, length, length-append, pos, ◌%◌, ◌≤◌, inl, inr, true, ◌==◌,
  le→ltb, ==→eq, Bool-cases, ltz-pos_le, bit_or, refl, Bool, false, ◌&&◌, ltb, leb, if◌then◌else◌,
}
use kcp_go.Bytes.{Bytes}
use kcp_go.Ring.{RingBuffer, contents, pop, peek, scan, len}
use kcp_go.Ring.Bounds.{IsValid, pop-IsValid}
use kcp_go.Ring.Trace.{uncons, pop_refines, peek-pop}
use kcp_go.Segment.{Segment, segment_zero}
use kcp_go.Kcp.{Kcp}
use kcp_go.Kcp.Message.{payloads, IsMessage}
use kcp_go.Kcp.Consts
use kcp_go.Kcp.Recv.{size_body, peek_size, merge_fragment, recv, move_ready, heap_len}

-- Popping a queue that is not empty.
pop-cons :
    (q : RingBuffer Segment) (seg : Segment) (segs : List Segment)
    → IsValid q
    → contents q ≡ seg ∷ segs
    → ((pop q).0 ≡ some seg) × (contents (pop q).1 ≡ segs)
unfolding uncons
pop-cons q seg segs v e =
    let p = pop_refines q v ∙ ap uncons e in
    (
      ap (λ (r : Option Segment × List Segment). r.0) p,
      ap (λ (r : Option Segment × List Segment). r.1) p,
    )

-- Merging takes the message off the queue and appends what it carries.
merge_fragment-message :
    (segs : List Segment) (seg : Segment) (fuel : ℕ) (q : RingBuffer Segment) (out : Bytes)
    (rest : List Segment)
    → IsValid q
    → IsMessage (seg ∷ segs)
    → contents q ≡ seg ∷ segs ++ rest
    → length segs < fuel
    → let (out', q') = merge_fragment fuel q out in
      (out' ≡ out ++ payloads (seg ∷ segs)) × (contents q' ≡ rest) × IsValid q'
unfolding merge_fragment payloads
merge_fragment-message segs seg zero q out rest v m e f = absurd (omega arith)
merge_fragment-message [] seg (suc fuel) q out rest v m e f =
    let p = pop-cons q seg rest v e in
    rw (p.0, eq→== seg.frg 0 m.0, merge_fragment)
      (ap (λ bs. out ++ bs) (sym (append-nil seg.payload)), p.1, pop-IsValid q v)
merge_fragment-message (seg' ∷ segs) seg (suc fuel) q out rest v m e f =
    let p = pop-cons q seg (seg' ∷ segs ++ rest) v e in
    let ih =
      merge_fragment-message segs seg' fuel (pop q).1 (out ++ seg.payload) rest (pop-IsValid q v)
        m.1 p.1 (omega arith) in
    rw (p.0, ne→== seg.frg 0 (omega (arith, m.0)), merge_fragment)
      (ih.0 ∙ append_assoc out seg.payload (seg'.payload ++ payloads segs), ih.1, ih.2)

-- The sizes of a message's segments add up, and the sum stops at its end.
scan-size :
    (segs : List Segment) (seg : Segment) (rest : List Segment) (total : ℕ)
    → IsMessage (seg ∷ segs)
    → (scan size_body total (seg ∷ segs ++ rest)).0 ≡ total + length (payloads (seg ∷ segs))
unfolding scan size_body payloads
scan-size [] seg rest total m =
    rw (eq→== seg.frg 0 m.0) (ap (λ bs. total + length bs) (sym (append-nil seg.payload)))
scan-size (seg' ∷ segs) seg rest total m = rw (ne→== seg.frg 0 (omega (arith, m.0))) (
    scan-size segs seg' rest (total + length seg.payload) m.1
    ∙ omega (arith, length-append seg.payload (seg'.payload ++ payloads segs)))

peek-cons :
    (q : RingBuffer Segment) (seg : Segment) (segs : List Segment)
    → IsValid q
    → contents q ≡ seg ∷ segs
    → peek q ≡ some seg
peek-cons q seg segs v e = peek-pop q ∙ (pop-cons q seg segs v e).0

single_payload :
    (segs : List Segment) (seg : Segment)
    → IsMessage (seg ∷ segs)
    → (seg.frg == 0) ≡ true
    → payloads (seg ∷ segs) ≡ seg.payload
unfolding payloads
single_payload [] seg m e = append-nil seg.payload
single_payload (x ∷ segs) seg m e = absurd (omega (arith, m.0, ==→eq seg.frg 0 e))

-- PeekSize tells the length of the message at the head of the queue, if it has at most 255 segments.
pub peek_size-message :
    (kcp : Kcp) (seg : Segment) (segs rest : List Segment)
    → IsValid kcp.rcv_queue
    → IsMessage (seg ∷ segs)
    → length segs < 255
    → contents kcp.rcv_queue ≡ seg ∷ segs ++ rest
    → peek_size kcp ≡ pos (length (payloads (seg ∷ segs)))
unfolding peek_size
peek_size-message kcp seg segs rest v m few e = elim (Bool-cases (seg.frg == 0)) [
  | inl single ↦
      rw (peek-cons kcp.rcv_queue seg (segs ++ rest) v e, single, peek_size)
        (ap (λ bs. pos (length bs)) (sym (single_payload segs seg m single)))
  | inr several ↦
      rw
        (
          peek-cons kcp.rcv_queue seg (segs ++ rest) v e,
          several,
          le→ltb (len kcp.rcv_queue) ((seg.frg + 1) % 256) enough,
          peek_size,
        )
        (ap pos (
          (scan_ring_refines size_body 0 kcp.rcv_queue v).0
          ∙ ap (λ xs. (scan size_body 0 xs).0) e
          ∙ scan-size segs seg rest 0 m
          ∙ omega arith))
]
  where
    enough : (seg.frg + 1) % 256 ≤ len kcp.rcv_queue
    enough =
        omega (arith, m.0, length-append segs rest, length-contents kcp.rcv_queue v, ap length e)

-- Recv with room for the message at the head of the queue returns its length and its bytes. From the
-- queue it takes that message and nothing else, before it moves up what has become ready.
pub recv-message :
    (kcp : Kcp) (room : ℕ) (seg : Segment) (segs rest : List Segment)
    → IsValid kcp.rcv_queue
    → IsMessage (seg ∷ segs)
    → length segs < 255
    → contents kcp.rcv_queue ≡ seg ∷ segs ++ rest
    → length (payloads (seg ∷ segs)) ≤ room
    → ((recv kcp room).0 ≡ pos (length (payloads (seg ∷ segs))))
      × ((recv kcp room).1 ≡ payloads (seg ∷ segs))
      × ((q : RingBuffer Segment) × IsValid q
          × (contents q ≡ rest)
          × ((recv kcp room).2.rcv_queue
              ≡ (move_ready (heap_len kcp.rcv_buf) (record kcp { rcv_queue = q })).rcv_queue))
unfolding recv
recv-message kcp room seg segs rest v m few e fits =
    let size = peek_size-message kcp seg segs rest v m few e in
    let merged =
      merge_fragment-message segs seg (len kcp.rcv_queue) kcp.rcv_queue [] rest v m e
        (omega (arith, length-append segs rest, length-contents kcp.rcv_queue v, ap length e)) in
    let queue = (merge_fragment (len kcp.rcv_queue) kcp.rcv_queue []).1 in
    let moved = move_ready (heap_len kcp.rcv_buf) (record kcp { rcv_queue = queue }) in
    rw
      (
        size,
        ltz-pos_le (length (payloads (seg ∷ segs))) 0 (omega arith),
        ltz-pos_le room (length (payloads (seg ∷ segs))) fits,
      )
      (
        ap (λ bs. pos (length bs)) merged.0,
        merged.0,
        (
          queue,
          merged.2,
          merged.1,
          telling (ltb (len moved.rcv_queue) moved.rcv_wnd && leb kcp.rcv_wnd (len kcp.rcv_queue))
              moved,
        ),
      )
  where
    telling :
        (b : Bool) (k : Kcp)
        → (if b then record k { probe = bit_or k.probe Consts.ask_tell } else k).rcv_queue
          ≡ k.rcv_queue
    telling true k = refl
    telling false k = refl
