-- ===== src/SegmentHeap/Marks.antt =====
-- kcp.go: the segment heap keeps what it is given, and its marks are the numbers in it.
use kcp_go.Heap.{heap_sink}
use kcp_go.Prelude.{
  ℕ, ◌+◌, ◌-◌, ◌<◌, ◌≡◌, ap, ◌∙◌, inl, inr, Bool, false, arith, ◌==◌, ==→eq, Bool-cases, length,
  ◌≤◌, refl, true, if◌then◌else◌, ==_refl,
}
use kcp_go.Items.{one_if, count, count-take_last}
use kcp_go.Heap.Items.{heap_push-items, heap_sink-items}
use kcp_go.Segment.{Segment, segment_zero}
use kcp_go.SegmentHeap.{SegmentHeap, less, heap_len, has, push_segment, pop_segment, heap_sink}

-- Whether a segment has the number `sn`.
abbrev pub has_number : ℕ → Segment → Bool
has_number sn seg = sn == seg.sn

-- A marked number is in the heap once, and one that is not marked is not there.
abbrev pub IsMarked : SegmentHeap → Type 0
IsMarked h = (sn : ℕ) → count (has_number sn) h.segments ≡ one_if (h.marks sn)

pub push_segment-items :
    (h : SegmentHeap) (seg : Segment) (p : Segment → Bool)
    → count p (push_segment h seg).segments ≡ one_if (p seg) + count p h.segments
unfolding push_segment
push_segment-items h seg p = heap_push-items less h.segments seg p

pub pop_segment-items :
    (h : SegmentHeap) (p : Segment → Bool)
    → 0 < heap_len h
    → count p h.segments ≡ one_if (p (pop_segment h).0) + count p (pop_segment h).1.segments
unfolding pop_segment heap_len
pop_segment-items h p some_ =
    let n = length h.segments - 1 in
    let s = heap_sink-items less h.segments p some_ in
    let last = count-take_last p (heap_sink less h.segments) n (omega (arith, s.0, some_)) in
    omega (arith, s.1, last)

pub push_segment-IsMarked :
    (h : SegmentHeap) (seg : Segment)
    → IsMarked h
    → has h seg.sn ≡ false
    → IsMarked (push_segment h seg)
unfolding push_segment has
push_segment-IsMarked h seg v new sn = elim (Bool-cases (sn == seg.sn)) [
  | inl e ↦
      let marked : h.marks sn ≡ false = ap h.marks (==→eq sn seg.sn e) ∙ new in
      let c : count (has_number sn) h.segments ≡ 0 = v sn ∙ ap one_if marked in
      let p : one_if (has_number sn seg) ≡ 1 = ap one_if e in
      rw e (omega (arith, p, c, heap_push-items less h.segments seg (has_number sn)))
  | inr e ↦
      let p : one_if (has_number sn seg) ≡ 0 = ap one_if e in
      rw e (omega (arith, p, v sn, heap_push-items less h.segments seg (has_number sn)))
]

pub pop_segment-marks :
    (h : SegmentHeap) (sn : ℕ)
    → has (pop_segment h).1 sn ≡ (if sn == (pop_segment h).0.sn then false else h.marks sn)
unfolding pop_segment has
pop_segment-marks h sn = refl

one_if_bound : (b : Bool) → one_if b ≤ 1
one_if_bound true = omega arith
one_if_bound false = omega arith

pub pop_segment-IsMarked :
    (h : SegmentHeap) → 0 < heap_len h → IsMarked h → IsMarked (pop_segment h).1
unfolding has
pop_segment-IsMarked h some_ v sn =
    let items = pop_segment-items h (has_number sn) some_ in
    elim (Bool-cases (sn == (pop_segment h).0.sn)) [
      | inl e ↦
          let mark : one_if ((pop_segment h).1.marks sn) ≡ 0 =
            ap one_if (rw e at (pop_segment-marks h sn)) in
          let p : one_if (has_number sn (pop_segment h).0) ≡ 1 = ap one_if e in
          omega (arith, items, mark, p, v sn, one_if_bound (h.marks sn))
      | inr e ↦
          let mark : one_if ((pop_segment h).1.marks sn) ≡ one_if (h.marks sn) =
            ap one_if (rw e at (pop_segment-marks h sn)) in
          let p : one_if (has_number sn (pop_segment h).0) ≡ 0 = ap one_if e in
          omega (arith, items, mark, p, v sn)
    ]

-- The number that was popped is free again.
pub pop_segment-free : (h : SegmentHeap) → has (pop_segment h).1 (pop_segment h).0.sn ≡ false
pop_segment-free h = rw (==_refl (pop_segment h).0.sn) at (pop_segment-marks h (pop_segment h).0.sn)
