-- ===== src/SegmentHeap.antt =====
-- segmentHeap of kcp.go: the segments that wait for their turn, with a set of their numbers.
pub mod Marks
use kcp_go.Prelude.{ℕ, ◌-◌, Bool, true, false, List, [], ◌==◌, if◌then◌else◌, length, take, get}
use kcp_go.Heap.{heap_push, heap_sink}
use kcp_go.Serial.{itimediff, is_pos}
use kcp_go.Segment.{Segment, segment_zero}

-- The map `marks` is the test whether a number is in it.
pub record SegmentHeap : Type 0 where
  pub segments : List Segment
  pub marks : ℕ → Bool

abbrev pub new_segment_heap : SegmentHeap
new_segment_heap = record { segments = []; marks = λ sn. false }

-- Less(i, j) on the two segments.
unfoldable pub less : Segment → Segment → Bool
less a b = is_pos (itimediff b.sn a.sn)

unfoldable pub heap_len : SegmentHeap → ℕ
heap_len h = length h.segments

unfoldable pub has : SegmentHeap → ℕ → Bool
has h sn = h.marks sn

-- heap.Push(h, seg)
unfoldable pub push_segment : SegmentHeap → Segment → SegmentHeap
push_segment h seg = record {
  segments = heap_push less h.segments seg;
  marks = λ sn. if sn == seg.sn then true else h.marks sn;
}

-- heap.Pop(h) on a heap that is not empty: the last item behind `heap_sink`.
unfoldable pub pop_segment : SegmentHeap → Segment × SegmentHeap
pop_segment h =
    let n = length h.segments - 1 in
    let sunk = heap_sink less h.segments in
    let x = get sunk n in
    (x, record { segments = take n sunk; marks = λ sn. if sn == x.sn then false else h.marks sn })
