-- ===== src/Kcp/Acks/Una.antt =====
-- kcp.go: what parse_una and parse_ack do to the segments in flight.
use kcp_go.Prelude.{
  ℕ, suc, ◌+◌, ◌≤◌, ◌≡◌, refl, ap₂, ◌∙◌, inl, inr, Bool, List, [], ◌∷◌, arith, ◌==◌, if◌then◌else◌,
  Bool-cases, length, drop,
}
use kcp_go.Serial.{itimediff, is_neg, is_pos}
use kcp_go.Ring.{contents, scan, scan_ring}
use kcp_go.Ring.Bounds.{IsValid}
use kcp_go.Ring.Grow.{discard_lem}
use kcp_go.Ring.Scan.{scan_ring_refines}
use kcp_go.Segment.{Segment, segment_zero}
use kcp_go.Kcp.{Kcp}
use kcp_go.Kcp.Acks.{recycle, una_body, parse_una}

-- A segment that `una` acknowledges.
abbrev pub is_before : ℕ → Segment → Bool
is_before una seg = is_pos (itimediff una seg.sn)

-- The segments from the first on that `una` does not acknowledge, and how many stand before it.
unfoldable pub unacked : ℕ → List Segment → List Segment
unacked una [] = []
unacked una (seg ∷ segs) = if is_before una seg then unacked una segs else seg ∷ segs

unfoldable pub count_acked : ℕ → List Segment → ℕ
count_acked una [] = 0
count_acked una (seg ∷ segs) = if is_before una seg then suc (count_acked una segs) else 0

scan-una :
    (una : ℕ) (segs : List Segment) (n : ℕ)
    → ((scan (una_body una) n segs).0 ≡ n + count_acked una segs)
      × (drop (count_acked una segs) (scan (una_body una) n segs).1 ≡ unacked una segs)
      × (count_acked una segs ≤ length segs)
unfolding scan una_body unacked count_acked
scan-una una [] n = (omega arith, refl, omega arith)
scan-una una (seg ∷ segs) n = elim (Bool-cases (is_before una seg)) [
  | inl e ↦
      let ih = scan-una una segs (n + 1) in rw e (ih.0 ∙ omega arith, ih.1, omega (arith, ih.2))
  | inr e ↦ rw e (omega arith, refl, omega arith)
]

-- parse_una takes off snd_buf exactly the segments at its head that `una` acknowledges, leaves the
-- others as they are and in order, and returns how many went. No other field changes.
pub parse_una_lem :
    (kcp : Kcp) (una : ℕ)
    → IsValid kcp.snd_buf
    → ((parse_una kcp una).0 ≡ count_acked una (contents kcp.snd_buf))
      × (contents (parse_una kcp una).1.snd_buf ≡ unacked una (contents kcp.snd_buf))
      × IsValid (parse_una kcp una).1.snd_buf
      × ((parse_una kcp una).1 ≡ record kcp { snd_buf = (parse_una kcp una).1.snd_buf })
unfolding parse_una
parse_una_lem kcp una v =
    let s = scan_ring_refines (una_body una) 0 kcp.snd_buf v in
    let l = scan-una una (contents kcp.snd_buf) 0 in
    let buf = (scan_ring (una_body una) 0 kcp.snd_buf).1 in
    let count = (scan_ring (una_body una) 0 kcp.snd_buf).0 in
    let e : count ≡ count_acked una (contents kcp.snd_buf) = s.0 ∙ l.0 ∙ omega arith in
    let d = discard_lem buf count s.2 in (e, d.1 ∙ ap₂ drop e s.1 ∙ l.1, d.2, refl)

-- What parse_ack does to the plain list: it marks the segment with that number, unless one with a
-- later number comes first.
unfoldable mark : ℕ → List Segment → List Segment
mark sn [] = []
mark sn (seg ∷ segs) =
    if sn == seg.sn
    then recycle (record seg { acked = 1 }) ∷ segs
    else if is_neg (itimediff sn seg.sn)
    then seg ∷ segs
    else seg ∷ mark sn segs
