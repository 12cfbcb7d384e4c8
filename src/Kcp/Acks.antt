-- ===== src/Kcp/Acks.antt =====
-- kcp.go: the sender's side of acknowledgements (update_ack, shrink_buf, parse_ack, parse_fastack,
-- parse_una) and ack_push.
pub mod Una
pub mod Rtt
use kcp_go.Prelude.{
  ℕ, ◌+◌, min, max, Bool, true, false, not, ◌&&◌, ◌||◌, none, some, [], ◌∷◌, ◌++◌, leb, ◌==◌,
  if◌then◌else◌, ℤ, pos, ◌+ℤ◌, ◌-ℤ◌, ltz, shr, add32, mul32, bits32, wrap32,
}
use kcp_go.Serial.{itimediff, is_neg, is_pos}
use kcp_go.Ring.{peek, discard, Body, scan_ring}
use kcp_go.Segment.{Segment, segment_zero}
use kcp_go.Kcp.{Kcp, is_zero}
use kcp_go.Kcp.Consts

-- recycleSegment: the payload goes back to the pool.
abbrev pub recycle : Segment → Segment
recycle seg = record seg { payload = [] }

-- One eighth of the way to the sample.
unfoldable pub step_srtt : ℤ → ℤ → ℤ
step_srtt srtt delta = wrap32 (srtt +ℤ shr delta 3)

unfoldable pub abs32 : ℤ → ℤ
abs32 delta = if is_neg delta then wrap32 (pos 0 -ℤ delta) else delta

-- A sample far below the smoothed time has an eighth of the usual weight.
unfoldable pub step_rttvar : ℤ → ℤ → Bool → ℤ
step_rttvar rttvar dist below =
    let gap = wrap32 (dist -ℤ rttvar) in wrap32 (rttvar +ℤ (if below then shr gap 5 else shr gap 2))

-- The smoothed round trip and its variation after a sample.
unfoldable pub smooth : ℤ → ℤ → ℤ → ℤ × ℤ
smooth srtt rttvar rtt =
    let delta = wrap32 (rtt -ℤ srtt) in
    let srtt' = step_srtt srtt delta in
    if is_zero srtt
    then (rtt, shr rtt 1)
    else (srtt', step_rttvar rttvar (abs32 delta) (ltz rtt (wrap32 (srtt' -ℤ rttvar))))

unfoldable pub update_ack : Kcp → ℤ → Kcp
update_ack kcp rtt =
    let (srtt, rttvar) = smooth kcp.rx_srtt kcp.rx_rttvar rtt in
    let rto = add32 (bits32 srtt) (max kcp.interval (mul32 (bits32 rttvar) 4)) in
    record kcp {
      rx_srtt = srtt;
      rx_rttvar = rttvar;
      rx_rto = min (max kcp.rx_minrto rto) Consts.rto_max;
    }

unfoldable pub shrink_buf : Kcp → Kcp
shrink_buf kcp = elim (peek kcp.snd_buf) [
  | some seg ↦ record kcp { snd_una = seg.sn }
  | none ↦ record kcp { snd_una = kcp.snd_nxt }
]

-- The guard of parse_ack and parse_fastack: `sn` is not in flight.
unfoldable pub not_in_flight : Kcp → ℕ → Bool
not_in_flight kcp sn = is_neg (itimediff sn kcp.snd_una) || not (is_neg (itimediff sn kcp.snd_nxt))

unfoldable pub ack_body : ℕ → Body (Unit {0}) Segment
ack_body sn s seg =
    if sn == seg.sn
    then (s, recycle (record seg { acked = 1 }), false)
    else if is_neg (itimediff sn seg.sn)
    then (s, seg, false)
    else (s, seg, true)

unfoldable pub parse_ack : Kcp → ℕ → Kcp
parse_ack kcp sn =
    if not_in_flight kcp sn
    then kcp
    else record kcp { snd_buf = (scan_ring (ack_body sn) tt kcp.snd_buf).1 }

-- The state is whether a counter reached the threshold.
unfoldable pub fastack_body : ℕ → ℕ → ℕ → Body Bool Segment
fastack_body threshold sn ts should seg =
    if is_neg (itimediff sn seg.sn)
    then (should, seg, false)
    else if not (sn == seg.sn)
        && not (is_pos (itimediff seg.ts ts))
        && not (seg.fastack == Consts.max_u32)
    then (should || leb threshold (seg.fastack + 1), record seg { fastack = seg.fastack + 1 }, true)
    else (should, seg, true)

unfoldable pub parse_fastack : Kcp → ℕ → ℕ → Bool × Kcp
parse_fastack kcp sn ts =
    if not_in_flight kcp sn
    then (false, kcp)
    else (let (should, buf) =
          scan_ring (fastack_body (bits32 kcp.fastresend) sn ts) false kcp.snd_buf in
        (should, record kcp { snd_buf = buf }))

unfoldable pub una_body : ℕ → Body ℕ Segment
una_body una count seg =
    if is_pos (itimediff una seg.sn) then (count + 1, recycle seg, true) else (count, seg, false)

unfoldable pub parse_una : Kcp → ℕ → ℕ × Kcp
parse_una kcp una =
    let (count, buf) = scan_ring (una_body una) 0 kcp.snd_buf in
    (count, record kcp { snd_buf = (discard buf count).1 })

unfoldable pub ack_push : Kcp → ℕ → ℕ → Kcp
ack_push kcp sn ts = record kcp { acklist = kcp.acklist ++ record { sn = sn; ts = ts } ∷ [] }
