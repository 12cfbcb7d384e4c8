-- ===== src/Kcp/Timer.antt =====
-- kcp.go: Update and Check, the settings, and ResetRTO.
use kcp_go.Prelude.{
  ℕ, ◌+◌, ◌-◌, ◌*◌, ◌^◌, min, max, Bool, true, false, not, ◌||◌, leb, ◌==◌, if◌then◌else◌, length,
  ℤ, pos, negsuc, pos_part, ltz, lez, u32, add32, sub32, bits32, wrap32,
}
use kcp_go.Serial.{itimediff, is_neg, is_pos}
use kcp_go.Ring.{Body, for_each, scan_ring}
use kcp_go.Segment.{overhead, Segment, segment_zero}
use kcp_go.Kcp.{full, Kcp, World, Clock, current_ms, is_zero}
use kcp_go.Kcp.Consts
use kcp_go.Kcp.Flush.{flush}

-- A flush time this far off, in either direction, is set anew.
abbrev pub is_far : ℤ → Bool
is_far d = lez (pos 10000) d || ltz d (negsuc 9999)

unfoldable pub update : Clock → Kcp → World → Kcp × World
update clock kcp w =
    let (current, w1) = current_ms clock w in
    let kcp1 = if kcp.updated == 0 then record kcp { updated = 1; ts_flush = current } else kcp in
    let far = is_far (itimediff current kcp1.ts_flush) in
    let kcp2 = if far then record kcp1 { ts_flush = current } else kcp1 in
    let next = add32 kcp2.ts_flush kcp2.interval in
    let due = record kcp2 {
      ts_flush =
          if not (is_neg (itimediff current next)) then add32 current kcp2.interval else next;
    } in
    let (_, kcp3, w3) = flush clock full due w1 in
    if far || not (is_neg (itimediff current kcp1.ts_flush)) then (kcp3, w3) else (kcp2, w1)

-- The loop of Check: the nearest resend time, and whether one has passed.
unfoldable pub check_body : ℕ → Body (ℤ × Bool) Segment
check_body current (tm, passed) seg =
    let diff = itimediff seg.resendts current in
    if not (is_pos diff)
    then ((tm, true), seg, false)
    else ((if ltz diff tm then diff else tm, passed), seg, true)

unfoldable pub check : Clock → Kcp → World → ℕ × World
check clock kcp w =
    let (current, w') = current_ms clock w in
    let ts_flush = if is_far (itimediff current kcp.ts_flush) then current else kcp.ts_flush in
    let tm_flush = itimediff ts_flush current in
    let ((tm_packet, passed), _) =
      scan_ring (check_body current) (pos (2 ^ 31 - 1), false) kcp.snd_buf in
    let soonest = if lez tm_flush tm_packet then bits32 tm_flush else bits32 tm_packet in
    let minimal = min soonest kcp.interval in
    if kcp.updated == 0 || not (is_neg (itimediff current ts_flush)) || passed
    then (current, w')
    else (add32 current minimal, w')

unfoldable pub larger_body : Body ℕ Segment
larger_body size seg = (max size (overhead + length seg.payload), seg, true)

-- SetMtu: 0, or -1 for an MTU that the header alone fills.
unfoldable pub set_mtu : Kcp → ℤ → ℤ × Kcp
set_mtu kcp (negsuc n) = (negsuc 0, kcp)
set_mtu kcp (pos mtu) =
    let (size1, _) = for_each larger_body ((mtu + overhead) * 3) kcp.snd_buf in
    let (size2, _) = for_each larger_body size1 kcp.snd_queue in
    if leb mtu overhead
    then (negsuc 0, kcp)
    else (pos 0, record kcp { mtu = u32 mtu; mss = sub32 (u32 mtu) overhead; buffer = size2 })

-- NoDelay: a negative argument leaves its setting alone.
unfoldable pub no_delay : Kcp → ℤ → ℤ → ℤ → ℤ → Kcp
no_delay kcp nodelay interval resend nc =
    let a = if is_neg nodelay then kcp else record kcp {
      nodelay = bits32 nodelay;
      rx_minrto = if is_zero nodelay then Consts.rto_min else Consts.rto_ndl;
    } in
    let b =
      if is_neg interval
      then a
      else record a { interval = max 10 (min 5000 (pos_part interval)) } in
    let c = if is_neg resend then b else record b { fastresend = wrap32 resend } in
    if is_neg nc then c else record c { nocwnd = wrap32 nc }

unfoldable pub wnd_size : Kcp → ℤ → ℤ → Kcp
wnd_size kcp sndwnd rcvwnd =
    let a = if is_pos sndwnd then record kcp { snd_wnd = bits32 sndwnd } else kcp in
    if is_pos rcvwnd then record a { rcv_wnd = bits32 rcvwnd } else a

unfoldable pub reset_body : ℕ → ℕ → Body (Unit {0}) Segment
reset_body rx_rto current s seg = (s, record seg { rto = rx_rto; resendts = current }, true)

unfoldable pub reset_rto : Clock → Kcp → World → Kcp × World
reset_rto clock kcp w =
    let (current, w') = current_ms clock w in
    (record kcp { snd_buf = (for_each (reset_body kcp.rx_rto current) tt kcp.snd_buf).1 }, w')
