-- ===== src/Kcp/Flush.antt =====
-- kcp.go: flush, one definition for each of its six phases, and makeSpace.
-- The bytes between `buffer` and `ptr` are `pending`. Counters of one call are plain numbers: they
-- are at most the number of segments.
pub mod Window
pub mod Mtu
use kcp_go.Prelude.{
  ℕ, zero, suc, ◌+◌, ◌/◌, min, max, bit_and, bit_or, Bool, true, false, not, ◌&&◌, ◌||◌, none, some,
  List, [], ◌∷◌, ◌++◌, ltb, leb, ◌==◌, if◌then◌else◌, length, ℤ, pos, ltz, add32, sub32, mul32,
  bits32,
}
use kcp_go.Bytes.{Bytes}
use kcp_go.Serial.{itimediff, is_neg, is_pos}
use kcp_go.Ring.{RingBuffer, len, push, pop, Body, scan_ring}
use kcp_go.Snmp.{
  Snmp, increase_out_segs, add_lost_segs, add_fast_retrans_segs, add_early_retrans_segs,
  add_retrans_segs, store_ring_buffers,
}
use kcp_go.Segment.{overhead, Segment, zero_segment, encode, segment_zero}
use kcp_go.Kcp.{FlushType, ack_only, full, AckItem, Kcp, World, Clock, current_ms, is_zero}
use kcp_go.Kcp.Consts
use kcp_go.Kcp.Recv.{wnd_unused}

pub record Outbox : Type 0 where
  pub pending : Bytes
  pub world : World

-- kcp.output(buffer, size)
abbrev pub output : World → Bytes → World
output w b = record w { sent = w.sent ++ b ∷ [] }

unfoldable pub make_space : ℕ → ℕ → Outbox → Outbox
make_space mtu space o =
    if ltb mtu (length o.pending + space)
    then record { pending = []; world = output o.world o.pending }
    else o

-- seg.encode(ptr), with the payload that is copied behind the header.
unfoldable pub write_segment : Segment → Bytes → Outbox → Outbox
write_segment seg body o = record {
  pending = o.pending ++ encode seg ++ body;
  world = record o.world { snmp = increase_out_segs o.world.snmp };
}

-- The segment that the control messages share.
unfoldable pub flush_template : Kcp → Segment
flush_template kcp = record zero_segment {
  conv = kcp.conv;
  cmd = Consts.cmd_ack;
  wnd = wnd_unused kcp;
  una = kcp.rcv_nxt;
}

-- Phase 1, over the acks that are left. The last of them is always sent.
unfoldable pub flush_acks : ℕ → ℕ → List AckItem → Segment × Outbox → Segment × Outbox
flush_acks mtu rcv_nxt [] (seg, o) = (seg, o)
flush_acks mtu rcv_nxt (ack ∷ acks) (seg, o) =
    let spaced = make_space mtu overhead o in
    let seg' = record seg { sn = ack.sn; ts = ack.ts } in
    flush_acks mtu rcv_nxt acks (
      if not (is_neg (itimediff ack.sn rcv_nxt)) || length acks == 0
      then (seg', write_segment seg' [] spaced)
      else (seg, spaced))

-- Phase 2.
unfoldable pub flush_probe : Clock → Kcp → World → Kcp × World
flush_probe clock kcp w =
    let (current, w') = current_ms clock w in
    let started =
      if ltb kcp.probe_wait Consts.probe_init then Consts.probe_init else kcp.probe_wait in
    let longer = min (add32 started (started / 2)) Consts.probe_limit in
    if not (kcp.rmt_wnd == 0)
    then (record kcp { ts_probe = 0; probe_wait = 0 }, w)
    else if kcp.probe_wait == 0
    then (
      record kcp { probe_wait = Consts.probe_init; ts_probe = add32 current Consts.probe_init },
      w',
    )
    else if not (is_neg (itimediff current kcp.ts_probe))
    then (
      record kcp {
        probe_wait = longer;
        ts_probe = add32 current longer;
        probe = bit_or kcp.probe Consts.ask_send;
      },
      w',
    )
    else (kcp, w')

-- Phase 3, for one of the two probe flags.
unfoldable pub flush_command : ℕ → Bool → ℕ → Segment × Outbox → Segment × Outbox
flush_command mtu asked cmd (seg, o) =
    let seg' = record seg { cmd = cmd } in
    if asked then (seg', write_segment seg' [] (make_space mtu overhead o)) else (seg, o)

-- The effective window of phase 4.
unfoldable pub send_window : Kcp → ℕ
send_window kcp =
    let cwnd = min kcp.snd_wnd kcp.rmt_wnd in if is_zero kcp.nocwnd then min kcp.cwnd cwnd else cwnd

-- Phase 4: moves segments into snd_buf while the window has room, and counts them. Each round takes
-- a queued segment, so the queue's length is enough fuel.
unfoldable pub fill_window : ℕ → ℕ → Kcp → ℕ × Kcp
fill_window zero cwnd kcp = (0, kcp)
fill_window (suc fuel) cwnd kcp =
    elim (not (is_neg (itimediff kcp.snd_nxt (add32 kcp.snd_una cwnd)))) [
      | true ↦ (0, kcp)
      | false ↦ elim (pop kcp.snd_queue).0 [
        | none ↦ (0, kcp)
        | some seg ↦
            let newseg = record seg { conv = kcp.conv; cmd = Consts.cmd_push; sn = kcp.snd_nxt } in
            let (count, kcp') = fill_window fuel cwnd (record kcp {
              snd_queue = (pop kcp.snd_queue).1;
              snd_buf = push kcp.snd_buf newseg;
              snd_nxt = add32 kcp.snd_nxt 1;
            }) in
            (count + 1, kcp')
      ]
    ]

-- What the loop of phase 5 keeps.
pub record Resend : Type 0 where
  pub box : Outbox
  pub current : ℕ
  pub change : ℕ
  pub lost_segs : ℕ
  pub fast_retrans_segs : ℕ
  pub early_retrans_segs : ℕ
  pub next_update : ℕ
  pub dead : Bool

-- Why a segment is sent in phase 5.
pub data Reason : Type 0 where
  initial fast early timeout keep : Reason

unfoldable pub resend_threshold : ℤ → ℕ
resend_threshold fastresend = if ltz (pos 0) fastresend then bits32 fastresend else Consts.max_u32

unfoldable pub reason : ℕ → ℕ → ℕ → Segment → Reason
reason resent new_segs current seg =
    let marked = not (seg.fastack == Consts.max_u32) in
    if seg.xmit == 0
    then initial
    else if leb resent seg.fastack && marked
    then fast
    else if ltb 0 seg.fastack && marked && new_segs == 0
    then early
    else if not (is_neg (itimediff current seg.resendts))
    then timeout
    else keep

-- The timers and counters of a segment that is about to be sent.
unfoldable pub rearm : Reason → ℕ → ℕ → ℕ → Segment → Segment
rearm initial rx_rto nodelay current seg = record seg {
  rto = rx_rto;
  resendts = add32 current rx_rto;
}
rearm fast rx_rto nodelay current seg = record seg {
  fastack = Consts.max_u32;
  rto = rx_rto;
  resendts = add32 current rx_rto;
}
rearm early rx_rto nodelay current seg = record seg {
  fastack = Consts.max_u32;
  rto = rx_rto;
  resendts = add32 current rx_rto;
}
rearm timeout rx_rto nodelay current seg =
    let rto = add32 seg.rto (if nodelay == 0 then rx_rto else rx_rto / 2) in
    record seg { rto = rto; fastack = 0; resendts = add32 current rto }
rearm keep rx_rto nodelay current seg = seg

unfoldable pub tally : Reason → Resend → Resend
tally initial s = s
tally fast s = record s { change = s.change + 1; fast_retrans_segs = s.fast_retrans_segs + 1 }
tally early s = record s { change = s.change + 1; early_retrans_segs = s.early_retrans_segs + 1 }
tally timeout s = record s { lost_segs = s.lost_segs + 1 }
tally keep s = s

abbrev pub needsend : Reason → Bool
needsend keep = false
needsend initial = true
needsend fast = true
needsend early = true
needsend timeout = true

-- Writes a segment that is due: reads the clock again, stamps it, makes space, encodes it.
unfoldable pub transmit : Clock → Kcp → Segment → Resend → Segment → Resend × Segment
transmit clock kcp template s seg =
    let (current, w) = current_ms clock s.box.world in
    let stamped = record seg {
      xmit = add32 seg.xmit 1;
      ts = current;
      wnd = template.wnd;
      una = template.una;
    } in
    let spaced =
      make_space kcp.mtu (overhead + length seg.payload)
        (record { pending = s.box.pending; world = w }) in
    (
      record s {
        box = write_segment stamped seg.payload spaced;
        current = current;
        dead = s.dead || leb kcp.dead_link stamped.xmit;
      },
      stamped,
    )

-- The nearest timeout.
unfoldable pub nearest : Resend → Segment → Resend
nearest s seg =
    let rto = itimediff seg.resendts s.current in
    if is_pos rto && ltb (bits32 rto) s.next_update
    then record s { next_update = bits32 rto }
    else s

unfoldable pub resend_body : Clock → Kcp → Segment → ℕ → ℕ → Body Resend Segment
resend_body clock kcp template resent new_segs s seg =
    let why = reason resent new_segs s.current seg in
    let armed = rearm why kcp.rx_rto kcp.nodelay s.current seg in
    let (s', seg') =
      if needsend why then transmit clock kcp template (tally why s) armed else (s, armed) in
    if seg.acked == 1 then (s, seg, true) else (nearest s' seg', seg', true)

-- Phase 6: the counters.
unfoldable pub count_resends : Resend → Snmp → Snmp
count_resends s snmp =
    let a = if ltb 0 s.lost_segs then add_lost_segs snmp s.lost_segs else snmp in
    let b = if ltb 0 s.fast_retrans_segs then add_fast_retrans_segs a s.fast_retrans_segs else a in
    let c =
      if ltb 0 s.early_retrans_segs then add_early_retrans_segs b s.early_retrans_segs else b in
    let sum = s.lost_segs + s.fast_retrans_segs + s.early_retrans_segs in
    if ltb 0 sum then add_retrans_segs c sum else c

-- Phase 6: the congestion window, from the window that phase 4 used.
unfoldable pub update_cwnd : Kcp → ℕ → ℕ → Resend → Kcp
update_cwnd kcp cwnd resent s =
    let thresh = max (sub32 kcp.snd_nxt kcp.snd_una / 2) Consts.thresh_min in
    let a =
      if ltb 0 s.change
      then record kcp {
        ssthresh = thresh;
        cwnd = add32 thresh resent;
        incr = mul32 (add32 thresh resent) kcp.mss;
      }
      else kcp in
    let b =
      if ltb 0 s.lost_segs
      then record a { ssthresh = max (cwnd / 2) Consts.thresh_min; cwnd = 1; incr = kcp.mss }
      else a in
    let c = if ltb b.cwnd 1 then record b { cwnd = 1; incr = kcp.mss } else b in
    if is_zero kcp.nocwnd then c else kcp

-- The last output of a flush, and the lengths that it publishes.
unfoldable pub flush_rest : Kcp → Outbox → World
flush_rest kcp o =
    let w = if ltb 0 (length o.pending) then output o.world o.pending else o.world in
    record w {
      snmp = store_ring_buffers w.snmp (len kcp.snd_queue) (len kcp.rcv_queue) (len kcp.snd_buf);
    }

abbrev pub is_full_flush : FlushType → Bool
is_full_flush ack_only = false
is_full_flush full = true

-- Phases 1 to 3: the control messages.
unfoldable pub flush_control : Clock → Kcp → World → Segment × Outbox × Kcp
flush_control clock kcp w =
    let (seg1, o1) =
      flush_acks kcp.mtu kcp.rcv_nxt kcp.acklist
        (flush_template kcp, record { pending = []; world = w }) in
    let (kcp2, w2) = flush_probe clock (record kcp { acklist = [] }) o1.world in
    let (seg3, o3) =
      flush_command kcp.mtu (not (bit_and kcp2.probe Consts.ask_send == 0)) Consts.cmd_wask
        (seg1, record o1 { world = w2 }) in
    let (seg4, o4) =
      flush_command kcp.mtu (not (bit_and kcp2.probe Consts.ask_tell == 0)) Consts.cmd_wins
        (seg3, o3) in
    (seg4, o4, record kcp2 { probe = 0 })

-- Phase 5.
unfoldable pub flush_data :
    Clock → FlushType → Kcp → Segment → ℕ → Outbox → Resend × RingBuffer Segment
flush_data clock kind kcp template new_segs o =
    let (current, w) = current_ms clock o.world in
    let start : Resend = record {
      box = record o { world = w };
      current = current;
      change = 0;
      lost_segs = 0;
      fast_retrans_segs = 0;
      early_retrans_segs = 0;
      next_update = kcp.interval;
      dead = false;
    } in
    if is_full_flush kind
    then scan_ring (resend_body clock kcp template (resend_threshold kcp.fastresend) new_segs) start
        kcp.snd_buf
    else (start, kcp.snd_buf)

unfoldable pub flush : Clock → FlushType → Kcp → World → ℕ × Kcp × World
flush clock kind kcp w =
    let (template, o, kcp1) = flush_control clock kcp w in
    let cwnd = send_window kcp1 in
    let (new_segs, kcp2) = fill_window (len kcp1.snd_queue) cwnd kcp1 in
    let (s, buf) = flush_data clock kind kcp2 template new_segs o in
    let kcp3 = record kcp2 {
      snd_buf = buf;
      state = if s.dead then Consts.max_u32 else kcp2.state;
    } in
    let kcp4 = update_cwnd kcp3 cwnd (resend_threshold kcp.fastresend) s in
    let counted = record s.box.world { snmp = count_resends s s.box.world.snmp } in
    (s.next_update, kcp4, flush_rest kcp4 (record s.box { world = counted }))
