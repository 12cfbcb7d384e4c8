-- ===== src/Kcp/Input.antt =====
-- kcp.go: Input, which feeds a packet of segments to the state machine.
use kcp_go.Prelude.{
  ℕ, zero, suc, ◌+◌, ◌/◌, bit_or, Bool, true, false, not, ◌&&◌, ◌||◌, Option, none, some, ltb, leb,
  ◌==◌, if◌then◌else◌, length, take, drop, ℤ, pos, negsuc, add32, sub32, mul32,
}
use kcp_go.Bytes.{Bytes}
use kcp_go.Serial.{itimediff, is_neg, is_pos}
use kcp_go.Snmp.{add_in_segs, increase_repeat_segs}
use kcp_go.Segment.{overhead, Segment, zero_segment, Header, read_header}
use kcp_go.Kcp.{
  PacketType, regular, fec, FlushType, ack_only, full, Kcp, World, Clock, current_ms, is_zero,
}
use kcp_go.Kcp.Consts
use kcp_go.Kcp.Acks.{update_ack, shrink_buf, parse_ack, parse_fastack, parse_una, ack_push}
use kcp_go.Kcp.Recv.{parse_data}
use kcp_go.Kcp.Flush.{flush}

-- The variables of Input's loop. The flags are Booleans.
pub record Intake : Type 0 where
  pub kcp : Kcp
  pub world : World
  pub latest : ℕ
  pub update_rtt : Bool
  pub in_segs : ℕ
  pub flush_segments : Bool

abbrev pub is_regular : PacketType → Bool
is_regular regular = true
is_regular fec = false

abbrev pub is_command : ℕ → Bool
is_command cmd =
    cmd == Consts.cmd_push
    || cmd == Consts.cmd_ack
    || cmd == Consts.cmd_wask
    || cmd == Consts.cmd_wins

-- What every command does first: the remote window, and the cumulative acknowledgement.
unfoldable pub take_una : PacketType → Header → Intake → Intake
take_una kind h s =
    let windowed = if is_regular kind then record s.kcp { rmt_wnd = h.wnd } else s.kcp in
    let (count, kcp) = parse_una windowed h.una in
    record s { kcp = shrink_buf kcp; flush_segments = ltb 0 count || s.flush_segments }

unfoldable pub take_ack : Header → Intake → Intake
take_ack h s =
    let (should, kcp) = parse_fastack (parse_ack s.kcp h.sn) h.sn h.ts in
    record s {
      kcp = kcp;
      flush_segments = s.flush_segments || should;
      update_rtt = true;
      latest = h.ts;
    }

unfoldable pub pushed_segment : Header → Bytes → Segment
pushed_segment h body = record zero_segment {
  conv = h.conv;
  cmd = h.cmd;
  frg = h.frg;
  wnd = h.wnd;
  ts = h.ts;
  sn = h.sn;
  una = h.una;
  payload = body;
}

unfoldable pub take_push : PacketType → Header → Bytes → Intake → Intake
take_push kind h body s =
    let acked = ack_push s.kcp h.sn h.ts in
    let (repeat, kcp) =
      if not (is_neg (itimediff h.sn (add32 s.kcp.rcv_nxt s.kcp.rcv_wnd)))
      then (true, s.kcp)
      else if is_neg (itimediff h.sn s.kcp.rcv_nxt)
      then (true, acked)
      else parse_data acked (pushed_segment h body) in
    record s {
      kcp = kcp;
      world =
          if is_regular kind && repeat
          then record s.world { snmp = increase_repeat_segs s.world.snmp }
          else s.world;
    }

unfoldable pub take_command : PacketType → Header → Bytes → Intake → Intake
take_command kind h body s =
    if h.cmd == Consts.cmd_ack
    then take_ack h s
    else if h.cmd == Consts.cmd_push
    then take_push kind h body s
    else if h.cmd == Consts.cmd_wask
    then record s { kcp = record s.kcp { probe = bit_or s.kcp.probe Consts.ask_tell } }
    else s

-- The loop over the segments of a packet, with the code that Input returns if it breaks off. Each
-- round reads a header, so the packet's length is enough fuel.
unfoldable pub input_loop : PacketType → ℕ → Bytes → Intake → ℤ × Intake
input_loop kind zero packet s = (pos 0, s)
input_loop kind (suc fuel) packet s = elim (ltb (length packet) overhead) [
  | true ↦ (pos 0, s)
  | false ↦
      let h = read_header packet in
      let rest = drop overhead packet in
      let taken = take_command kind h (take h.len rest) (take_una kind h s) in
      elim (h.conv == s.kcp.conv) [
        | false ↦ (negsuc 0, s)
        | true ↦ elim (ltb (length rest) h.len) [
          | true ↦ (negsuc 1, s)
          | false ↦ elim (is_command h.cmd) [
            | false ↦ (negsuc 2, s)
            | true ↦
                input_loop kind fuel (drop h.len rest)
                  (record taken { in_segs = taken.in_segs + 1 })
          ]
        ]
      ]
]

-- The round trip time from the latest ack.
unfoldable pub sample_rtt : Clock → PacketType → Intake → Kcp × World
sample_rtt clock kind s =
    let (current, w) = current_ms clock s.world in
    let rtt = itimediff current s.latest in
    if not (s.update_rtt && is_regular kind)
    then (s.kcp, s.world)
    else if is_neg rtt
    then (s.kcp, w)
    else (update_ack s.kcp rtt, w)

-- Congestion avoidance: `incr` and `cwnd` at or above ssthresh.
unfoldable pub avoid_congestion : Kcp → Kcp
avoid_congestion kcp =
    let mss = kcp.mss in
    let base = if ltb kcp.incr mss then mss else kcp.incr in
    let incr = add32 base (add32 (mul32 mss mss / base) (mss / 16)) in
    let reach = sub32 (add32 incr mss) 1 in
    record kcp {
      incr = incr;
      cwnd =
          if leb (mul32 (add32 kcp.cwnd 1) mss) incr
          then (if ltb 0 mss then reach / mss else reach)
          else kcp.cwnd;
    }

-- The congestion window after the packet, from the value of snd_una before it.
unfoldable pub grow_cwnd : Kcp → ℕ → Kcp
grow_cwnd kcp snd_una =
    let grown =
      if ltb kcp.cwnd kcp.ssthresh
      then record kcp { cwnd = add32 kcp.cwnd 1; incr = add32 kcp.incr kcp.mss }
      else avoid_congestion kcp in
    let capped =
      if ltb grown.rmt_wnd grown.cwnd
      then record grown { cwnd = grown.rmt_wnd; incr = mul32 grown.rmt_wnd grown.mss }
      else grown in
    if is_zero kcp.nocwnd && is_pos (itimediff kcp.snd_una snd_una) && ltb kcp.cwnd kcp.rmt_wnd
    then capped
    else kcp

-- Which flush a packet triggers at once.
unfoldable pub flush_now : Bool → Kcp → Bool → Option FlushType
flush_now flush_segments kcp ack_no_delay =
    if flush_segments
    then some full
    else if leb (kcp.mtu / overhead) (length kcp.acklist)
    then some ack_only
    else if ack_no_delay && ltb 0 (length kcp.acklist)
    then some ack_only
    else none

unfoldable pub after_loop : Clock → PacketType → Bool → ℕ → Intake → Kcp × World
after_loop clock kind ack_no_delay snd_una s =
    let counted = record s {
      world = record s.world { snmp = add_in_segs s.world.snmp s.in_segs };
    } in
    let (kcp1, w1) = sample_rtt clock kind counted in
    let kcp2 = grow_cwnd kcp1 snd_una in
    elim (flush_now s.flush_segments kcp2 ack_no_delay) [
      | none ↦ (kcp2, w1)
      | some f ↦ let (_, kcp3, w3) = flush clock f kcp2 w1 in (kcp3, w3)
    ]

unfoldable pub input : Clock → Bytes → PacketType → Bool → Kcp → World → ℤ × Kcp × World
input clock packet kind ack_no_delay kcp w =
    let start : Intake = record {
      kcp = kcp;
      world = w;
      latest = 0;
      update_rtt = false;
      in_segs = 0;
      flush_segments = false;
    } in
    let (code, s) = input_loop kind (length packet) packet start in
    let (kcp', w') = after_loop clock kind ack_no_delay kcp.snd_una s in
    if ltb (length packet) overhead
    then (negsuc 0, kcp, w)
    else if is_neg code
    then (code, s.kcp, s.world)
    else (pos 0, kcp', w')
