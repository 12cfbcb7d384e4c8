-- ===== src/Kcp.antt =====
-- The KCP state of kcp.go, what its methods see of the world, and its settings.
-- Fields and constants keep the source's names. `buffer` is the length of the encoding buffer;
-- output callbacks, the clock and the counters are in `World`. Trace logging, which is compiled
-- out by default (kcp_trace_off.go), has no counterpart.
pub mod Consts
pub mod Message
pub mod Acks
pub mod Recv
pub mod Send
pub mod Flush
pub mod Input
pub mod Timer
mod Tests
use kcp_go.Prelude.{ℕ, ◌+◌, ◌-◌, ◌*◌, ◌^◌, Bool, false, List, [], ◌==◌, ℤ, pos, negsuc, u32}
use kcp_go.Bytes.{Bytes}
use kcp_go.Ring.{RingBuffer, new_ring_buffer}
use kcp_go.Snmp.{Snmp}
use kcp_go.Segment.{overhead, Segment, segment_zero}
use kcp_go.SegmentHeap.{SegmentHeap, new_segment_heap}

pub data PacketType : Type 0 where
  regular fec : PacketType

pub data FlushType : Type 0 where
  ack_only full : FlushType

pub record AckItem : Type 0 where
  pub sn : ℕ
  pub ts : ℕ

pub record Kcp : Type 0 where
  pub conv : ℕ
  pub mtu : ℕ
  pub mss : ℕ
  pub state : ℕ
  pub snd_una : ℕ
  pub snd_nxt : ℕ
  pub rcv_nxt : ℕ
  pub ssthresh : ℕ
  pub rx_rttvar : ℤ
  pub rx_srtt : ℤ
  pub rx_rto : ℕ
  pub rx_minrto : ℕ
  pub snd_wnd : ℕ
  pub rcv_wnd : ℕ
  pub rmt_wnd : ℕ
  pub cwnd : ℕ
  pub incr : ℕ
  pub probe : ℕ
  pub ts_probe : ℕ
  pub probe_wait : ℕ
  pub interval : ℕ
  pub ts_flush : ℕ
  pub nodelay : ℕ
  pub updated : ℕ
  pub dead_link : ℕ
  pub fastresend : ℤ
  pub nocwnd : ℤ
  pub stream : ℤ
  pub snd_queue : RingBuffer Segment
  pub rcv_queue : RingBuffer Segment
  pub snd_buf : RingBuffer Segment
  pub rcv_buf : SegmentHeap
  pub acklist : List AckItem
  pub buffer : ℕ

-- What the methods share with the rest of the program: how often the clock was read, what went to
-- the output callback, oldest first, and the counters.
pub record World : Type 0 where
  pub tick : ℕ
  pub sent : List Bytes
  pub snmp : Snmp

-- The n-th reading of the clock.
abbrev pub Clock : Type 0
Clock = ℕ → ℕ

unfoldable pub current_ms : Clock → World → ℕ × World
current_ms clock w = (u32 (clock w.tick), record w { tick = w.tick + 1 })

abbrev pub is_zero : ℤ → Bool
is_zero (pos n) = n == 0
is_zero (negsuc n) = false

unfoldable pub new_kcp : ℕ → Kcp
new_kcp conv = record {
  conv = conv;
  mtu = Consts.mtu_def;
  mss = Consts.mtu_def - overhead;
  state = 0;
  snd_una = 0;
  snd_nxt = 0;
  rcv_nxt = 0;
  ssthresh = Consts.thresh_init;
  rx_rttvar = pos 0;
  rx_srtt = pos 0;
  rx_rto = Consts.rto_def;
  rx_minrto = Consts.rto_min;
  snd_wnd = Consts.wnd_snd;
  rcv_wnd = Consts.wnd_rcv;
  rmt_wnd = Consts.wnd_rcv;
  cwnd = 0;
  incr = 0;
  probe = 0;
  ts_probe = 0;
  probe_wait = 0;
  interval = Consts.interval_def;
  ts_flush = Consts.interval_def;
  nodelay = 0;
  updated = 0;
  dead_link = Consts.deadlink;
  fastresend = pos 0;
  nocwnd = pos 0;
  stream = pos 0;
  snd_queue = new_ring_buffer (Consts.wnd_snd * 2);
  rcv_queue = new_ring_buffer (Consts.wnd_rcv * 2);
  snd_buf = new_ring_buffer (Consts.wnd_snd * 2);
  rcv_buf = new_segment_heap;
  acklist = [];
  buffer = (Consts.mtu_def + overhead) * 3;
}
