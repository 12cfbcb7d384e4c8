-- ===== src/Snmp.antt =====
-- The counters of snmp.go and snmp_on.go that the protocol machine touches. They are 64-bit
-- atomics; one thread at a time touches them here.
use kcp_go.Prelude.{ℕ, ◌+◌, ◌%◌, ◌^◌}

pub record Snmp : Type 0 where
  pub in_segs : ℕ
  pub out_segs : ℕ
  pub retrans_segs : ℕ
  pub fast_retrans_segs : ℕ
  pub early_retrans_segs : ℕ
  pub lost_segs : ℕ
  pub repeat_segs : ℕ
  pub ring_buffer_snd_queue : ℕ
  pub ring_buffer_rcv_queue : ℕ
  pub ring_buffer_snd_buffer : ℕ

abbrev pub add64 : ℕ → ℕ → ℕ
add64 a b = (a + b) % 2 ^ 64

abbrev pub new_snmp : Snmp
new_snmp = record {
  in_segs = 0;
  out_segs = 0;
  retrans_segs = 0;
  fast_retrans_segs = 0;
  early_retrans_segs = 0;
  lost_segs = 0;
  repeat_segs = 0;
  ring_buffer_snd_queue = 0;
  ring_buffer_rcv_queue = 0;
  ring_buffer_snd_buffer = 0;
}

unfoldable pub add_in_segs : Snmp → ℕ → Snmp
add_in_segs s delta = record s { in_segs = add64 s.in_segs delta }

unfoldable pub increase_out_segs : Snmp → Snmp
increase_out_segs s = record s { out_segs = add64 s.out_segs 1 }

unfoldable pub increase_repeat_segs : Snmp → Snmp
increase_repeat_segs s = record s { repeat_segs = add64 s.repeat_segs 1 }

unfoldable pub add_lost_segs : Snmp → ℕ → Snmp
add_lost_segs s delta = record s { lost_segs = add64 s.lost_segs delta }

unfoldable pub add_fast_retrans_segs : Snmp → ℕ → Snmp
add_fast_retrans_segs s delta = record s { fast_retrans_segs = add64 s.fast_retrans_segs delta }

unfoldable pub add_early_retrans_segs : Snmp → ℕ → Snmp
add_early_retrans_segs s delta = record s { early_retrans_segs = add64 s.early_retrans_segs delta }

unfoldable pub add_retrans_segs : Snmp → ℕ → Snmp
add_retrans_segs s delta = record s { retrans_segs = add64 s.retrans_segs delta }

unfoldable pub store_ring_buffers : Snmp → ℕ → ℕ → ℕ → Snmp
store_ring_buffers s snd_queue rcv_queue snd_buffer = record s {
  ring_buffer_snd_queue = snd_queue;
  ring_buffer_rcv_queue = rcv_queue;
  ring_buffer_snd_buffer = snd_buffer;
}
