-- ===== src/Kcp/Consts.antt =====
-- The protocol constants of kcp.go, without their prefix IKCP_.
use kcp_go.Prelude.{ℕ, ◌-◌, ◌^◌}

abbrev pub rto_ndl : ℕ
rto_ndl = 30

abbrev pub rto_min : ℕ
rto_min = 100

abbrev pub rto_def : ℕ
rto_def = 200

abbrev pub rto_max : ℕ
rto_max = 60000

abbrev pub cmd_push : ℕ
cmd_push = 81

abbrev pub cmd_ack : ℕ
cmd_ack = 82

abbrev pub cmd_wask : ℕ
cmd_wask = 83

abbrev pub cmd_wins : ℕ
cmd_wins = 84

abbrev pub ask_send : ℕ
ask_send = 1

abbrev pub ask_tell : ℕ
ask_tell = 2

abbrev pub wnd_snd : ℕ
wnd_snd = 32

abbrev pub wnd_rcv : ℕ
wnd_rcv = 32

abbrev pub mtu_def : ℕ
mtu_def = 1400

abbrev pub interval_def : ℕ
interval_def = 100

abbrev pub deadlink : ℕ
deadlink = 20

abbrev pub thresh_init : ℕ
thresh_init = 2

abbrev pub thresh_min : ℕ
thresh_min = 2

abbrev pub probe_init : ℕ
probe_init = 500

abbrev pub probe_limit : ℕ
probe_limit = 120000

-- 0xffffffff
abbrev pub max_u32 : ℕ
max_u32 = 2 ^ 32 - 1
