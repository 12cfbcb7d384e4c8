-- ===== src/Session/Create.antt =====
-- sess.go: newUDPSession. The goroutines, the sockets and the registration with the scheduler have no
-- counterpart.
use kcp_go.Prelude.{ℕ, ◌+◌, Bool, true, false, Option, none, some, [], if◌then◌else◌, ℤ, pos}
use kcp_go.Fec.{Codec, new_fec_encoder}
use kcp_go.Fec.Decoder.{new_fec_decoder}
use kcp_go.Kcp.{World, new_kcp}
use kcp_go.Kcp.Consts
use kcp_go.Packet.{Security, security_header}
use kcp_go.Session.{Session, set_session_mtu, fec_header_size_plus2}

abbrev is_some : {A : Type 0} → Option A → Bool
is_some none = false
is_some (some a) = true

-- The session before its MTU is set.
unfoldable pub blank_session : Codec → Security → ℤ → ℤ → ℕ → World → Session
blank_session codec security data_shards parity_shards conv w =
    let has_fec =
      is_some (new_fec_encoder codec data_shards parity_shards (security_header security)) in
    record {
      kcp = new_kcp conv;
      world = w;
      unread = [];
      fec_decoder = new_fec_decoder codec data_shards parity_shards;
      has_fec_encoder = has_fec;
      security = security;
      header_size = security_header security + (if has_fec then fec_header_size_plus2 else 0);
      ack_no_delay = false;
      write_delay = false;
      read_event = false;
      write_event = false;
      has_oob_callback = false;
      oob_inbox = [];
      kcp_in_errors = 0;
      in_csum_errors = 0;
      in_errs = 0;
      oob_packets = 0;
      in_pkts = 0;
      in_bytes = 0;
    }

-- `none` is the panic on headers that leave no room for a segment.
unfoldable pub new_session : Codec → Security → ℤ → ℤ → ℕ → World → Option Session
unfolding blank_session
new_session codec security data_shards parity_shards conv w =
    let (fits, s) =
      set_session_mtu (blank_session codec security data_shards parity_shards conv w)
        (pos Consts.mtu_def) in
    if fits then some s else none
