-- ===== src/ReadLoop.antt =====
-- readloop.go and readloop_linux.go: how the packets of a connection come to packetInput, and which of
-- them are turned away. IP.Equal and the String method of a UDP address are parameters, and so is
-- packetInput, a step of whatever state it has.
pub mod Source
pub mod Paths
mod Tests
use kcp_go.Prelude.{
  ℕ, ◌+◌, Bool, true, false, not, ◌&&◌, ◌||◌, Option, none, some, List, [], ◌∷◌, ◌==◌,
  if◌then◌else◌, ◌%◌, ◌^◌,
}
use kcp_go.Bytes.{Bytes}

-- net.UDPAddr; the zone is the bytes of its text.
pub record UdpAddr : Type 0 where
  pub ip : Bytes
  pub port : ℕ
  pub zone : Bytes

-- net.Addr: a UDP address, or another one, by what its String method gives.
pub data Addr : Type 0 where
  udp : UdpAddr → Addr
  text : Bytes → Addr

-- What net does: whether two addresses are the same, and the text of an address.
pub record Net : Type 0 where
  pub ip_equal : Bytes → Bytes → Bool
  pub udp_string : UdpAddr → Bytes

-- A read: an error, one that finds the session closed, or a packet.
pub data Reading : Type 0 where
  failed : Reading
  late : Reading
  received : Bytes → Addr → Reading

-- The variables of a read loop, the state of packetInput, and what the loop counts in InErrs and
-- reports. An empty text stands for no source.
pub record Reader (S : Type 0) : Type 0 where
  pub src : Option UdpAddr
  pub src_str : Bytes
  pub session : S
  pub in_errs : ℕ
  pub read_error : Bool

-- A session whose packets are pushed: remote, pushedFrom, and the rest as above.
pub record Receiver (S : Type 0) : Type 0 where
  pub remote : Option Addr
  pub pushed_from : Option Addr
  pub session : S
  pub in_errs : ℕ
  pub read_error : Bool

abbrev pub same_bytes : Bytes → Bytes → Bool
same_bytes [] [] = true
same_bytes [] (y ∷ ys) = false
same_bytes (x ∷ xs) [] = false
same_bytes (x ∷ xs) (y ∷ ys) = x == y && same_bytes xs ys

module _ (net : Net) where
  -- sameUDPAddr on addresses that are not nil.
  unfoldable pub same_udp_addr : UdpAddr → UdpAddr → Bool
  same_udp_addr a b =
      if not (a.port == b.port) || not (same_bytes a.zone b.zone)
      then false
      else net.ip_equal a.ip b.ip

  abbrev pub addr_string : Addr → Bytes
  addr_string (udp a) = net.udp_string a
  addr_string (text t) = t

module _ {S : Type 0} where
  abbrev pub refuse : Reader S → Bool × Reader S
  refuse r = (false, record r { in_errs = (r.in_errs + 1) % 2 ^ 64 })

  -- The first packet sets the source.
  unfoldable pub set_source : Reader S → Addr → Reader S
  set_source r (udp a) = record r { src = some a }
  set_source r (text t) = record r { src_str = t }

  -- The test against a UDP source.
  unfoldable pub check_udp : Net → UdpAddr → Reader S → Addr → Bool × Reader S
  check_udp net a r (udp b) = if same_udp_addr net a b then (true, r) else refuse r
  check_udp net a r (text t) = refuse r

  abbrev pub check_against : Net → Reader S → Addr → Option UdpAddr → Bool × Reader S
  check_against net r addr (some a) = check_udp net a r addr
  check_against net r addr none =
      if same_bytes r.src_str []
      then (true, set_source r addr)
      else if same_bytes (addr_string net addr) r.src_str
      then (true, r)
      else refuse r

  -- Ensure the packet comes from the same source.
  unfoldable pub check_source : Net → Reader S → Addr → Bool × Reader S
  check_source net r addr = check_against net r addr r.src

  -- The beginning of a loop.
  unfoldable pub start_reader : Option Addr → S → Reader S
  start_reader remote s =
      let blank : Reader S = record {
        src = none;
        src_str = [];
        session = s;
        in_errs = 0;
        read_error = false;
      } in
      elim remote [ none ↦ blank | some addr ↦ set_source blank addr ]

module _ {S : Type 0} (net : Net) (packet_input : Bytes → S → S) where
  -- The part of a loop behind the reading of a packet.
  unfoldable pub take_packet : Reader S → Bytes → Addr → Reader S
  take_packet r b addr =
      let (ok, r') = check_source net r addr in
      if ok then record r' { session = packet_input b r'.session } else r'

  -- defaultReadLoop
  unfoldable pub default_read_loop : List Reading → Reader S → Reader S
  default_read_loop [] r = r
  default_read_loop (failed ∷ rest) r = record r { read_error = true }
  default_read_loop (late ∷ rest) r = r
  default_read_loop (received b addr ∷ rest) r = default_read_loop rest (take_packet r b addr)

  unfoldable pub take_packets : List (Bytes × Addr) → Reader S → Reader S
  take_packets [] r = r
  take_packets ((b, addr) ∷ msgs) r = take_packets msgs (take_packet r b addr)

  -- pushedPacket without an error, in an open session, and the test of the peer.
  unfoldable pub accept_from : Addr → Bytes → Addr → Receiver S → Receiver S
  accept_from (udp a) b (udp c) p =
      if same_udp_addr net a c
      then record p { session = packet_input b p.session }
      else record p { in_errs = (p.in_errs + 1) % 2 ^ 64 }
  accept_from (udp a) b (text t) p = record p { in_errs = (p.in_errs + 1) % 2 ^ 64 }
  accept_from (text s) b addr p =
      if same_bytes (addr_string net addr) s
      then record p { session = packet_input b p.session }
      else record p { in_errs = (p.in_errs + 1) % 2 ^ 64 }

  abbrev pub pin : Option Addr → Addr → Addr
  pin none addr = addr
  pin (some a) addr = a

  unfoldable pub pushed_packet : Reading → Receiver S → Receiver S
  pushed_packet failed p = record p { read_error = true }
  pushed_packet late p = p
  pushed_packet (received b addr) p = elim p.remote [
    | some a ↦ accept_from a b addr p
    | none ↦
        accept_from (pin p.pushed_from addr) b addr
          (record p { pushed_from = some (pin p.pushed_from addr) })
  ]

  -- The calls of the pusher: an error ends reads.
  unfoldable pub pushed_packets : List Reading → Receiver S → Receiver S
  pushed_packets [] p = p
  pushed_packets (failed ∷ rest) p = pushed_packet failed p
  pushed_packets (late ∷ rest) p = pushed_packet late p
  pushed_packets (received b addr ∷ rest) p =
      pushed_packets rest (pushed_packet (received b addr) p)

-- A call of ReadBatch: an error, or the messages; the session may be closed when it returns.
pub data BatchReading : Type 0 where
  batch_failed : BatchReading
  batch_late : List (Bytes × Addr) → BatchReading
  batch_received : List (Bytes × Addr) → BatchReading

-- The loop over ReadBatch in readLoop.
unfoldable pub batch_read_loop :
    {S : Type 0} → Net → (Bytes → S → S) → List BatchReading → Reader S → Reader S
batch_read_loop net packet_input [] r = r
batch_read_loop net packet_input (batch_failed ∷ rest) r = record r { read_error = true }
batch_read_loop net packet_input (batch_late msgs ∷ rest) r = r
batch_read_loop net packet_input (batch_received msgs ∷ rest) r =
    batch_read_loop net packet_input rest (take_packets net packet_input msgs r)
