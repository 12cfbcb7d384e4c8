-- ===== src/Session/Listener.antt =====
-- sess.go: Listener. Sessions are objects in a store; the map and the backlog of Accept hold their
-- numbers. An address is a number that stands for its text.
pub mod Isolation
use kcp_go.Prelude.{
  ℕ, ◌+◌, ◌%◌, ◌^◌, Bool, true, false, Option, none, some, List, [], ◌∷◌, ◌++◌, ltb, leb, ◌==◌,
  if◌then◌else◌, length, ℤ,
}
use kcp_go.Bytes.{Bytes, u32_at}
use kcp_go.Segment.{overhead}
use kcp_go.Fec.{Codec, flag, type_data, type_parity, type_oob}
use kcp_go.Kcp.{World, Clock, full}
use kcp_go.Kcp.Flush.{flush}
use kcp_go.Packet.{Security, Opened, too_short, corrupt, opened, panicked, open_packet}
use kcp_go.Session.{Session, fec_header_size_plus2, min_packet_size, kcp_input}
use kcp_go.Session.Create.{new_session}

abbrev pub accept_backlog : ℕ
accept_backlog = 128

-- IKCP_SN_OFFSET
abbrev pub sn_offset : ℕ
sn_offset = 12

pub record Peer : Type 0 where
  pub session : Session
  pub remote : ℕ
  pub closed : Bool

pub record Listener : Type 0 where
  pub security : Security
  pub data_shards : ℤ
  pub parity_shards : ℤ
  pub sessions : List (ℕ × ℕ)
  pub store : ℕ → Peer
  pub next_id : ℕ
  pub accepts : List ℕ
  pub dead : Bool
  pub in_csum_errors : ℕ

unfoldable pub find_session : ℕ → List (ℕ × ℕ) → Option ℕ
find_session addr [] = none
find_session addr ((k, id) ∷ ss) = if k == addr then some id else find_session addr ss

unfoldable pub remove_session : ℕ → List (ℕ × ℕ) → List (ℕ × ℕ)
remove_session addr [] = []
remove_session addr ((k, id) ∷ ss) =
    let rest = remove_session addr ss in if k == addr then rest else (k, id) ∷ rest

abbrev pub put_peer : ℕ → Peer → (ℕ → Peer) → ℕ → Peer
put_peer id p store i = if i == id then p else store i

-- Close of a session of the listener, up to its send queue; a second call does nothing.
unfoldable pub close_peer : Clock → ℕ → Listener → Listener
unfolding remove_session
close_peer clock id l =
    let p = l.store id in
    let (_, kcp, world) = flush clock full p.session.kcp p.session.world in
    if p.closed then l else record l {
      store =
          put_peer id
            (record p { session = record p.session { kcp = kcp; world = world }; closed = true })
            l.store;
      sessions = remove_session p.remote l.sessions;
    }

-- The conversation and the number that a packet shows: `none` if it is too short to be one, and
-- `some none` if it does not show them.
unfoldable pub peek_conv : Bytes → Option (Option (ℕ × ℕ))
peek_conv b =
    if flag b == type_data
    then (if ltb (length b) (fec_header_size_plus2 + overhead)
        then some none
        else some
            (some (u32_at b fec_header_size_plus2, u32_at b (fec_header_size_plus2 + sn_offset))))
    else if flag b == type_parity
    then some none
    else if flag b == type_oob
    then some (some (u32_at b fec_header_size_plus2, 0))
    else if ltb (length b) overhead
    then none
    else some (some (u32_at b 0, u32_at b sn_offset))

-- What is to be done with a packet.
pub data Verdict : Type 0 where
  ignore : Verdict
  feed_session : ℕ → Verdict
  replace_session : ℕ → ℕ → Verdict
  create_session : ℕ → Verdict

unfoldable pub decide : Listener → Option ℕ → Option (ℕ × ℕ) → Verdict
decide l none none = ignore
decide l none (some (conv, sn)) = create_session conv
decide l (some id) none = feed_session id
decide l (some id) (some (conv, sn)) =
    if conv == (l.store id).session.kcp.conv
    then feed_session id
    else if sn == 0
    then replace_session id conv
    else ignore

unfoldable pub verdict : Listener → Bytes → ℕ → Verdict
unfolding find_session peek_conv decide
verdict l b addr = elim (peek_conv b) [
  | none ↦ ignore
  | some shown ↦ decide l (find_session addr l.sessions) shown
]

-- The new session is fed before it is registered, and closed at once if the listener is.
unfoldable pub register : Clock → ℕ → Session → Listener → Listener
register clock addr s l =
    let (_, kcp, world) = flush clock full s.kcp s.world in
    if l.dead
    then record l {
      store =
          put_peer l.next_id
            (record {
              session = record s { kcp = kcp; world = world };
              remote = addr;
              closed = true;
            })
            l.store;
      next_id = l.next_id + 1;
      sessions = remove_session addr l.sessions;
    }
    else record l {
      store = put_peer l.next_id (record { session = s; remote = addr; closed = false }) l.store;
      next_id = l.next_id + 1;
      sessions = (addr, l.next_id) ∷ remove_session addr l.sessions;
      accepts = l.accepts ++ l.next_id ∷ [];
    }

-- `none` is a panic.
unfoldable pub add_session : Clock → Codec → World → Bytes → ℕ → ℕ → Listener → Option Listener
unfolding register
add_session clock codec w b addr conv l =
    if leb accept_backlog (length l.accepts)
    then some l
    else elim (new_session codec l.security l.data_shards l.parity_shards conv w) [
      | none ↦ none
      | some s ↦ some (register clock addr (kcp_input clock codec b s) l)
    ]

unfoldable pub execute : Clock → Codec → World → Bytes → ℕ → Verdict → Listener → Option Listener
unfolding add_session close_peer
execute clock codec w b addr ignore l = some l
execute clock codec w b addr (feed_session id) l =
    let p = l.store id in
    some (record l {
      store = put_peer id (record p { session = kcp_input clock codec b p.session }) l.store;
    })
execute clock codec w b addr (replace_session id conv) l =
    add_session clock codec w b addr conv (close_peer clock id l)
execute clock codec w b addr (create_session conv) l = add_session clock codec w b addr conv l

unfoldable pub accept_opened_packet :
    Clock → Codec → World → ℕ → Opened → Listener → Option Listener
unfolding execute verdict
accept_opened_packet clock codec w addr too_short l = some l
accept_opened_packet clock codec w addr corrupt l =
    some (record l { in_csum_errors = (l.in_csum_errors + 1) % 2 ^ 64 })
accept_opened_packet clock codec w addr panicked l = none
accept_opened_packet clock codec w addr (opened b) l =
    if ltb (length b) min_packet_size
    then some l
    else execute clock codec w b addr (verdict l b addr) l

-- packetInput; `w` is what a new session sees of the world.
unfoldable pub listener_input :
    Clock → Codec → (Bytes → ℕ) → World → Bytes → ℕ → Listener → Option Listener
unfolding accept_opened_packet
listener_input clock codec checksum w b addr l =
    accept_opened_packet clock codec w addr (open_packet l.security checksum b) l

-- AcceptKCP where a session is waiting.
unfoldable pub accept_session : Listener → Option (ℕ × Listener)
accept_session l = elim l.accepts [ [] ↦ none | id ∷ ids ↦ some (id, record l { accepts = ids }) ]
