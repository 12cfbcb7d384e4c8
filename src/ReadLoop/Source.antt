-- ===== src/ReadLoop/Source.antt =====
-- readloop.go and readloop_linux.go: the source of the packets that reach packetInput.
use kcp_go.Prelude.{
  ℕ, suc, ◌+◌, ◌≡◌, Bool, true, false, Option, none, some, List, [], ◌∷◌, if◌then◌else◌, refl, ap,
  ◌∙◌, inl, inr, arith, Bool-cases, ==_refl, sym, subst, ◌%◌, ◌^◌, ◌<◌,
}
use kcp_go.Bytes.{Bytes}
use kcp_go.ReadLoop.{
  Addr, udp, text, Net, Reading, failed, late, received, Reader, same_bytes, same_udp_addr,
  addr_string, refuse, set_source, check_udp, check_source, start_reader, take_packet,
  default_read_loop, take_packets, check_against,
}

-- Equal is reflexive, as documented, and the text of an address is not empty.
pub record IsNet (net : Net) : Type 0 where
  pub ip_equal_refl : (ip : Bytes) → net.ip_equal ip ip ≡ true

abbrev pub IsAddr : Addr → Type 0
IsAddr (udp a) = Unit
IsAddr (text t) = same_bytes t [] ≡ false

abbrev pub IsRemote : Option Addr → Type 0
IsRemote none = Unit
IsRemote (some a) = IsAddr a

-- The packets in front of the error or of the close.
abbrev pub packets_of : List Reading → List (Bytes × Addr)
packets_of [] = []
packets_of (failed ∷ rest) = []
packets_of (late ∷ rest) = []
packets_of (received b addr ∷ rest) = (b, addr) ∷ packets_of rest

abbrev pub AreAddrs : List (Bytes × Addr) → Type 0
AreAddrs [] = Unit
AreAddrs (m ∷ ms) = IsAddr m.1 × AreAddrs ms

-- Whether a packet from `from` is one of the peer.
abbrev pub is_peer : Net → Addr → Addr → Bool
is_peer net (udp a) (udp c) = same_udp_addr net a c
is_peer net (udp a) (text t) = false
is_peer net (text s) from = same_bytes (addr_string net from) s

-- The packets of a peer, and how many are of others.
abbrev pub of_peer : Net → Addr → List (Bytes × Addr) → List Bytes
of_peer net peer [] = []
of_peer net peer (m ∷ ms) =
    if is_peer net peer m.1 then m.0 ∷ of_peer net peer ms else of_peer net peer ms

abbrev pub strangers : Net → Addr → List (Bytes × Addr) → ℕ
strangers net peer [] = 0
strangers net peer (m ∷ ms) =
    if is_peer net peer m.1 then strangers net peer ms else suc (strangers net peer ms)

-- Without an address of the peer, it is the sender of the first packet.
abbrev pub from_peer : Net → Option Addr → List (Bytes × Addr) → List Bytes
from_peer net (some peer) ms = of_peer net peer ms
from_peer net none [] = []
from_peer net none (m ∷ ms) = of_peer net m.1 (m ∷ ms)

abbrev pub from_others : Net → Option Addr → List (Bytes × Addr) → ℕ
from_others net (some peer) ms = strangers net peer ms
from_others net none [] = 0
from_others net none (m ∷ ms) = strangers net m.1 (m ∷ ms)

module _ {S : Type 0} (net : Net) (packet_input : Bytes → S → S) where
  abbrev pub input_all : List Bytes → S → S
  input_all [] s = s
  input_all (b ∷ bs) s = input_all bs (packet_input b s)

  -- A reader whose source is the peer.
  abbrev HasSource : Addr → Reader S → Type 0
  HasSource (udp a) r = r.src ≡ some a
  HasSource (text t) r = (r.src ≡ none) × (r.src_str ≡ t)

  -- What a step makes of a packet, if the source is the peer.
  abbrev judged : Addr → Reader S → Bytes → Addr → Reader S
  judged peer r b from =
      if is_peer net peer from
      then record r { session = packet_input b r.session }
      else record r { in_errs = (r.in_errs + 1) % 2 ^ 64 }

  -- The rest of take_packet.
  abbrev taken : Bytes → Bool × Reader S → Reader S
  taken b o = if o.0 then record o.1 { session = packet_input b o.1.session } else o.1

  if_taken :
      (b : Bytes) (r : Reader S) (c : Bool)
      → taken b (if c then (true, r) else refuse r) ≡ (
          if c
          then record r { session = packet_input b r.session }
          else record r { in_errs = (r.in_errs + 1) % 2 ^ 64 })
  if_taken b r true = refl
  if_taken b r false = refl

  take_packet-judged :
      (peer : Addr) (r : Reader S) (b : Bytes) (from : Addr)
      → IsAddr peer
      → HasSource peer r
      → take_packet net packet_input r b from ≡ judged peer r b from
  unfolding take_packet check_source check_udp
  take_packet-judged (udp a) r b (udp c) v h =
      ap (λ o. taken b (check_against net r (udp c) o)) h ∙ if_taken b r (same_udp_addr net a c)
  take_packet-judged (udp a) r b (text t) v h = ap (λ o. taken b (check_against net r (text t) o)) h
  take_packet-judged (text s) r b from v (unset, same) =
      let named : same_bytes r.src_str [] ≡ false = ap (λ t. same_bytes t []) same ∙ v in
      ap (λ o. taken b (check_against net r from o)) unset
      ∙ rw (named) (if_taken b r (same_bytes (addr_string net from) r.src_str))
      ∙ ap
          (λ t.
            if same_bytes (addr_string net from) t
            then record r { session = packet_input b r.session }
            else record r { in_errs = (r.in_errs + 1) % 2 ^ 64 })
          same

  judged-HasSource :
      (peer : Addr) (r : Reader S) (b : Bytes) (from : Addr)
      → HasSource peer r
      → HasSource peer (judged peer r b from)
  judged-HasSource (udp a) r b from h = elim (Bool-cases (is_peer net (udp a) from)) [
    | inl e ↦ rw (e) h
    | inr e ↦ rw (e) h
  ]
  judged-HasSource (text t) r b from h = elim (Bool-cases (is_peer net (text t) from)) [
    | inl e ↦ rw (e) h
    | inr e ↦ rw (e) h
  ]

  judged_bound :
      (peer : Addr) (r : Reader S) (b : Bytes) (from : Addr)
      → r.in_errs < 2 ^ 64
      → (judged peer r b from).in_errs < 2 ^ 64
  judged_bound peer r b from lt = elim (Bool-cases (is_peer net peer from)) [
    | inl e ↦ rw (e) lt
    | inr e ↦ rw (e) (omega arith)
  ]

  -- What a loop has done with packets, as far as anyone can see.
  abbrev pub Fed : S → ℕ → List Bytes → ℕ → Reader S → Type 0
  Fed s n mine others r = (r.session ≡ input_all mine s) × (r.in_errs ≡ (n + others) % 2 ^ 64)

  take_packets-Fed :
      (peer : Addr) (ms : List (Bytes × Addr)) (r : Reader S)
      → IsAddr peer
      → HasSource peer r
      → r.in_errs < 2 ^ 64
      → Fed r.session r.in_errs
          (of_peer net peer ms)
          (strangers net peer ms)
          (take_packets net packet_input ms r)
  unfolding take_packets
  take_packets-Fed peer [] r v h lt = (refl, omega arith)
  take_packets-Fed peer (m ∷ ms) r v h lt =
      let step = take_packet-judged peer r m.0 m.1 v h in
      let later =
        take_packets-Fed peer ms (judged peer r m.0 m.1) v (judged-HasSource peer r m.0 m.1 h)
          (judged_bound peer r m.0 m.1 lt) in
      subst
        (λ x.
          Fed r.session r.in_errs (of_peer net peer (m ∷ ms)) (strangers net peer (m ∷ ms))
            (take_packets net packet_input ms x))
        (sym step)
        (elim (Bool-cases (is_peer net peer m.1)) [
          | inl e ↦ rw (e) (rw e at (later))
          | inr e ↦ let rest = rw e at (later) in rw (e) (rest.0, omega (arith, rest.1))
        ])

  same_bytes_refl : (xs : Bytes) → same_bytes xs xs ≡ true
  same_bytes_refl [] = refl
  same_bytes_refl (x ∷ xs) = rw (==_refl x) (same_bytes_refl xs)

  pub is_peer_refl : (a : Addr) → IsNet net → is_peer net a a ≡ true
  unfolding same_udp_addr
  is_peer_refl (udp a) v = rw (==_refl a.port, same_bytes_refl a.zone) (v.ip_equal_refl a.ip)
  is_peer_refl (text t) v = same_bytes_refl t

  start-HasSource : (peer : Addr) (s : S) → HasSource peer (start_reader (some peer) s)
  unfolding start_reader set_source
  start-HasSource (udp a) s = refl
  start-HasSource (text t) s = (refl, refl)

  start-fields :
      (remote : Option Addr) (s : S)
      → ((start_reader remote s).session ≡ s) × ((start_reader remote s).in_errs ≡ 0)
  unfolding start_reader set_source
  start-fields none s = (refl, refl)
  start-fields (some (udp a)) s = (refl, refl)
  start-fields (some (text t)) s = (refl, refl)

  -- The first packet of a session without a remote address.
  first-take_packet :
      (s : S) (b : Bytes) (addr : Addr)
      → take_packet net packet_input (start_reader none s) b addr
        ≡ start_reader (some addr) (packet_input b s)
  unfolding take_packet check_source start_reader set_source
  first-take_packet s b (udp a) = refl
  first-take_packet s b (text t) = refl

  pub take_packets-from_peer :
      (remote : Option Addr) (ms : List (Bytes × Addr)) (s : S)
      → IsNet net
      → IsRemote remote
      → AreAddrs ms
      → Fed s 0
          (from_peer net remote ms)
          (from_others net remote ms)
          (take_packets net packet_input ms (start_reader remote s))
  unfolding take_packets
  take_packets-from_peer (some peer) ms s n v w =
      let (same, none_yet) = start-fields (some peer) s in
      let fed =
        take_packets-Fed peer ms (start_reader (some peer) s) v (start-HasSource peer s)
          (omega (arith, none_yet)) in
      (fed.0 ∙ ap (input_all (of_peer net peer ms)) same, omega (arith, fed.1, none_yet))
  take_packets-from_peer none [] s n v w =
      let (same, none_yet) = start-fields none s in (same, omega (arith, none_yet))
  take_packets-from_peer none (m ∷ ms) s n v w =
      let first = first-take_packet s m.0 m.1 in
      let later = take_packets-from_peer (some m.1) ms (packet_input m.0 s) n w.0 w.1 in
      subst
        (λ x.
          Fed s 0 (from_peer net none (m ∷ ms)) (from_others net none (m ∷ ms))
            (take_packets net packet_input ms x))
        (sym first) (rw (is_peer_refl m.1 n) later)

  -- A loop ends in front of an error or a close, and the packets before have been taken.
  pub loop-take_packets :
      (reads : List Reading) (r : Reader S)
      → ((default_read_loop net packet_input reads r).session
          ≡ (take_packets net packet_input (packets_of reads) r).session)
        × ((default_read_loop net packet_input reads r).in_errs
            ≡ (take_packets net packet_input (packets_of reads) r).in_errs)
  unfolding default_read_loop take_packets
  loop-take_packets [] r = (refl, refl)
  loop-take_packets (failed ∷ rest) r = (refl, refl)
  loop-take_packets (late ∷ rest) r = (refl, refl)
  loop-take_packets (received b addr ∷ rest) r =
      loop-take_packets rest (take_packet net packet_input r b addr)
