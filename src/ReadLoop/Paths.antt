-- ===== src/ReadLoop/Paths.antt =====
-- readloop.go and readloop_linux.go: the ways in which packets come to packetInput.
use kcp_go.Prelude.{
  ℕ, ◌+◌, ◌≡◌, Bool, true, false, Option, none, some, List, [], ◌∷◌, if◌then◌else◌, refl, ap, ◌∙◌,
  inl, inr, arith, Bool-cases, sym, subst, ◌++◌, ◌%◌, ◌^◌, ◌<◌,
}
use kcp_go.Bytes.{Bytes}
use kcp_go.ReadLoop.{
  Addr, udp, text, Net, Reading, failed, late, received, Reader, start_reader, take_packet,
  default_read_loop, take_packets, Receiver, accept_from, pushed_packet, pushed_packets,
  BatchReading, batch_failed, batch_late, batch_received, batch_read_loop,
}
use kcp_go.ReadLoop.Source.{
  IsNet, IsRemote, packets_of, AreAddrs, is_peer, of_peer, strangers, from_peer, from_others,
  input_all, Fed, is_peer_refl, take_packets-from_peer, loop-take_packets,
}

-- The packets of batches in front of the error or of the close.
abbrev pub batches_of : List BatchReading → List (Bytes × Addr)
batches_of [] = []
batches_of (batch_failed ∷ rest) = []
batches_of (batch_late msgs ∷ rest) = []
batches_of (batch_received msgs ∷ rest) = msgs ++ batches_of rest

module _ {S : Type 0} (net : Net) (packet_input : Bytes → S → S) where
  take_packets-append :
      (ms more : List (Bytes × Addr)) (r : Reader S)
      → take_packets net packet_input (ms ++ more) r
        ≡ take_packets net packet_input more (take_packets net packet_input ms r)
  unfolding take_packets
  take_packets-append [] more r = refl
  take_packets-append (m ∷ ms) more r =
      take_packets-append ms more (take_packet net packet_input r m.0 m.1)

  batch-take_packets :
      (batches : List BatchReading) (r : Reader S)
      → ((batch_read_loop net packet_input batches r).session
          ≡ (take_packets net packet_input (batches_of batches) r).session)
        × ((batch_read_loop net packet_input batches r).in_errs
            ≡ (take_packets net packet_input (batches_of batches) r).in_errs)
  unfolding batch_read_loop take_packets
  batch-take_packets [] r = (refl, refl)
  batch-take_packets (batch_failed ∷ rest) r = (refl, refl)
  batch-take_packets (batch_late msgs ∷ rest) r = (refl, refl)
  batch-take_packets (batch_received msgs ∷ rest) r =
      let later = batch-take_packets rest (take_packets net packet_input msgs r) in
      let joined = take_packets-append msgs (batches_of rest) r in
      (later.0 ∙ ap (λ x. x.session) (sym joined), later.1 ∙ ap (λ x. x.in_errs) (sym joined))

  -- A receiver whose peer is known: by its remote address, or from the first packet.
  abbrev receiver : Bool → Addr → S → ℕ → Bool → Receiver S
  receiver true peer s n e = record {
    remote = some peer;
    pushed_from = none;
    session = s;
    in_errs = n;
    read_error = e;
  }
  receiver false peer s n e = record {
    remote = none;
    pushed_from = some peer;
    session = s;
    in_errs = n;
    read_error = e;
  }

  pushed_packet-receiver :
      (k : Bool) (peer : Addr) (s : S) (n : ℕ) (e : Bool) (b : Bytes) (from : Addr)
      → pushed_packet net packet_input (received b from) (receiver k peer s n e) ≡ (
          if is_peer net peer from
          then receiver k peer (packet_input b s) n e
          else receiver k peer s ((n + 1) % 2 ^ 64) e)
  unfolding pushed_packet accept_from
  pushed_packet-receiver true (udp a) s n e b (udp c) = refl
  pushed_packet-receiver true (udp a) s n e b (text t) = refl
  pushed_packet-receiver true (text t) s n e b from = refl
  pushed_packet-receiver false (udp a) s n e b (udp c) = refl
  pushed_packet-receiver false (udp a) s n e b (text t) = refl
  pushed_packet-receiver false (text t) s n e b from = refl

  -- What the calls of a pusher have done, as far as anyone can see.
  abbrev pub Handed : S → ℕ → List Bytes → ℕ → Receiver S → Type 0
  Handed s n mine others p =
      (p.session ≡ input_all net packet_input mine s) × (p.in_errs ≡ (n + others) % 2 ^ 64)

  pushed_packets-receiver :
      (k : Bool) (peer : Addr) (reads : List Reading) (s : S) (n : ℕ) (e : Bool)
      → n < 2 ^ 64
      → Handed s n
          (of_peer net peer (packets_of reads))
          (strangers net peer (packets_of reads))
          (pushed_packets net packet_input reads (receiver k peer s n e))
  unfolding pushed_packets pushed_packet
  pushed_packets-receiver true peer [] s n e lt = (refl, omega arith)
  pushed_packets-receiver false peer [] s n e lt = (refl, omega arith)
  pushed_packets-receiver true peer (failed ∷ rest) s n e lt = (refl, omega arith)
  pushed_packets-receiver false peer (failed ∷ rest) s n e lt = (refl, omega arith)
  pushed_packets-receiver true peer (late ∷ rest) s n e lt = (refl, omega arith)
  pushed_packets-receiver false peer (late ∷ rest) s n e lt = (refl, omega arith)
  pushed_packets-receiver k peer (received b from ∷ rest) s n e lt =
      let ms = packets_of (received b from ∷ rest) in
      subst
        (λ x.
          Handed s n (of_peer net peer ms) (strangers net peer ms)
            (pushed_packets net packet_input rest x))
        (sym (pushed_packet-receiver k peer s n e b from))
        (elim (Bool-cases (is_peer net peer from)) [
          | inl t ↦ rw (t) (pushed_packets-receiver k peer rest (packet_input b s) n e lt)
          | inr t ↦
              let later =
                pushed_packets-receiver k peer rest s ((n + 1) % 2 ^ 64) e (omega arith) in
              rw (t) (later.0, omega (arith, later.1))
        ])

  -- A session before the first push.
  abbrev pub fresh_receiver : Option Addr → S → Receiver S
  fresh_receiver remote s = record {
    remote = remote;
    pushed_from = none;
    session = s;
    in_errs = 0;
    read_error = false;
  }

  pushed_packets-from_peer :
      (remote : Option Addr) (reads : List Reading) (s : S)
      → IsNet net
      → Handed s 0
          (from_peer net remote (packets_of reads))
          (from_others net remote (packets_of reads))
          (pushed_packets net packet_input reads (fresh_receiver remote s))
  unfolding pushed_packets pushed_packet accept_from
  pushed_packets-from_peer (some peer) reads s v =
      pushed_packets-receiver true peer reads s 0 false (omega arith)
  pushed_packets-from_peer none [] s v = (refl, refl)
  pushed_packets-from_peer none (failed ∷ rest) s v = (refl, refl)
  pushed_packets-from_peer none (late ∷ rest) s v = (refl, refl)
  pushed_packets-from_peer none (received b from ∷ rest) s v =
      let first : pushed_packet net packet_input (received b from) (fresh_receiver none s)
          ≡ receiver false from (packet_input b s) 0 false =
        pushed_packet-receiver false from s 0 false b from
        ∙ rw (is_peer_refl net packet_input from v) refl in
      rw (is_peer_refl net packet_input from v) (
        subst
          (λ x.
            Handed s 0 (b ∷ of_peer net from (packets_of rest))
              (strangers net from (packets_of rest)) (pushed_packets net packet_input rest x))
          (sym first)
          (pushed_packets-receiver false from rest (packet_input b s) 0 false (omega arith)))

-- The three ways in which packets come to a session: a loop over reads, a loop over batches of
-- messages, and the calls of a pusher. Whatever comes, packetInput gets exactly the packets of the
-- peer, in order, up to an error or the close, and InErrs counts all others, modulo 2^64. The peer
-- is the remote address or, without one, the sender of the first packet. That Equal is reflexive,
-- and the texts of addresses are not empty, is supposed.
pub reads_lem :
    {S : Type 0} (net : Net) (packet_input : Bytes → S → S) (remote : Option Addr)
    (reads : List Reading) (batches : List BatchReading) (s : S)
    → IsNet net
    → IsRemote remote
    → AreAddrs (packets_of reads)
    → AreAddrs (batches_of batches)
    → Fed net packet_input s 0
        (from_peer net remote (packets_of reads))
        (from_others net remote (packets_of reads))
        (default_read_loop net packet_input reads (start_reader remote s))
      × Fed net packet_input s 0
          (from_peer net remote (batches_of batches))
          (from_others net remote (batches_of batches))
          (batch_read_loop net packet_input batches (start_reader remote s))
      × Handed net packet_input s 0
          (from_peer net remote (packets_of reads))
          (from_others net remote (packets_of reads))
          (pushed_packets net packet_input reads (fresh_receiver net packet_input remote s))
reads_lem net packet_input remote reads batches s v a ok ok' =
    let fed = take_packets-from_peer net packet_input remote (packets_of reads) s v a ok in
    let loop = loop-take_packets net packet_input reads (start_reader remote s) in
    let fed' = take_packets-from_peer net packet_input remote (batches_of batches) s v a ok' in
    let loop' = batch-take_packets net packet_input batches (start_reader remote s) in
    (
      (loop.0 ∙ fed.0, loop.1 ∙ fed.1),
      (loop'.0 ∙ fed'.0, loop'.1 ∙ fed'.1),
      pushed_packets-from_peer net packet_input remote reads s v,
    )
