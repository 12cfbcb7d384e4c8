-- ===== src/Transmit.antt =====
-- sess.go, postprocess.go, tx.go and tx_linux.go: postProcess, which makes datagrams of the packets in
-- the queue of a session and sends them in batches. The codec, the checksum, the random bytes, the clock
-- and what other goroutines do to the queue between two operations of the worker are parameters.
pub mod Order
pub mod Framing
pub mod Peer
pub mod Oob
pub mod Tx
pub mod Group
pub mod Loss
pub mod Arrival
mod Tests
mod LossTests
use kcp_go.Prelude.{
  ℕ, zero, suc, ◌*◌, Bool, true, false, ◌&&◌, ◌||◌, Option, none, some, List, [], ◌∷◌, ◌++◌, ltb,
  leb, ◌==◌, if◌then◌else◌, Zero, length, replicate,
}
use kcp_go.Bytes.{Bytes}
use kcp_go.Fec.{Codec, FecEncoder, encode, encode_oob}
use kcp_go.Packet.{Security, seal_packet}
use kcp_go.SendQueue.{SendQueue, pop, len}

-- maxBatchSize and maxFECEncodeLatency of sess.go, and ppBudget.
abbrev pub max_batch_size : ℕ
max_batch_size = 64

abbrev pub max_fec_encode_latency : ℕ
max_fec_encode_latency = 500

abbrev pub pp_budget : ℕ
pp_budget = 4 * max_batch_size

pub record SendRequest : Type 0 where
  pub buffer : Bytes
  pub oob : Bool

instance abbrev pub send_request_zero : Zero SendRequest
send_request_zero = record { zero_value = record { buffer = []; oob = false } }

-- What a session keeps as it is while it sends.
pub record Line : Type 0 where
  pub codec : Codec
  pub security : Security
  pub checksum : Bytes → ℕ
  pub dup : ℕ

-- What happens around the worker, by the number of rounds that are left: what others do to the queue
-- before it takes a packet and before it tests the queue again, whether die is closed and whether
-- ppClosing is set when it comes to send, the random bytes of each packet, and the clock.
pub record Around : Type 0 where
  pub others : ℕ → SendQueue SendRequest → SendQueue SendRequest
  pub meanwhile : ℕ → SendQueue SendRequest → SendQueue SendRequest
  pub closed : ℕ → Bool
  pub closing : ℕ → Bool
  pub random : ℕ → ℕ → Bytes
  pub now : ℕ → ℕ

-- The queue and the encoder of the session, the batch of the worker, and the batches given to tx.
pub record Transmitter : Type 0 where
  pub post_queue : SendQueue SendRequest
  pub fec_encoder : Option FecEncoder
  pub txqueue : List Bytes
  pub sent : List (List Bytes)

-- Stage 1: the parity shards, the packet and the encoder. What sealing makes of the memory of a parity
-- shard does not come back: encode writes a parity shard anew.
unfoldable pub frame :
    Codec → ℕ → Option FecEncoder → SendRequest → List Bytes × Bytes × Option FecEncoder
frame codec now none req = ([], req.buffer, none)
frame codec now (some enc) req =
    let (ecc, b, enc') = encode codec now enc req.buffer max_fec_encode_latency in
    if req.oob then ([], encode_oob enc req.buffer, some enc) else (ecc, b, some enc')

abbrev pub cons_sealed : Option Bytes → Option (List Bytes) → Option (List Bytes)
cons_sealed none bs = none
cons_sealed (some b) none = none
cons_sealed (some b) (some bs) = some (b ∷ bs)

-- Stage 2 on the packet and its parity shards, the k-th with the k-th random bytes; `none` is a panic.
unfoldable pub seal_each :
    Security → (Bytes → ℕ) → (ℕ → Bytes) → ℕ → List Bytes → Option (List Bytes)
seal_each security checksum random k [] = some []
seal_each security checksum random k (b ∷ bs) =
    cons_sealed (seal_packet security checksum (random k) b)
      (seal_each security checksum random (suc k) bs)

-- Stage 3: the packet, its copies, and the parity shards.
unfoldable pub datagrams : ℕ → List Bytes → List Bytes
datagrams dup [] = []
datagrams dup (b ∷ ecc) = b ∷ (replicate dup b ++ ecc)

abbrev pub duplicated :
    ℕ → Option FecEncoder → Option (List Bytes) → Option (List Bytes × Option FecEncoder)
duplicated dup enc none = none
duplicated dup enc (some bs) = some (datagrams dup bs, enc)

-- All stages on a request.
unfoldable pub image :
    Line → Around → ℕ → Option FecEncoder → SendRequest → Option (List Bytes × Option FecEncoder)
image l w k enc req =
    let (ecc, b, enc') = frame l.codec (w.now k) enc req in
    duplicated l.dup enc' (seal_each l.security l.checksum (w.random k) 0 (b ∷ ecc))

-- sendTx: the batch goes out unless the gate is shut, and is recycled.
unfoldable pub send_tx : Around → ℕ → Transmitter → Transmitter
send_tx w k t =
    if w.closing k
    then record t { txqueue = [] }
    else record t { txqueue = []; sent = t.sent ++ t.txqueue ∷ [] }

-- flushTx: whether the session is closed.
unfoldable pub flush_tx : Around → ℕ → Transmitter → Bool × Transmitter
flush_tx w k t = if w.closed k then (true, record t { txqueue = [] }) else (false, send_tx w k t)

-- How postProcess ends: with `more`, or in a panic.
pub data Outcome : Type 0 where
  panics : Outcome
  returns : Bool → Transmitter → Outcome

pub data Round : Type 0 where
  stops : Outcome → Round
  continues : Transmitter → Round

unfoldable pub test_batch : Around → ℕ → Transmitter → Round
test_batch w k t =
    let (closed, t') = flush_tx w k t in
    if len t.post_queue == 0 || leb max_batch_size (length t.txqueue)
    then if closed then stops (returns true t') else continues t'
    else continues t

unfoldable pub put_datagrams :
    Around → ℕ → Transmitter → Option (List Bytes × Option FecEncoder) → Round
put_datagrams w k t none = stops panics
put_datagrams w k t (some (ds, enc)) = test_batch w k (record t {
  post_queue = w.meanwhile k t.post_queue;
  fec_encoder = enc;
  txqueue = t.txqueue ++ ds;
})

unfoldable pub take_request :
    Line → Around → ℕ → Transmitter → Option SendRequest × SendQueue SendRequest → Round
take_request l w k t (none, sq) = stops (returns false (record t { post_queue = sq }))
take_request l w k t (some req, sq) =
    put_datagrams w k (record t { post_queue = sq }) (image l w k t.fec_encoder req)

-- One round of the loop in postProcess.
unfoldable pub post_round : Line → Around → ℕ → Transmitter → Round
post_round l w k t = take_request l w k t (pop (w.others k t.post_queue))

-- Behind the loop.
unfoldable pub end_rounds : Around → Transmitter → Outcome
end_rounds w t =
    let (closed, t') = flush_tx w 0 t in
    let last = if ltb 0 (length t.txqueue) then t' else t in
    let sq = w.others 0 last.post_queue in
    if ltb 0 (length t.txqueue) && closed
    then returns true t'
    else returns (ltb 0 (len sq)) (record last { post_queue = sq })

-- postProcess, with the rounds that its budget leaves.
unfoldable pub post_process : Line → Around → ℕ → Transmitter → Outcome
post_process l w zero t = end_rounds w t
post_process l w (suc left) t = elim (post_round l w (suc left) t) [
  | stops o ↦ o
  | continues t' ↦ post_process l w left t'
]
