-- ===== src/Transmit/Tests.antt =====
-- sess.go and postprocess.go: a session that seals with a toy AEAD and sends a parity shard behind every
-- second packet, and the theorems at it.
use kcp_go.Prelude.{
  ◌+◌, ◌*◌, ◌≡◌, refl, true, false, Option, none, some, List, [], ◌∷◌, ◌++◌, arith, ◌==◌,
  if◌then◌else◌, replicate, All, sub_slice, copy, clear, make, nat_zero, ℕ,
}
use kcp_go.Bytes.{Bytes, put_u16, put_u32}
use kcp_go.Snmp.{new_snmp}
use kcp_go.Fec.{
  Codec, FecEncoder, paws_of, encode, seal_data, next_number, put_size, cache_data, encode_group,
  data_columns, seal_all, seal_parity, skip_parity,
}
use kcp_go.Kcp.{Clock, new_kcp}
use kcp_go.Packet.{insecure, seal_packet, Aead, sealing, security_header}
use kcp_go.Packet.Roundtrip.{IsAead}
use kcp_go.SendQueue.{SendQueue, pop, len}
use kcp_go.Session.{Session, packet_input, kcp_input, send_oob, queued}
use kcp_go.Transmit.{
  SendRequest, send_request_zero, Line, Around, Transmitter, image, frame, seal_each, datagrams,
  post_process, returns, panics, flush_tx, Outcome, test_batch, put_datagrams, take_request,
  post_round,
}
use kcp_go.Transmit.Peer.{IsSecure, Opens, carried, data_request, image_lem, Sealable}
use kcp_go.Transmit.Oob.{oob_request, send_oob_lem}
use kcp_go.Transmit.Tx.{Tx}

abbrev strip_tag : Bytes → Option Bytes
strip_tag [] = none
strip_tag (x ∷ b) = if x == 99 then some b else none

-- Its tag is one byte in front.
abbrev tagging : Aead
tagging = record {
  aead_nonce_size = 2;
  aead_overhead = 1;
  seal_bytes = λ nonce b. 99 ∷ b;
  open_bytes = λ nonce b. strip_tag b;
}

tagging-IsAead : IsAead tagging
tagging-IsAead = record { open-seal = λ nonce b. refl; length-seal = λ nonce b. omega arith }

abbrev first_column : List Bytes → Bytes
first_column [] = []
first_column (c ∷ cs) = c

abbrev repeating : Codec
repeating = record {
  accepts = λ d p. true;
  encode_shards = λ d p columns. some (replicate p (first_column columns));
  reconstruct = λ d p shards. none;
}

-- A copy of each datagram is sent.
abbrev wire : Line
wire = record { codec = repeating; security = sealing tagging; checksum = λ b. 5; dup = 1 }

abbrev calm : Around
calm = record {
  others = λ k sq. sq;
  meanwhile = λ k sq. sq;
  closed = λ k. false;
  closing = λ k. false;
  random = λ k j. 40 ∷ 41 ∷ [];
  now = λ k. 100;
}

-- The next packet ends a group.
abbrev encoder : FecEncoder
encoder = record {
  data_shards = 2;
  parity_shards = 1;
  shard_size = 3;
  paws = paws_of 3;
  next = 1;
  shard_count = 1;
  max_size = 12;
  header_offset = 2;
  payload_offset = 8;
  shard_cache = replicate 3 (record { memory = make 40; size = 12 });
  ts_latest_packet = 90;
}

abbrev datagram : Bytes
datagram =
    7 ∷ 0 ∷ 0 ∷ 0 ∷ 82 ∷ 0 ∷ 32 ∷ 0 ∷ 1 ∷ 2 ∷ 3 ∷ 4 ∷ 0 ∷ 0 ∷ 0 ∷ 0 ∷ 0 ∷ 0 ∷ 0 ∷ 0 ∷ 0 ∷ 0 ∷ 0 ∷ 0
    ∷ []

abbrev peer : Session
peer = record {
  kcp = new_kcp 7;
  world = record { tick = 0; sent = []; snmp = new_snmp };
  unread = [];
  fec_decoder = none;
  has_fec_encoder = true;
  security = sealing tagging;
  header_size = 10;
  ack_no_delay = false;
  write_delay = false;
  read_event = false;
  write_event = false;
  has_oob_callback = true;
  oob_inbox = [];
  kcp_in_errors = 0;
  in_csum_errors = 0;
  in_errs = 0;
  oob_packets = 0;
  in_pkts = 0;
  in_bytes = 0;
}

abbrev ticking : Clock
ticking n = 1000 + 10 * n

wire-IsSecure : IsSecure wire (λ j. 40 ∷ 41 ∷ [])
wire-IsSecure = record {
  security_holds = tagging-IsAead;
  nonces = λ j. refl;
  is_word = λ x. omega arith;
}

-- The parity shard that the packet makes.
parity-Sealable :
    All
      (Sealable wire.security)
      (frame repeating 100 (some encoder) (data_request wire (some encoder) datagram)).0
unfolding frame encode seal_data next_number put_size cache_data encode_group data_columns seal_all
    seal_parity skip_parity put_u32 put_u16 paws_of security_header copy clear sub_slice
parity-Sealable = ((omega arith, omega arith, omega arith), tt)

image_lem_example :
    (d : Bytes) × (ps : List Bytes) × (image wire calm 3
        (some encoder)
        (data_request wire (some encoder) datagram)
      ≡ some (
        d ∷ (replicate 1 d ++ ps),
        (frame repeating 100 (some encoder) (data_request wire (some encoder) datagram)).2,
      ))
    × Opens wire
        (frame repeating 100 (some encoder) (data_request wire (some encoder) datagram)).0
        ps
    × (packet_input ticking repeating (λ b. 5) d peer
        ≡ some (kcp_input ticking repeating (carried (some encoder) datagram) peer))
unfolding security_header
image_lem_example =
    image_lem wire calm 3 (some encoder) datagram ticking repeating peer wire-IsSecure (refl, refl)
      refl (omega arith) (omega arith) (omega arith) parity-Sealable

send_oob_lem_example :
    (send_oob peer (1 ∷ 2 ∷ 3 ∷ []) ≡ queued (oob_request peer (1 ∷ 2 ∷ 3 ∷ [])).buffer)
    × ((d : Bytes) × (image wire calm 3 (some encoder) (oob_request peer (1 ∷ 2 ∷ 3 ∷ []))
          ≡ some (d ∷ (replicate 1 d ++ []), some encoder))
        × (packet_input ticking repeating (λ b. 5) d peer
            ≡ some (record peer {
              oob_packets = 1;
              oob_inbox = (1 ∷ 2 ∷ 3 ∷ []) ∷ [];
              in_pkts = 1;
              in_bytes = 15;
            })))
unfolding security_header new_kcp
send_oob_lem_example =
    send_oob_lem wire calm 3 encoder peer (1 ∷ 2 ∷ 3 ∷ []) ticking repeating peer wire-IsSecure
      (refl, refl) refl refl (omega arith) (omega arith) (omega arith) refl refl

-- Two packets wait.
abbrev busy : Transmitter
busy = record {
  post_queue = record {
    q =
        record { buffer = make 10 ++ datagram; oob = false }
        ∷ record { buffer = make 10 ++ 7 ∷ 0 ∷ 0 ∷ 0 ∷ 1 ∷ []; oob = true }
        ∷ [];
    capacity = 4;
    head = 0;
  };
  fec_encoder = some encoder;
  txqueue = [];
  sent = [];
}

-- A call of Close empties the queue behind the first packet.
abbrev plain_wire : Line
plain_wire = record wire { security = insecure }

abbrev drained : ℕ → SendQueue SendRequest → SendQueue SendRequest
drained k sq = if k == 2 then sq else record { q = []; capacity = 4; head = 0 }

abbrev closing_down : Around
closing_down = record calm { others = drained }

abbrev kept : Outcome → List Bytes
kept panics = []
kept (returns more t) = t.txqueue

-- postProcess returns with the datagrams of the packet in the worker's batch.
stranded :
    kept (post_process plain_wire closing_down 2 (record busy { fec_encoder = none }))
    ≡ (make 10 ++ datagram) ∷ (make 10 ++ datagram) ∷ []
unfolding post_process post_round take_request put_datagrams test_batch flush_tx image frame
    seal_each seal_packet datagrams pop len
stranded = refl

abbrev quiet : Tx
quiet = record { out_pkts = 18446744073709551615; out_bytes = 7; write_error = false }

abbrev one_each : ℕ → List Bytes → Option ℕ
one_each k bs = some 1
