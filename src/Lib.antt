-- ===== src/Lib.antt =====
-- A verification library for kcp-go, a reliable-UDP transport in Go.
--
-- The program. A session (sess.go) feeds a KCP protocol machine (kcp.go) with packets and user
-- data. The machine keeps its segments in ring buffers (ringbuffer.go) and in a heap of received
-- segments, and hands datagrams to an output callback. On their way to the network datagrams may
-- pass forward error correction (fec.go, autotune.go), encryption (crypt.go) and a queue
-- (sendqueue.go) that worker goroutines drain (postprocess.go).
--
-- The files.
--   Prelude    shared names: lists and Go slices over native numbers, signed and 32-bit arithmetic.
--   Ring       ringbuffer.go: RingBuffer, with Bounds (the invariant), Fifo, Grow, Scan and Trace
--              (every method against a plain list). Go's methods keep their names in lower case:
--              Push is `push`, At is `at`, Clear is `clear_all`.
--   Bytes      the little-endian words of encoding/binary.
--   Serial     _itimediff of kcp.go.
--   Snmp       the counters of snmp.go and snmp_on.go that the protocol machine touches.
--   Segment    segment, encode, and the header that Input reads.
--   Heap       Push and Pop of container/heap, over a slice.
--   SegmentHeap  segmentHeap of kcp.go.
--   Kcp        KCP and NewKCP, with Consts, Acks (update_ack to ack_push), Recv (PeekSize, Recv,
--              parse_data), Send, Flush (the six phases of flush), Input, and Timer (Update, Check
--              and the settings). Their children prove what each part does.
--   Items      how often a list holds what passes a test, whatever its order: what the heaps keep.
--   SendQueue  sendqueue.go, with Fifo (against the plain list of what waits).
--   AutoTune   autotune.go, with Window (the ring of samples) and Width (the pulse scan).
--   Fec        fec.go's encoder, with Decoder (the decoder), Align (the numbers that the encoder
--              gives out), Header and Expected (what the decoder makes of them), and Start (the
--              constructors). Recover says what a shard set and its code are, Tables and Rebuild are about
--              recovery, Gather and Restore about the packets of a set as they come in, Group and Encode
--              about those that the encoder has; Summing is a small code for tests. The Reed-Solomon codec
--              is a parameter, `Codec`.
--   Crypt      crypt.go: cipher feedback and the packet ciphers. Xor and Unrolled are about their steps,
--              Cfb compares the unrolled functions with the definition of cipher feedback, Roundtrip
--              is about both directions.
--   Packet     stage 2 of postProcess and the first half of packetInput in sess.go, with aeadCrypt
--              of crypt.go, and Roundtrip (both ends).
--   Session    UDPSession of sess.go, with Create (newUDPSession), Read (readLocked), Write
--              and Streaming (writeBuffersLocked in message and in stream mode), Mtu (SetMtu and the
--              room for headers), and Listener (Listener's packetInput, with Isolation about what a
--              packet can do to other sessions).
--   PostProcess  postprocess.go: the queue of the workers and how sessions are claimed for it, with
--              Queue (against the plain list of what waits), Claims and Once (what holds in every
--              interleaving).
--   Sched      timedsched.go: the heap of tasks and a shard, with Order (push), Fall and Pop (pop),
--              Head and Wake (when a shard wakes).
--   Transmit   postProcess of sess.go with flushTx and sendTx of postprocess.go, with Order (what goes
--              out), Framing and Peer (what the peer makes of it), Oob (out-of-band data), Tx (tx.go and
--              tx_linux.go), and Group, Loss and Arrival (a group of packets between encode and decode).
--   ReadLoop   readloop.go and readloop_linux.go, with Source (the test of the sender) and Paths (the
--              three ways in which packets come).
--
-- State. A method with a pointer receiver takes the record and returns the new one. What the
-- machine shares with the rest is `World`: the datagrams given to the output callback, the counters,
-- and how often the clock was read, where the clock is a parameter, one value for each reading.
-- Unsigned words are native numbers with their wrap-around written out, int32 fields are ℤ and wrap
-- by `wrap32`. A nil slice and an empty one are not told apart. An index out of range, which panics
-- in Go, reads the zero value; Ring.Bounds shows that the ring buffer makes no such access.
--
-- Loops. Loops over a ring buffer recur on the number of rounds. `merge_fragment`, `move_ready` and
-- `fill_window` take an element of a queue in each round, so the queue's length is their fuel;
-- `input_loop` reads a 24-byte header in each round, so the packet's length is; the loops of
-- container/heap halve an index or go down a level, so the heap's length is. `collapse` of AutoTune
-- takes a sample or more in each round, so the number of samples is.
--
-- In Session, `send_pieces` cuts a byte or more off the buffer in each round that goes on, so the
-- length and one is its fuel. In Transmit the budget of postProcess is its fuel, and the loop over
-- WriteBatch has as many rounds as there are datagrams, which Tx shows to be enough.
--
-- Parameters. In Fec the clock is a parameter of `encode`, and in SendQueue the capacity that append
-- grows to. A block cipher (`BlockCipher`), the key stream of Salsa20, an AEAD (`Aead`) and CRC32 are
-- parameters too; IsCipher, IsCrypt and IsAead say what their documentation promises. The random bytes
-- of a nonce are an argument. IsCode and IsSized say what the documentation of the Reed-Solomon codec
-- promises. In Transmit what other goroutines do to the queue of a session between two operations of its worker is
-- a parameter, and so is the connection in Tx; in ReadLoop packetInput, IP.Equal and the texts of UDP
-- addresses are.
--
-- Sessions. A method of UDPSession that holds the lock is one step on `Session`, which contains the
-- machine, its world, and the counters that the method touches. The pooled buffers have 1472 bytes,
-- `pool_size`. The sessions of a Listener live in a store, and its map and its backlog hold their
-- numbers; the address of a peer is a number that stands for its text.
--
-- Interleavings. In PostProcess and Sched each atomic operation and each locked section is a step of a
-- relation, and any thread may take the next one; a loop of the source that pops or executes item by
-- item takes one step for each. The loops inside a locked section are functions: `rise` and `fall` move
-- an index through the heap, and `take_due` pops in each round, so the heap's length is their fuel.
--
-- Not modelled. The channels, deadlines and sockets of sess.go, so that the loops in which Read and
-- Write wait are left out, the write gate, the set-up of keys in crypt.go, random numbers (entropy.go)
-- and the counters of fec.go. The reuse of memory by the buffer pool and trace logging. The capacity of
-- a payload slice and of the encoding buffer is taken as large enough.
pub mod Prelude
pub mod Ring
pub mod Bytes
pub mod Serial
pub mod Snmp
pub mod Segment
pub mod Items
pub mod Heap
pub mod SegmentHeap
pub mod Kcp
pub mod SendQueue
pub mod AutoTune
pub mod Fec
pub mod Crypt
pub mod Packet
pub mod Session
pub mod PostProcess
pub mod Sched
pub mod Transmit
pub mod ReadLoop
