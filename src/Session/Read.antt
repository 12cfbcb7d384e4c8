-- ===== src/Session/Read.antt =====
-- sess.go: readLocked turns messages into a byte stream.
use kcp_go.Prelude.{ℕ, ◌≤◌, ◌<◌, ◌≡◌, Option, some, List, ◌∷◌, ◌++◌, length}
use kcp_go.Bytes.{Bytes}
use kcp_go.Ring.{contents}
use kcp_go.Segment.{Segment, segment_zero}
use kcp_go.Kcp.{Kcp}
use kcp_go.Kcp.Message.{payloads, IsMessage}
use kcp_go.Session.{Session}

-- The bytes that the user has yet to read, as far as they are in order.
abbrev pub stream : Session → Bytes
stream s = s.unread ++ payloads (contents s.kcp.rcv_queue)

-- A message of at most 255 segments, with a payload, is at the head of the queue.
pub record HasMessage (kcp : Kcp) : Type 0 where
  pub first : Segment
  pub others : List Segment
  pub behind : List Segment
  pub message : IsMessage (first ∷ others)
  pub few : length others < 255
  pub at_head : contents kcp.rcv_queue ≡ first ∷ others ++ behind
  pub some_bytes : 0 < length (payloads (first ∷ others))

-- What a call of readLocked does when data is ready: `out` is copied, and `more` has become ready.
pub record ReadResult (s : Session) (room : ℕ) (out : Option Bytes × Session) : Type 0 where
  pub copied : Bytes
  pub more : List Segment
  pub result : out.0 ≡ some copied
  pub in_stream : copied ++ stream out.1 ≡ stream s ++ payloads more
  pub in_room : length copied ≤ room
  pub progress : 0 < room → 0 < length copied
