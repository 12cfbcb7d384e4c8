-- ===== src/Transmit/Order.antt =====
-- sess.go and postprocess.go: what postProcess of an open session sends, and in which order.
use kcp_go.Prelude.{ℕ, suc, ◌≡◌, Bool, true, false, Option, none, some, List, [], ◌∷◌, ◌++◌, length}
use kcp_go.Bytes.{Bytes}
use kcp_go.Fec.{FecEncoder}
use kcp_go.SendQueue.{SendQueue}
use kcp_go.SendQueue.Fifo.{waiting, IsQueue}
use kcp_go.Transmit.{
  SendRequest, send_request_zero, Line, Around, Transmitter, image, Outcome, panics, returns,
  post_process, Round, stops, continues,
}

-- Others put packets behind those that wait, and take none.
pub record Appends (f : SendQueue SendRequest → SendQueue SendRequest) : Type 0 where
  pub valid : (sq : SendQueue SendRequest) → IsQueue sq → IsQueue (f sq)
  pub behind :
      (sq : SendQueue SendRequest)
      → IsQueue sq
      → (xs : List SendRequest) × (waiting (f sq) ≡ waiting sq ++ xs)

-- The session stays open, and nobody else takes packets.
pub record IsOpen (w : Around) : Type 0 where
  pub others_append : (k : ℕ) → Appends (w.others k)
  pub meanwhile_append : (k : ℕ) → Appends (w.meanwhile k)
  pub not_closed : (k : ℕ) → w.closed k ≡ false
  pub not_closing : (k : ℕ) → w.closing k ≡ false

-- The datagrams of requests that are served one after the other, and the encoder from then on.
pub data Images (l : Line) (w : Around)
    : ℕ → Option FecEncoder → List SendRequest → List Bytes → Type 0 where
  nothing : {left : ℕ} {enc : Option FecEncoder} → Images l w left enc [] []
  one_more :
      {left : ℕ} {enc enc' : Option FecEncoder} {req : SendRequest} {reqs : List SendRequest}
      {ds out : List Bytes}
      → image l w (suc left) enc req ≡ some (ds, enc')
      → Images l w left enc' reqs out
      → Images l w (suc left) enc (req ∷ reqs) (ds ++ out)

-- Requests that are served one after the other, but for the last one, whose datagrams do not fit.
pub data Fails (l : Line) (w : Around) : ℕ → Option FecEncoder → List SendRequest → Type 0 where
  last_fails :
      {left : ℕ} {enc : Option FecEncoder} {req : SendRequest}
      → image l w (suc left) enc req ≡ none
      → Fails l w (suc left) enc (req ∷ [])
  served_first :
      {left : ℕ} {enc enc' : Option FecEncoder} {req : SendRequest} {reqs : List SendRequest}
      {ds : List Bytes}
      → image l w (suc left) enc req ≡ some (ds, enc')
      → Fails l w left enc' reqs
      → Fails l w (suc left) enc (req ∷ reqs)

abbrev pub concat : List (List Bytes) → List Bytes
concat [] = []
concat (b ∷ bs) = b ++ concat bs

-- From `t` on, with `left` rounds left: what was served, what came in, and what went out.
pub record Delivered (l : Line) (w : Around) (left : ℕ) (t : Transmitter) (more : Bool)
    (t' : Transmitter) : Type 0 where
  pub served : List SendRequest
  pub arrived : List SendRequest
  pub out : List Bytes
  pub in_order : waiting t.post_queue ++ arrived ≡ served ++ waiting t'.post_queue
  pub images : Images l w left t.fec_encoder served out
  pub went_out : concat t'.sent ≡ (concat t.sent ++ t.txqueue) ++ out
  pub none_kept : t'.txqueue ≡ []
  pub finished : more ≡ false → waiting t'.post_queue ≡ []
  pub worn_out : more ≡ true → length served ≡ left

-- What was taken from the queue, in order, until the last of it could not be sent.
pub record Stuck (l : Line) (w : Around) (left : ℕ) (t : Transmitter) : Type 0 where
  pub taken : List SendRequest
  pub arrived : List SendRequest
  pub rest : List SendRequest
  pub in_order : waiting t.post_queue ++ arrived ≡ taken ++ rest
  pub fails : Fails l w left t.fec_encoder taken

abbrev pub Handled : Line → Around → ℕ → Transmitter → Outcome → Type 0
Handled l w left t panics = Stuck l w left t
Handled l w left t (returns more t') = Delivered l w left t more t'

-- What the rounds from now on make of the outcome of one.
abbrev go_on : Line → Around → ℕ → Round → Outcome
go_on l w left (stops o) = o
go_on l w left (continues t) = post_process l w left t

abbrev pub IsReady : Transmitter → Type 0
IsReady t = IsQueue t.post_queue × (waiting t.post_queue ≡ [] → t.txqueue ≡ [])
