-- ===== src/Kcp/Send/Fragments.antt =====
-- kcp.go: what Send queues, in message mode.
use kcp_go.Prelude.{
  ℕ, zero, suc, ◌+◌, ◌*◌, ◌≤◌, ◌<◌, min, ◌≡◌, refl, sym, ap, ◌∙◌, Bool, true, List, [], ◌∷◌, ◌++◌,
  append-nil, append_assoc, arith, length, take, drop, length-take, length-drop, take-append-drop,
  length-eq_zero, pos, false, ◌==◌, le→ltb, ne→==, ℤ, negsuc,
}
use kcp_go.Bytes.{Bytes}
use kcp_go.Ring.{contents, push}
use kcp_go.Ring.Bounds.{IsValid, push-IsValid}
use kcp_go.Ring.Trace.{contents-push}
use kcp_go.Segment.{Segment, segment_zero}
use kcp_go.Kcp.{Kcp, is_zero}
use kcp_go.Kcp.Message.{payloads, IsMessage, FitsMss}
use kcp_go.Kcp.Send.{fragment_count, new_fragment, push_fragments, send, queue_fragments}

-- The segments that the loop pushes.
unfoldable pub cut : Bool → ℕ → ℕ → ℕ → ℕ → Bytes → List Segment
cut message mss zero count i buffer = []
cut message mss (suc n) count i buffer =
    new_fragment message mss count i buffer
    ∷ cut message mss n count (i + 1) (drop (min (length buffer) mss) buffer)

-- The loop appends them to the queue, and touches nothing else.
pub push_fragments-cut :
    (n count i : ℕ) (buffer : Bytes) (kcp : Kcp)
    → IsValid kcp.snd_queue
    → let out = push_fragments n count i buffer kcp in
      (contents out.snd_queue
        ≡ contents kcp.snd_queue ++ cut (is_zero kcp.stream) kcp.mss n count i buffer)
      × IsValid out.snd_queue
      × (out ≡ record kcp { snd_queue = out.snd_queue })
unfolding push_fragments cut
push_fragments-cut zero count i buffer kcp v = (sym (append-nil (contents kcp.snd_queue)), v, refl)
push_fragments-cut (suc n) count i buffer kcp v =
    let seg = new_fragment (is_zero kcp.stream) kcp.mss count i buffer in
    let rest = drop (min (length buffer) kcp.mss) buffer in
    let ih =
      push_fragments-cut n count (i + 1) rest (record kcp { snd_queue = push kcp.snd_queue seg })
        (push-IsValid kcp.snd_queue seg v) in
    (
      ih.0
          ∙ ap (λ xs. xs ++ cut (is_zero kcp.stream) kcp.mss n count (i + 1) rest)
              (contents-push kcp.snd_queue seg v)
          ∙ append_assoc (contents kcp.snd_queue) (seg ∷ [])
              (cut (is_zero kcp.stream) kcp.mss n count (i + 1) rest),
      ih.1,
      ih.2,
    )

take-all : (xs : Bytes) (n : ℕ) → length xs ≤ n → take n xs ≡ xs
take-all [] zero h = refl
take-all [] (suc n) h = refl
take-all (x ∷ xs) zero h = absurd (omega arith)
take-all (x ∷ xs) (suc n) h = ap (λ ys. x ∷ ys) (take-all xs n (omega arith))

-- With rounds enough for the buffer, the pieces make up the buffer.
pub payloads-cut :
    (message : Bool) (mss n count i : ℕ) (buffer : Bytes)
    → length buffer ≤ n * mss
    → payloads (cut message mss n count i buffer) ≡ buffer
unfolding payloads cut new_fragment
payloads-cut message mss zero count i buffer h = sym (length-eq_zero buffer (omega arith))
payloads-cut message mss (suc n) count i buffer h =
    ap (λ bs. take (min (length buffer) mss) buffer ++ bs)
      (payloads-cut message mss n count (i + 1) (drop (min (length buffer) mss) buffer)
        (grind (arith, length-drop (min (length buffer) mss) buffer)))
    ∙ take-append-drop (min (length buffer) mss) buffer

pub cut-FitsMss :
    (message : Bool) (mss n count i : ℕ) (buffer : Bytes)
    → FitsMss mss (cut message mss n count i buffer)
unfolding cut new_fragment
cut-FitsMss message mss zero count i buffer = tt
cut-FitsMss message mss (suc n) count i buffer = (
  omega (arith, length-take (min (length buffer) mss) buffer),
  cut-FitsMss message mss n count (i + 1) (drop (min (length buffer) mss) buffer),
)

pub length-cut :
    (message : Bool) (mss n count i : ℕ) (buffer : Bytes)
    → length (cut message mss n count i buffer) ≡ n
unfolding cut
length-cut message mss zero count i buffer = refl
length-cut message mss (suc n) count i buffer =
    ap suc (length-cut message mss n count (i + 1) (drop (min (length buffer) mss) buffer))

pub cut-IsMessage :
    (mss n count i : ℕ) (buffer : Bytes)
    → n + i ≡ count
    → count ≤ 255
    → IsMessage (cut true mss n count i buffer)
unfolding cut new_fragment
cut-IsMessage mss zero count i buffer e h = tt
cut-IsMessage mss (suc n) count i buffer e h =
    let rest = drop (min (length buffer) mss) buffer in
    (
      omega (arith, length-cut true mss n count (i + 1) rest),
      cut-IsMessage mss n count (i + 1) rest (omega arith) h,
    )

-- The count is enough for the buffer.
pub fragment_count-le : (mss n : ℕ) → 0 < mss → n ≤ fragment_count mss n * mss
unfolding fragment_count
fragment_count-le mss n h = grind (arith)

fragment_count_pos : (mss n : ℕ) → 0 < mss → 0 < fragment_count mss n
unfolding fragment_count
fragment_count_pos mss n h = grind arith

send-message_mode :
    (kcp : Kcp) (buffer : Bytes)
    → kcp.stream ≡ pos 0
    → 0 < length buffer
    → send kcp buffer ≡ queue_fragments kcp buffer
unfolding send
send-message_mode kcp buffer message nonempty =
    let some_bytes : (length buffer == 0) ≡ false = ground arith in
    let mode : is_zero kcp.stream ≡ true = rw message refl in rw (some_bytes, mode) refl

pub queue_fragments-few :
    (kcp : Kcp) (buffer : Bytes)
    → 0 < kcp.mss
    → fragment_count kcp.mss (length buffer) ≤ 255
    → let n = fragment_count kcp.mss (length buffer) in
      queue_fragments kcp buffer ≡ (pos 0, push_fragments n n 0 buffer kcp)
unfolding queue_fragments
queue_fragments-few kcp buffer h few =
    let n = fragment_count kcp.mss (length buffer) in
    let some_count : (n == 0) ≡ false =
      ne→== n 0 (omega (arith, fragment_count_pos kcp.mss (length buffer) h)) in
    rw (le→ltb 255 n few, some_count) refl

-- There is nothing to queue for an empty buffer.
pub send-empty : (kcp : Kcp) → send kcp [] ≡ (negsuc 0, kcp)
unfolding send
send-empty kcp = refl

-- What Send has done with a buffer that it took whole.
pub record Queued (kcp : Kcp) (buffer : Bytes) (out : ℤ × Kcp) (segs : List Segment) : Type 0 where
  pub accepted : out.0 ≡ pos 0
  pub appended : contents out.1.snd_queue ≡ contents kcp.snd_queue ++ segs
  pub carried : payloads segs ≡ buffer
  pub counted : length segs ≡ fragment_count kcp.mss (length buffer)
  pub message : IsMessage segs
  pub fitting : FitsMss kcp.mss segs
  pub valid : IsValid out.1.snd_queue
  pub untouched : out.1 ≡ record kcp { snd_queue = out.1.snd_queue }

-- In message mode Send accepts a buffer that is not empty and needs at most 255 segments. It appends
-- to the queue a message: segments of at most mss bytes that count down to the last one and carry
-- exactly the buffer. Nothing else changes.
pub send_message :
    (kcp : Kcp) (buffer : Bytes)
    → IsValid kcp.snd_queue
    → 0 < kcp.mss
    → kcp.stream ≡ pos 0
    → 0 < length buffer
    → fragment_count kcp.mss (length buffer) ≤ 255
    → Queued kcp buffer (send kcp buffer) (
        cut true kcp.mss
          (fragment_count kcp.mss (length buffer))
          (fragment_count kcp.mss (length buffer))
          0
          buffer)
send_message kcp buffer v pos_mss message nonempty few =
    let n = fragment_count kcp.mss (length buffer) in
    let out = push_fragments-cut n n 0 buffer kcp v in
    let mode : is_zero kcp.stream ≡ true = rw message refl in
    rw (send-message_mode kcp buffer message nonempty, queue_fragments-few kcp buffer pos_mss few)
      (record {
        accepted = refl;
        appended = out.0 ∙ ap (λ b. contents kcp.snd_queue ++ cut b kcp.mss n n 0 buffer) mode;
        carried =
            payloads-cut true kcp.mss n n 0 buffer
              (fragment_count-le kcp.mss (length buffer) pos_mss);
        counted = length-cut true kcp.mss n n 0 buffer;
        message = cut-IsMessage kcp.mss n n 0 buffer (omega arith) few;
        fitting = cut-FitsMss true kcp.mss n n 0 buffer;
        valid = out.1;
        untouched = out.2;
      })
