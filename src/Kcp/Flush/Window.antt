-- ===== src/Kcp/Flush/Window.antt =====
-- kcp.go: phase 4 of flush, which moves queued segments into flight.
use kcp_go.Prelude.{
  ℕ, zero, suc, ◌+◌, ◌%◌, ◌^◌, ◌≤◌, ◌<◌, max, ◌≡◌, refl, sym, ap, ◌∙◌, ◌⊎◌, inl, inr, true, false,
  not, some, List, [], ◌∷◌, ◌++◌, append-nil, append_assoc, arith, Bool-cases, Option-cases, length,
  take, drop, length-eq_zero, add32, sub32,
}
use kcp_go.Serial.{itimediff, is_neg}
use kcp_go.Ring.{contents, push, pop}
use kcp_go.Ring.Bounds.{IsValid, push-IsValid, pop-IsValid}
use kcp_go.Ring.Trace.{contents-push, pop-some, pop-none}
use kcp_go.Segment.{Segment, segment_zero}
use kcp_go.Kcp.{Kcp}
use kcp_go.Kcp.Consts
use kcp_go.Kcp.Flush.{fill_window}

-- Segments as phase 4 stamps them, with numbers from `nxt` on.
unfoldable pub stamp : ℕ → ℕ → List Segment → List Segment
stamp conv nxt [] = []
stamp conv nxt (seg ∷ segs) =
    record seg { conv = conv; cmd = Consts.cmd_push; sn = nxt } ∷ stamp conv (add32 nxt 1) segs

-- What phase 4 has done: it took the first `count` segments off the queue and appended them, stamped
-- with the next numbers, to snd_buf.
pub record Filled (kcp : Kcp) (count : ℕ) (out : Kcp) : Type 0 where
  pub left : contents out.snd_queue ≡ drop count (contents kcp.snd_queue)
  pub moved :
      contents out.snd_buf
      ≡ contents kcp.snd_buf ++ stamp kcp.conv kcp.snd_nxt (take count (contents kcp.snd_queue))
  pub numbered : out.snd_nxt ≡ (kcp.snd_nxt + count) % 2 ^ 32
  pub queue_valid : IsValid out.snd_queue
  pub buf_valid : IsValid out.snd_buf
  pub untouched :
      out ≡ record kcp { snd_queue = out.snd_queue; snd_buf = out.snd_buf; snd_nxt = out.snd_nxt }

nothing_moved :
    (kcp : Kcp)
    → IsValid kcp.snd_queue
    → IsValid kcp.snd_buf
    → kcp.snd_nxt < 2 ^ 32
    → Filled kcp 0 kcp
unfolding stamp
nothing_moved kcp vq vb h = record {
  left = refl;
  moved = sym (append-nil (contents kcp.snd_buf));
  numbered = omega arith;
  queue_valid = vq;
  buf_valid = vb;
  untouched = refl;
}

abbrev next_state : Kcp → Segment → Kcp
next_state kcp seg = record kcp {
  snd_queue = (pop kcp.snd_queue).1;
  snd_buf =
      push kcp.snd_buf (record seg { conv = kcp.conv; cmd = Consts.cmd_push; sn = kcp.snd_nxt });
  snd_nxt = add32 kcp.snd_nxt 1;
}

one_moved :
    (kcp : Kcp) (seg : Segment) (count : ℕ) (out : Kcp)
    → IsValid kcp.snd_queue
    → IsValid kcp.snd_buf
    → (pop kcp.snd_queue).0 ≡ some seg
    → Filled (next_state kcp seg) count out
    → Filled kcp (count + 1) out
unfolding stamp
one_moved kcp seg count out vq vb e f =
    let queue = pop-some kcp.snd_queue seg vq e in
    let newseg = record seg { conv = kcp.conv; cmd = Consts.cmd_push; sn = kcp.snd_nxt } in
    let more : suc count ≡ count + 1 = omega arith in
    rw (← more) (record {
      left = f.left ∙ sym (ap (drop (suc count)) queue);
      moved =
          f.moved
          ∙ ap
              (λ xs.
                xs
                ++ stamp kcp.conv (add32 kcp.snd_nxt 1)
                    (take count (contents (pop kcp.snd_queue).1)))
              (contents-push kcp.snd_buf newseg vb)
          ∙ append_assoc (contents kcp.snd_buf) (newseg ∷ [])
              (stamp kcp.conv (add32 kcp.snd_nxt 1) (take count (contents (pop kcp.snd_queue).1)))
          ∙ sym (
              ap (λ xs. contents kcp.snd_buf ++ stamp kcp.conv kcp.snd_nxt (take (suc count) xs))
                queue);
      numbered = f.numbered ∙ omega arith;
      queue_valid = f.queue_valid;
      buf_valid = f.buf_valid;
      untouched = f.untouched;
    })

-- Phase 4 moves segments from the head of the queue, in order, and loses none: the flushed window
-- gets consecutive numbers from snd_nxt on, and snd_nxt goes on behind them.
pub fill_window_lem :
    (fuel cwnd : ℕ) (kcp : Kcp)
    → IsValid kcp.snd_queue
    → IsValid kcp.snd_buf
    → kcp.snd_nxt < 2 ^ 32
    → Filled kcp (fill_window fuel cwnd kcp).0 (fill_window fuel cwnd kcp).1
unfolding fill_window
fill_window_lem zero cwnd kcp vq vb h = nothing_moved kcp vq vb h
fill_window_lem (suc fuel) cwnd kcp vq vb h =
    elim (Bool-cases (not (is_neg (itimediff kcp.snd_nxt (add32 kcp.snd_una cwnd))))) [
      | inl closed ↦ rw (closed, fill_window) (nothing_moved kcp vq vb h)
      | inr open_window ↦ elim (Option-cases (pop kcp.snd_queue).0) [
        | inl empty ↦ rw (open_window, empty, fill_window) (nothing_moved kcp vq vb h)
        | inr (seg, e) ↦
            rw (open_window, e, fill_window)
              (one_moved kcp seg (fill_window fuel cwnd (next_state kcp seg)).0
                (fill_window fuel cwnd (next_state kcp seg)).1 vq vb e
                (fill_window_lem fuel cwnd (next_state kcp seg) (pop-IsValid kcp.snd_queue vq)
                  (push-IsValid kcp.snd_buf _ vb) (omega arith)))
      ]
    ]

-- How many numbers are in flight.
abbrev pub in_flight : Kcp → ℕ
in_flight kcp = sub32 kcp.snd_nxt kcp.snd_una

window_open :
    (nxt una cwnd : ℕ)
    → nxt < 2 ^ 32
    → una < 2 ^ 32
    → sub32 nxt una < 2 ^ 30
    → cwnd < 2 ^ 30
    → not (is_neg (itimediff nxt (add32 una cwnd))) ≡ false
    → sub32 nxt una < cwnd
unfolding itimediff
window_open nxt una cwnd hn hu f c e = ground arith

window_closed :
    (nxt una cwnd : ℕ)
    → nxt < 2 ^ 32
    → una < 2 ^ 32
    → sub32 nxt una < 2 ^ 30
    → cwnd < 2 ^ 30
    → not (is_neg (itimediff nxt (add32 una cwnd))) ≡ true
    → cwnd ≤ sub32 nxt una
unfolding itimediff
window_closed nxt una cwnd hn hu f c e = ground arith

-- The numbers of a sender whose windows are far below half the range of the counters.
pub record IsSender (kcp : Kcp) : Type 0 where
  pub queue_valid : IsValid kcp.snd_queue
  pub buf_valid : IsValid kcp.snd_buf
  pub nxt_word : kcp.snd_nxt < 2 ^ 32
  pub una_word : kcp.snd_una < 2 ^ 32
  pub near : in_flight kcp < 2 ^ 30

IsSender-next :
    (kcp : Kcp) (seg : Segment) (cwnd : ℕ)
    → IsSender kcp
    → cwnd < 2 ^ 30
    → in_flight kcp < cwnd
    → IsSender (next_state kcp seg)
IsSender-next kcp seg cwnd v c w = record {
  queue_valid = pop-IsValid kcp.snd_queue v.queue_valid;
  buf_valid = push-IsValid kcp.snd_buf _ v.buf_valid;
  nxt_word = omega arith;
  una_word = v.una_word;
  near = omega arith;
}

-- Phase 4 never lets more than the effective window into flight, and, given as many rounds as there
-- are queued segments, stops only when the window is full or nothing is queued.
pub fill_window-in_flight :
    (fuel cwnd : ℕ) (kcp : Kcp)
    → IsSender kcp
    → cwnd < 2 ^ 30
    → length (contents kcp.snd_queue) ≤ fuel
    → let out = (fill_window fuel cwnd kcp).1 in
      (in_flight out ≤ max (in_flight kcp) cwnd)
      × ((cwnd ≤ in_flight out) ⊎ (contents out.snd_queue ≡ []))
unfolding fill_window
fill_window-in_flight zero cwnd kcp v c f =
    (omega arith, inr (length-eq_zero (contents kcp.snd_queue) (omega arith)))
fill_window-in_flight (suc fuel) cwnd kcp v c f =
    elim (Bool-cases (not (is_neg (itimediff kcp.snd_nxt (add32 kcp.snd_una cwnd))))) [
      | inl closed ↦
          let w =
            window_closed kcp.snd_nxt kcp.snd_una cwnd v.nxt_word v.una_word v.near c closed in
          rw (closed, fill_window) (omega arith, inl w)
      | inr open_window ↦ elim (Option-cases (pop kcp.snd_queue).0) [
        | inl empty ↦
            rw (open_window, empty, fill_window)
              (omega arith, inr (pop-none kcp.snd_queue v.queue_valid empty))
        | inr (seg, e) ↦
            let w =
              window_open kcp.snd_nxt kcp.snd_una cwnd v.nxt_word v.una_word v.near c open_window in
            let queue = ap length (pop-some kcp.snd_queue seg v.queue_valid e) in
            let ih =
              fill_window-in_flight fuel cwnd (next_state kcp seg)
                (IsSender-next kcp seg cwnd v c w) c (omega arith) in
            rw (open_window, e, fill_window) (omega (arith, ih.0), ih.1)
      ]
    ]
