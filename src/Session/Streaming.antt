-- ===== src/Session/Streaming.antt =====
-- sess.go: what writeBuffersLocked hands to KCP in stream mode.
use kcp_go.Prelude.{
  ℕ, zero, suc, ◌≤◌, ◌<◌, ◌≡◌, refl, sym, ap, ◌∙◌, subst, ◌⊎◌, inl, inr, false, not, ◌||◌, none,
  some, List, [], ◌∷◌, arith, leb, leb→le, leb→lt, le→leb, lt→leb, Bool-cases, length, take, drop,
  length-take, length-drop, take-append-drop,
}
use kcp_go.Bytes.{Bytes}
use kcp_go.Ring.{contents}
use kcp_go.Ring.Bounds.{IsValid}
use kcp_go.Segment.{segment_zero}
use kcp_go.Kcp.{Kcp, Clock, full, is_zero}
use kcp_go.Kcp.Message.{FitsMss}
use kcp_go.Kcp.Send.{send, wait_snd}
use kcp_go.Kcp.Send.Fragments.{send-empty}
use kcp_go.Kcp.Send.Stream.{Streamed, Streamed-trans, none-Streamed, send_stream}
use kcp_go.Kcp.Flush.{flush}
use kcp_go.Session.{Session, send_pieces, send_buffers, write_buffers_locked}
use kcp_go.Session.Write.{joined, total_length-joined}

-- A machine in stream mode whose queue is in order.
pub record IsStreaming (kcp : Kcp) : Type 0 where
  pub queue : IsValid kcp.snd_queue
  pub fits : FitsMss kcp.mss (contents kcp.snd_queue)
  pub room : 0 < kcp.mss
  pub mode : is_zero kcp.stream ≡ false

-- Send leaves such a machine.
Streamed-IsStreaming :
    (kcp out : Kcp) (b : Bytes) → IsStreaming kcp → Streamed kcp out b → IsStreaming out
Streamed-IsStreaming kcp out b v s =
    let same : out.mss ≡ kcp.mss = ap (λ k. k.mss) s.untouched in
    record {
      queue = s.valid;
      fits = subst (λ m. FitsMss m (contents out.snd_queue)) (sym same) s.fitting;
      room = omega (arith, same, v.room);
      mode = ap (λ k. is_zero k.stream) s.untouched ∙ v.mode;
    }

send-Streamed :
    (kcp : Kcp) (b : Bytes) → IsStreaming kcp → length b ≤ kcp.mss → Streamed kcp (send kcp b).1 b
send-Streamed kcp [] v le =
    subst (λ k. Streamed kcp k []) (sym (ap (λ o. o.1) (send-empty kcp)))
      (none-Streamed kcp v.queue v.fits)
send-Streamed kcp (x ∷ b) v le =
    (send_stream kcp (x ∷ b) v.queue v.fits v.room v.mode (omega arith) (omega (arith, le))).1

send_pieces-Streamed :
    (fuel : ℕ) (b : Bytes) (kcp : Kcp)
    → IsStreaming kcp
    → length b < fuel
    → Streamed kcp (send_pieces fuel b kcp) b
unfolding send_pieces
send_pieces-Streamed zero b kcp v h = absurd (omega (arith, h))
send_pieces-Streamed (suc fuel) b kcp v h = elim (Bool-cases (leb (length b) kcp.mss)) [
  | inl fits ↦ rw (fits) (send-Streamed kcp b v (leb→le (length b) kcp.mss fits))
  | inr large ↦
      let b1 = take kcp.mss b in
      let b2 = drop kcp.mss b in
      let k1 = (send kcp b1).1 in
      let p = send-Streamed kcp b1 v (omega (arith, length-take kcp.mss b)) in
      let size : length b2 < fuel =
        omega (arith, h, v.room, length-drop kcp.mss b, leb→lt (length b) kcp.mss large) in
      rw (large) (
        subst (Streamed kcp (send_pieces fuel b2 k1)) (take-append-drop kcp.mss b) (
          Streamed-trans kcp k1 (send_pieces fuel b2 k1) b1 b2 p
            (send_pieces-Streamed fuel b2 k1 (Streamed-IsStreaming kcp k1 b1 v p) size)))
]

send_buffers-Streamed :
    (bs : List Bytes) (kcp : Kcp) → IsStreaming kcp → Streamed kcp (send_buffers bs kcp) (joined bs)
unfolding send_buffers
send_buffers-Streamed [] kcp v = none-Streamed kcp v.queue v.fits
send_buffers-Streamed (b ∷ bs) kcp v =
    let k1 = send_pieces (suc (length b)) b kcp in
    let p = send_pieces-Streamed (suc (length b)) b kcp v (omega arith) in
    Streamed-trans kcp k1 (send_buffers bs k1) b (joined bs) p
      (send_buffers-Streamed bs k1 (Streamed-IsStreaming kcp k1 b v p))

-- In stream mode, with a valid queue of segments that have at most mss bytes, where mss is not 0:
-- with a send window that is full, nothing is written and nothing changes. Otherwise all bytes of
-- all buffers are taken: the queue carries them in order behind what it carried before, whether or
-- not the last segment was filled up. Then the machine may flush, and nothing else happens to it.
pub write_stream :
    (clock : Clock) (s : Session) (bs : List Bytes)
    → IsStreaming s.kcp
    → (s.kcp.snd_wnd ≤ wait_snd s.kcp → write_buffers_locked clock s bs ≡ (none, s))
      × (wait_snd s.kcp < s.kcp.snd_wnd
          → ((write_buffers_locked clock s bs).0 ≡ some (length (joined bs)))
            × ((k : Kcp) × Streamed s.kcp k (joined bs)
                × (((write_buffers_locked clock s bs).1.kcp ≡ k)
                    ⊎ ((write_buffers_locked clock s bs).1.kcp ≡ (flush clock full k s.world).1))))
unfolding write_buffers_locked
write_stream clock s bs v = (
  (λ h. rw (le→leb s.kcp.snd_wnd (wait_snd s.kcp) h) refl),
  (λ h.
      let k = send_buffers bs s.kcp in
      let p = send_buffers-Streamed bs s.kcp v in
      let all = ap some (total_length-joined bs) in
      elim (Bool-cases (leb k.snd_wnd (wait_snd k) || not s.write_delay)) [
        | inl e ↦ rw (lt→leb s.kcp.snd_wnd (wait_snd s.kcp) h, e) (all, (k, p, inr refl))
        | inr e ↦ rw (lt→leb s.kcp.snd_wnd (wait_snd s.kcp) h, e) (all, (k, p, inl refl))
      ]),
)
