-- ===== src/Session/Write.antt =====
-- sess.go: what writeBuffersLocked hands to KCP.
use kcp_go.Prelude.{
  ℕ, zero, suc, ◌≤◌, ◌<◌, ◌≡◌, refl, sym, ap, ap₂, ◌∙◌, subst, ◌⊎◌, inl, inr, true, not, ◌||◌, none,
  some, List, [], ◌∷◌, ◌++◌, append-nil, append_assoc, arith, leb, leb→le, leb→lt, le→leb, lt→leb,
  Bool-cases, length, take, drop, length-append, length-take, length-drop, take-append-drop, pos,
}
use kcp_go.Bytes.{Bytes}
use kcp_go.Ring.{contents}
use kcp_go.Ring.Bounds.{IsValid}
use kcp_go.Segment.{Segment, segment_zero}
use kcp_go.Kcp.{Kcp, Clock, full}
use kcp_go.Kcp.Message.{payloads, FitsMss, payloads-append, IsMessage}
use kcp_go.Kcp.Send.{send, wait_snd, fragment_count}
use kcp_go.Kcp.Send.Fragments.{cut, send_message, send-empty}
use kcp_go.Kcp.Flush.{flush}
use kcp_go.Session.{Session, send_pieces, send_buffers, total_length, write_buffers_locked}

abbrev pub joined : List Bytes → Bytes
joined [] = []
joined (b ∷ bs) = b ++ joined bs

abbrev pub AllWhole : List Segment → Type 0
AllWhole [] = Unit
AllWhole (seg ∷ segs) = (seg.frg ≡ 0) × AllWhole segs

-- `out` is `kcp` with segments behind its queue that carry the bytes, each a message of its own of at
-- most mss bytes. Nothing else differs.
pub record Pieces (kcp out : Kcp) (bytes : Bytes) : Type 0 where
  pub segs : List Segment
  pub appended : contents out.snd_queue ≡ contents kcp.snd_queue ++ segs
  pub carried : payloads segs ≡ bytes
  pub whole : AllWhole segs
  pub fitting : FitsMss kcp.mss segs
  pub valid : IsValid out.snd_queue
  pub untouched : out ≡ record kcp { snd_queue = out.snd_queue }

AllWhole-append : (xs ys : List Segment) → AllWhole xs → AllWhole ys → AllWhole (xs ++ ys)
AllWhole-append [] ys hx hy = hy
AllWhole-append (x ∷ xs) ys hx hy = (hx.0, AllWhole-append xs ys hx.1 hy)

FitsMss-append :
    (mss : ℕ) (xs ys : List Segment) → FitsMss mss xs → FitsMss mss ys → FitsMss mss (xs ++ ys)
FitsMss-append mss [] ys hx hy = hy
FitsMss-append mss (x ∷ xs) ys hx hy = (hx.0, FitsMss-append mss xs ys hx.1 hy)

none-Pieces : (kcp : Kcp) → IsValid kcp.snd_queue → Pieces kcp kcp []
unfolding payloads
none-Pieces kcp v = record {
  segs = [];
  appended = sym (append-nil (contents kcp.snd_queue));
  carried = refl;
  whole = tt;
  fitting = tt;
  valid = v;
  untouched = refl;
}

Pieces-trans : (a b c : Kcp) (xs ys : Bytes) → Pieces a b xs → Pieces b c ys → Pieces a c (xs ++ ys)
Pieces-trans a b c xs ys p q = record {
  segs = p.segs ++ q.segs;
  appended =
      q.appended
      ∙ ap (λ s. s ++ q.segs) p.appended
      ∙ append_assoc (contents a.snd_queue) p.segs q.segs;
  carried = payloads-append p.segs q.segs ∙ ap₂ (λ x y. x ++ y) p.carried q.carried;
  whole = AllWhole-append p.segs q.segs p.whole q.whole;
  fitting =
      FitsMss-append a.mss p.segs q.segs p.fitting
        (subst (λ m. FitsMss m q.segs) (ap (λ k. k.mss) p.untouched) q.fitting);
  valid = q.valid;
  untouched =
      q.untouched ∙ ap {A = Kcp} {B = Kcp} (λ k. record k { snd_queue = c.snd_queue }) p.untouched;
}

-- Send of a piece that fits a segment; an empty piece is refused, which loses nothing.
send-Pieces :
    (kcp : Kcp) (b : Bytes)
    → IsValid kcp.snd_queue
    → kcp.stream ≡ pos 0
    → 0 < kcp.mss
    → length b ≤ kcp.mss
    → Pieces kcp (send kcp b).1 b
unfolding fragment_count
send-Pieces kcp [] v message pos_mss fits =
    subst (λ k. Pieces kcp k []) (sym (ap (λ o. o.1) (send-empty kcp))) (none-Pieces kcp v)
send-Pieces kcp (x ∷ b) v message pos_mss fits =
    let count : fragment_count kcp.mss (length (x ∷ b)) ≡ 1 =
      rw (le→leb (length (x ∷ b)) kcp.mss fits, fragment_count) refl in
    let n = fragment_count kcp.mss (length (x ∷ b)) in
    let q = send_message kcp (x ∷ b) v pos_mss message (omega arith) (omega (arith, count)) in
    record {
      segs = cut true kcp.mss n n 0 (x ∷ b);
      appended = q.appended;
      carried = q.carried;
      whole = alone (cut true kcp.mss n n 0 (x ∷ b)) (q.counted ∙ count) q.message;
      fitting = q.fitting;
      valid = q.valid;
      untouched = q.untouched;
    }
  where
    alone : (segs : List Segment) → length segs ≡ 1 → IsMessage segs → AllWhole segs
    alone [] e m = tt
    alone (s ∷ []) e m = (m.0, tt)
    alone (s ∷ (t ∷ segs)) e m = absurd (omega arith)

send_pieces-Pieces :
    (fuel : ℕ) (b : Bytes) (kcp : Kcp)
    → IsValid kcp.snd_queue
    → kcp.stream ≡ pos 0
    → 0 < kcp.mss
    → length b < fuel
    → Pieces kcp (send_pieces fuel b kcp) b
unfolding send_pieces
send_pieces-Pieces zero b kcp v message pos_mss h = absurd (omega arith)
send_pieces-Pieces (suc fuel) b kcp v message pos_mss h =
    elim (Bool-cases (leb (length b) kcp.mss)) [
      | inl fits ↦ rw (fits) (send-Pieces kcp b v message pos_mss (leb→le (length b) kcp.mss fits))
      | inr large ↦
          let b1 = take kcp.mss b in
          let b2 = drop kcp.mss b in
          let k1 = (send kcp b1).1 in
          let p = send-Pieces kcp b1 v message pos_mss (omega (arith, length-take kcp.mss b)) in
          rw (large) (
            subst (Pieces kcp (send_pieces fuel b2 k1)) (take-append-drop kcp.mss b) (
              Pieces-trans kcp k1 (send_pieces fuel b2 k1) b1 b2 p (
                send_pieces-Pieces fuel b2 k1 p.valid (ap (λ k. k.stream) p.untouched ∙ message)
                  (omega (arith, ap (λ k. k.mss) p.untouched))
                  (omega (arith, length-drop kcp.mss b, leb→lt (length b) kcp.mss large)))))
    ]

send_buffers-Pieces :
    (bs : List Bytes) (kcp : Kcp)
    → IsValid kcp.snd_queue
    → kcp.stream ≡ pos 0
    → 0 < kcp.mss
    → Pieces kcp (send_buffers bs kcp) (joined bs)
unfolding send_buffers
send_buffers-Pieces [] kcp v message pos_mss = none-Pieces kcp v
send_buffers-Pieces (b ∷ bs) kcp v message pos_mss =
    let k1 = send_pieces (suc (length b)) b kcp in
    let p = send_pieces-Pieces (suc (length b)) b kcp v message pos_mss (omega arith) in
    Pieces-trans kcp k1 (send_buffers bs k1) b (joined bs) p (
      send_buffers-Pieces bs k1 p.valid (ap (λ k. k.stream) p.untouched ∙ message)
        (omega (arith, ap (λ k. k.mss) p.untouched)))

pub total_length-joined : (bs : List Bytes) → total_length bs ≡ length (joined bs)
total_length-joined [] = refl
total_length-joined (b ∷ bs) = omega (arith, total_length-joined bs, length-append b (joined bs))

-- With a send window that is full, nothing is written and nothing changes. Otherwise, in message mode
-- with room for a byte in a segment, all bytes of all buffers are taken: they go behind the queue in
-- order, cut at mss bytes, each piece a message of its own. Then the machine may flush, and nothing else
-- happens to it.
pub write_buffers_locked_lem :
    (clock : Clock) (s : Session) (bs : List Bytes)
    → IsValid s.kcp.snd_queue
    → s.kcp.stream ≡ pos 0
    → 0 < s.kcp.mss
    → (s.kcp.snd_wnd ≤ wait_snd s.kcp → write_buffers_locked clock s bs ≡ (none, s))
      × (wait_snd s.kcp < s.kcp.snd_wnd
          → ((write_buffers_locked clock s bs).0 ≡ some (length (joined bs)))
            × ((k : Kcp) × Pieces s.kcp k (joined bs)
                × (((write_buffers_locked clock s bs).1.kcp ≡ k)
                    ⊎ ((write_buffers_locked clock s bs).1.kcp ≡ (flush clock full k s.world).1))))
unfolding write_buffers_locked
write_buffers_locked_lem clock s bs v message pos_mss = (
  (λ h. rw (le→leb s.kcp.snd_wnd (wait_snd s.kcp) h) refl),
  (λ h.
      let k = send_buffers bs s.kcp in
      let p = send_buffers-Pieces bs s.kcp v message pos_mss in
      let all = ap some (total_length-joined bs) in
      elim (Bool-cases (leb k.snd_wnd (wait_snd k) || not s.write_delay)) [
        | inl e ↦ rw (lt→leb s.kcp.snd_wnd (wait_snd s.kcp) h, e) (all, (k, p, inr refl))
        | inr e ↦ rw (lt→leb s.kcp.snd_wnd (wait_snd s.kcp) h, e) (all, (k, p, inl refl))
      ]),
)
