-- ===== src/Kcp/Flush/Mtu.antt =====
-- kcp.go: flush and makeSpace keep every datagram within the MTU.
use kcp_go.Ring.Scan.{scan_ring_refines, scan_inv}
use kcp_go.Ring.{contents, RingBuffer, len}
use kcp_go.Kcp.Message.{FitsMss}
use kcp_go.Kcp.Flush.Window.{stamp, Filled, fill_window_lem}
use kcp_go.Ring.Bounds.{IsValid}
use kcp_go.Snmp.{increase_out_segs, store_ring_buffers}
use kcp_go.Prelude.{
  ℕ, ◌+◌, ◌≤◌, ◌≡◌, inl, inr, Bool, true, false, not, ◌||◌, List, [], ◌∷◌, ◌++◌, arith, ltb, ◌==◌,
  ltb→le, Bool-cases, length, length-append, zero, suc, ◌^◌, ◌<◌, refl, sym, subst, ◌&&◌, take, All,
  u32, add32, bits32, ap, ◌∙◌,
}
use kcp_go.Bytes.{Bytes}
use kcp_go.Serial.{itimediff, is_neg, is_pos}
use kcp_go.Segment.{overhead, Segment, encode, segment_zero}
use kcp_go.Segment.Roundtrip.{length-encode}
use kcp_go.Kcp.{AckItem, Kcp, World, Clock, current_ms, FlushType, ack_only, full}
use kcp_go.Kcp.Consts
use kcp_go.Kcp.Flush.{
  Outbox, make_space, write_segment, flush_acks, flush_probe, flush_command, increase_out_segs,
  flush_template, Resend, Reason, initial, fast, early, timeout, keep, resend_threshold, reason,
  rearm, tally, needsend, transmit, nearest, resend_body, flush_rest, flush_control, flush_data,
  flush, send_window, fill_window,
}

-- No datagram is longer than `mtu`.
abbrev pub AllFit : ℕ → List Bytes → Type 0
AllFit mtu [] = Unit
AllFit mtu (b ∷ bs) = (length b ≤ mtu) × AllFit mtu bs

AllFit-snoc :
    (mtu : ℕ) (bs : List Bytes) (b : Bytes)
    → AllFit mtu bs
    → length b ≤ mtu
    → AllFit mtu (bs ++ b ∷ [])
AllFit-snoc mtu [] b h le = (le, tt)
AllFit-snoc mtu (x ∷ bs) b h le = (h.0, AllFit-snoc mtu bs b h.1 le)

-- What was sent fits, and so does what waits to be sent.
pub record IsFitting (mtu : ℕ) (o : Outbox) : Type 0 where
  pub sent_fits : AllFit mtu o.world.sent
  pub pending_fits : length o.pending ≤ mtu

-- makeSpace leaves room for what it was asked for.
pub make_space_lem :
    (mtu space : ℕ) (o : Outbox)
    → IsFitting mtu o
    → space ≤ mtu
    → IsFitting mtu (make_space mtu space o)
      × (length (make_space mtu space o).pending + space ≤ mtu)
unfolding make_space
make_space_lem mtu space o v h = elim (Bool-cases (ltb mtu (length o.pending + space))) [
  | inl e ↦ rw e (
    record {
      sent_fits = AllFit-snoc mtu o.world.sent o.pending v.sent_fits v.pending_fits;
      pending_fits = omega arith;
    },
    omega arith,
  )
  | inr e ↦ rw e (v, ltb→le mtu (length o.pending + space) e)
]

write_segment-IsFitting :
    (mtu : ℕ) (seg : Segment) (body : Bytes) (o : Outbox)
    → IsFitting mtu o
    → length o.pending + (overhead + length body) ≤ mtu
    → IsFitting mtu (write_segment seg body o)
unfolding write_segment increase_out_segs
write_segment-IsFitting mtu seg body o v h = record {
  sent_fits = v.sent_fits;
  pending_fits = omega (
    arith,
    length-append o.pending (encode seg ++ body),
    length-append (o.pending ++ encode seg) body,
    length-append o.pending (encode seg),
    length-append (encode seg) body,
    length-encode seg,
  );
}

-- A header without a payload, behind the space for it.
write_control-IsFitting :
    (mtu : ℕ) (seg : Segment) (o : Outbox)
    → overhead ≤ mtu
    → IsFitting mtu o
    → IsFitting mtu (write_segment seg [] (make_space mtu overhead o))
write_control-IsFitting mtu seg o h v =
    let m = make_space_lem mtu overhead o v h in
    write_segment-IsFitting mtu seg [] (make_space mtu overhead o) m.0 (omega (arith, m.1))

flush_acks-IsFitting :
    (mtu rcv_nxt : ℕ) (acks : List AckItem) (seg : Segment) (o : Outbox)
    → overhead ≤ mtu
    → IsFitting mtu o
    → IsFitting mtu (flush_acks mtu rcv_nxt acks (seg, o)).1
unfolding flush_acks
flush_acks-IsFitting mtu rcv_nxt [] seg o h v = v
flush_acks-IsFitting mtu rcv_nxt (ack ∷ acks) seg o h v =
    elim (Bool-cases (not (is_neg (itimediff ack.sn rcv_nxt)) || length acks == 0)) [
      | inl e ↦
          rw (e, flush_acks)
            (flush_acks-IsFitting mtu rcv_nxt acks _ _ h
              (write_control-IsFitting mtu (record seg { sn = ack.sn; ts = ack.ts }) o h v))
      | inr e ↦
          rw (e, flush_acks)
            (flush_acks-IsFitting mtu rcv_nxt acks seg _ h (make_space_lem mtu overhead o v h).0)
    ]

flush_command-IsFitting :
    (mtu : ℕ) (asked : Bool) (cmd : ℕ) (seg : Segment) (o : Outbox)
    → overhead ≤ mtu
    → IsFitting mtu o
    → IsFitting mtu (flush_command mtu asked cmd (seg, o)).1
unfolding flush_command
flush_command-IsFitting mtu true cmd seg o h v = write_control-IsFitting mtu _ o h v
flush_command-IsFitting mtu false cmd seg o h v = v

-- Phase 2 sends nothing and leaves the sender alone.
abbrev pub SameSender : Kcp → Kcp → Type 0
SameSender a b =
    (a.mtu ≡ b.mtu)
    × (a.snd_queue ≡ b.snd_queue)
    × (a.snd_buf ≡ b.snd_buf)
    × (a.snd_nxt ≡ b.snd_nxt)

flush_probe-quiet :
    (clock : Clock) (kcp : Kcp) (w : World)
    → ((flush_probe clock kcp w).1.sent ≡ w.sent) × SameSender (flush_probe clock kcp w).0 kcp
unfolding flush_probe current_ms
flush_probe-quiet clock kcp w = elim (Bool-cases (kcp.rmt_wnd == 0)) [
  | inr wide ↦ rw wide (refl, same)
  | inl shut ↦ elim (Bool-cases (kcp.probe_wait == 0)) [
    | inl first ↦ rw (shut, first) (refl, same)
    | inr later ↦ elim (Bool-cases (not (is_neg (itimediff (u32 (clock w.tick)) kcp.ts_probe)))) [
      | inl due ↦ rw (shut, later, due) (refl, same)
      | inr early_still ↦ rw (shut, later, early_still) (refl, same)
    ]
  ]
]
  where
    same : SameSender kcp kcp
    same = (refl, refl, refl, refl)

-- Phases 1 to 3.
flush_control-fits :
    (clock : Clock) (kcp : Kcp) (w : World)
    → overhead ≤ kcp.mtu
    → AllFit kcp.mtu w.sent
    → IsFitting kcp.mtu (flush_control clock kcp w).1 × SameSender (flush_control clock kcp w).2 kcp
unfolding flush_control
flush_control-fits clock kcp w h v =
    let o1 =
      (flush_acks kcp.mtu kcp.rcv_nxt kcp.acklist
        (flush_template kcp, record { pending = []; world = w })).1 in
    let acks =
      flush_acks-IsFitting kcp.mtu kcp.rcv_nxt kcp.acklist (flush_template kcp)
        (record { pending = []; world = w }) h
        (record { sent_fits = v; pending_fits = omega arith }) in
    let quiet = flush_probe-quiet clock (record kcp { acklist = [] }) o1.world in
    let start : IsFitting kcp.mtu
        (record o1 { world = (flush_probe clock (record kcp { acklist = [] }) o1.world).1 }) =
      record {
        sent_fits = subst (AllFit kcp.mtu) (sym quiet.0) acks.sent_fits;
        pending_fits = acks.pending_fits;
      } in
    (
      flush_command-IsFitting kcp.mtu _ Consts.cmd_wins _ _ h
          (flush_command-IsFitting kcp.mtu _ Consts.cmd_wask _ _ h start),
      quiet.1,
    )

-- A segment whose payload fits behind a header.
abbrev FitsBehind : ℕ → Segment → Type 0
FitsBehind mtu seg = overhead + length seg.payload ≤ mtu

All-FitsBehind :
    (mtu mss : ℕ) (segs : List Segment)
    → overhead + mss ≤ mtu
    → FitsMss mss segs
    → All (FitsBehind mtu) segs
All-FitsBehind mtu mss [] h f = tt
All-FitsBehind mtu mss (seg ∷ segs) h f = (omega (arith, f.0), All-FitsBehind mtu mss segs h f.1)

payload-rearm :
    (why : Reason) (rx_rto nodelay current : ℕ) (seg : Segment)
    → (rearm why rx_rto nodelay current seg).payload ≡ seg.payload
unfolding rearm
payload-rearm initial rx_rto nodelay current seg = refl
payload-rearm fast rx_rto nodelay current seg = refl
payload-rearm early rx_rto nodelay current seg = refl
payload-rearm timeout rx_rto nodelay current seg = refl
payload-rearm keep rx_rto nodelay current seg = refl

box-tally : (why : Reason) (s : Resend) → (tally why s).box ≡ s.box
unfolding tally
box-tally initial s = refl
box-tally fast s = refl
box-tally early s = refl
box-tally timeout s = refl
box-tally keep s = refl

box-nearest : (s : Resend) (seg : Segment) → (nearest s seg).box ≡ s.box
unfolding nearest
box-nearest s seg =
    elim (Bool-cases (
      is_pos (itimediff seg.resendts s.current)
      && ltb (bits32 (itimediff seg.resendts s.current)) s.next_update)) [
        | inl e ↦ rw e refl
        | inr e ↦ rw e refl
      ]

transmit-IsFitting :
    (clock : Clock) (kcp : Kcp) (template : Segment) (s : Resend) (seg : Segment)
    → IsFitting kcp.mtu s.box
    → FitsBehind kcp.mtu seg
    → IsFitting kcp.mtu (transmit clock kcp template s seg).0.box
unfolding transmit current_ms
transmit-IsFitting clock kcp template s seg v f =
    let o : Outbox = record {
      pending = s.box.pending;
      world = record s.box.world { tick = s.box.world.tick + 1 };
    } in
    let m =
      make_space_lem kcp.mtu (overhead + length seg.payload) o
        (record { sent_fits = v.sent_fits; pending_fits = v.pending_fits }) f in
    write_segment-IsFitting kcp.mtu _ seg.payload
      (make_space kcp.mtu (overhead + length seg.payload) o) m.0 m.1

-- Phase 5, for one segment.
resend_body-IsFitting :
    (clock : Clock) (kcp : Kcp) (template : Segment) (resent new_segs : ℕ) (s : Resend)
    (seg : Segment)
    → IsFitting kcp.mtu s.box
    → FitsBehind kcp.mtu seg
    → IsFitting kcp.mtu (resend_body clock kcp template resent new_segs s seg).0.box
unfolding resend_body
resend_body-IsFitting clock kcp template resent new_segs s seg v f =
    let why = reason resent new_segs s.current seg in
    let armed = rearm why kcp.rx_rto kcp.nodelay s.current seg in
    elim (Bool-cases (seg.acked == 1)) [
      | inl e ↦ rw e v
      | inr e ↦ elim (Bool-cases (needsend why)) [
        | inl send ↦
            rw
              (
                e,
                send,
                box-nearest (transmit clock kcp template (tally why s) armed).0
                    (transmit clock kcp template (tally why s) armed).1,
              )
              (transmit-IsFitting clock kcp template (tally why s) armed
                (subst (IsFitting kcp.mtu) (sym (box-tally why s)) v)
                (rw (payload-rearm why kcp.rx_rto kcp.nodelay s.current seg) f))
        | inr skip ↦ rw (e, skip, box-nearest s armed) v
      ]
    ]

FitsMss-append :
    (mss : ℕ) (xs ys : List Segment) → FitsMss mss xs → FitsMss mss ys → FitsMss mss (xs ++ ys)
FitsMss-append mss [] ys f g = g
FitsMss-append mss (x ∷ xs) ys f g = (f.0, FitsMss-append mss xs ys f.1 g)

FitsMss-stamp :
    (mss conv nxt n : ℕ) (xs : List Segment)
    → FitsMss mss xs
    → FitsMss mss (stamp conv nxt (take n xs))
unfolding stamp
FitsMss-stamp mss conv nxt zero xs f = tt
FitsMss-stamp mss conv nxt (suc n) [] f = tt
FitsMss-stamp mss conv nxt (suc n) (x ∷ xs) f = (f.0, FitsMss-stamp mss conv (add32 nxt 1) n xs f.1)

flush_rest-fits :
    (mtu : ℕ) (kcp : Kcp) (o : Outbox) → IsFitting mtu o → AllFit mtu (flush_rest kcp o).sent
unfolding flush_rest store_ring_buffers
flush_rest-fits mtu kcp o v = elim (Bool-cases (ltb 0 (length o.pending))) [
  | inl e ↦ rw e (AllFit-snoc mtu o.world.sent o.pending v.sent_fits v.pending_fits)
  | inr e ↦ rw e v.sent_fits
]

flush_data-fits :
    (clock : Clock) (kind : FlushType) (kcp : Kcp) (template : Segment) (new_segs mss : ℕ)
    (o : Outbox)
    → IsValid kcp.snd_buf
    → overhead + mss ≤ kcp.mtu
    → FitsMss mss (contents kcp.snd_buf)
    → IsFitting kcp.mtu o
    → IsFitting kcp.mtu (flush_data clock kind kcp template new_segs o).0.box
unfolding flush_data current_ms
flush_data-fits clock ack_only kcp template new_segs mss o vb h f v = record {
  sent_fits = v.sent_fits;
  pending_fits = v.pending_fits;
}
flush_data-fits clock full kcp template new_segs mss o vb h f v =
    let body = resend_body clock kcp template (resend_threshold kcp.fastresend) new_segs in
    subst (λ (s : Resend). IsFitting kcp.mtu s.box)
      (sym (scan_ring_refines body _ kcp.snd_buf vb).0)
      (scan_inv (λ (s : Resend). IsFitting kcp.mtu s.box) (FitsBehind kcp.mtu) body
        (λ s seg p q.
          resend_body-IsFitting clock kcp template (resend_threshold kcp.fastresend) new_segs s seg
            p q)
        _ (contents kcp.snd_buf) (record { sent_fits = v.sent_fits; pending_fits = v.pending_fits })
        (All-FitsBehind kcp.mtu mss (contents kcp.snd_buf) h f))

-- If every queued and every sent segment fits behind a header, flush hands the output callback only
-- datagrams within the MTU, whatever it sends: acknowledgements, probes, new data, resent data.
pub flush-AllFit :
    (clock : Clock) (kind : FlushType) (kcp : Kcp) (mss : ℕ) (w : World)
    → IsValid kcp.snd_queue
    → IsValid kcp.snd_buf
    → kcp.snd_nxt < 2 ^ 32
    → overhead + mss ≤ kcp.mtu
    → FitsMss mss (contents kcp.snd_queue)
    → FitsMss mss (contents kcp.snd_buf)
    → AllFit kcp.mtu w.sent
    → AllFit kcp.mtu (flush clock kind kcp w).2.sent
unfolding flush
flush-AllFit clock kind kcp mss w vq vb hn h fq fb v =
    flush_rest-fits kcp.mtu _ _
      (record { sent_fits = sent_data.sent_fits; pending_fits = sent_data.pending_fits })
  where
    control :
        IsFitting kcp.mtu (flush_control clock kcp w).1
        × SameSender (flush_control clock kcp w).2 kcp
    control = flush_control-fits clock kcp w (omega arith) v

    kcp1 : Kcp
    kcp1 = (flush_control clock kcp w).2

    out : ℕ × Kcp
    out = fill_window (len kcp1.snd_queue) (send_window kcp1) kcp1

    filled : Filled kcp1 out.0 out.1
    filled =
        fill_window_lem (len kcp1.snd_queue) (send_window kcp1) kcp1
          (subst (λ (q : RingBuffer Segment). IsValid q) (sym control.1.1) vq)
          (subst (λ (q : RingBuffer Segment). IsValid q) (sym control.1.2) vb) (rw control.1.3 hn)

    same_mtu : out.1.mtu ≡ kcp.mtu
    same_mtu = ap (λ (k : Kcp). k.mtu) filled.untouched ∙ control.1.0

    in_buf : FitsMss mss (contents out.1.snd_buf)
    in_buf = subst (FitsMss mss) (sym filled.moved) (
        FitsMss-append mss (contents kcp1.snd_buf)
          (stamp kcp1.conv kcp1.snd_nxt (take out.0 (contents kcp1.snd_queue)))
          (subst (λ (q : RingBuffer Segment). FitsMss mss (contents q)) (sym control.1.2) fb)
          (FitsMss-stamp mss kcp1.conv kcp1.snd_nxt out.0 (contents kcp1.snd_queue)
            (subst (λ (q : RingBuffer Segment). FitsMss mss (contents q)) (sym control.1.1) fq)))

    sent_data :
        IsFitting kcp.mtu
          (flush_data clock kind out.1
            (flush_control clock kcp w).0
            out.0
            (flush_control clock kcp w).1).0.box
    sent_data =
        subst
          (λ m.
            IsFitting m
              (flush_data clock kind out.1 (flush_control clock kcp w).0 out.0
                (flush_control clock kcp w).1).0.box)
          same_mtu
          (flush_data-fits clock kind out.1 (flush_control clock kcp w).0 out.0 mss
            (flush_control clock kcp w).1 filled.buf_valid (rw same_mtu h) in_buf
            (subst (λ m. IsFitting m (flush_control clock kcp w).1) (sym same_mtu) control.0))
