-- ===== src/Kcp/Send/Stream.antt =====
-- kcp.go: what Send queues in stream mode, where it fills up the last queued segment first.
use kcp_go.Kcp.Send.Fragments.{
  cut, push_fragments-cut, queue_fragments-few, payloads-cut, fragment_count-le, cut-FitsMss,
}
use native.Mathlib.Nat.{div-lt_iff_lt-mul}
use kcp_go.Prelude.{
  ℕ, zero, suc, ◌-◌, ◌≤◌, ◌<◌, min, ◌≡◌, refl, sym, ap, ◌∙◌, subst, inl, inr, List, [], ◌∷◌, ◌++◌,
  append-nil, append_assoc, arith, ltb, ltb→lt, Bool-cases, length, set, take, length-append,
  length-take, take-append-drop, get, ◌*◌, false, ◌==◌, ne→==, ==→eq, length-eq_zero, pos, ◌+◌, ◌/◌,
}
use kcp_go.Bytes.{Bytes}
use kcp_go.Ring.{contents, at, len}
use kcp_go.Ring.Bounds.{IsValid, set_at-IsValid}
use kcp_go.Ring.Scan.{at_lem, contents-set_at}
use kcp_go.Ring.Fifo.{length-contents}
use kcp_go.Segment.{Segment, segment_zero}
use kcp_go.Kcp.{Kcp, is_zero}
use kcp_go.Kcp.Message.{payloads, FitsMss, payloads-append}
use kcp_go.Kcp.Send.{fragment_count, send, queue_fragments, extend_last}

-- `out` queues the bytes behind those of `kcp`, in segments that still fit. Nothing else differs.
pub record Streamed (kcp out : Kcp) (buffer : Bytes) : Type 0 where
  pub carried : payloads (contents out.snd_queue) ≡ payloads (contents kcp.snd_queue) ++ buffer
  pub fitting : FitsMss kcp.mss (contents out.snd_queue)
  pub valid : IsValid out.snd_queue
  pub untouched : out ≡ record kcp { snd_queue = out.snd_queue }

pub Streamed-trans :
    (a b c : Kcp) (xs ys : Bytes) → Streamed a b xs → Streamed b c ys → Streamed a c (xs ++ ys)
Streamed-trans a b c xs ys p q = record {
  carried =
      q.carried
      ∙ ap (λ zs. zs ++ ys) p.carried
      ∙ append_assoc (payloads (contents a.snd_queue)) xs ys;
  fitting = subst (λ m. FitsMss m (contents c.snd_queue)) (ap (λ k. k.mss) p.untouched) q.fitting;
  valid = q.valid;
  untouched =
      q.untouched ∙ ap {A = Kcp} {B = Kcp} (λ k. record k { snd_queue = c.snd_queue }) p.untouched;
}

pub none-Streamed :
    (kcp : Kcp)
    → IsValid kcp.snd_queue
    → FitsMss kcp.mss (contents kcp.snd_queue)
    → Streamed kcp kcp []
none-Streamed kcp v fits = record {
  carried = sym (append-nil (payloads (contents kcp.snd_queue)));
  fitting = fits;
  valid = v;
  untouched = refl;
}

-- The last segment with more bytes behind its own.
with_more : Segment → Bytes → Segment
with_more seg more = record seg { payload = seg.payload ++ more }

payloads-set_last :
    (segs : List Segment) (last : ℕ) (more : Bytes)
    → length segs ≡ suc last
    → payloads (set segs last (with_more (get segs last) more)) ≡ payloads segs ++ more
unfolding payloads with_more
payloads-set_last [] last more e = absurd (omega (arith, e))
payloads-set_last (seg ∷ []) zero more e =
    append-nil (seg.payload ++ more) ∙ ap (λ xs. xs ++ more) (sym (append-nil seg.payload))
payloads-set_last (seg ∷ seg2 ∷ segs) zero more e = absurd (omega (arith, e))
payloads-set_last (seg ∷ segs) (suc last) more e =
    ap (λ xs. seg.payload ++ xs) (payloads-set_last segs last more (omega (arith, e)))
    ∙ sym (append_assoc seg.payload (payloads segs) more)

FitsMss-set :
    (mss : ℕ) (segs : List Segment) (i : ℕ) (seg : Segment)
    → FitsMss mss segs
    → length seg.payload ≤ mss
    → FitsMss mss (set segs i seg)
FitsMss-set mss [] i seg fits h = tt
FitsMss-set mss (x ∷ segs) zero seg fits h = (h, fits.1)
FitsMss-set mss (x ∷ segs) (suc i) seg fits h = (fits.0, FitsMss-set mss segs i seg fits.1 h)

-- Filling up the last segment takes bytes off the front of the buffer.
extend_last-Streamed :
    (kcp : Kcp) (buffer : Bytes)
    → IsValid kcp.snd_queue
    → FitsMss kcp.mss (contents kcp.snd_queue)
    → (taken : Bytes) × (taken ++ (extend_last kcp buffer).1 ≡ buffer)
      × Streamed kcp (extend_last kcp buffer).0 taken
unfolding extend_last with_more
extend_last-Streamed kcp buffer v fits =
    let last = len kcp.snd_queue - 1 in
    let seg = at kcp.snd_queue last in
    elim (Bool-cases (ltb 0 (len kcp.snd_queue))) [
      | inr none_waits ↦ rw none_waits ([], refl, none-Streamed kcp v fits)
      | inl waits ↦ elim (Bool-cases (ltb (length seg.payload) kcp.mss)) [
        | inr full_up ↦ rw (waits, full_up) ([], refl, none-Streamed kcp v fits)
        | inl room ↦
            let extend = min (length buffer) (kcp.mss - length seg.payload) in
            let more = take extend buffer in
            let filled = with_more seg more in
            let some_ = ltb→lt 0 (len kcp.snd_queue) waits in
            let inside : last < len kcp.snd_queue = omega (arith, some_) in
            let written = contents-set_at kcp.snd_queue last filled v inside in
            let here : seg ≡ get (contents kcp.snd_queue) last =
              at_lem kcp.snd_queue last v inside in
            let size : length (contents kcp.snd_queue) ≡ suc last =
              omega (arith, length-contents kcp.snd_queue v, some_) in
            rw (waits, room)
              (
                more,
                take-append-drop extend buffer,
                record {
                  carried =
                      ap payloads written
                      ∙ ap (λ x. payloads (set (contents kcp.snd_queue) last (with_more x more)))
                          here
                      ∙ payloads-set_last (contents kcp.snd_queue) last more size;
                  fitting = subst (FitsMss kcp.mss) (sym written) (
                      FitsMss-set kcp.mss (contents kcp.snd_queue) last filled fits (
                        omega (
                          arith,
                          length-append seg.payload more,
                          length-take extend buffer,
                          ltb→lt (length seg.payload) kcp.mss room,
                        )));
                  valid = set_at-IsValid kcp.snd_queue last filled v;
                  untouched = refl;
                },
              )
      ]
    ]

enough_of : (mss n : ℕ) → 0 < mss → n ≤ 255 * mss → fragment_count mss n ≤ 255
unfolding fragment_count
enough_of mss n h le =
    let q : (n + mss - 1) / mss < 256 = (div-lt_iff_lt-mul h).1 (omega (arith, le, h)) in
    ground (arith, q)

FitsMss-append :
    (mss : ℕ) (xs ys : List Segment) → FitsMss mss xs → FitsMss mss ys → FitsMss mss (xs ++ ys)
FitsMss-append mss [] ys hx hy = hy
FitsMss-append mss (x ∷ xs) ys hx hy = (hx.0, FitsMss-append mss xs ys hx.1 hy)

-- What is left is cut into segments behind the queue.
queue_fragments-Streamed :
    (kcp : Kcp) (buffer : Bytes)
    → IsValid kcp.snd_queue
    → FitsMss kcp.mss (contents kcp.snd_queue)
    → 0 < kcp.mss
    → length buffer ≤ 255 * kcp.mss
    → ((queue_fragments kcp buffer).0 ≡ pos 0) × Streamed kcp (queue_fragments kcp buffer).1 buffer
queue_fragments-Streamed kcp buffer v fits pos_mss le =
    let n = fragment_count kcp.mss (length buffer) in
    let few = enough_of kcp.mss (length buffer) pos_mss le in
    let mode = is_zero kcp.stream in
    let segs = cut mode kcp.mss n n 0 buffer in
    let out = push_fragments-cut n n 0 buffer kcp v in
    rw (queue_fragments-few kcp buffer pos_mss few) (
      refl,
      record {
        carried =
            ap payloads out.0
            ∙ payloads-append (contents kcp.snd_queue) segs
            ∙ ap (λ bs. payloads (contents kcp.snd_queue) ++ bs)
                (payloads-cut mode kcp.mss n n 0 buffer
                  (fragment_count-le kcp.mss (length buffer) pos_mss));
        fitting = subst (FitsMss kcp.mss) (sym out.0) (
            FitsMss-append kcp.mss (contents kcp.snd_queue) segs fits
              (cut-FitsMss mode kcp.mss n n 0 buffer));
        valid = out.1;
        untouched = out.2;
      },
    )

pub send_stream :
    (kcp : Kcp) (buffer : Bytes)
    → IsValid kcp.snd_queue
    → FitsMss kcp.mss (contents kcp.snd_queue)
    → 0 < kcp.mss
    → is_zero kcp.stream ≡ false
    → 0 < length buffer
    → length buffer ≤ 255 * kcp.mss
    → ((send kcp buffer).0 ≡ pos 0) × Streamed kcp (send kcp buffer).1 buffer
unfolding send
send_stream kcp buffer v fits pos_mss streaming nonempty le =
    let (taken, whole, first) = extend_last-Streamed kcp buffer v fits in
    let kcp1 = (extend_last kcp buffer).0 in
    let rest = (extend_last kcp buffer).1 in
    let some_bytes : (length buffer == 0) ≡ false = ne→== (length buffer) 0 (omega arith) in
    let same_mss : kcp1.mss ≡ kcp.mss = ap (λ k. k.mss) first.untouched in
    let sum : length (taken ++ rest) ≡ length buffer = ap (λ (b : Bytes). length b) whole in
    let left : length rest ≤ 255 * kcp1.mss =
      omega (arith, length-append taken rest, sum, same_mss, le) in
    elim (Bool-cases (length rest == 0)) [
      | inl done ↦
          let none_left : rest ≡ [] = length-eq_zero rest (==→eq (length rest) 0 done) in
          let all : taken ≡ buffer =
            sym (append-nil taken) ∙ ap (λ b. taken ++ b) (sym none_left) ∙ whole in
          rw (some_bytes, streaming, done) (refl, subst (Streamed kcp kcp1) all first)
      | inr more ↦
          let q =
            queue_fragments-Streamed kcp1 rest first.valid
              (subst (λ m. FitsMss m (contents kcp1.snd_queue)) (sym same_mss) first.fitting)
              (omega (arith, same_mss, pos_mss)) left in
          rw (some_bytes, streaming, more)
            (
              q.0,
              subst (Streamed kcp (queue_fragments kcp1 rest).1) whole
                  (Streamed-trans kcp kcp1 (queue_fragments kcp1 rest).1 taken rest first q.1),
            )
    ]
