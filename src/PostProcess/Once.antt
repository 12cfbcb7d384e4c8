-- ===== src/PostProcess/Once.antt =====
-- postprocess.go: all steps of the protocol.
use kcp_go.Prelude.{
  ℕ, ◌+◌, ◌≤◌, ◌<◌, ◌≡◌, refl, sym, ap, subst, inl, inr, Bool, true, false, some, List, [], ◌∷◌,
  ◌++◌, arith, ◌==◌, if◌then◌else◌, ==→eq, Bool-cases, length, zero,
}
use kcp_go.Bytes.{Bytes}
use kcp_go.PostProcess.{
  WorkQueue, pp_enqueue, pp_dequeue, Task, claim, enqueue, serve, drain_queue, Pool, put_session,
  Step, produces, closes, moves, enqueues, dequeues, Reachable, begins, goes_on,
}
use kcp_go.PostProcess.Queue.{waiting, enqueue-waiting, dequeue-waiting}
use kcp_go.PostProcess.Claims.{
  claimed_by, concerned, tally, times, one, places, IsPool, tally-append, tally_before,
  times-append, moves-IsPool,
}

if_zero : (c : Bool) → (if c then 0 else zero) ≡ zero
if_zero true = refl
if_zero false = refl

produces-IsPool :
    (p : Pool) (a : ℕ) (x : Bytes)
    → IsPool p
    → IsPool (record p {
      sessions =
          put_session a
            (record (p.sessions a) { post_queue = (p.sessions a).post_queue ++ x ∷ [] })
            p.sessions;
      threads = (a, claim) ∷ p.threads;
    })
produces-IsPool p a x v = record {
  within = v.within;
  once = λ s. elim (Bool-cases (s == a)) [
    | inl same ↦
        let here : places p s ≡ one (p.sessions a).pp_running =
          subst (λ i. places p s ≡ one (p.sessions i).pp_running) (==→eq s a same) (v.once s) in
        rw (same) (omega (arith, here))
    | inr other ↦ rw (other) (omega (arith, v.once s))
  ];
  awake = λ s d w. elim (Bool-cases (s == a)) [
    | inl same ↦ rw (same) (omega arith)
    | inr other ↦ rw (other) (omega (arith, v.awake s (rw other at d) (rw other at w)))
  ];
}

closes-IsPool :
    (p : Pool) (a : ℕ)
    → IsPool p
    → IsPool (record p {
      sessions = put_session a (record (p.sessions a) { died = true }) p.sessions;
      threads = (a, drain_queue) ∷ p.threads;
    })
closes-IsPool p a v = record {
  within = v.within;
  once = λ s. elim (Bool-cases (s == a)) [
    | inl same ↦
        let here : places p s ≡ one (p.sessions a).pp_running =
          subst (λ i. places p s ≡ one (p.sessions i).pp_running) (==→eq s a same) (v.once s) in
        rw (same) (omega (arith, here))
    | inr other ↦ rw (other) (omega (arith, v.once s))
  ];
  awake = λ s d w. elim (Bool-cases (s == a)) [
    | inl same ↦ let bad : true ≡ false = rw same at d in cc
    | inr other ↦ rw (other) (omega (arith, v.awake s (rw other at d) (rw other at w)))
  ];
}

enqueues-IsPool :
    (p : Pool) (a : ℕ) (before behind : List (ℕ × Task))
    → IsPool p
    → p.threads ≡ before ++ (a, enqueue) ∷ behind
    → IsPool (record p { queue = pp_enqueue p.queue a; threads = before ++ behind })
enqueues-IsPool p a before behind v e =
    let (valid, entries) = enqueue-waiting p.queue a v.within in
    record {
      within = valid;
      once = λ s. omega (
        arith,
        v.once s,
        tally_before claimed_by s a enqueue p.threads before behind e,
        tally-append claimed_by s before behind,
        ap (λ xs. times s xs) entries,
        times-append s (waiting p.queue) (a ∷ []),
      );
      awake = λ s d w. omega (
        arith,
        v.awake s d w,
        tally_before concerned s a enqueue p.threads before behind e,
        tally-append concerned s before behind,
        if_zero (s == a),
      );
    }

dequeues-IsPool :
    (p : Pool) (a : ℕ) (queue' : WorkQueue)
    → IsPool p
    → pp_dequeue p.queue ≡ some (a, queue')
    → IsPool (record p { queue = queue'; threads = (a, serve) ∷ p.threads })
dequeues-IsPool p a queue' v e =
    let (valid, entries) = dequeue-waiting p.queue queue' a v.within e in
    record {
      within = valid;
      once = λ s. omega (arith, v.once s, ap (λ xs. times s xs) entries);
      awake = λ s d w. omega (arith, v.awake s d w, if_zero (s == a));
    }

Step-IsPool : {p p' : Pool} → Step p p' → IsPool p → IsPool p'
Step-IsPool {p} (produces a x open_) v = produces-IsPool p a x v
Step-IsPool {p} (closes a open_) v = closes-IsPool p a v
Step-IsPool {p} (moves a t before behind {s} {tasks} e m) v =
    moves-IsPool p a t before behind s tasks v e m
Step-IsPool {p} (enqueues a before behind e) v = enqueues-IsPool p a before behind v e
Step-IsPool {p} (dequeues a {queue'} e) v = dequeues-IsPool p a queue' v e

Reachable-IsPool : {p : Pool} → Reachable p → IsPool p
Reachable-IsPool begins = record {
  within = omega arith;
  once = λ s. refl;
  awake = λ s d w. absurd (omega (arith, w));
}
Reachable-IsPool (goes_on r step) = Step-IsPool step (Reachable-IsPool r)

-- In each state that producers, workers and calls of Close reach, in whatever order they take their
-- steps, each session stands at most once in the queue, on its way into it, or with a worker that has
-- not given up its claim. While packets wait in an open session, it stands in such a place, or a
-- thread is about to claim it or to test whether it has to. So no packet is forgotten.
pub Reachable_lem :
    (p : Pool) (s : ℕ)
    → Reachable p
    → (places p s ≤ 1)
      × ((p.sessions s).died ≡ false
          → 0 < length (p.sessions s).post_queue
          → 0 < places p s + tally concerned s p.threads)
Reachable_lem p s r =
    let v = Reachable-IsPool r in
    (
      subst (λ n. n ≤ 1) (sym (v.once s)) (one_le (p.sessions s).pp_running),
      (λ d w. omega (arith, v.awake s d w, v.once s)),
    )
  where
    one_le : (b : Bool) → one b ≤ 1
    one_le true = omega arith
    one_le false = omega arith
