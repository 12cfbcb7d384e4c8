-- ===== src/PostProcess/Claims.antt =====
-- postprocess.go: a session is claimed at most once, and never forgotten.
use kcp_go.Prelude.{
  ℕ, ◌+◌, ◌≤◌, ◌<◌, ◌≡◌, refl, ◌≢◌, Bool, false, List, [], ◌∷◌, ◌++◌, arith, ◌==◌, if◌then◌else◌,
  ne→==, ==_refl, length, sym, subst, ap, ◌∙◌, ◌⊎◌, inl, inr, true, ==→eq, ==→ne, Bool-cases,
}
use kcp_go.Bytes.{Bytes}
use kcp_go.PostProcess.Queue.{waiting}
use kcp_go.PostProcess.{
  PostSession, claim_post_process, Task, claim, enqueue, serve, finish, test_closed, test_empty,
  Move, claims, packet, drained, more, skips, stores, tests_closed, finds_empty, finds_packets,
  discards, discarded, Pool, tasks_of, put_session,
}

-- A session that is about to enter the queue, or is served until ppRunning is reset.
abbrev pub claimed_by : Task → ℕ
claimed_by enqueue = 1
claimed_by serve = 1
claimed_by finish = 1
claimed_by t = 0

-- A thread that is going to look after packets that wait.
abbrev pub concerned : Task → ℕ
concerned claim = 1
concerned test_closed = 1
concerned test_empty = 1
concerned t = 0

-- The sum over the tasks that are for a session.
abbrev pub tally : (Task → ℕ) → ℕ → List (ℕ × Task) → ℕ
tally f s [] = 0
tally f s ((a, t) ∷ ts) = (if s == a then f t else 0) + tally f s ts

abbrev pub sum_tasks : (Task → ℕ) → List Task → ℕ
sum_tasks f [] = 0
sum_tasks f (t ∷ ts) = f t + sum_tasks f ts

abbrev pub times : ℕ → List ℕ → ℕ
times s [] = 0
times s (a ∷ xs) = (if s == a then 1 else 0) + times s xs

abbrev pub one : Bool → ℕ
one b = if b then 1 else 0

-- The places where a session stands claimed.
abbrev pub places : Pool → ℕ → ℕ
places p s = times s (waiting p.queue) + tally claimed_by s p.threads

pub record IsPool (p : Pool) : Type 0 where
  pub within : p.queue.head ≤ length p.queue.q
  pub once : (s : ℕ) → places p s ≡ one (p.sessions s).pp_running
  pub awake :
      (s : ℕ)
      → (p.sessions s).died ≡ false
      → 0 < length (p.sessions s).post_queue
      → 0 < one (p.sessions s).pp_running + tally concerned s p.threads

pub tally-append :
    (f : Task → ℕ) (s : ℕ) (xs ys : List (ℕ × Task))
    → tally f s (xs ++ ys) ≡ tally f s xs + tally f s ys
tally-append f s [] ys = omega arith
tally-append f s ((a, t) ∷ xs) ys = omega (arith, tally-append f s xs ys)

tally_self : (f : Task → ℕ) (s : ℕ) (ts : List Task) → tally f s (tasks_of s ts) ≡ sum_tasks f ts
tally_self f s [] = refl
tally_self f s (t ∷ ts) = rw (==_refl s) (omega (arith, tally_self f s ts))

tally_other : (f : Task → ℕ) (s a : ℕ) (ts : List Task) → s ≢ a → tally f s (tasks_of a ts) ≡ 0
tally_other f s a [] ne = refl
tally_other f s a (t ∷ ts) ne = rw (ne→== s a ne) (omega (arith, tally_other f s a ts ne))

pub times-append : (s : ℕ) (xs ys : List ℕ) → times s (xs ++ ys) ≡ times s xs + times s ys
times-append s [] ys = omega arith
times-append s (a ∷ xs) ys = omega (arith, times-append s xs ys)

-- What an operation does to the claim.
Move-claims :
    {s s' : PostSession} {t : Task} {ts : List Task}
    → Move s t s' ts
    → claimed_by t ≤ one s.pp_running
    → one s'.pp_running + claimed_by t ≡ one s.pp_running + sum_tasks claimed_by ts
unfolding claim_post_process
Move-claims (claims {s}) h = ground arith
Move-claims (packet x xs e) h = omega arith
Move-claims (drained e) h = omega arith
Move-claims (more e) h = omega arith
Move-claims (skips e) h = omega arith
Move-claims stores h = ground arith
Move-claims (tests_closed {s}) h = ground arith
Move-claims (finds_empty e) h = omega arith
Move-claims (finds_packets e) h = omega arith
Move-claims (discards x xs e) h = omega arith
Move-claims (discarded e) h = omega arith

-- Packets that wait in an open session afterwards have someone to look after them, if those that
-- waited before had; `c` counts the other threads.
Move-concerned :
    {s s' : PostSession} {t : Task} {ts : List Task} (c : ℕ)
    → Move s t s' ts
    → (s.died ≡ false → 0 < length s.post_queue → 0 < one s.pp_running + (concerned t + c))
    → s'.died ≡ false
    → 0 < length s'.post_queue
    → 0 < one s'.pp_running + (sum_tasks concerned ts + c)
unfolding claim_post_process
Move-concerned c (claims {s}) h d w = omega arith
Move-concerned c (packet {s} x xs e) h d w =
    omega (arith, h d (subst (λ (q : List Bytes). 0 < length q) (sym e) (omega arith)))
Move-concerned c (drained e) h d w = omega (arith, h d w)
Move-concerned c (more e) h d w = omega (arith, h d w)
Move-concerned c (skips e) h d w = omega (arith, h d w)
Move-concerned c stores h d w = omega arith
Move-concerned c (tests_closed {s}) h d w = rw (d) (omega arith)
Move-concerned c (finds_empty e) h d w = omega (arith, ap (λ (q : List Bytes). length q) e, w)
Move-concerned c (finds_packets e) h d w = omega arith
Move-concerned c (discards {s} x xs e) h d w =
    omega (arith, h d (subst (λ (q : List Bytes). 0 < length q) (sym e) (omega arith)))
Move-concerned c (discarded e) h d w = omega (arith, h d w)

-- The tally before and after a thread is replaced by others for its session.
pub tally_before :
    (f : Task → ℕ) (s a : ℕ) (t : Task) (threads before behind : List (ℕ × Task))
    → threads ≡ before ++ (a, t) ∷ behind
    → tally f s threads ≡ tally f s before + ((if s == a then f t else 0) + tally f s behind)
tally_before f s a t threads before behind e =
    ap (λ ts. tally f s ts) e ∙ tally-append f s before ((a, t) ∷ behind)

tally_after :
    (f : Task → ℕ) (s a : ℕ) (ts : List Task) (before behind : List (ℕ × Task))
    → tally f s (before ++ (tasks_of a ts ++ behind))
      ≡ tally f s before + ((if s == a then sum_tasks f ts else 0) + tally f s behind)
tally_after f s a ts before behind =
    tally-append f s before (tasks_of a ts ++ behind)
    ∙ ap (λ n. tally f s before + n) (tally-append f s (tasks_of a ts) behind)
    ∙ ap (λ n. tally f s before + (n + tally f s behind)) (mine (Bool-cases (s == a)))
  where
    mine :
        ((s == a) ≡ true) ⊎ ((s == a) ≡ false)
        → tally f s (tasks_of a ts) ≡ (if s == a then sum_tasks f ts else 0)
    mine (inl e) =
        rw (e) (ap (λ i. tally f s (tasks_of i ts)) (sym (==→eq s a e)) ∙ tally_self f s ts)
    mine (inr e) = rw (e) (tally_other f s a ts (==→ne s a e))

module _ (p : Pool) (a : ℕ) (t : Task) (before behind : List (ℕ × Task)) (s' : PostSession)
    (ts : List Task) (v : IsPool p) (e : p.threads ≡ before ++ (a, t) ∷ behind)
    (m : Move (p.sessions a) t s' ts) where
  abbrev pub moved : Pool
  moved = record p {
    sessions = put_session a s' p.sessions;
    threads = before ++ (tasks_of a ts ++ behind);
  }

  moves_once : (s : ℕ) → places moved s ≡ one (moved.sessions s).pp_running
  moves_once s = elim (Bool-cases (s == a)) [
    | inl same ↦
        let here : places p s ≡ one (p.sessions a).pp_running =
          subst (λ i. places p s ≡ one (p.sessions i).pp_running) (==→eq s a same) (v.once s) in
        let was : tally claimed_by s p.threads
            ≡ tally claimed_by s before + (claimed_by t + tally claimed_by s behind) =
          rw same at (tally_before claimed_by s a t p.threads before behind e) in
        let is : tally claimed_by s (before ++ (tasks_of a ts ++ behind))
            ≡ tally claimed_by s before + (sum_tasks claimed_by ts + tally claimed_by s behind) =
          rw same at (tally_after claimed_by s a ts before behind) in
        let keep = Move-claims m (omega (arith, here, was)) in
        rw (same) (omega (arith, here, was, is, keep))
    | inr other ↦
        let was : tally claimed_by s p.threads
            ≡ tally claimed_by s before + (0 + tally claimed_by s behind) =
          rw other at (tally_before claimed_by s a t p.threads before behind e) in
        let is : tally claimed_by s (before ++ (tasks_of a ts ++ behind))
            ≡ tally claimed_by s before + (0 + tally claimed_by s behind) =
          rw other at (tally_after claimed_by s a ts before behind) in
        rw (other) (omega (arith, v.once s, was, is))
  ]

  moves_awake :
      (s : ℕ)
      → (moved.sessions s).died ≡ false
      → 0 < length (moved.sessions s).post_queue
      → 0 < one (moved.sessions s).pp_running + tally concerned s moved.threads
  moves_awake s d w = elim (Bool-cases (s == a)) [
    | inl same ↦
        let here =
          subst
            (λ i.
              (p.sessions i).died ≡ false
              → 0 < length (p.sessions i).post_queue
              → 0 < one (p.sessions i).pp_running + tally concerned s p.threads)
            (==→eq s a same) (v.awake s) in
        let was : tally concerned s p.threads
            ≡ tally concerned s before + (concerned t + tally concerned s behind) =
          rw same at (tally_before concerned s a t p.threads before behind e) in
        let is : tally concerned s (before ++ (tasks_of a ts ++ behind))
            ≡ tally concerned s before + (sum_tasks concerned ts + tally concerned s behind) =
          rw same at (tally_after concerned s a ts before behind) in
        let rest = tally concerned s before + tally concerned s behind in
        let keep =
          Move-concerned rest m (λ d0 w0. omega (arith, here d0 w0, was)) (rw same at d)
            (rw same at w) in
        rw (same) (omega (arith, is, keep))
    | inr other ↦
        let was : tally concerned s p.threads
            ≡ tally concerned s before + (0 + tally concerned s behind) =
          rw other at (tally_before concerned s a t p.threads before behind e) in
        let is : tally concerned s (before ++ (tasks_of a ts ++ behind))
            ≡ tally concerned s before + (0 + tally concerned s behind) =
          rw other at (tally_after concerned s a ts before behind) in
        rw (other) (omega (arith, v.awake s (rw other at d) (rw other at w), was, is))
  ]

  pub moves-IsPool : IsPool moved
  moves-IsPool = record { within = v.within; once = moves_once; awake = moves_awake }
