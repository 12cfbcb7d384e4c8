-- ===== src/PostProcess.antt =====
-- postprocess.go: the queue of sessions that the workers share, and how a session is claimed for it.
-- Each atomic operation and each section under a lock is a step of its own; any number of producers,
-- workers and calls of Close take steps in any order. What a worker does with a packet is elsewhere.
pub mod Queue
pub mod Claims
pub mod Once
mod Tests
use kcp_go.Prelude.{
  ℕ, ◌+◌, ◌/◌, ◌≡◌, ◌≢◌, ◌⊎◌, Bool, true, false, not, Option, none, some, List, [], ◌∷◌, ◌++◌, ltb,
  ◌==◌, if◌then◌else◌, length, drop,
}
use kcp_go.Bytes.{Bytes}

-- ppQueue. Entries in front of `head` are done with; the source sets them to nil.
pub record WorkQueue : Type 0 where
  pub q : List ℕ
  pub head : ℕ

-- The locked section of ppEnqueue.
unfoldable pub pp_enqueue : WorkQueue → ℕ → WorkQueue
pp_enqueue w s =
    let kept = if ltb (length w.q / 2) w.head then drop w.head w.q else w.q in
    record { q = kept ++ s ∷ []; head = if ltb (length w.q / 2) w.head then 0 else w.head }

-- The locked section of postProcessWorker; `none` is to wait.
unfoldable pub pp_dequeue : WorkQueue → Option (ℕ × WorkQueue)
pp_dequeue w = elim (drop w.head w.q) [
  | [] ↦ none
  | s ∷ rest ↦
      if w.head + 1 == length w.q
      then some (s, record { q = []; head = 0 })
      else some (s, record w { head = w.head + 1 })
]

-- What the protocol reads and writes of a session: postQueue, ppRunning, and whether die is closed.
pub record PostSession : Type 0 where
  pub post_queue : List Bytes
  pub pp_running : Bool
  pub died : Bool

-- claimPostProcess: CompareAndSwap(false, true).
unfoldable pub claim_post_process : PostSession → Bool × PostSession
claim_post_process s = (not s.pp_running, record s { pp_running = true })

-- What a thread is about to do with its session.
pub data Task : Type 0 where
  -- claimPostProcess, in kickPostProcess or at the end of finishPostProcess
  claim : Task
  -- ppEnqueue
  enqueue : Task
  -- postProcess
  serve : Task
  -- finishPostProcess: the store, the test of isClosed, and the test of postQueue.len
  finish : Task
  test_closed : Task
  test_empty : Task
  -- discardPostProcess
  drain_queue : Task

-- One operation on a session: the session and what its thread does next, if anything.
pub data Move : PostSession → Task → PostSession → List Task → Type 0 where
  claims :
      {s : PostSession}
      → Move s claim
          (claim_post_process s).1
          (if (claim_post_process s).0 then enqueue ∷ [] else [])
  -- postProcess takes a packet
  packet :
      {s : PostSession} (x : Bytes) (xs : List Bytes)
      → s.post_queue ≡ x ∷ xs
      → Move s serve (record s { post_queue = xs }) (serve ∷ [])
  -- it returns false at the end of the queue
  drained : {s : PostSession} → s.post_queue ≡ [] → Move s serve s (finish ∷ [])
  -- it returns true: the session is closed, or the budget is used up
  more : {s : PostSession} → (s.died ≡ true) ⊎ (s.post_queue ≢ []) → Move s serve s (enqueue ∷ [])
  -- the worker finds the session closed
  skips : {s : PostSession} → s.died ≡ true → Move s serve s (finish ∷ [])
  stores : {s : PostSession} → Move s finish (record s { pp_running = false }) (test_closed ∷ [])
  tests_closed :
      {s : PostSession}
      → Move s test_closed s (if s.died then drain_queue ∷ [] else test_empty ∷ [])
  finds_empty : {s : PostSession} → s.post_queue ≡ [] → Move s test_empty s []
  finds_packets : {s : PostSession} → s.post_queue ≢ [] → Move s test_empty s (claim ∷ [])
  discards :
      {s : PostSession} (x : Bytes) (xs : List Bytes)
      → s.post_queue ≡ x ∷ xs
      → Move s drain_queue (record s { post_queue = xs }) (drain_queue ∷ [])
  discarded : {s : PostSession} → s.post_queue ≡ [] → Move s drain_queue s []

-- The threads are at a task each, with the session that it is for.
pub record Pool : Type 0 where
  pub queue : WorkQueue
  pub sessions : ℕ → PostSession
  pub threads : List (ℕ × Task)

abbrev pub put_session : ℕ → PostSession → (ℕ → PostSession) → ℕ → PostSession
put_session a s sessions i = if i == a then s else sessions i

abbrev pub tasks_of : ℕ → List Task → List (ℕ × Task)
tasks_of a [] = []
tasks_of a (t ∷ ts) = (a, t) ∷ tasks_of a ts

pub data Step : Pool → Pool → Type 0 where
  -- a producer, under the session's lock, puts a packet into postQueue, if the session is open
  produces :
      {p : Pool} (a : ℕ) (x : Bytes)
      → (p.sessions a).died ≡ false
      → Step p (record p {
        sessions =
            put_session a
              (record (p.sessions a) { post_queue = (p.sessions a).post_queue ++ x ∷ [] })
              p.sessions;
        threads = (a, claim) ∷ p.threads;
      })
  -- Close closes die
  closes :
      {p : Pool} (a : ℕ)
      → (p.sessions a).died ≡ false
      → Step p (record p {
        sessions = put_session a (record (p.sessions a) { died = true }) p.sessions;
        threads = (a, drain_queue) ∷ p.threads;
      })
  moves :
      {p : Pool} (a : ℕ) (task : Task) (before behind : List (ℕ × Task)) {s : PostSession}
      {tasks : List Task}
      → p.threads ≡ before ++ (a, task) ∷ behind
      → Move (p.sessions a) task s tasks
      → Step p (record p {
        sessions = put_session a s p.sessions;
        threads = before ++ (tasks_of a tasks ++ behind);
      })
  enqueues :
      {p : Pool} (a : ℕ) (before behind : List (ℕ × Task))
      → p.threads ≡ before ++ (a, enqueue) ∷ behind
      → Step p (record p { queue = pp_enqueue p.queue a; threads = before ++ behind })
  -- a worker takes a session
  dequeues :
      {p : Pool} (a : ℕ) {queue' : WorkQueue}
      → pp_dequeue p.queue ≡ some (a, queue')
      → Step p (record p { queue = queue'; threads = (a, serve) ∷ p.threads })

-- No thread has begun, and nothing waits.
abbrev pub idle_pool : Pool
idle_pool = record {
  queue = record { q = []; head = 0 };
  sessions = λ a. record { post_queue = []; pp_running = false; died = false };
  threads = [];
}

pub data Reachable : Pool → Type 0 where
  begins : Reachable idle_pool
  goes_on : {p p' : Pool} → Reachable p → Step p p' → Reachable p'
