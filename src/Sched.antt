-- ===== src/Sched.antt =====
-- timedsched.go: one shard of TimedSched, between Put and its goroutine. Times are nanoseconds, 0 the
-- zero time; a function is a number that stands for it.
pub mod Order
pub mod Fall
pub mod Pop
pub mod Head
pub mod Wake
mod Tests
use kcp_go.Prelude.{
  ℕ, zero, suc, ◌+◌, ◌-◌, ◌*◌, ◌/◌, ◌≤◌, ◌<◌, ◌≡◌, Bool, true, false, not, ◌&&◌, ◌||◌, Option, none,
  some, List, [], ◌∷◌, ◌++◌, ltb, leb, ◌==◌, if◌then◌else◌, Zero, length, set, take, get,
}

-- timedFunc
pub record TimedFunc : Type 0 where
  pub func : ℕ
  pub ts : ℕ

abbrev pub zero_task : TimedFunc
zero_task = record { func = 0; ts = 0 }

instance abbrev pub task_zero : Zero TimedFunc
task_zero = record { zero_value = zero_task }

abbrev pub swap_tasks : List TimedFunc → ℕ → ℕ → List TimedFunc
swap_tasks s i j = set (set s i (get s j)) j (get s i)

-- The loop of push. The index halves in each round, so the length is enough fuel.
unfoldable pub rise : ℕ → List TimedFunc → ℕ → List TimedFunc
rise zero s i = s
rise (suc fuel) s i =
    let p = (i - 1) / 2 in
    let rest = rise fuel (swap_tasks s i p) p in
    if i == 0 then s else if not (ltb (get s i).ts (get s p).ts) then s else rest

unfoldable pub push_task : List TimedFunc → TimedFunc → List TimedFunc
unfolding rise
push_task h f = rise (suc (length h)) (h ++ f ∷ []) (length h)

-- The child of `i` that is due first, among the first `n` items, or `i` itself.
unfoldable pub earliest : List TimedFunc → ℕ → ℕ → ℕ
earliest s i n =
    let l = 2 * i + 1 in
    let m = if ltb l n && ltb (get s l).ts (get s i).ts then l else i in
    if ltb (l + 1) n && ltb (get s (l + 1)).ts (get s m).ts then l + 1 else m

-- The loop of pop. It goes down a level in each round.
unfoldable pub fall : ℕ → List TimedFunc → ℕ → ℕ → List TimedFunc
unfolding earliest
fall zero s i n = s
fall (suc fuel) s i n =
    let m = earliest s i n in
    let rest = fall fuel (swap_tasks s i m) m n in if m == i then s else rest

-- pop of a heap that is not empty.
unfoldable pub pop_task : List TimedFunc → TimedFunc × List TimedFunc
unfolding fall
pop_task h = let n = length h - 1 in (get h 0, fall (length h) (take n (set h 0 (get h n))) 0 n)

-- schedSlack
abbrev pub sched_slack : ℕ
sched_slack = 5000000

-- The loop that collects what is due; it pops an item in each round.
unfoldable pub take_due : ℕ → ℕ → List TimedFunc → List TimedFunc × List TimedFunc
unfolding pop_task
take_due zero limit h = ([], h)
take_due (suc fuel) limit h =
    let (f, h') = pop_task h in
    let (due, rest) = take_due fuel limit h' in
    if ltb 0 (length h) && leb (get h 0).ts limit then (f ∷ due, rest) else ([], h)

-- Where the goroutine of a shard is: about to lock it, executing what was due, or in the select, with
-- the deadline of its timer if it is set.
pub data Phase : Type 0 where
  scanning : Phase
  executing : List TimedFunc → Phase
  sleeping : Option ℕ → Phase
  stopped : Phase

-- `wake` is the channel of one place, and `senders` counts the calls of Put that are about to send to
-- it.
pub record Shard : Type 0 where
  pub tasks : List TimedFunc
  pub armed : ℕ
  pub wake : Bool
  pub senders : ℕ
  pub phase : Phase

-- The rest of the locked section of run, once it has collected what is due.
unfoldable pub settle : List TimedFunc → List TimedFunc → Shard → Shard
settle (f ∷ fs) rest sh = record sh { tasks = rest; armed = 0; phase = executing (f ∷ fs) }
settle [] [] sh = record sh { tasks = []; armed = 0; phase = sleeping none }
settle [] (f ∷ rest) sh = record sh { tasks = f ∷ rest; armed = f.ts; phase = sleeping (some f.ts) }

-- The locked section of run at time `now`.
unfoldable pub scan : ℕ → Shard → Shard
unfolding take_due settle
scan now sh =
    let (due, rest) = take_due (length sh.tasks) (now + sched_slack) sh.tasks in settle due rest sh

-- The locked section of Put, once it has chosen a shard.
unfoldable pub put_task : TimedFunc → Shard → Shard
unfolding push_task
put_task f sh =
    let tasks = push_task sh.tasks f in
    record sh {
      tasks = tasks;
      senders =
          if (get tasks 0).ts == f.ts && (sh.armed == 0 || ltb f.ts sh.armed)
          then sh.senders + 1
          else sh.senders;
    }

-- Any number of callers of Put, and the goroutine.
pub data ShardStep (sh : Shard) : Shard → Type 0 where
  puts : (f : TimedFunc) → ShardStep sh (put_task f sh)
  sends : 0 < sh.senders → ShardStep sh (record sh { senders = sh.senders - 1; wake = true })
  scans : (now : ℕ) → sh.phase ≡ scanning → ShardStep sh (scan now sh)
  executes :
      (f : TimedFunc) (fs : List TimedFunc)
      → sh.phase ≡ executing (f ∷ fs)
      → ShardStep sh (record sh { phase = executing fs })
  executed : sh.phase ≡ executing [] → ShardStep sh (record sh { phase = scanning })
  fires :
      (now d : ℕ)
      → sh.phase ≡ sleeping (some d)
      → d ≤ now
      → ShardStep sh (record sh { phase = scanning })
  wakes :
      (timer : Option ℕ)
      → sh.phase ≡ sleeping timer
      → sh.wake ≡ true
      → ShardStep sh (record sh { wake = false; phase = scanning })
  dies :
      (timer : Option ℕ) → sh.phase ≡ sleeping timer → ShardStep sh (record sh { phase = stopped })

abbrev pub new_shard : Shard
new_shard = record { tasks = []; armed = 0; wake = false; senders = 0; phase = scanning }

pub data ShardReachable : Shard → Type 0 where
  starts : ShardReachable new_shard
  goes : {sh sh' : Shard} → ShardReachable sh → ShardStep sh sh' → ShardReachable sh'
