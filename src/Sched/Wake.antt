-- ===== src/Sched/Wake.antt =====
-- timedsched.go: a shard that sleeps wakes in time for the tasks in its heap.
use kcp_go.Sched.Head.{push_task-head}
use kcp_go.Sched.Order.{due_at, IsHeap, push_task-IsHeap, head_least}
use kcp_go.Sched.Pop.{pop_task_lem}
use kcp_go.Prelude.{
  ℕ, zero, suc, ◌<◌, ◌≡◌, refl, sym, ap, ◌⊎◌, inl, inr, List, [], ◌∷◌, arith, ltb, ◌==◌, ==→eq,
  ==→ne, Bool-cases, length, get, ◌+◌, false, ◌≤◌, ◌≢◌, true, Option, some, leb, leb→lt, subst,
  Bool, ◌&&◌, ◌||◌, lt→ltb, ltb→le, eq→==,
}
use kcp_go.Sched.{
  sched_slack, take_due, sleeping, Shard, scan, put_task, ShardStep, puts, sends, scans, executes,
  executed, fires, wakes, dies, ShardReachable, starts, goes, TimedFunc, task_zero, push_task,
  pop_task, settle,
}

some_ : (h : List TimedFunc) → ltb 0 (suc (length h)) ≡ true
some_ h = lt→ltb 0 (suc (length h)) (omega arith)

-- Where nothing was due, the head, if any, is due behind the limit.
take_due_none :
    (limit : ℕ) (h : List TimedFunc)
    → length (take_due (length h) limit h).0 ≡ 0
    → ((take_due (length h) limit h).1 ≡ h) × (0 < length h → limit < (get h 0).ts)
unfolding take_due
take_due_none limit [] e = (refl, (λ lt. absurd (omega (arith, lt))))
take_due_none limit (x ∷ h) e = elim (Bool-cases (leb x.ts limit)) [
  | inl t ↦
      let bad : suc (length (take_due (length h) limit (pop_task (x ∷ h)).1).0) ≡ 0 =
        rw (some_ h, t) at e in
      absurd (omega (arith, bad))
  | inr t ↦ rw (some_ h, t) (refl, (λ lt. leb→lt x.ts limit t))
]

-- The timer of a shard that sleeps with nothing in `wake`.
pub record IsTimely (sh : Shard) (timer : Option ℕ) : Type 0 where
  pub unarmed : sh.armed ≡ 0 → length sh.tasks ≡ 0
  pub armed_for : 0 < sh.armed → (timer ≡ some sh.armed) × (sh.armed ≤ (get sh.tasks 0).ts)

-- A wake-up waits in the channel, or is about to be sent.
abbrev pub IsCalled : Shard → Type 0
IsCalled sh = (sh.wake ≡ true) ⊎ (0 < sh.senders)

abbrev IsAwake : Shard → Type 0
IsAwake sh = (timer : Option ℕ) → sh.phase ≡ sleeping timer → IsCalled sh ⊎ IsTimely sh timer

both_tests : (a b c : Bool) → (a && (b || c)) ≡ false → a ≡ true → (b ≡ false) × (c ≡ false)
both_tests true true c e t = cc
both_tests true false c e t = (refl, e)
both_tests false b c e t = cc

put_task-IsAwake : (f : TimedFunc) (sh : Shard) → IsAwake sh → IsAwake (put_task f sh)
unfolding put_task
put_task-IsAwake f sh v timer e =
    let h = (get (push_task sh.tasks f) 0).ts in
    elim (Bool-cases (h == f.ts && (sh.armed == 0 || ltb f.ts sh.armed))) [
      | inl t ↦ inl (inr (rw (t) (omega arith)))
      | inr t ↦ elim (v timer e) [
        | inl w ↦ inl (elim w [ inl w0 ↦ inl w0 | inr w0 ↦ inr (rw (t) w0) ])
        | inr old ↦ inr (record {
          unarmed = λ z. elim (push_task-head sh.tasks f) [
            | inl new ↦
                let b =
                  (both_tests (h == f.ts) (sh.armed == 0) (ltb f.ts sh.armed) t
                    (eq→== h f.ts (ap (λ g. g.ts) new))).0 in
                absurd (==→ne sh.armed 0 b z)
            | inr (some_left, same) ↦ absurd (omega (arith, some_left, old.unarmed z))
          ];
          armed_for = λ lt. elim (push_task-head sh.tasks f) [
            | inl new ↦
                let b =
                  (both_tests (h == f.ts) (sh.armed == 0) (ltb f.ts sh.armed) t
                    (eq→== h f.ts (ap (λ g. g.ts) new))).1 in
                ((old.armed_for lt).0, omega (arith, ltb→le f.ts sh.armed b, ap (λ g. g.ts) new))
            | inr (some_left, same) ↦
                ((old.armed_for lt).0, omega (arith, (old.armed_for lt).1, ap (λ g. g.ts) same))
          ];
        })
      ]
    ]

settle-IsAwake :
    (limit : ℕ) (due rest : List TimedFunc) (sh : Shard)
    → (length due ≡ 0 → 0 < length rest → limit < (get rest 0).ts)
    → IsAwake (settle due rest sh)
unfolding settle
settle-IsAwake limit (f ∷ fs) rest sh late timer e = cc
settle-IsAwake limit [] [] sh late timer e =
    inr (record { unarmed = λ z. refl; armed_for = λ lt. absurd (omega (arith, lt)) })
settle-IsAwake limit [] (f ∷ rest) sh late timer e = inr (record {
  unarmed = λ z. absurd (omega (arith, late refl (omega arith), z));
  armed_for = λ lt. (cc, omega arith);
})

scan-IsAwake : (now : ℕ) (sh : Shard) → IsAwake (scan now sh)
unfolding scan
scan-IsAwake now sh =
    let limit = now + sched_slack in
    let out = take_due (length sh.tasks) limit sh.tasks in
    settle-IsAwake limit out.0 out.1 sh (λ none_ lt.
      let (same, late) = take_due_none limit sh.tasks none_ in
      subst (λ (xs : List TimedFunc). 0 < length xs → limit < (get xs 0).ts) (sym same) late lt)

ShardStep-IsAwake : {sh sh' : Shard} → ShardStep sh sh' → IsAwake sh → IsAwake sh'
ShardStep-IsAwake {sh} (puts f) v = put_task-IsAwake f sh v
ShardStep-IsAwake (sends lt) v = λ timer p. inl (inl refl)
ShardStep-IsAwake {sh} (scans now e) v = scan-IsAwake now sh
ShardStep-IsAwake (executes f fs e) v = λ timer p. cc
ShardStep-IsAwake (executed e) v = λ timer p. cc
ShardStep-IsAwake (fires now d e le) v = λ timer p. cc
ShardStep-IsAwake (wakes timer e w) v = λ t p. cc
ShardStep-IsAwake (dies timer e) v = λ t p. cc

ShardReachable-IsAwake : {sh : Shard} → ShardReachable sh → IsAwake sh
ShardReachable-IsAwake starts = λ timer p. cc
ShardReachable-IsAwake (goes r step) = ShardStep-IsAwake step (ShardReachable-IsAwake r)

due_some :
    (h : List TimedFunc) (limit : ℕ)
    → (ltb 0 (length h) && leb (get h 0).ts limit) ≡ true
    → 0 < length h
due_some [] limit e = cc
due_some (x ∷ h) limit e = omega arith

take_due-IsHeap :
    (fuel limit : ℕ) (h : List TimedFunc) → IsHeap h → IsHeap (take_due fuel limit h).1
unfolding take_due
take_due-IsHeap zero limit h v = v
take_due-IsHeap (suc fuel) limit h v =
    elim (Bool-cases (ltb 0 (length h) && leb (get h 0).ts limit)) [
      | inl t ↦
          rw (t)
            (take_due-IsHeap fuel limit (pop_task h).1 ((pop_task_lem h (due_some h limit t) v).2))
      | inr t ↦ rw (t) v
    ]

settle-tasks : (due rest : List TimedFunc) (sh : Shard) → (settle due rest sh).tasks ≡ rest
unfolding settle
settle-tasks (f ∷ fs) rest sh = refl
settle-tasks [] [] sh = refl
settle-tasks [] (f ∷ rest) sh = refl

ShardReachable-IsHeap : {sh : Shard} → ShardReachable sh → IsHeap sh.tasks
unfolding put_task scan
ShardReachable-IsHeap starts = λ i h0 h. absurd (omega (arith, h))
ShardReachable-IsHeap (goes {sh} r (puts f)) = push_task-IsHeap sh.tasks f (ShardReachable-IsHeap r)
ShardReachable-IsHeap (goes r (sends lt)) = ShardReachable-IsHeap r
ShardReachable-IsHeap (goes {sh} r (scans now e)) =
    let limit = now + sched_slack in
    let out = take_due (length sh.tasks) limit sh.tasks in
    subst IsHeap (sym (settle-tasks out.0 out.1 sh))
      (take_due-IsHeap (length sh.tasks) limit sh.tasks (ShardReachable-IsHeap r))
ShardReachable-IsHeap (goes r (executes f fs e)) = ShardReachable-IsHeap r
ShardReachable-IsHeap (goes r (executed e)) = ShardReachable-IsHeap r
ShardReachable-IsHeap (goes r (fires now d e le)) = ShardReachable-IsHeap r
ShardReachable-IsHeap (goes r (wakes timer e w)) = ShardReachable-IsHeap r
ShardReachable-IsHeap (goes r (dies timer e)) = ShardReachable-IsHeap r

-- In each state that callers of Put and the goroutine of a shard reach, in whatever order they take
-- their steps: while the goroutine sleeps with tasks in the heap, a wake-up waits for it or is about to
-- be sent, or its timer is set, no later than any task in the heap is due. So no task is slept over.
pub ShardReachable_lem :
    (sh : Shard) (timer : Option ℕ)
    → ShardReachable sh
    → sh.phase ≡ sleeping timer
    → 0 < length sh.tasks
    → IsCalled sh
      ⊎ ((d : ℕ) × (timer ≡ some d) × ((i : ℕ) → i < length sh.tasks → d ≤ due_at sh.tasks i))
ShardReachable_lem sh timer r e h = elim (ShardReachable-IsAwake r timer e) [
  | inl w ↦ inl w
  | inr t ↦ elim (Bool-cases (sh.armed == 0)) [
    | inl z ↦ absurd (omega (arith, t.unarmed (==→eq sh.armed 0 z), h))
    | inr n ↦
        let a = t.armed_for (positive sh.armed (==→ne sh.armed 0 n)) in
        inr (
          sh.armed,
          a.0,
          (λ i lt. omega (
            arith,
            a.1,
            head_least (suc i) sh.tasks i (omega arith) (ShardReachable-IsHeap r) lt,
          )),
        )
  ]
]
  where
    positive : (n : ℕ) → n ≢ 0 → 0 < n
    positive zero ne = absurd (ne refl)
    positive (suc n) ne = omega arith
