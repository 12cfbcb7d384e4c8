-- ===== src/Sched/Tests.antt =====
-- timedsched.go: a shard that is armed for one task and gets an earlier one.
use kcp_go.Prelude.{ℕ, ◌≤◌, ◌<◌, ◌≡◌, refl, subst, ◌⊎◌, false, some, [], ◌∷◌, arith}
use kcp_go.Sched.{
  TimedFunc, task_zero, push_task, rise, pop_task, fall, earliest, sleeping, Shard, scan, settle,
  take_due, put_task, new_shard, ShardReachable, starts, goes, puts, scans,
}
use kcp_go.Sched.Order.{due_at, IsHeap, push_task-IsHeap}
use kcp_go.Items.{SameItems}
use kcp_go.Sched.Pop.{pop_task_lem}
use kcp_go.Sched.Wake.{IsCalled, ShardReachable_lem}

abbrev late : TimedFunc
late = record { func = 1; ts = 90000000 }

abbrev soon : TimedFunc
soon = record { func = 2; ts = 70000000 }

-- One task waits, the shard sleeps for it, and an earlier one is put before it.
abbrev armed_shard : Shard
armed_shard = record {
  tasks = soon ∷ late ∷ [];
  armed = 90000000;
  wake = false;
  senders = 2;
  phase = sleeping (some 90000000);
}

armed_shard-run : put_task soon (scan 1000 (put_task late new_shard)) ≡ armed_shard
unfolding put_task scan settle take_due push_task rise
armed_shard-run = refl

armed_shard-ShardReachable : ShardReachable armed_shard
unfolding put_task scan settle take_due push_task rise
armed_shard-ShardReachable =
    subst ShardReachable armed_shard-run
      (goes (goes (goes starts (puts late)) (scans 1000 refl)) (puts soon))

ShardReachable_lem_example :
    IsCalled armed_shard
    ⊎ ((d : ℕ) × (some 90000000 ≡ some d) × ((i : ℕ) → i < 2 → d ≤ due_at (soon ∷ late ∷ []) i))
ShardReachable_lem_example =
    ShardReachable_lem armed_shard (some 90000000) armed_shard-ShardReachable refl (omega arith)

three-IsHeap : IsHeap (push_task (push_task (push_task [] late) soon) late)
three-IsHeap = push_task-IsHeap (push_task (push_task [] late) soon) late (
    push_task-IsHeap (push_task [] late) soon
      (push_task-IsHeap [] late (λ i h0 h. absurd (omega (arith, h)))))

three_tasks : push_task (push_task (push_task [] late) soon) late ≡ soon ∷ late ∷ late ∷ []
unfolding push_task rise
three_tasks = refl

pop_task_lem_example :
    ((j : ℕ)
      → j < 3
      → (pop_task (soon ∷ late ∷ late ∷ [])).0.ts ≤ due_at (soon ∷ late ∷ late ∷ []) j)
    × SameItems
        ((pop_task (soon ∷ late ∷ late ∷ [])).0 ∷ (pop_task (soon ∷ late ∷ late ∷ [])).1)
        (soon ∷ late ∷ late ∷ [])
    × IsHeap (pop_task (soon ∷ late ∷ late ∷ [])).1
pop_task_lem_example =
    pop_task_lem (soon ∷ late ∷ late ∷ []) (omega arith) (subst IsHeap three_tasks three-IsHeap)

-- Three tasks come out in the order of their times.
pop-push_order : (pop_task (push_task (push_task (push_task [] late) soon) late)).0 ≡ soon
unfolding push_task pop_task rise fall earliest
pop-push_order = refl
