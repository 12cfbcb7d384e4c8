-- ===== src/Sched/Pop.antt =====
-- timedsched.go: pop takes the task that is due first and keeps the others, in the order of a heap.
use kcp_go.Prelude.{
  ℕ, zero, suc, ◌-◌, ◌≤◌, ◌<◌, ◌≡◌, refl, ap, ◌∙◌, inl, inr, List, [], ◌∷◌, arith, ◌==◌, Bool-cases,
  length, set, take, length-set, length-take, get,
}
use kcp_go.Items.{
  one_if, count, SameItems, get-set_same, count-set, count-take_last, count-exchange,
}
use kcp_go.Sched.{TimedFunc, task_zero, swap_tasks, earliest, fall, pop_task}
use kcp_go.Sched.Order.{due_at, IsHeap, head_least}
use kcp_go.Sched.Fall.{earliest-IsEarliest, pop_task-IsHeap}

earliest_bound : (s : List TimedFunc) (i n : ℕ) → i < n → earliest s i n < n
earliest_bound s i n lt = elim (earliest-IsEarliest s i n).which [
  | inl e ↦ omega (arith, e, lt)
  | inr w ↦ w.2
]

fall-items :
    (fuel : ℕ) (s : List TimedFunc) (i n : ℕ) → i < n → n ≤ length s → SameItems (fall fuel s i n) s
unfolding fall
fall-items zero s i n lt le p = refl
fall-items (suc fuel) s i n lt le p =
    let m = earliest s i n in
    let mn = earliest_bound s i n lt in
    let size : length (swap_tasks s i m) ≡ length s =
      length-set (set s i (get s m)) m (get s i) ∙ length-set s i (get s m) in
    elim (Bool-cases (m == i)) [
      | inl e ↦ rw e refl
      | inr e ↦ rw e (
          fall-items fuel (swap_tasks s i m) m n mn (omega (arith, le, size)) p
          ∙ count-exchange p s i m (omega (arith, lt, le)) (omega (arith, mn, le)))
    ]

-- What pop sinks, and the task that it gives, are what the heap held.
last_first-items :
    (h : List TimedFunc) (n : ℕ)
    → length h ≡ suc n
    → SameItems (get h 0 ∷ take n (set h 0 (get h n))) h
unfolding count
last_first-items h n len p =
    let moved = set h 0 (get h n) in
    let first = count-set p h 0 (get h n) (omega (arith, len)) in
    let last = count-take_last p moved n (length-set h 0 (get h n) ∙ len) in
    let same : one_if (p (get moved n)) ≡ one_if (p (get h n)) =
      ap (λ t. one_if (p t)) (get-set_same h 0 n (get h n) (omega (arith, len)) refl) in
    omega (arith, first, last, same)

pop_task-items : (h : List TimedFunc) → 0 < length h → SameItems ((pop_task h).0 ∷ (pop_task h).1) h
unfolding pop_task count
pop_task-items [] some_ = elim some_ [ ]
pop_task-items (x ∷ []) some_ = λ p. refl
pop_task-items (x ∷ y ∷ h) some_ = λ p.
    let h2 = x ∷ y ∷ h in
    let n = length h2 - 1 in
    let sunk = take n (set h2 0 (get h2 n)) in
    let size : length sunk ≡ n =
      omega (arith, length-take n (set h2 0 (get h2 n)), length-set h2 0 (get h2 n)) in
    let f = fall-items (length h2) sunk 0 n (omega arith) (omega (arith, size)) p in
    let l = last_first-items h2 n (omega arith) p in omega (arith, f, l)

-- On a heap that is not empty, pop gives a task that is due no later than any other. That task and
-- what pop leaves are the tasks of the heap, each as often as before, and what it leaves is a heap.
pub pop_task_lem :
    (h : List TimedFunc)
    → 0 < length h
    → IsHeap h
    → ((j : ℕ) → j < length h → (pop_task h).0.ts ≤ due_at h j)
      × SameItems ((pop_task h).0 ∷ (pop_task h).1) h
      × IsHeap (pop_task h).1
unfolding pop_task
pop_task_lem h some_ v = (
  (λ j lt. head_least (suc j) h j (omega arith) v lt),
  pop_task-items h some_,
  pop_task-IsHeap h some_ v,
)
