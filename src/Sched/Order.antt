-- ===== src/Sched/Order.antt =====
-- timedsched.go: the order of the heap of tasks.
use kcp_go.Prelude.{
  ℕ, zero, suc, ◌/◌, ◌<◌, ◌≡◌, refl, sym, ap, ◌∙◌, inl, inr, List, [], ◌∷◌, ◌++◌, arith, ltb, ◌==◌,
  ==→eq, ==→ne, Bool-cases, length, set, length-append, length-set, get_or-set_self, get_or-set_ne,
  get, ◌-◌, get_or-append_left, ◌≤◌, ◌≢◌, subst, ltb→lt, ltb→le,
}
use kcp_go.Sched.{TimedFunc, zero_task, task_zero, swap_tasks, rise, push_task}

-- When the task at an index is due.
abbrev pub due_at : List TimedFunc → ℕ → ℕ
due_at s i = (get s i).ts

abbrev pub parent : ℕ → ℕ
parent i = (i - 1) / 2

-- No task is due before the one above it.
abbrev pub IsHeap : List TimedFunc → Type 0
IsHeap s = (i : ℕ) → 0 < i → i < length s → due_at s (parent i) ≤ due_at s i

-- The same but at `i`, where the task above may be due later than the one at `i`, not than those below.
record IsRising (s : List TimedFunc) (i : ℕ) : Type 0 where
  elsewhere : (j : ℕ) → 0 < j → j < length s → j ≢ i → due_at s (parent j) ≤ due_at s j
  below : (j : ℕ) → 0 < i → 0 < j → j < length s → parent j ≡ i → due_at s (parent i) ≤ due_at s j

-- What a swap does to the times.
pub record IsSwapped (s : List TimedFunc) (i p : ℕ) (s' : List TimedFunc) : Type 0 where
  pub at_first : due_at s' i ≡ due_at s p
  pub at_second : due_at s' p ≡ due_at s i
  pub at_others : (j : ℕ) → j ≢ i → j ≢ p → due_at s' j ≡ due_at s j
  pub same_length : length s' ≡ length s

pub swap-IsSwapped :
    (s : List TimedFunc) (i p : ℕ)
    → i < length s
    → p < length s
    → p ≢ i
    → IsSwapped s i p (swap_tasks s i p)
swap-IsSwapped s i p hi hp ne =
    let once = set s i (get s p) in
    let len : length once ≡ length s = length-set s i (get s p) in
    record {
      at_first =
          ap (λ t. t.ts)
            (get_or-set_ne once p i (get s i) zero_task ne
              ∙ get_or-set_self s i (get s p) zero_task hi);
      at_second = ap (λ t. t.ts) (get_or-set_self once p (get s i) zero_task (omega (arith, len)));
      at_others = λ j ni np.
          ap (λ t. t.ts)
            (get_or-set_ne once p j (get s i) zero_task (λ e. np (sym e))
              ∙ get_or-set_ne s i j (get s p) zero_task (λ e. ni (sym e)));
      same_length = length-set once p (get s i) ∙ len;
    }

rise_step :
    (s s' : List TimedFunc) (i : ℕ)
    → 0 < i
    → i < length s
    → IsRising s i
    → IsSwapped s i (parent i) s'
    → due_at s i < due_at s (parent i)
    → IsRising s' (parent i)
rise_step s s' i pos_ hi v w lt = record {
  elsewhere = λ j hj0 hj np. elim (Bool-cases (j == i)) [
    | inl e ↦
        subst (λ k. due_at s' (parent k) ≤ due_at s' k) (sym (==→eq j i e))
          (omega (arith, w.at_first, w.at_second, lt))
    | inr n ↦ elim (Bool-cases (parent j == i)) [
      | inl e ↦ omega (
        arith,
        ap (due_at s') (==→eq (parent j) i e),
        w.at_first,
        w.at_others j (==→ne j i n) np,
        v.below j pos_ hj0 (omega (arith, w.same_length, hj)) (==→eq (parent j) i e),
      )
      | inr n2 ↦ elim (Bool-cases (parent j == parent i)) [
        | inl e ↦ omega (
          arith,
          ap (due_at s') (==→eq (parent j) (parent i) e),
          ap (due_at s) (==→eq (parent j) (parent i) e),
          w.at_second,
          w.at_others j (==→ne j i n) np,
          v.elsewhere j hj0 (omega (arith, w.same_length, hj)) (==→ne j i n),
          lt,
        )
        | inr n3 ↦ omega (
          arith,
          w.at_others j (==→ne j i n) np,
          w.at_others (parent j) (==→ne (parent j) i n2) (==→ne (parent j) (parent i) n3),
          v.elsewhere j hj0 (omega (arith, w.same_length, hj)) (==→ne j i n),
        )
      ]
    ]
  ];
  below = λ j hp hj0 hj e.
      let above = v.elsewhere (parent i) hp (omega (arith, hi)) (λ z. omega (arith, z, pos_)) in
      let same =
        w.at_others (parent (parent i)) (λ z. omega (arith, z, hp)) (λ z. omega (arith, z, hp)) in
      elim (Bool-cases (j == i)) [
        | inl t ↦
            subst (λ k. due_at s' (parent (parent i)) ≤ due_at s' k) (sym (==→eq j i t))
              (omega (arith, w.at_first, same, above))
        | inr n ↦ omega (
          arith,
          same,
          above,
          w.at_others j (==→ne j i n) (λ z. omega (arith, z, e, hj0)),
          v.elsewhere j hj0 (omega (arith, w.same_length, hj)) (==→ne j i n),
          ap (due_at s) e,
        )
      ];
}

rise-IsHeap :
    (fuel : ℕ) (s : List TimedFunc) (i : ℕ)
    → i < fuel
    → i < length s
    → IsRising s i
    → IsHeap (rise fuel s i)
unfolding rise
rise-IsHeap zero s i hf hi v = absurd (omega (arith, hf))
rise-IsHeap (suc fuel) s i hf hi v = elim (Bool-cases (i == 0)) [
  | inl e ↦ rw (e) (λ j hj0 hj. v.elsewhere j hj0 hj (λ z. omega (arith, z, ==→eq i 0 e)))
  | inr n ↦
      let pos_ : 0 < i = positive i (==→ne i 0 n) in
      elim (Bool-cases (ltb (due_at s i) (due_at s (parent i)))) [
        | inl t ↦
            let w =
              swap-IsSwapped s i (parent i) hi (omega (arith, hi)) (λ z. omega (arith, z, pos_)) in
            rw (n, t)
              (rise-IsHeap fuel (swap_tasks s i (parent i)) (parent i) (omega (arith, pos_))
                (omega (arith, w.same_length))
                (rise_step s (swap_tasks s i (parent i)) i pos_ hi v w
                  (ltb→lt (due_at s i) (due_at s (parent i)) t)))
        | inr t ↦
            rw (n, t)
              (λ j hj0 hj. elim (Bool-cases (j == i)) [
                | inl e ↦
                    subst (λ k. due_at s (parent k) ≤ due_at s k) (sym (==→eq j i e))
                      (ltb→le (due_at s i) (due_at s (parent i)) t)
                | inr m ↦ v.elsewhere j hj0 hj (==→ne j i m)
              ])
      ]
]
  where
    positive : (n : ℕ) → n ≢ 0 → 0 < n
    positive zero ne = absurd (ne refl)
    positive (suc n) ne = omega arith

-- push keeps the order.
pub push_task-IsHeap : (s : List TimedFunc) (f : TimedFunc) → IsHeap s → IsHeap (push_task s f)
unfolding push_task
push_task-IsHeap s f v =
    let len = length-append s (f ∷ []) in
    rise-IsHeap (suc (length s)) (s ++ f ∷ []) (length s) (omega arith) (omega (arith, len))
      (record {
        elsewhere = λ j hj0 hj ne.
            let lt : j < length s = omega (arith, len, hj, ne) in
            omega (
              arith,
              v j hj0 lt,
              ap (λ t. t.ts) (get_or-append_left s (f ∷ []) j zero_task lt),
              ap (λ t. t.ts)
                  (get_or-append_left s (f ∷ []) (parent j) zero_task (omega (arith, lt))),
            );
        below = λ j hp hj0 hj e. absurd (omega (arith, len, hj, e));
      })

-- The head is the task that is due first.
pub head_least :
    (fuel : ℕ) (s : List TimedFunc) (i : ℕ)
    → i < fuel
    → IsHeap s
    → i < length s
    → due_at s 0 ≤ due_at s i
head_least zero s i hf v hi = absurd (omega (arith, hf))
head_least (suc fuel) s zero hf v hi = omega arith
head_least (suc fuel) s (suc i) hf v hi = omega (
  arith,
  v (suc i) (omega arith) hi,
  head_least fuel s (parent (suc i)) (omega arith) v (omega (arith, hi)),
)
