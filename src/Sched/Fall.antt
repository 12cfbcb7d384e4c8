-- ===== src/Sched/Fall.antt =====
-- timedsched.go: the loop of pop restores the order of the heap.
use kcp_go.Prelude.{
  ℕ, zero, suc, ◌+◌, ◌-◌, ◌*◌, ◌<◌, ◌≤◌, ◌≡◌, ◌≢◌, refl, sym, ap, ◌∙◌, ◌⊎◌, inl, inr, true, false,
  ◌&&◌, List, [], ◌∷◌, arith, ltb, ltb→lt, ltb→le, lt→ltb, ◌==◌, ==→eq, ==→ne, eq→==, ne→==,
  Bool-cases, length, set, take, get, length-set, length-take, get_or-set_ne, subst,
}
use kcp_go.Sched.{TimedFunc, zero_task, task_zero, swap_tasks, earliest, fall, pop_task}
use kcp_go.Sched.Order.{due_at, parent, IsHeap, IsSwapped, swap-IsSwapped}

-- The order of a heap but below `i`, where the task above `i` is due no later than those below.
record IsFalling (s : List TimedFunc) (i : ℕ) : Type 0 where
  elsewhere : (j : ℕ) → 0 < j → j < length s → parent j ≢ i → due_at s (parent j) ≤ due_at s j
  below : (j : ℕ) → 0 < i → 0 < j → j < length s → parent j ≡ i → due_at s (parent i) ≤ due_at s j

-- The earliest of a task and its children: itself, or a child that is due before it.
pub record IsEarliest (s : List TimedFunc) (i n m : ℕ) : Type 0 where
  pub least : (j : ℕ) → 0 < j → j < n → parent j ≡ i → due_at s m ≤ due_at s j
  pub which : (m ≡ i) ⊎ ((parent m ≡ i) × (i < m) × (m < n) × (due_at s m < due_at s i))

both : (a b c d : ℕ) → (ltb a b && ltb c d) ≡ true → (a < b) × (c < d)
both a b c d e = elim (Bool-cases (ltb a b)) [
  | inl t ↦ (ltb→lt a b t, ltb→lt c d (rw t at e))
  | inr t ↦ let bad : false ≡ true = rw t at e in cc
]

not_both : (a b c d : ℕ) → (ltb a b && ltb c d) ≡ false → a < b → d ≤ c
not_both a b c d e lt = let rest : ltb c d ≡ false = rw (lt→ltb a b lt) at e in ltb→le c d rest

children : (i j : ℕ) → 0 < j → parent j ≡ i → (j ≡ 2 * i + 1) ⊎ (j ≡ 2 * i + 1 + 1)
children i j h e = ground arith

-- The least of two children.
both_least :
    (s : List TimedFunc) (i n m : ℕ)
    → (2 * i + 1 < n → due_at s m ≤ due_at s (2 * i + 1))
    → (2 * i + 1 + 1 < n → due_at s m ≤ due_at s (2 * i + 1 + 1))
    → (j : ℕ) → 0 < j
    → j < n
    → parent j ≡ i
    → due_at s m ≤ due_at s j
both_least s i n m hl hr j h0 hn e = elim (children i j h0 e) [
  | inl c ↦ subst (λ k. due_at s m ≤ due_at s k) (sym c) (hl (omega (arith, c, hn)))
  | inr c ↦ subst (λ k. due_at s m ≤ due_at s k) (sym c) (hr (omega (arith, c, hn)))
]

pub earliest-IsEarliest : (s : List TimedFunc) (i n : ℕ) → IsEarliest s i n (earliest s i n)
unfolding earliest
earliest-IsEarliest s i n =
    let l = 2 * i + 1 in
    elim (Bool-cases (ltb l n && ltb (due_at s l) (due_at s i))) [
      | inl t ↦
          let (ln, li) = both l n (due_at s l) (due_at s i) t in
          elim (Bool-cases (ltb (l + 1) n && ltb (due_at s (l + 1)) (due_at s l))) [
            | inl u ↦
                let (rn, rl) = both (l + 1) n (due_at s (l + 1)) (due_at s l) u in
                rw (t, u)
                  (record {
                    least = both_least s i n (l + 1) (λ z. omega (arith, rl)) (λ z. omega arith);
                    which = inr (omega arith, omega arith, rn, omega (arith, rl, li));
                  })
            | inr u ↦
                rw (t, u)
                  (record {
                    least =
                        both_least s i n l (λ z. omega arith)
                          (λ z. not_both (l + 1) n (due_at s (l + 1)) (due_at s l) u z);
                    which = inr (omega arith, omega arith, ln, li);
                  })
          ]
      | inr t ↦
          let il = not_both l n (due_at s l) (due_at s i) t in
          elim (Bool-cases (ltb (l + 1) n && ltb (due_at s (l + 1)) (due_at s i))) [
            | inl u ↦
                let (rn, ri) = both (l + 1) n (due_at s (l + 1)) (due_at s i) u in
                rw (t, u)
                  (record {
                    least =
                        both_least s i n (l + 1) (λ z. omega (arith, il z, ri)) (λ z. omega arith);
                    which = inr (omega arith, omega arith, rn, ri);
                  })
            | inr u ↦
                rw (t, u)
                  (record {
                    least =
                        both_least s i n i il
                          (λ z. not_both (l + 1) n (due_at s (l + 1)) (due_at s i) u z);
                    which = inl refl;
                  })
          ]
    ]

fall_step :
    (s s' : List TimedFunc) (i m : ℕ)
    → IsFalling s i
    → IsSwapped s i m s'
    → ((j : ℕ) → 0 < j → j < length s → parent j ≡ i → due_at s m ≤ due_at s j)
    → parent m ≡ i
    → i < m
    → m < length s
    → due_at s m < due_at s i
    → IsFalling s' m
fall_step s s' i m v w least pm im mn lt = record {
  elsewhere = λ j hj0 hj np. elim (Bool-cases (j == m)) [
    | inl e ↦
        subst (λ k. due_at s' (parent k) ≤ due_at s' k) (sym (==→eq j m e))
          (omega (arith, ap (due_at s') pm, w.at_first, w.at_second, lt))
    | inr n ↦ elim (Bool-cases (j == i)) [
      | inl e ↦
          let i0 : 0 < i = omega (arith, ==→eq j i e, hj0) in
          subst (λ k. due_at s' (parent k) ≤ due_at s' k) (sym (==→eq j i e))
            (omega (
              arith,
              w.at_first,
              w.at_others (parent i) (λ z. omega (arith, z, i0)) (λ z. omega (arith, z, im)),
              v.below m i0 (omega (arith, im)) mn pm,
            ))
      | inr n2 ↦ elim (Bool-cases (parent j == i)) [
        | inl e ↦ omega (
          arith,
          ap (due_at s') (==→eq (parent j) i e),
          w.at_first,
          w.at_others j (==→ne j i n2) (==→ne j m n),
          least j hj0 (omega (arith, hj, w.same_length)) (==→eq (parent j) i e),
        )
        | inr n3 ↦ omega (
          arith,
          w.at_others j (==→ne j i n2) (==→ne j m n),
          w.at_others (parent j) (==→ne (parent j) i n3) np,
          v.elsewhere j hj0 (omega (arith, hj, w.same_length)) (==→ne (parent j) i n3),
        )
      ]
    ]
  ];
  below = λ j hm hj0 hj e. omega (
    arith,
    ap (due_at s') pm,
    w.at_first,
    w.at_others j (λ z. omega (arith, z, e, im)) (λ z. omega (arith, z, e, im)),
    v.elsewhere j hj0 (omega (arith, hj, w.same_length)) (λ z. omega (arith, z, e, im)),
    ap (due_at s) e,
  );
}

fall-IsHeap :
    (fuel : ℕ) (s : List TimedFunc) (i n : ℕ)
    → length s ≡ n
    → n ≤ fuel + i
    → i < n
    → IsFalling s i
    → IsHeap (fall fuel s i n)
unfolding fall
fall-IsHeap zero s i n len hf hi v = absurd (omega (arith, hf, hi))
fall-IsHeap (suc fuel) s i n len hf hi v =
    let m = earliest s i n in
    let found = earliest-IsEarliest s i n in
    elim found.which [
      | inl e ↦ rw (eq→== m i e) (λ j hj0 hj. elim (Bool-cases (parent j == i)) [
        | inl t ↦ omega (
          arith,
          ap (due_at s) e,
          ap (due_at s) (==→eq (parent j) i t),
          found.least j hj0 (omega (arith, hj, len)) (==→eq (parent j) i t),
        )
        | inr t ↦ v.elsewhere j hj0 hj (==→ne (parent j) i t)
      ])
      | inr (pm, im, mn, lt) ↦
          let w =
            swap-IsSwapped s i m (omega (arith, hi, len)) (omega (arith, mn, len))
              (λ z. omega (arith, z, im)) in
          rw (ne→== m i (λ z. omega (arith, z, im))) (
            fall-IsHeap fuel (swap_tasks s i m) m n (w.same_length ∙ len) (omega (arith, hf, im)) mn
              (fall_step s (swap_tasks s i m) i m v w
                (λ j hj0 hj e. found.least j hj0 (omega (arith, hj, len)) e) pm im
                (omega (arith, mn, len)) lt))
    ]

get_or-take : (n : ℕ) (s : List TimedFunc) (j : ℕ) → j < n → due_at (take n s) j ≡ due_at s j
get_or-take zero s j h = absurd (omega (arith, h))
get_or-take (suc n) [] j h = refl
get_or-take (suc n) (x ∷ s) zero h = refl
get_or-take (suc n) (x ∷ s) (suc j) h = get_or-take n s j (omega (arith, h))

-- What pop sinks: the last task in the place of the first.
last_first :
    (h : List TimedFunc) (n : ℕ)
    → length h ≡ suc n
    → IsHeap h
    → (length (take n (set h 0 (get h n))) ≡ n) × IsFalling (take n (set h 0 (get h n))) 0
last_first h n len v =
    let moved = set h 0 (get h n) in
    let size : length moved ≡ suc n = length-set h 0 (get h n) ∙ len in
    let size' : length (take n moved) ≡ n = omega (arith, length-take n moved, size) in
    let kept : (j : ℕ) → j ≢ 0 → j < n → due_at (take n moved) j ≡ due_at h j = λ j ne lt.
      get_or-take n moved j lt
      ∙ ap (λ t. t.ts) (get_or-set_ne h 0 j (get h n) zero_task (λ z. ne (sym z))) in
    (
      size',
      record {
        elsewhere = λ j hj0 hj np. omega (
          arith,
          kept j (λ z. omega (arith, z, hj0)) (omega (arith, hj, size')),
          kept (parent j) np (omega (arith, hj, size')),
          v j hj0 (omega (arith, hj, size', len)),
        );
        below = λ j hi hj0 hj e. absurd (omega (arith, hi));
      },
    )

pub pop_task-IsHeap : (h : List TimedFunc) → 0 < length h → IsHeap h → IsHeap (pop_task h).1
unfolding pop_task
pop_task-IsHeap [] some_ v = elim some_ [ ]
pop_task-IsHeap (x ∷ []) some_ v = λ j hj0 hj. absurd (omega (arith, hj))
pop_task-IsHeap (x ∷ y ∷ h) some_ v =
    let n = length (x ∷ y ∷ h) - 1 in
    let (size, falling) = last_first (x ∷ y ∷ h) n (omega arith) v in
    fall-IsHeap (length (x ∷ y ∷ h)) (take n (set (x ∷ y ∷ h) 0 (get (x ∷ y ∷ h) n))) 0 n size
      (omega arith) (omega arith) falling
