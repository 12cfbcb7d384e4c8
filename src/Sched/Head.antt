-- ===== src/Sched/Head.antt =====
-- timedsched.go: what push does to the head of the heap.
use kcp_go.Prelude.{
  ℕ, zero, suc, ◌+◌, ◌-◌, ◌/◌, ◌<◌, ◌≡◌, refl, sym, ap, ◌∙◌, ◌⊎◌, inl, inr, false, List, [], ◌∷◌,
  ◌++◌, arith, ltb, ◌==◌, ne→==, ==→eq, ==→ne, Bool-cases, length, set, length-append, length-set,
  get_or-set_self, get_or-set_ne, get_or-append_right, get,
}
use kcp_go.Sched.{TimedFunc, task_zero, zero_task, swap_tasks, rise, push_task}

swapped :
    (s : List TimedFunc) (i p : ℕ)
    → i < length s
    → p < i
    → (length (swap_tasks s i p) ≡ length s)
      × (get (swap_tasks s i p) p ≡ get s i)
      × ((get (swap_tasks s i p) 0 ≡ get s 0) ⊎ (get (swap_tasks s i p) 0 ≡ get s i))
swapped s i p h lt =
    let once = set s i (get s p) in
    let len : length once ≡ length s = length-set s i (get s p) in
    let self : get (swap_tasks s i p) p ≡ get s i =
      get_or-set_self once p (get s i) (zero_task) (omega (arith, len)) in
    (
      length-set once p (get s i) ∙ len,
      self,
      elim (Bool-cases (p == 0)) [
        | inl e ↦ inr (ap (λ k. get (swap_tasks s i p) k) (sym (==→eq p 0 e)) ∙ self)
        | inr e ↦ inl (
            get_or-set_ne once p 0 (get s i) zero_task (==→ne p 0 e)
            ∙ get_or-set_ne s i 0 (get s p) zero_task (λ z. omega (arith, z)))
      ],
    )

-- The head of the heap while an item rises: the old head, or the item.
rise-head :
    (fuel : ℕ) (s : List TimedFunc) (i : ℕ)
    → i < length s
    → (get (rise fuel s i) 0 ≡ get s 0) ⊎ (get (rise fuel s i) 0 ≡ get s i)
unfolding rise
rise-head zero s i h = inl refl
rise-head (suc fuel) s zero h = inl refl
rise-head (suc fuel) s (suc i) h =
    let above : (suc i == 0) ≡ false = ne→== (suc i) 0 (λ z. omega (arith, z)) in
    let p = (suc i - 1) / 2 in
    let s' = swap_tasks s (suc i) p in
    let (len, self, head) = swapped s (suc i) p h (omega arith) in
    elim (Bool-cases (ltb (get s (suc i)).ts (get s p).ts)) [
      | inl t ↦
          rw (above, t)
            (elim (rise-head fuel s' p (omega (arith, len))) [
              | inl e ↦ elim head [ inl e0 ↦ inl (e ∙ e0) | inr e0 ↦ inr (e ∙ e0) ]
              | inr e ↦ inr (e ∙ self)
            ])
      | inr t ↦ rw (above, t) (inl refl)
    ]

plus_zero : (n : ℕ) → n ≡ n + 0
plus_zero n = omega arith

pub push_task-head :
    (s : List TimedFunc) (f : TimedFunc)
    → (get (push_task s f) 0 ≡ f) ⊎ ((0 < length s) × (get (push_task s f) 0 ≡ get s 0))
unfolding push_task
push_task-head [] f = inl refl
push_task-head (x ∷ s) f =
    elim (rise-head (suc (length (x ∷ s))) ((x ∷ s) ++ f ∷ []) (length (x ∷ s))
      (omega (arith, length-append s (f ∷ [])))) [
        | inl e ↦ inr (omega arith, e)
        | inr e ↦ inl (
            e
            ∙ ap (λ k. get (x ∷ s ++ f ∷ []) k) (plus_zero (length (x ∷ s)))
            ∙ get_or-append_right (x ∷ s) (f ∷ []) 0 zero_task)
      ]
