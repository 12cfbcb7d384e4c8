-- ===== src/PostProcess/Queue.antt =====
-- postprocess.go: the queue of the workers against the plain list of what waits in it.
use kcp_go.Prelude.{
  ℕ, zero, suc, ◌+◌, ◌-◌, ◌/◌, ◌≤◌, ◌≡◌, refl, sym, ap, ◌∙◌, subst, ◌⊎◌, inl, inr, none, some, List,
  [], ◌∷◌, ◌++◌, arith, ltb, ◌==◌, ==→eq, Bool-cases, length, drop, length-append, length-drop,
  drop-append_left,
}
use kcp_go.PostProcess.{WorkQueue, pp_enqueue, pp_dequeue}

-- The sessions that wait for a worker.
abbrev pub waiting : WorkQueue → List ℕ
waiting w = drop w.head w.q

pub enqueue-waiting :
    (w : WorkQueue) (a : ℕ)
    → w.head ≤ length w.q
    → ((pp_enqueue w a).head ≤ length (pp_enqueue w a).q)
      × (waiting (pp_enqueue w a) ≡ waiting w ++ a ∷ [])
unfolding pp_enqueue
enqueue-waiting w a v = elim (Bool-cases (ltb (length w.q / 2) w.head)) [
  | inl e ↦ rw (e) (omega arith, refl)
  | inr e ↦
      rw (e) (omega (arith, length-append w.q (a ∷ [])), drop-append_left w.head w.q (a ∷ []) v)
]

step_succ : (n : ℕ) → suc n + 1 ≡ suc (n + 1)
step_succ n = omega arith

drop_next : (n : ℕ) (xs ys : List ℕ) (a : ℕ) → drop n xs ≡ a ∷ ys → drop (n + 1) xs ≡ ys
drop_next zero [] ys a e = cc
drop_next zero (x ∷ xs) ys a e = cc
drop_next (suc n) [] ys a e = cc
drop_next (suc n) (x ∷ xs) ys a e = ap (λ k. drop k (x ∷ xs)) (step_succ n) ∙ drop_next n xs ys a e

none_left : (xs : List ℕ) → length xs ≡ 0 → xs ≡ []
none_left [] e = refl
none_left (x ∷ xs) e = absurd (omega arith)

list_cases : (xs : List ℕ) → (xs ≡ []) ⊎ ((x : ℕ) × ((ys : List ℕ) × (xs ≡ x ∷ ys)))
list_cases [] = inl refl
list_cases (x ∷ xs) = inr (x, (xs, refl))

-- The two results of a worker that finds a session.
dequeue_result :
    (w : WorkQueue) (a : ℕ) (rest : List ℕ)
    → w.head ≤ length w.q
    → drop w.head w.q ≡ a ∷ rest
    → (w' : WorkQueue) × (pp_dequeue w ≡ some (a, w'))
      × (w'.head ≤ length w'.q)
      × (waiting w ≡ a ∷ waiting w')
unfolding pp_dequeue
dequeue_result w a rest v e =
    let len : length w.q - w.head ≡ suc (length rest) =
      sym (length-drop w.head w.q) ∙ ap (λ (xs : List ℕ). length xs) e in
    elim (Bool-cases (w.head + 1 == length w.q)) [
      | inl t ↦ (
        record { q = []; head = 0 },
        rw (e, pp_dequeue) (rw (t) refl),
        omega arith,
        e
            ∙ ap (λ xs. a ∷ xs)
                (none_left rest (omega (arith, ==→eq (w.head + 1) (length w.q) t, len))),
      )
      | inr t ↦ (
        record w { head = w.head + 1 },
        rw (e, pp_dequeue) (rw (t) refl),
        omega (arith, len),
        e ∙ ap (λ xs. a ∷ xs) (sym (drop_next w.head w.q rest a e)),
      )
    ]

pub dequeue-waiting :
    (w w' : WorkQueue) (a : ℕ)
    → w.head ≤ length w.q
    → pp_dequeue w ≡ some (a, w')
    → (w'.head ≤ length w'.q) × (waiting w ≡ a ∷ waiting w')
unfolding pp_dequeue
dequeue-waiting w w' a v e = elim (list_cases (waiting w)) [
  | inl none_ ↦ let n : pp_dequeue w ≡ none = rw (none_, pp_dequeue) refl in cc
  | inr (b, (rest, some_)) ↦
      let (w2, e2, v2, q2) = dequeue_result w b rest v some_ in
      let same : some (b, w2) ≡ some (a, w') = sym e2 ∙ e in
      let num : b ≡ a = cc in
      let que : w2 ≡ w' = cc in
      subst (λ x. (x.head ≤ length x.q) × (waiting w ≡ a ∷ waiting x)) que
        (v2, q2 ∙ ap (λ x. x ∷ waiting w2) num)
]
