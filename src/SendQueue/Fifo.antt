-- ===== src/SendQueue/Fifo.antt =====
-- sendqueue.go: the queue against the plain list of what waits in it.
use kcp_go.Prelude.{
  ℕ, suc, ◌+◌, ◌-◌, ◌≤◌, ◌<◌, ◌≡◌, refl, sym, ap, ◌∙◌, inl, inr, true, false, ◌&&◌, none, some,
  List, [], ◌∷◌, ◌++◌, arith, ltb, ◌==◌, le→leb, lt→leb, ne→==, eq→==, ==→eq, Bool-cases, Zero,
  length, set, drop, length-append, length-set, length-drop, drop-append_left, drop_all, get,
}
use kcp_go.Ring.Scan.{drop-get, drop-suc-set}
use kcp_go.SendQueue.{dev_backlog, SendQueue, append_one, push, pop, len}

module _ {ℓ} {A : Type ℓ} ⦃z : Zero A⦄ where
  -- What waits, oldest first.
  abbrev pub waiting : SendQueue A → List A
  waiting sq = drop sq.head sq.q

  abbrev pub IsQueue : SendQueue A → Type 0
  IsQueue sq = sq.head ≤ length sq.q

  pub length-waiting : (sq : SendQueue A) → length (waiting sq) ≡ len sq
  unfolding len
  length-waiting sq = length-drop sq.head sq.q

  -- On a valid queue, push refuses a packet when 2048 wait or more, and leaves the queue alone then.
  -- Otherwise it appends it, whether or not it has to move the waiting packets to the front of the
  -- slice, and the queue stays valid.
  pub push_lem :
      (grow_capacity : ℕ → ℕ) (sq : SendQueue A) (r : A)
      → IsQueue sq
      → (dev_backlog ≤ length (waiting sq) → push grow_capacity sq r ≡ (false, sq))
        × (length (waiting sq) < dev_backlog
            → ((push grow_capacity sq r).0 ≡ true)
              × (waiting (push grow_capacity sq r).1 ≡ waiting sq ++ r ∷ [])
              × IsQueue (push grow_capacity sq r).1)
  unfolding push append_one
  push_lem grow_capacity sq r v = (
    (λ h.
        rw (le→leb dev_backlog (length sq.q - sq.head) (omega (arith, length-drop sq.head sq.q)))
          refl),
    (λ h.
        rw (lt→leb dev_backlog (length sq.q - sq.head) (omega (arith, length-drop sq.head sq.q)))
          (elim (Bool-cases (ltb 0 sq.head && length sq.q == sq.capacity)) [
            | inl e ↦ rw e (refl, refl, omega arith)
            | inr e ↦ rw e (
              refl,
              drop-append_left sq.head sq.q (r ∷ []) v,
              omega (arith, length-append sq.q (r ∷ [])),
            )
          ])),
  )

  -- On a valid queue, pop takes the oldest packet and leaves the others in order in a valid queue, or
  -- reports an empty queue and leaves it alone.
  pub pop_lem :
      (sq : SendQueue A)
      → IsQueue sq
      → (length (waiting sq) ≡ 0 → pop sq ≡ (none, sq))
        × (0 < length (waiting sq)
            → ((x : A) × ((pop sq).0 ≡ some x)
                × (waiting sq ≡ x ∷ waiting (pop sq).1)
                × IsQueue (pop sq).1))
  unfolding pop
  pop_lem sq v = (
    (λ h. rw (eq→== sq.head (length sq.q) (omega (arith, length-drop sq.head sq.q))) refl),
    (λ h.
        rw (ne→== sq.head (length sq.q) (omega (arith, length-drop sq.head sq.q)))
          (elim (Bool-cases (sq.head + 1 == length sq.q)) [
            | inl e ↦ rw e (
              get sq.q sq.head,
              refl,
              drop-get sq.q sq.head (here h)
                  ∙ ap (λ ys. get sq.q sq.head ∷ ys) (drop_all (suc sq.head) sq.q (last e)),
              omega arith,
            )
            | inr e ↦ rw e (
              get sq.q sq.head,
              refl,
              drop-get sq.q sq.head (here h) ∙ ap (λ ys. get sq.q sq.head ∷ ys) (rest h),
              omega (arith, length-set sq.q sq.head z.zero_value, here h),
            )
          ])),
  )
    where
      here : 0 < length (waiting sq) → sq.head < length sq.q
      here h = omega (arith, length-drop sq.head sq.q)

      last : (sq.head + 1 == length sq.q) ≡ true → length sq.q ≤ suc sq.head
      last e = omega (arith, ==→eq (sq.head + 1) (length sq.q) e)

      rest :
          0 < length (waiting sq)
          → drop (suc sq.head) sq.q ≡ drop (sq.head + 1) (set sq.q sq.head z.zero_value)
      rest h =
          let e : suc sq.head ≡ sq.head + 1 = omega arith in
          sym (drop-suc-set sq.q sq.head z.zero_value)
          ∙ ap (λ k. drop k (set sq.q sq.head z.zero_value)) e
