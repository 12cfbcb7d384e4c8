-- ===== src/SendQueue/Tests.antt =====
-- sendqueue.go: a queue with a gap in front, and the theorems at it.
use kcp_go.Prelude.{
  ℕ, ◌*◌, ◌≤◌, ◌<◌, ◌≡◌, refl, true, false, some, [], ◌∷◌, ◌++◌, arith, length, nat_zero,
}
use kcp_go.SendQueue.{dev_backlog, SendQueue, append_one, push, pop}
use kcp_go.SendQueue.Fifo.{waiting, IsQueue, push_lem}

-- Two packets wait in a slice of four that is full.
abbrev worn : SendQueue ℕ
worn = record { q = 0 ∷ 0 ∷ 7 ∷ 8 ∷ []; capacity = 4; head = 2 }

worn-IsQueue : IsQueue worn
worn-IsQueue = omega arith

push-worn : push (λ n. 2 * n) worn 9 ≡ (true, record { q = 7 ∷ 8 ∷ 9 ∷ []; capacity = 4; head = 0 })
unfolding push append_one
push-worn = refl

pop-worn : pop worn ≡ (some 7, record { q = 0 ∷ 0 ∷ 0 ∷ 8 ∷ []; capacity = 4; head = 3 })
unfolding pop
pop-worn = refl

push_lem_example :
    (dev_backlog ≤ length (waiting worn) → push (λ n. 2 * n) worn 9 ≡ (false, worn))
    × (length (waiting worn) < dev_backlog
        → ((push (λ n. 2 * n) worn 9).0 ≡ true)
          × (waiting (push (λ n. 2 * n) worn 9).1 ≡ waiting worn ++ 9 ∷ [])
          × IsQueue (push (λ n. 2 * n) worn 9).1)
push_lem_example = push_lem (λ n. 2 * n) worn 9 worn-IsQueue
