-- ===== src/PostProcess/Tests.antt =====
-- postprocess.go: a run of the protocol.
use kcp_go.Prelude.{◌+◌, ◌≤◌, ◌<◌, ◌≡◌, refl, false, [], ◌∷◌, ◌++◌, length}
use kcp_go.PostProcess.{
  claim_post_process, claim, enqueue, claims, Pool, put_session, produces, moves, idle_pool,
  Reachable, begins, goes_on,
}
use kcp_go.PostProcess.Claims.{concerned, tally, places}
use kcp_go.PostProcess.Once.{Reachable_lem}

-- A packet for session 3, which its producer then claims, and another packet.
abbrev pushed : Pool
pushed = record idle_pool {
  sessions =
      put_session 3 (record (idle_pool.sessions 3) { post_queue = (1 ∷ []) ∷ [] })
        idle_pool.sessions;
  threads = (3, claim) ∷ [];
}

abbrev claimed : Pool
claimed = record pushed {
  sessions = put_session 3 (claim_post_process (pushed.sessions 3)).1 pushed.sessions;
  threads = (3, enqueue) ∷ [];
}

abbrev pushed_again : Pool
pushed_again = record claimed {
  sessions =
      put_session 3
        (record (claimed.sessions 3) {
          post_queue = (claimed.sessions 3).post_queue ++ (2 ∷ []) ∷ [];
        })
        claimed.sessions;
  threads = (3, claim) ∷ (3, enqueue) ∷ [];
}

pushed_again-Reachable : Reachable pushed_again
unfolding claim_post_process
pushed_again-Reachable =
    goes_on
      (goes_on (goes_on begins (produces {p = idle_pool} 3 (1 ∷ []) refl))
        (moves {p = pushed} 3 claim [] [] refl claims))
      (produces {p = claimed} 3 (2 ∷ []) refl)

Reachable_lem_example :
    (places pushed_again 3 ≤ 1)
    × ((pushed_again.sessions 3).died ≡ false
        → 0 < length (pushed_again.sessions 3).post_queue
        → 0 < places pushed_again 3 + tally concerned 3 pushed_again.threads)
Reachable_lem_example = Reachable_lem pushed_again 3 pushed_again-Reachable
