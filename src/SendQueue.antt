-- ===== src/SendQueue.antt =====
-- sendQueue of sendqueue.go: the bounded queue of packets that await post-processing. The mutex
-- makes each method one step. `q` is the slice up to its length; its capacity stands beside it.
pub mod Fifo
mod Tests
use kcp_go.Prelude.{
  ℕ, ◌+◌, ◌-◌, Bool, true, false, ◌&&◌, Option, none, some, List, [], ◌∷◌, ◌++◌, ltb, leb, ◌==◌,
  if◌then◌else◌, Zero, length, set, drop, get,
}

-- devBacklog of sess.go.
abbrev pub dev_backlog : ℕ
dev_backlog = 2048

abbrev pub send_queue_keep : ℕ
send_queue_keep = 64

pub record SendQueue {ℓ} (A : Type ℓ) : Type ℓ where
  pub q : List A
  pub capacity : ℕ
  pub head : ℕ

-- The runtime chooses the capacity that `append` grows to, from the length that it needs.
module _ {ℓ} {A : Type ℓ} ⦃z : Zero A⦄ (grow_capacity : ℕ → ℕ) where
  -- append(sq.q, r)
  unfoldable pub append_one : SendQueue A → A → SendQueue A
  append_one sq r = record sq {
    q = sq.q ++ r ∷ [];
    capacity =
        if ltb (length sq.q) sq.capacity then sq.capacity else grow_capacity (length sq.q + 1);
  }

  unfoldable pub push : SendQueue A → A → Bool × SendQueue A
  push sq r =
      let compact = record sq { q = drop sq.head sq.q; head = 0 } in
      if leb dev_backlog (length sq.q - sq.head)
      then (false, sq)
      else if ltb 0 sq.head && length sq.q == sq.capacity
      then (true, append_one compact r)
      else (true, append_one sq r)

module _ {ℓ} {A : Type ℓ} ⦃z : Zero A⦄ where
  unfoldable pub pop : SendQueue A → Option A × SendQueue A
  pop sq =
      let cleared = record sq { q = set sq.q sq.head z.zero_value; head = sq.head + 1 } in
      let drained = record sq {
        q = [];
        head = 0;
        capacity = if ltb send_queue_keep sq.capacity then 0 else sq.capacity;
      } in
      if sq.head == length sq.q
      then (none, sq)
      else if sq.head + 1 == length sq.q
      then (some (get sq.q sq.head), drained)
      else (some (get sq.q sq.head), cleared)

  unfoldable pub len : SendQueue A → ℕ
  len sq = length sq.q - sq.head
