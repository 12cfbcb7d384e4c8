-- ===== src/Heap.antt =====
-- container/heap as the package uses it: Push and Pop over a slice ordered by `less`, which is the
-- Less of segmentHeap and of shardHeap. An index out of range panics in Go.
pub mod Items
use kcp_go.Prelude.{
  ℕ, zero, suc, ◌+◌, ◌-◌, ◌*◌, ◌/◌, Bool, not, ◌&&◌, ◌||◌, List, [], ◌∷◌, ◌++◌, ltb, leb, ◌==◌,
  if◌then◌else◌, Zero, length, set, get,
}

module _ {ℓ} {A : Type ℓ} ⦃z : Zero A⦄ where
  unfoldable pub swap : List A → ℕ → ℕ → List A
  swap h i j = set (set h i (get h j)) j (get h i)

module _ {ℓ} {A : Type ℓ} ⦃z : Zero A⦄ (less : A → A → Bool) where
  -- `for { i := (j - 1) / 2; if i == j || !Less(j, i) { break }; Swap(i, j); j = i }`
  unfoldable pub up : ℕ → List A → ℕ → List A
  unfolding swap
  up zero h j = h
  up (suc fuel) h j =
      let i = (j - 1) / 2 in
      let rest = up fuel (swap h i j) i in
      if i == j || not (less (get h j) (get h i)) then h else rest

  -- The smaller child of `i` among the first `n` items, given that the left one is there.
  unfoldable pub child : List A → ℕ → ℕ → ℕ
  child h i n =
      let left = 2 * i + 1 in
      if ltb (left + 1) n && less (get h (left + 1)) (get h left) then left + 1 else left

  unfoldable pub down : ℕ → List A → ℕ → ℕ → List A
  unfolding swap child
  down zero h i n = h
  down (suc fuel) h i n =
      let j = child h i n in
      let rest = down fuel (swap h i j) j n in
      if leb n (2 * i + 1) then h else if not (less (get h j) (get h i)) then h else rest

  -- heap.Push, on the slice: append, then move up. The index halves, so it is enough fuel.
  unfoldable pub heap_push : List A → A → List A
  unfolding up
  heap_push h x = up (suc (length h)) (h ++ x ∷ []) (length h)

  -- heap.Pop up to the Pop of the interface: the least item is swapped to the end.
  unfoldable pub heap_sink : List A → List A
  unfolding down
  heap_sink h = let n = length h - 1 in down (length h) (swap h 0 n) 0 n
