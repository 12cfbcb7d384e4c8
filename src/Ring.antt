-- ===== src/Ring.antt =====
-- RingBuffer of ringbuffer.go: a growable circular queue over a slice.
-- A method with a pointer receiver returns the new buffer. An index out of range panics in Go;
-- here it reads the zero value and writes nothing, and Ring/Bounds shows that it does not happen.
-- Go's `int` has 64 bits: a slice is far shorter than 2^62, so no index sum wraps.
pub mod Bounds
pub mod Fifo
pub mod Grow
pub mod Scan
pub mod Trace
mod Tests
use kcp_go.Prelude.{
  ℕ, zero, suc, ◌+◌, ◌-◌, ◌*◌, ◌/◌, ◌%◌, min, Bool, true, false, Option, none, some, List, [], ◌∷◌,
  ◌++◌, ltb, leb, ◌==◌, if◌then◌else◌, Zero, length, take, drop, set, get, slice, copy, copy_from,
  clear, make,
}

abbrev pub ringbuffer_min : ℕ
ringbuffer_min = 8

abbrev pub ringbuffer_exp : ℕ
ringbuffer_exp = 1024

pub record RingBuffer {ℓ} (A : Type ℓ) : Type ℓ where
  pub head : ℕ
  pub tail : ℕ
  pub elements : List A

-- The backing-slice length that `grow` chooses.
unfoldable pub new_size : ℕ → ℕ
new_size size =
    if ltb size ringbuffer_min
    then ringbuffer_min
    else if ltb size ringbuffer_exp
    then size * 2
    else size + (size + 9) / 10

-- Read-only methods.
module _ {ℓ} {A : Type ℓ} where
  unfoldable pub len : RingBuffer A → ℕ
  len r = if leb r.head r.tail then r.tail - r.head else length r.elements - r.head + r.tail

  unfoldable pub is_empty : RingBuffer A → Bool
  is_empty r = r.head == r.tail

  unfoldable pub max_len : RingBuffer A → ℕ
  max_len r = length r.elements - 1

  unfoldable pub is_full : RingBuffer A → Bool
  is_full r = (r.tail + 1) % length r.elements == r.head

  -- The index in the backing slice of the i-th element from the head.
  unfoldable pub at_index : RingBuffer A → ℕ → ℕ
  at_index r i =
      let j = r.head + i in if leb (length r.elements) j then j - length r.elements else j

module _ {ℓ} {A : Type ℓ} ⦃z : Zero A⦄ where
  unfoldable pub new_ring_buffer : ℕ → RingBuffer A
  new_ring_buffer size = record {
    head = 0;
    tail = 0;
    elements = make (if leb size ringbuffer_min then ringbuffer_min else size);
  }

  -- The elements in the order in which `grow`, `Clear` and `ForEach` walk them: what the buffer holds.
  unfoldable pub held : List A → ℕ → ℕ → List A
  held xs h t = if leb h t then slice xs h t else slice xs h (length xs) ++ slice xs 0 t

  abbrev pub contents : RingBuffer A → List A
  contents r = held r.elements r.head r.tail

  unfoldable pub grow : RingBuffer A → RingBuffer A
  unfolding new_size len
  grow r =
      let fresh = make (new_size (length r.elements)) in
      let front = slice r.elements r.head (length r.elements) in
      record {
        head = 0;
        tail = len r;
        elements =
            if ltb r.head r.tail
            then copy fresh (slice r.elements r.head r.tail)
            else copy_from (copy fresh front) (length front) (slice r.elements 0 r.tail);
      }

  -- Push behind its growth step.
  unfoldable pub put : RingBuffer A → A → RingBuffer A
  put r v = record r { elements = set r.elements r.tail v; tail = (r.tail + 1) % length r.elements }

  unfoldable pub push : RingBuffer A → A → RingBuffer A
  unfolding put grow is_full
  push r v = put (if is_full r then grow r else r) v

  unfoldable pub pop : RingBuffer A → Option A × RingBuffer A
  unfolding len
  pop r = if len r == 0 then (none, r) else (
    some (get r.elements r.head),
    record r {
      elements = set r.elements r.head z.zero_value;
      head = (r.head + 1) % length r.elements;
    },
  )

  unfoldable pub peek : RingBuffer A → Option A
  unfolding len
  peek r = if len r == 0 then none else some (get r.elements r.head)

  unfoldable pub clear_all : RingBuffer A → RingBuffer A
  clear_all r = record {
    head = 0;
    tail = 0;
    elements =
        if leb r.head r.tail
        then clear r.elements r.head (r.tail - r.head)
        else clear (clear r.elements r.head (length r.elements - r.head)) 0 r.tail;
  }

  -- Discard of a positive `n`, after `n` is cut to the current length.
  unfoldable pub discard_some : RingBuffer A → ℕ → RingBuffer A
  discard_some r n =
      let cap = length r.elements in
      let end = r.head + n in
      if ltb end cap
      then record r { elements = clear r.elements r.head n; head = end }
      else record r {
        elements = clear (clear r.elements r.head (cap - r.head)) 0 (end - cap);
        head = end - cap;
      }

  -- An argument below zero discards nothing, as zero does.
  unfoldable pub discard : RingBuffer A → ℕ → ℕ × RingBuffer A
  unfolding discard_some clear_all len
  discard r n =
      let m = min n (len r) in
      if n == 0 then (0, r) else if m == len r then (m, clear_all r) else (m, discard_some r m)

  unfoldable pub at : RingBuffer A → ℕ → A
  unfolding at_index
  at r i = get r.elements (at_index r i)

  -- A write through the pointer that At returns.
  unfoldable pub set_at : RingBuffer A → ℕ → A → RingBuffer A
  unfolding at_index
  set_at r i v = record r { elements = set r.elements (at_index r i) v }

-- A loop body sees a state and an element, and gives the next state, what it leaves in the element,
-- and whether to go on.
abbrev pub Body {ℓ κ} : Type ℓ → Type κ → Type (ℓ ⊔ κ)
Body S A = S → A → S × A × Bool

module _ {ℓ κ} {S : Type κ} {A : Type ℓ} ⦃z : Zero A⦄ where
  -- The loop over the elements of a list.
  unfoldable pub scan : Body S A → S → List A → S × List A
  scan body s [] = (s, [])
  scan body s (x ∷ xs) =
      let (s', x', more) = body s x in
      let rest = scan body s' xs in if more then (rest.0, x' ∷ rest.1) else (s', x' ∷ xs)

  -- `for i := i; i < i + n; i++ { if !fn(&elements[i]) { return } }`, and whether it ran to the end.
  unfoldable pub walk : Body S A → ℕ → ℕ → S → List A → S × List A × Bool
  walk body zero i s xs = (s, xs, true)
  walk body (suc n) i s xs =
      let (s', x', more) = body s (get xs i) in
      let rest = walk body n (suc i) s' (set xs i x') in
      if more then rest else (s', set xs i x', false)

  unfoldable pub for_each : Body S A → S → RingBuffer A → S × RingBuffer A
  unfolding walk len
  for_each body s r =
      if len r == 0
      then (s, r)
      else if ltb r.head r.tail
      then (let (s', xs, _) = walk body (r.tail - r.head) r.head s r.elements in
          (s', record r { elements = xs }))
      else (let (s', xs, more) = walk body (length r.elements - r.head) r.head s r.elements in
          let (s'', ys, _) = walk body r.tail 0 s' xs in
          if more then (s'', record r { elements = ys }) else (s', record r { elements = xs }))

  -- `for ri := i; ri < Len(); ri++ { seg := At(ri) ... }` with `n` rounds left.
  unfoldable pub for_at : Body S A → ℕ → ℕ → S → RingBuffer A → S × RingBuffer A
  unfolding at set_at
  for_at body zero i s r = (s, r)
  for_at body (suc n) i s r =
      let (s', x', more) = body s (at r i) in
      let rest = for_at body n (suc i) s' (set_at r i x') in
      if more then rest else (s', set_at r i x')

  unfoldable pub scan_ring : Body S A → S → RingBuffer A → S × RingBuffer A
  unfolding for_at len
  scan_ring body s r = for_at body (len r) 0 s r
