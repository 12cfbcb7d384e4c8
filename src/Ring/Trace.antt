-- ===== src/Ring/Trace.antt =====
-- ringbuffer.go: Push, Pop and Peek against a plain queue, for one call and for any sequence of calls.
use kcp_go.Prelude.{
  ℕ, ◌+◌, ◌%◌, min, ◌≡◌, refl, sym, ap, ap₂, ◌∙◌, ◌≢◌, inl, inr, true, false, Option, none, some,
  List, [], ◌∷◌, ◌++◌, arith, ◌==◌, Bool-cases, Zero, length, drop, length-append, length-eq_zero,
  next_mod,
}
use kcp_go.Ring.{RingBuffer, len, is_full, contents, grow, push, pop, peek, discard}
use kcp_go.Ring.Bounds.{
  IsValid, is_full-len, len-ne_zero, new_size-lt, grow-elements, grow-IsValid, push-IsValid,
  pop-IsValid, discard-IsValid,
}
use kcp_go.Ring.Fifo.{length-contents, held-clear_head, contents-put}
use kcp_go.Ring.Grow.{contents-grow, discard_lem}

module _ {ℓ} {A : Type ℓ} ⦃z : Zero A⦄ where
  len-grow : (r : RingBuffer A) → IsValid r → len (grow r) ≡ len r
  len-grow r v = omega (
    arith,
    ap length (contents-grow r v),
    length-contents r v,
    length-contents (grow r) (grow-IsValid r v),
  )

  pub contents-push :
      (r : RingBuffer A) (x : A) → IsValid r → contents (push r x) ≡ contents r ++ x ∷ []
  unfolding push
  contents-push r x v = elim (Bool-cases (is_full r)) [
    | inl e ↦ rw e (
        contents-put (grow r) x (grow-IsValid r v) (
          omega (
            arith,
            len-grow r v,
            grow-elements r v,
            new_size-lt (length r.elements),
            (is_full-len r v).0 e,
          ))
        ∙ ap (λ ys. ys ++ x ∷ []) (contents-grow r v))
    | inr e ↦ rw e (contents-put r x v ((is_full-len r v).1 e))
  ]

  -- Push appends its argument behind what the buffer holds, whether or not the buffer has to grow,
  -- and keeps the invariant; Len is one more.
  pub push_refines :
      (r : RingBuffer A) (x : A)
      → IsValid r
      → (contents (push r x) ≡ contents r ++ x ∷ [])
        × (len (push r x) ≡ len r + 1)
        × IsValid (push r x)
  push_refines r x v = (contents-push r x v, count, push-IsValid r x v)
    where
      count : len (push r x) ≡ len r + 1
      count = omega (
        arith,
        ap length (contents-push r x v),
        length-append (contents r) (x ∷ []),
        length-contents r v,
        length-contents (push r x) (push-IsValid r x v),
      )

  -- Pop of a plain queue.
  unfoldable pub uncons : List A → Option A × List A
  uncons [] = (none, [])
  uncons (x ∷ xs) = (some x, xs)

  -- Pop returns the oldest element and leaves the others in order, or reports an empty buffer and
  -- leaves it alone.
  pub pop_refines :
      (r : RingBuffer A) → IsValid r → ((pop r).0, contents (pop r).1) ≡ uncons (contents r)
  unfolding pop uncons
  pop_refines r v = elim (Bool-cases (len r == 0)) [
    | inl e ↦ rw e (
        let empty : Option A = none in
        sym (ap uncons (nothing e) ∙ ap (λ (ys : List A). (empty, ys)) (sym (nothing e))))
    | inr ne ↦ rw ne (
        sym (
          ap uncons (
            held-clear_head r.elements r.head ((r.head + 1) % length r.elements) r.tail v.head_in
              v.tail_in (next_mod r.head (length r.elements) v.head_in) (apart ne))))
  ]
    where
      nothing : (len r == 0) ≡ true → contents r ≡ []
      nothing e = length-eq_zero (contents r) (ground (arith, length-contents r v))

      apart : (len r == 0) ≡ false → r.head ≢ r.tail
      apart ne = len-ne_zero r (ground arith)

  -- Peek shows the element that Pop would return.
  pub peek-pop : (r : RingBuffer A) → peek r ≡ (pop r).0
  unfolding peek pop
  peek-pop r = elim (Bool-cases (len r == 0)) [ inl e ↦ rw e refl | inr e ↦ rw e refl ]

-- A client's calls, and what each of them returns.
pub data Call {ℓ} (A : Type ℓ) : Type ℓ where
  pushing : A → Call A
  popping : Call A
  discarding : ℕ → Call A

module _ {ℓ} {A : Type ℓ} ⦃z : Zero A⦄ where
  unfoldable pub run : RingBuffer A → List (Call A) → List (Option A × ℕ)
  run r [] = []
  run r (pushing x ∷ cs) = let r' = push r x in (none, len r') ∷ run r' cs
  run r (popping ∷ cs) = let (x, r') = pop r in (x, len r') ∷ run r' cs
  run r (discarding n ∷ cs) = let (m, r') = discard r n in (none, m) ∷ run r' cs

  -- The same calls on a plain list.
  unfoldable pub run_queue : List A → List (Call A) → List (Option A × ℕ)
  unfolding uncons
  run_queue q [] = []
  run_queue q (pushing x ∷ cs) = (none, length (q ++ x ∷ [])) ∷ run_queue (q ++ x ∷ []) cs
  run_queue q (popping ∷ cs) = let (x, q') = uncons q in (x, length q') ∷ run_queue q' cs
  run_queue q (discarding n ∷ cs) = (none, min n (length q)) ∷ run_queue (drop n q) cs

  -- No sequence of calls tells a valid buffer from the plain queue of what it holds: growing,
  -- wrapping and clearing never show.
  pub run_refines :
      (cs : List (Call A)) (r : RingBuffer A) → IsValid r → run r cs ≡ run_queue (contents r) cs
  unfolding run run_queue
  run_refines [] r v = refl
  run_refines (pushing x ∷ cs) r v =
      ap₂ (λ n rest. (none, n) ∷ rest)
        (sym (length-contents (push r x) (push-IsValid r x v)) ∙ ap length (contents-push r x v))
        (run_refines cs (push r x) (push-IsValid r x v)
          ∙ ap (λ q. run_queue q cs) (contents-push r x v))
  run_refines (popping ∷ cs) r v =
      ap₂ (λ n rest. ((pop r).0, n) ∷ rest) (sym (length-contents (pop r).1 (pop-IsValid r v)))
        (run_refines cs (pop r).1 (pop-IsValid r v))
      ∙ ap (λ (p : Option A × List A). (p.0, length p.1) ∷ run_queue p.1 cs) (pop_refines r v)
  run_refines (discarding n ∷ cs) r v =
      ap₂ (λ m rest. (none, m) ∷ rest) (discard_lem r n v).0
        (run_refines cs (discard r n).1 (discard-IsValid r n v)
          ∙ ap (λ q. run_queue q cs) (discard_lem r n v).1)

module _ {ℓ} {A : Type ℓ} ⦃z : Zero A⦄ where
  uncons-some :
      (xs ys : List A) (o : Option A) (x : A) → (o, ys) ≡ uncons xs → o ≡ some x → xs ≡ x ∷ ys
  unfolding uncons
  uncons-some [] ys o x p e = cc
  uncons-some (y ∷ xs) ys o x p e = cc

  uncons-none : (xs ys : List A) (o : Option A) → (o, ys) ≡ uncons xs → o ≡ none → xs ≡ []
  unfolding uncons
  uncons-none [] ys o p e = refl
  uncons-none (y ∷ xs) ys o p e = cc

  pub pop-some :
      (r : RingBuffer A) (x : A)
      → IsValid r
      → (pop r).0 ≡ some x
      → contents r ≡ x ∷ contents (pop r).1
  pop-some r x v e = uncons-some (contents r) (contents (pop r).1) (pop r).0 x (pop_refines r v) e

  pub pop-none : (r : RingBuffer A) → IsValid r → (pop r).0 ≡ none → contents r ≡ []
  pop-none r v e = uncons-none (contents r) (contents (pop r).1) (pop r).0 (pop_refines r v) e
