-- ===== src/Ring/Tests.antt =====
-- ringbuffer.go: the methods on small buffers, and the theorems at inputs that exercise them.
use kcp_go.Prelude.{ℕ, ◌+◌, ◌*◌, ◌≡◌, refl, List, [], ◌∷◌, arith, ltb, sub_slice, copy, nat_zero}
use kcp_go.Ring.{RingBuffer, new_size, len, held, contents, push, Body, scan, for_each, scan_ring}
use kcp_go.Ring.Bounds.{IsValid}
use kcp_go.Ring.Scan.{scan_ring_refines}
use kcp_go.Ring.Trace.{Call, pushing, popping, discarding, run, run_queue, run_refines}

-- Seven elements in eight slots, round the end of the slice: the next Push grows it.
abbrev crowded : RingBuffer ℕ
crowded = record { head = 5; tail = 4; elements = 14 ∷ 15 ∷ 16 ∷ 17 ∷ 0 ∷ 11 ∷ 12 ∷ 13 ∷ [] }

crowded-IsValid : IsValid crowded
crowded-IsValid = omega arith

abbrev script : List (Call ℕ)
script = popping ∷ pushing 18 ∷ pushing 19 ∷ discarding 6 ∷ popping ∷ popping ∷ popping ∷ []

contents-crowded : contents crowded ≡ 11 ∷ 12 ∷ 13 ∷ 14 ∷ 15 ∷ 16 ∷ 17 ∷ []
unfolding held sub_slice
contents-crowded = refl

push-crowded : contents (push crowded 18) ≡ 11 ∷ 12 ∷ 13 ∷ 14 ∷ 15 ∷ 16 ∷ 17 ∷ 18 ∷ []
unfolding push held sub_slice copy
push-crowded = refl

new_size_at : (new_size 4 ≡ 8) × (new_size 8 ≡ 16) × (new_size 1024 ≡ 1127)
unfolding new_size
new_size_at = (refl, refl, refl)

-- Doubles the elements up to 14, and adds them up.
abbrev doubling : Body ℕ ℕ
doubling s x = (s + x, 2 * x, ltb x 14)

scan-crowded : scan doubling 0 (contents crowded) ≡ (50, 22 ∷ 24 ∷ 26 ∷ 28 ∷ 15 ∷ 16 ∷ 17 ∷ [])
unfolding scan held sub_slice
scan-crowded = refl

for_each-crowded :
    (for_each doubling 0 crowded).1.elements ≡ 28 ∷ 15 ∷ 16 ∷ 17 ∷ 0 ∷ 22 ∷ 24 ∷ 26 ∷ []
unfolding for_each
for_each-crowded = refl

run_refines_example : run crowded script ≡ run_queue (contents crowded) script
run_refines_example = run_refines script crowded crowded-IsValid

scan_ring_refines_example :
    ((scan_ring doubling 0 crowded).0 ≡ (scan doubling 0 (contents crowded)).0)
    × (contents (scan_ring doubling 0 crowded).1 ≡ (scan doubling 0 (contents crowded)).1)
    × IsValid (scan_ring doubling 0 crowded).1
    × (len (scan_ring doubling 0 crowded).1 ≡ len crowded)
scan_ring_refines_example = scan_ring_refines doubling 0 crowded crowded-IsValid
