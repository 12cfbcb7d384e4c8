-- ===== src/Kcp/Message.antt =====
-- Messages as lists of segments: what Send of kcp.go cuts and Recv puts together.
use kcp_go.Prelude.{ℕ, ◌≤◌, ◌≡◌, refl, sym, ap, ◌∙◌, List, [], ◌∷◌, ◌++◌, append_assoc, length}
use kcp_go.Bytes.{Bytes}
use kcp_go.Segment.{Segment}

-- The bytes that segments carry, in order.
unfoldable pub payloads : List Segment → Bytes
payloads [] = []
payloads (seg ∷ segs) = seg.payload ++ payloads segs

-- Each segment counts the segments of its message that follow it.
abbrev pub IsMessage : List Segment → Type 0
IsMessage [] = Unit
IsMessage (seg ∷ segs) = (seg.frg ≡ length segs) × IsMessage segs

-- No segment carries more than `mss` bytes.
abbrev pub FitsMss : ℕ → List Segment → Type 0
FitsMss mss [] = Unit
FitsMss mss (seg ∷ segs) = (length seg.payload ≤ mss) × FitsMss mss segs

pub payloads-append : (xs ys : List Segment) → payloads (xs ++ ys) ≡ payloads xs ++ payloads ys
unfolding payloads
payloads-append [] ys = refl
payloads-append (x ∷ xs) ys =
    ap (λ bs. x.payload ++ bs) (payloads-append xs ys)
    ∙ sym (append_assoc x.payload (payloads xs) (payloads ys))
