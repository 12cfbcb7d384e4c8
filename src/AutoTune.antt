-- ===== src/AutoTune.antt =====
-- autoTune of autotune.go: the data and parity counts of the peer, read off the incoming packets.
pub mod Width
pub mod Window
mod Tests
use kcp_go.Prelude.{
  ℕ, zero, suc, ◌+◌, ◌%◌, Bool, true, false, not, ◌||◌, Option, none, some, List, [], ◌∷◌, ltb,
  ◌==◌, if◌then◌else◌, Zero, length, set, get, make, ℤ, negsuc, add32,
}
use kcp_go.Serial.{itimediff, is_neg}

abbrev pub max_samples : ℕ
max_samples = 258

pub record Pulse : Type 0 where
  pub bit : Bool
  pub seq : ℕ

instance abbrev pub pulse_zero : Zero Pulse
pulse_zero = record { zero_value = record { bit = false; seq = 0 } }

-- `pulses` has 258 places. The cache for sorting is scratch space.
pub record AutoTune : Type 0 where
  pub pulses : List Pulse
  pub head : ℕ
  pub tail : ℕ
  pub count : ℕ

abbrev pub new_auto_tune : AutoTune
new_auto_tune = record { pulses = make max_samples; head = 0; tail = 0; count = 0 }

unfoldable pub sample : AutoTune → Bool → ℕ → AutoTune
sample tune bit seq =
    let written = record tune {
      pulses = set tune.pulses tune.tail (record { bit = bit; seq = seq });
      tail = (tune.tail + 1) % max_samples;
    } in
    if ltb tune.count max_samples
    then record written { count = tune.count + 1 }
    else record written { head = (tune.head + 1) % max_samples }

abbrev pub same_bit : Bool → Bool → Bool
same_bit true b = b
same_bit false b = not b

-- The copy into the cache, with `n` samples left from the i-th.
unfoldable pub samples_from : AutoTune → ℕ → ℕ → List Pulse
samples_from tune i zero = []
samples_from tune i (suc n) =
    get tune.pulses ((tune.head + i) % max_samples) ∷ samples_from tune (i + 1) n

-- sort.Slice by the sequence number. Its order of equal numbers is open; `collapse` makes one of
-- them, or none if their bits differ.
unfoldable pub insert_pulse : Pulse → List Pulse → List Pulse
insert_pulse p [] = p ∷ []
insert_pulse p (q ∷ qs) =
    if is_neg (itimediff q.seq p.seq) then q ∷ insert_pulse p qs else p ∷ q ∷ qs

unfoldable pub sort_pulses : List Pulse → List Pulse
sort_pulses [] = []
sort_pulses (p ∷ ps) = insert_pulse p (sort_pulses ps)

-- The inner loop of the collapse: whether a sample of the same number disagrees, and what follows.
unfoldable pub same_number : Pulse → Bool → List Pulse → Bool × List Pulse
same_number p conflict [] = (conflict, [])
same_number p conflict (q ∷ qs) =
    let rest = same_number p (conflict || not (same_bit q.bit p.bit)) qs in
    if q.seq == p.seq then rest else (conflict, q ∷ qs)

-- One round takes a sample or more, so the length is enough fuel.
unfoldable pub collapse : ℕ → List Pulse → List Pulse
collapse zero ps = []
collapse (suc fuel) [] = []
collapse (suc fuel) (p ∷ ps) =
    let (conflict, rest) = same_number p false ps in
    if conflict then collapse fuel rest else p ∷ collapse fuel rest

-- The right edge of a pulse that begins at `left`, behind the sample `prev`.
unfoldable pub right_edge : Bool → ℕ → Pulse → List Pulse → Option ℤ
right_edge bit left prev [] = none
right_edge bit left prev (p ∷ ps) =
    let next = right_edge bit left p ps in
    if not (add32 prev.seq 1 == p.seq)
    then none
    else if not (same_bit p.bit bit)
    then some (itimediff p.seq left)
    else next

-- The first pulse with both edges and no gap; -1 if there is none.
unfoldable pub find_pulse : Bool → List Pulse → ℤ
find_pulse bit [] = negsuc 0
find_pulse bit (prev ∷ []) = negsuc 0
find_pulse bit (prev ∷ (p ∷ ps)) =
    let later = find_pulse bit (p ∷ ps) in
    if same_bit prev.bit bit || not (same_bit p.bit bit) || not (add32 prev.seq 1 == p.seq)
    then later
    else elim (right_edge bit p.seq p ps) [ none ↦ later | some width ↦ width ]

unfoldable pub find_period : AutoTune → Bool → ℤ
find_period tune bit =
    let sorted = sort_pulses (samples_from tune 0 tune.count) in
    if ltb tune.count 3 then negsuc 0 else find_pulse bit (collapse (length sorted) sorted)
