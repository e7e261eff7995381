-- ===== src/Hours/Slots.antt =====
-- internal/hours/hours.go: `FirstFitSlot`, `NearestFitSlot` and `ChunkedSlots`. A duration is a
-- number of nanoseconds, so `d <= 0` is `d == 0`.
pub mod FirstFit
pub mod NearestFit
use skulid.Base.{
  ℕ, ◌+◌, ◌-◌, Bool, true, false, not, ◌&&◌, ◌||◌, List, [], ◌∷◌, ◌++◌, Option, none, some, ltb,
  leb, ◌==◌, if◌then◌else◌, length,
}
use skulid.Hours.Window.{Window, before, after}
use skulid.Hours.Subtract.{subtract_busy}

-- `start` after the two lines that raise it to `notBefore`.
abbrev pub start_from : ℕ → Window → ℕ
start_from not_before f = if after not_before f.start then not_before else f.start

-- The loop of `FirstFitSlot` over the free windows; the first loop of `ChunkedSlots` is the same.
unfoldable pub first_fit : List Window → ℕ → ℕ → Option Window
first_fit [] duration not_before = none
first_fit (f ∷ free) duration not_before =
    let start = start_from not_before f in
    let end = start + duration in
    if not (after end f.end)
    then some (record { start = start; end = end })
    else first_fit free duration not_before

unfoldable pub first_fit_slot : List Window → List Window → ℕ → ℕ → Option Window
first_fit_slot avail busy duration not_before =
    first_fit (subtract_busy avail busy) duration not_before

abbrev pub min_time : ℕ → ℕ → ℕ
min_time a b = if before a b then a else b

abbrev pub max_time : ℕ → ℕ → ℕ
max_time a b = if after a b then a else b

-- The distance between two instants.
abbrev pub dist : ℕ → ℕ → ℕ
dist a b = if before a b then b - a else a - b

-- `best` and `bestDist`; none is `bestFound` false.
pub record Best : Type 0 where
  pub slot : Window
  pub distance : ℕ

-- The legal start nearest to `ideal` in a free window, if there is one. The source's `hi` is kept
-- as `hi + duration`, the latest legal end, since `-` stops at 0.
unfoldable pub nearest_start : ℕ → ℕ → ℕ → Window → Option ℕ
nearest_start duration flex ideal f =
    let lo = max_time (ideal - flex) f.start in
    let hi_end = min_time (ideal + flex + duration) f.end in
    if before hi_end (lo + duration)
    then none
    else let start = if before ideal lo then lo else ideal in
      some (if after (start + duration) hi_end then hi_end - duration else start)

unfoldable pub better : ℕ → ℕ → ℕ → Option Best → Option Best
better duration ideal start none = some (record {
  slot = record { start = start; end = start + duration };
  distance = dist start ideal;
})
better duration ideal start (some best) =
    if ltb (dist start ideal) best.distance
    then some (record {
      slot = record { start = start; end = start + duration };
      distance = dist start ideal;
    })
    else some best

-- One round of the loop of `NearestFitSlot`; a window with no legal start is skipped.
unfoldable pub consider : ℕ → ℕ → Option ℕ → Option Best → Option Best
consider duration ideal none best = best
consider duration ideal (some start) best = better duration ideal start best

unfoldable pub nearest_fit : ℕ → ℕ → ℕ → List Window → Option Best → Option Best
nearest_fit duration flex ideal [] best = best
nearest_fit duration flex ideal (f ∷ free) best =
    nearest_fit duration flex ideal free
      (consider duration ideal (nearest_start duration flex ideal f) best)

-- `NearestFitSlot` for a duration that is `short` below 0: the latest start is after the window, and
-- the slot ends before it starts.
short_start : ℕ → ℕ → ℕ → Window → Option ℕ
short_start short flex ideal f =
    let lo = max_time (ideal - flex) f.start in
    let hi = min_time (ideal + flex) (f.end + short) in
    if before hi lo then none else some (min_time (max_time ideal lo) hi)

nearest_fit_short : ℕ → ℕ → ℕ → List Window → Option Best → Option Best
unfolding short_start
nearest_fit_short short flex ideal [] best = best
nearest_fit_short short flex ideal (f ∷ free) best =
    nearest_fit_short short flex ideal free (consider 0 ideal (short_start short flex ideal f) best)

abbrev shortened : ℕ → Option Best → Option Window
shortened short none = none
shortened short (some best) =
    some (record { start = best.slot.start; end = best.slot.start - short })

pub nearest_fit_slot_short : List Window → List Window → ℕ → ℕ → ℕ → Option Window
unfolding nearest_fit_short
nearest_fit_slot_short avail busy short flex ideal =
    shortened short (nearest_fit_short short flex ideal (subtract_busy avail busy) none)

abbrev slot_of : Option Best → Option Window
slot_of none = none
slot_of (some best) = some best.slot

unfoldable pub nearest_fit_slot : List Window → List Window → ℕ → ℕ → ℕ → Option Window
nearest_fit_slot avail busy duration flex ideal =
    slot_of (nearest_fit duration flex ideal (subtract_busy avail busy) none)
