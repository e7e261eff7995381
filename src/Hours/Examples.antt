-- ===== src/Hours/Examples.antt =====
-- The theorems on windows and slots at a working day of two windows with one meeting.
use skulid.Base.{ℕ, ◌≡◌, refl, true, List, [], ◌∷◌, some}
use skulid.Hours.Window.{Window, within_any, clear, covers, Ordered}
use skulid.Hours.Subtract.{subtract_busy, carve, cut_all, cut}
use skulid.Hours.Subtract.Fit.{within_any-subtract_busy}
use skulid.Hours.Subtract.Coverage.{covers-subtract_busy}
use skulid.Hours.Merge.{merge, merge_with_gap}
use skulid.Hours.Merge.Coverage.{covers-merge}
use skulid.Hours.Merge.Gap.{widen, merge_with_gap-widen}
use skulid.Hours.Slots.{
  first_fit, first_fit_slot, nearest_fit_slot, nearest_fit, nearest_start, consider, better,
}
use skulid.Hours.Slots.NearestFit.{IsLegal, IsNearer, nearest_fit_slot_nearest}
use skulid.Hours.Chunks.{chunked_slots, plan_of, plan_from, fill}
use skulid.Hours.Chunks.Twice.{chunked_slots_twice}
use skulid.Hours.Chunks.Plan.{IsPlan, chunked_slots-IsPlan, chunked_slots-Ordered}
use skulid.Base.{◌&&◌, not, map, arith}

abbrev span : ℕ → ℕ → Window
span a b = record { start = a; end = b }

abbrev day : List Window
day = span 540 720 ∷ span 780 1020 ∷ []

abbrev meetings : List Window
meetings = span 600 660 ∷ []

covers-subtract_busy_example :
    covers 610 (subtract_busy day meetings) ≡ (covers 610 day && not (covers 610 meetings))
covers-subtract_busy_example = covers-subtract_busy 610 day meetings

within_any-subtract_busy_example :
    within_any (span 660 720) (subtract_busy day meetings)
    ≡ (within_any (span 660 720) day && clear (span 660 720) meetings)
within_any-subtract_busy_example =
    within_any-subtract_busy (span 660 720) day meetings (omega arith)

covers-merge_example : covers 650 (merge (span 640 700 ∷ day)) ≡ covers 650 (span 640 700 ∷ day)
covers-merge_example = covers-merge 650 (span 640 700 ∷ day)

merge_with_gap-widen_example : map (widen 60) (merge_with_gap day 60) ≡ merge (map (widen 60) day)
merge_with_gap-widen_example = merge_with_gap-widen 60 day

first_found : first_fit_slot day meetings 90 600 ≡ some (span 780 870)
unfolding first_fit_slot first_fit subtract_busy carve cut_all cut
first_found = refl

nearest_found : nearest_fit_slot day meetings 30 120 610 ≡ some (span 570 600)
unfolding nearest_fit_slot nearest_fit nearest_start consider better subtract_busy carve cut_all cut
nearest_found = refl

nearest_fit_slot_nearest_example :
    (w : Window) × (nearest_fit_slot day meetings 30 120 610 ≡ some w)
    × IsLegal day meetings 30 120 610 w
    × IsNearer 610 660 w.start
nearest_fit_slot_nearest_example =
    nearest_fit_slot_nearest day meetings 30 120 610 660 (omega arith) (omega arith) (omega arith)
      (refl, refl, omega arith, omega arith, refl)

chunked_slots-IsPlan_example :
    IsPlan day meetings 300 30 0 8 (chunked_slots day meetings 300 30 0 8)
chunked_slots-IsPlan_example = chunked_slots-IsPlan day meetings 300 30 0 8

three_slots :
    (chunked_slots day meetings 300 30 0 8).slots ≡ span 540 600 ∷ span 660 720 ∷ span 780 960 ∷ []
unfolding chunked_slots plan_of plan_from fill first_fit subtract_busy carve cut_all cut
three_slots = refl

chunked_slots-Ordered_example : Ordered 0 (chunked_slots day meetings 300 30 0 8).slots
chunked_slots-Ordered_example =
    chunked_slots-Ordered day meetings 300 30 0 8 (omega arith) (omega arith)

chunked_slots_twice_example :
    chunked_slots (span 540 600 ∷ span 540 600 ∷ []) [] 120 30 0 8
    ≡ record { slots = span 540 600 ∷ span 540 600 ∷ []; placeable = 120; fits = true }
chunked_slots_twice_example =
    chunked_slots_twice 540 60 30 8 (omega arith) (omega arith) (omega arith)
