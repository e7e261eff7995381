-- ===== src/Hours/Merge.antt =====
-- internal/hours/hours.go: `Merge` and `MergeWithGap`. `sort.Slice` is an insertion sort.
pub mod Coverage
pub mod Gap
pub mod Fit
use skulid.Base.{ℕ, ◌+◌, true, false, not, List, [], ◌∷◌, leb, if◌then◌else◌}
use skulid.Hours.Window.{Window, before, after}

unfoldable pub insert : Window → List Window → List Window
insert w [] = w ∷ []
insert w (x ∷ xs) = if before x.start w.start then x ∷ insert w xs else w ∷ x ∷ xs

unfoldable pub sort : List Window → List Window
sort [] = []
sort (w ∷ ws) = insert w (sort ws)

-- What `last.End = w.End` under its guard makes of the last window.
unfoldable pub extend : Window → Window → Window
extend last w = if after w.end last.end then record last { end = w.end } else last

-- The loop over the sorted windows: `last` is the end of `out`.
unfoldable pub coalesce : Window → List Window → List Window
coalesce last [] = last ∷ []
coalesce last (w ∷ ws) = elim (not (after w.start last.end)) [
  | true ↦ coalesce (extend last w) ws
  | false ↦ last ∷ coalesce w ws
]

unfoldable pub merge_sorted : List Window → List Window
merge_sorted [] = []
merge_sorted (w ∷ ws) = coalesce w ws

unfoldable pub merge : List Window → List Window
unfolding merge_sorted
merge ws = merge_sorted (sort ws)

-- `w.Start.Sub(last.End) <= gap` over signed durations.
unfoldable pub coalesce_gap : ℕ → Window → List Window → List Window
coalesce_gap gap last [] = last ∷ []
coalesce_gap gap last (w ∷ ws) = elim (leb w.start (last.end + gap)) [
  | true ↦ coalesce_gap gap (extend last w) ws
  | false ↦ last ∷ coalesce_gap gap w ws
]

-- The same loop for a gap that is `short` below 0.
coalesce_short : ℕ → Window → List Window → List Window
coalesce_short short last [] = last ∷ []
coalesce_short short last (w ∷ ws) = elim (leb (w.start + short) last.end) [
  | true ↦ coalesce_short short (extend last w) ws
  | false ↦ last ∷ coalesce_short short w ws
]

merge_sorted_short : ℕ → List Window → List Window
merge_sorted_short short [] = []
merge_sorted_short short (w ∷ ws) = coalesce_short short w ws

pub merge_with_short_gap : List Window → ℕ → List Window
unfolding merge_sorted_short
merge_with_short_gap ws short = merge_sorted_short short (sort ws)

unfoldable pub merge_sorted_gap : ℕ → List Window → List Window
merge_sorted_gap gap [] = []
merge_sorted_gap gap (w ∷ ws) = coalesce_gap gap w ws

unfoldable pub merge_with_gap : List Window → ℕ → List Window
unfolding merge_sorted_gap
merge_with_gap ws gap = merge_sorted_gap gap (sort ws)
