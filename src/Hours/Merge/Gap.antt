-- ===== src/Hours/Merge/Gap.antt =====
-- `MergeWithGap` against `Merge`, and the gap that it leaves between windows.
use skulid.Base.{ℕ, ◌≡◌, refl, ap, ◌∙◌, ◌<◌, ◌+◌, List, [], ◌∷◌, arith, map}
use skulid.Hours.Window.{Window}
use skulid.Hours.Merge.{
  insert, sort, extend, coalesce, merge_sorted, merge, coalesce_gap, merge_sorted_gap,
  merge_with_gap,
}
use skulid.Hours.Merge.Coverage.{start-extend}

-- A window with its end put off by `gap`.
abbrev pub widen : ℕ → Window → Window
widen gap w = record w { end = w.end + gap }

insert-widen :
    (gap : ℕ) (w : Window) (ws : List Window)
    → map (widen gap) (insert w ws) ≡ insert (widen gap w) (map (widen gap) ws)
unfolding insert
insert-widen gap w [] = refl
insert-widen gap w (x ∷ xs) = ground (arith, insert-widen gap w xs)

sort-widen : (gap : ℕ) (ws : List Window) → map (widen gap) (sort ws) ≡ sort (map (widen gap) ws)
unfolding sort
sort-widen gap [] = refl
sort-widen gap (w ∷ ws) =
    insert-widen gap w (sort ws) ∙ ap (insert (widen gap w)) (sort-widen gap ws)

extend-widen :
    (gap : ℕ) (last w : Window) → extend (widen gap last) (widen gap w) ≡ widen gap (extend last w)
unfolding extend
extend-widen gap last w = ground arith

coalesce-widen :
    (gap : ℕ) (last : Window) (ws : List Window)
    → map (widen gap) (coalesce_gap gap last ws) ≡ coalesce (widen gap last) (map (widen gap) ws)
unfolding coalesce coalesce_gap
coalesce-widen gap last [] = refl
coalesce-widen gap last (w ∷ ws) =
    ground (
      arith,
      coalesce-widen gap (extend last w) ws,
      coalesce-widen gap w ws,
      extend-widen gap last w,
    )

merge_sorted-widen :
    (gap : ℕ) (ws : List Window)
    → map (widen gap) (merge_sorted_gap gap ws) ≡ merge_sorted (map (widen gap) ws)
unfolding merge_sorted merge_sorted_gap
merge_sorted-widen gap [] = refl
merge_sorted-widen gap (w ∷ ws) = coalesce-widen gap w ws

-- `MergeWithGap` does to the windows what `Merge` does to the same windows with every end put off
-- by the gap.
pub merge_with_gap-widen :
    (gap : ℕ) (ws : List Window)
    → map (widen gap) (merge_with_gap ws gap) ≡ merge (map (widen gap) ws)
unfolding merge merge_with_gap
merge_with_gap-widen gap ws = merge_sorted-widen gap (sort ws) ∙ ap merge_sorted (sort-widen gap ws)

coalesce_gap_zero : (last : Window) (ws : List Window) → coalesce_gap 0 last ws ≡ coalesce last ws
unfolding coalesce coalesce_gap
coalesce_gap_zero last [] = refl
coalesce_gap_zero last (w ∷ ws) =
    ground (arith, coalesce_gap_zero (extend last w) ws, coalesce_gap_zero w ws)

merge_sorted_gap_zero : (ws : List Window) → merge_sorted_gap 0 ws ≡ merge_sorted ws
unfolding merge_sorted merge_sorted_gap
merge_sorted_gap_zero [] = refl
merge_sorted_gap_zero (w ∷ ws) = coalesce_gap_zero w ws

-- With a gap of zero `MergeWithGap` is `Merge`.
pub merge_with_gap_zero : (ws : List Window) → merge_with_gap ws 0 ≡ merge ws
unfolding merge merge_with_gap
merge_with_gap_zero ws = merge_sorted_gap_zero (sort ws)

-- Every window starts more than `gap` after the end of the one before it.
abbrev pub StartsAfter : ℕ → List Window → Type 0
StartsAfter n [] = Unit {0}
StartsAfter n (w ∷ ws) = n < w.start

abbrev pub Apart : ℕ → List Window → Type 0
Apart gap [] = Unit {0}
Apart gap (w ∷ ws) = StartsAfter (w.end + gap) ws × Apart gap ws

coalesce_gap-StartsAfter :
    (gap n : ℕ) (last : Window) (ws : List Window)
    → n < last.start
    → StartsAfter n (coalesce_gap gap last ws)
unfolding coalesce_gap
coalesce_gap-StartsAfter gap n last [] h = h
coalesce_gap-StartsAfter gap n last (w ∷ ws) h =
    ground (arith, coalesce_gap-StartsAfter gap n (extend last w) ws, start-extend last w)

coalesce_gap-Apart :
    (gap : ℕ) (last : Window) (ws : List Window) → Apart gap (coalesce_gap gap last ws)
unfolding coalesce_gap
coalesce_gap-Apart gap last [] = (tt, tt)
coalesce_gap-Apart gap last (w ∷ ws) = ground (
  arith,
  coalesce_gap-Apart gap (extend last w) ws,
  coalesce_gap-Apart gap w ws,
  coalesce_gap-StartsAfter gap (last.end + gap) w ws,
)

merge_sorted_gap-Apart : (gap : ℕ) (ws : List Window) → Apart gap (merge_sorted_gap gap ws)
unfolding merge_sorted_gap
merge_sorted_gap-Apart gap [] = tt
merge_sorted_gap-Apart gap (w ∷ ws) = coalesce_gap-Apart gap w ws

-- Each window that `MergeWithGap` returns starts more than the gap after the end of the one before
-- it, whatever the order and overlaps of the windows given.
pub merge_with_gap-Apart : (gap : ℕ) (ws : List Window) → Apart gap (merge_with_gap ws gap)
unfolding merge_with_gap
merge_with_gap-Apart gap ws = merge_sorted_gap-Apart gap (sort ws)
