-- ===== src/Hours/Merge/Fit.antt =====
-- A window that fits into one of the windows fits into one of the merged windows.
use skulid.Base.{◌≡◌, ◌≤◌, refl, true, List, [], ◌∷◌, arith}
use skulid.Hours.Window.{Window, within_any}
use skulid.Hours.Merge.{insert, sort, extend, coalesce, merge_sorted, merge}
use skulid.Hours.Merge.Coverage.{StartsFrom, sort-StartsFrom, extend-StartsFrom}

within_any-insert :
    (w x : Window) (ws : List Window) → within_any w (insert x ws) ≡ within_any w (x ∷ ws)
unfolding insert
within_any-insert w x [] = refl
within_any-insert w x (y ∷ ws) = ground (arith, within_any-insert w x ws)

within_any-sort : (w : Window) (ws : List Window) → within_any w (sort ws) ≡ within_any w ws
unfolding sort
within_any-sort w [] = refl
within_any-sort w (x ∷ ws) = ground (arith, within_any-insert w x (sort ws), within_any-sort w ws)

within_any-extend :
    (w last x : Window)
    → last.start ≤ x.start
    → within_any w (last ∷ x ∷ []) ≡ true
    → within_any w (extend last x ∷ []) ≡ true
unfolding extend
within_any-extend w last x h k = ground arith

within_any-coalesce :
    (w last : Window) (ws : List Window)
    → StartsFrom last.start ws
    → within_any w (last ∷ ws) ≡ true
    → within_any w (coalesce last ws) ≡ true
unfolding coalesce
within_any-coalesce w last [] s h = h
within_any-coalesce w last (x ∷ ws) s h = ground (
  arith,
  within_any-coalesce w x ws s.1,
  within_any-coalesce w (extend last x) ws (extend-StartsFrom last x ws s.0 s.1),
  within_any-extend w last x s.0,
)

within_any-merge_sorted :
    (w : Window) (ws : List Window)
    → StartsFrom 0 ws
    → within_any w ws ≡ true
    → within_any w (merge_sorted ws) ≡ true
unfolding merge_sorted
within_any-merge_sorted w [] s h = h
within_any-merge_sorted w (x ∷ ws) s h = within_any-coalesce w x ws s.1 h

-- Merging the windows leaves room for all that had room before.
pub within_any-merge :
    (w : Window) (ws : List Window) → within_any w ws ≡ true → within_any w (merge ws) ≡ true
unfolding merge
within_any-merge w ws h =
    within_any-merge_sorted w (sort ws) (sort-StartsFrom ws) (ground (arith, within_any-sort w ws))
