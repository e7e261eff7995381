-- ===== src/Hours/Merge/Coverage.antt =====
-- Merging changes no instant's coverage, and leaves a gap between any two windows.
use skulid.Base.{ℕ, ◌≡◌, refl, ◌≤◌, ◌||◌, List, [], ◌∷◌, arith}
use skulid.Hours.Window.{Window, inside, covers}
use skulid.Hours.Merge.{insert, sort, extend, coalesce, merge_sorted, merge}

-- Windows in the order of their starts.
abbrev pub StartsFrom : ℕ → List Window → Type 0
StartsFrom n [] = Unit {0}
StartsFrom n (w ∷ ws) = (n ≤ w.start) × StartsFrom w.start ws

covers-insert :
    (t : ℕ) (w : Window) (ws : List Window) → covers t (insert w ws) ≡ (inside t w || covers t ws)
unfolding insert
covers-insert t w [] = refl
covers-insert t w (x ∷ xs) = ground (arith, covers-insert t w xs)

covers-sort : (t : ℕ) (ws : List Window) → covers t (sort ws) ≡ covers t ws
unfolding sort
covers-sort t [] = refl
covers-sort t (w ∷ ws) = ground (arith, covers-insert t w (sort ws), covers-sort t ws)

insert-StartsFrom :
    (n : ℕ) (w : Window) (ws : List Window)
    → n ≤ w.start
    → StartsFrom n ws
    → StartsFrom n (insert w ws)
unfolding insert
insert-StartsFrom n w [] h s = (h, tt)
insert-StartsFrom n w (x ∷ xs) h s = ground (arith, insert-StartsFrom x.start w xs)

pub sort-StartsFrom : (ws : List Window) → StartsFrom 0 (sort ws)
unfolding sort
sort-StartsFrom [] = tt
sort-StartsFrom (w ∷ ws) = insert-StartsFrom 0 w (sort ws) (omega arith) (sort-StartsFrom ws)

-- A window that starts in or at the end of the last one is swallowed without a loss.
inside-extend :
    (t : ℕ) (last w : Window)
    → last.start ≤ w.start
    → w.start ≤ last.end
    → inside t (extend last w) ≡ (inside t last || inside t w)
unfolding extend
inside-extend t last w h k = ground arith

pub start-extend : (last w : Window) → (extend last w).start ≡ last.start
unfolding extend
start-extend last w = ground arith

StartsFrom-mono : {m n : ℕ} (ws : List Window) → m ≤ n → StartsFrom n ws → StartsFrom m ws
StartsFrom-mono [] h s = tt
StartsFrom-mono (w ∷ ws) h s = (omega arith, s.1)

pub extend-StartsFrom :
    (last w : Window) (ws : List Window)
    → last.start ≤ w.start
    → StartsFrom w.start ws
    → StartsFrom (extend last w).start ws
extend-StartsFrom last w ws h s = rw (start-extend last w) (StartsFrom-mono {n = w.start} ws h s)

covers-coalesce :
    (t : ℕ) (last : Window) (ws : List Window)
    → StartsFrom last.start ws
    → covers t (coalesce last ws) ≡ (inside t last || covers t ws)
unfolding coalesce
covers-coalesce t last [] s = refl
covers-coalesce t last (w ∷ ws) s = ground (
  arith,
  covers-coalesce t w ws s.1,
  covers-coalesce t (extend last w) ws (extend-StartsFrom last w ws s.0 s.1),
  inside-extend t last w s.0,
)

covers-merge_sorted :
    (t : ℕ) (ws : List Window) → StartsFrom 0 ws → covers t (merge_sorted ws) ≡ covers t ws
unfolding merge_sorted
covers-merge_sorted t [] s = refl
covers-merge_sorted t (w ∷ ws) s = covers-coalesce t w ws s.1

-- For any windows at all, an instant lies in what `Merge` returns exactly when it lies in one of
-- the windows given.
pub covers-merge : (t : ℕ) (ws : List Window) → covers t (merge ws) ≡ covers t ws
unfolding merge
covers-merge t ws = rw (covers-merge_sorted t (sort ws) (sort-StartsFrom ws)) (covers-sort t ws)
