-- ===== src/Hours/Subtract.antt =====
-- internal/hours/hours.go: `SubtractBusy`.
pub mod Coverage
pub mod Fit
use skulid.Base.{not, List, [], ◌∷◌, ◌++◌, if◌then◌else◌}
use skulid.Hours.Window.{Window, before, after, overlap}

-- The body of the innermost loop: what one busy window leaves of one segment.
unfoldable pub cut : Window → Window → List Window
cut s b =
    if not (overlap s b)
    then s ∷ []
    else (if before s.start b.start then record { start = s.start; end = b.start } ∷ [] else [])
      ++ (if after s.end b.end then record { start = b.end; end = s.end } ∷ [] else [])

unfoldable pub cut_all : List Window → Window → List Window
cut_all [] b = []
cut_all (s ∷ ss) b = cut s b ++ cut_all ss b

-- The loop over `busy`, which breaks when no segment is left.
unfoldable pub carve : List Window → List Window → List Window
carve segs [] = segs
carve [] (b ∷ bs) = []
carve (s ∷ ss) (b ∷ bs) = carve (cut_all (s ∷ ss) b) bs

unfoldable pub subtract_busy : List Window → List Window → List Window
subtract_busy [] busy = []
subtract_busy (a ∷ avail) busy = carve (a ∷ []) busy ++ subtract_busy avail busy
