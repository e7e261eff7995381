-- ===== src/Hours/Subtract/Coverage.antt =====
-- Which instants `subtract_busy` keeps.
use skulid.Base.{ℕ, ◌≡◌, refl, not, ◌&&◌, ◌||◌, List, [], ◌∷◌, ◌++◌, arith}
use skulid.Hours.Window.{Window, inside, covers}
use skulid.Hours.Subtract.{cut, cut_all, carve, subtract_busy}

pub covers-append :
    (t : ℕ) (xs ys : List Window) → covers t (xs ++ ys) ≡ (covers t xs || covers t ys)
covers-append t [] ys = refl
covers-append t (x ∷ xs) ys = ground (arith, covers-append t xs ys)

covers-cut : (t : ℕ) (s b : Window) → covers t (cut s b) ≡ (inside t s && not (inside t b))
unfolding cut
covers-cut t s b = ground arith

covers-cut_all :
    (t : ℕ) (ss : List Window) (b : Window)
    → covers t (cut_all ss b) ≡ (covers t ss && not (inside t b))
unfolding cut_all
covers-cut_all t [] b = refl
covers-cut_all t (s ∷ ss) b =
    ground
      (arith, covers-append t (cut s b) (cut_all ss b), covers-cut t s b, covers-cut_all t ss b)

covers-carve :
    (t : ℕ) (ss busy : List Window)
    → covers t (carve ss busy) ≡ (covers t ss && not (covers t busy))
unfolding carve
covers-carve t ss [] = ground arith
covers-carve t [] (b ∷ bs) = refl
covers-carve t (s ∷ ss) (b ∷ bs) =
    ground (arith, covers-carve t (cut_all (s ∷ ss) b) bs, covers-cut_all t (s ∷ ss) b)

-- For any windows at all, an instant lies in what `SubtractBusy` returns exactly when it lies in an
-- available window and in no busy one.
pub covers-subtract_busy :
    (t : ℕ) (avail busy : List Window)
    → covers t (subtract_busy avail busy) ≡ (covers t avail && not (covers t busy))
unfolding subtract_busy
covers-subtract_busy t [] busy = refl
covers-subtract_busy t (a ∷ avail) busy = ground (
  arith,
  covers-append t (carve (a ∷ []) busy) (subtract_busy avail busy),
  covers-carve t (a ∷ []) busy,
  covers-subtract_busy t avail busy,
)
