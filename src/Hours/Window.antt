-- ===== src/Hours/Window.antt =====
-- internal/hours/hours.go: `Window` and `Overlap`. An instant is a number of nanoseconds from a base
-- that lies before every instant the program meets, so that `Before` and `After` are `<`.
use skulid.Base.{ℕ, ◌-◌, ◌≤◌, Bool, true, false, not, ◌&&◌, ◌||◌, List, [], ◌∷◌, ltb, leb}

pub record Window : Type 0 where
  pub start : ℕ
  pub end : ℕ

abbrev pub before : ℕ → ℕ → Bool
before a b = ltb a b

abbrev pub after : ℕ → ℕ → Bool
after a b = ltb b a

abbrev pub overlap : Window → Window → Bool
overlap a b = before a.start b.end && before b.start a.end

-- The half-open interval that a window stands for.
abbrev pub inside : ℕ → Window → Bool
inside t w = leb w.start t && ltb t w.end

abbrev pub covers : ℕ → List Window → Bool
covers t [] = false
covers t (w ∷ ws) = inside t w || covers t ws

-- `withinAny` of internal/sync/scheduler.go: whether `w` fits entirely inside one of the windows.
abbrev pub within_any : Window → List Window → Bool
within_any w [] = false
within_any w (o ∷ os) = not (before w.start o.start) && not (after w.end o.end) || within_any w os

-- Whether `w` overlaps none of the windows.
abbrev pub clear : Window → List Window → Bool
clear w [] = true
clear w (b ∷ bs) = not (overlap w b) && clear w bs

abbrev pub len : Window → ℕ
len w = w.end - w.start

-- Windows that end before the next one begins, none of them inverted.
abbrev pub Ordered : ℕ → List Window → Type 0
Ordered n [] = Unit {0}
Ordered n (w ∷ ws) = (n ≤ w.start) × (w.start ≤ w.end) × Ordered w.end ws
