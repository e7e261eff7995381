-- ===== src/Hours/Slots/FirstFit.antt =====
-- What `first_fit_slot` returns.
use skulid.Base.{ℕ, ◌≡◌, ◌≤◌, ◌<◌, ◌+◌, true, List, [], ◌∷◌, Option, none, some, arith, All}
use skulid.Hours.Window.{Window, within_any, clear, Ordered}
use skulid.Hours.Subtract.{subtract_busy}
use skulid.Hours.Subtract.Fit.{within_any-subtract_busy, subtract_busy-Ordered, IsUpright}
use skulid.Hours.Slots.{first_fit, first_fit_slot}

first_fit_sound :
    (free : List Window) (d n : ℕ) (w : Window)
    → first_fit free d n ≡ some w
    → (within_any w free ≡ true) × (n ≤ w.start) × (w.end ≡ w.start + d)
unfolding first_fit
first_fit_sound [] d n w h = cc
first_fit_sound (f ∷ free) d n w h = ground (arith, first_fit_sound free d n w)

-- A slot that `FirstFitSlot` returns has the length asked for, starts no earlier than `notBefore`,
-- fits into one available window and overlaps no busy one, if the length is positive.
pub first_fit_slot_sound :
    (avail busy : List Window) (d n : ℕ) (w : Window)
    → 0 < d
    → first_fit_slot avail busy d n ≡ some w
    → (within_any w avail ≡ true) × (clear w busy ≡ true) × (n ≤ w.start) × (w.end ≡ w.start + d)
unfolding first_fit_slot
first_fit_slot_sound avail busy d n w p h = ground (
  arith,
  first_fit_sound (subtract_busy avail busy) d n w h,
  within_any-subtract_busy w avail busy,
)

-- There is a slot, and it starts at `t` or before.
abbrev pub StartsBy : ℕ → Option Window → Type 0
StartsBy t none = ⊥
StartsBy t (some w) = w.start ≤ t

pub within_any-Ordered :
    (n : ℕ) (w : Window) (ws : List Window) → Ordered n ws → within_any w ws ≡ true → n ≤ w.start
within_any-Ordered n w [] o h = cc
within_any-Ordered n w (x ∷ ws) o h = ground (arith, within_any-Ordered x.end w ws o.2)

first_fit_earliest :
    (m : ℕ) (free : List Window) (d n t : ℕ)
    → Ordered m free
    → n ≤ t
    → within_any (record { start = t; end = t + d }) free ≡ true
    → StartsBy t (first_fit free d n)
unfolding first_fit
first_fit_earliest m [] d n t o h c = cc
first_fit_earliest m (f ∷ free) d n t o h c = ground (
  arith,
  within_any-Ordered f.end (record { start = t; end = t + d }) free o.2,
  first_fit_earliest f.end free d n t o.2 h,
)

-- With ordered availability and no inverted busy window, `FirstFitSlot` finds a slot whenever there
-- is one that fits into an available window and overlaps no busy one, and none such starts earlier.
pub first_fit_slot_earliest :
    (avail busy : List Window) (d n t : ℕ)
    → 0 < d
    → Ordered 0 avail
    → All IsUpright busy
    → n ≤ t
    → within_any (record { start = t; end = t + d }) avail ≡ true
    → clear (record { start = t; end = t + d }) busy ≡ true
    → StartsBy t (first_fit_slot avail busy d n)
unfolding first_fit_slot
first_fit_slot_earliest avail busy d n t p o u h a c =
    first_fit_earliest 0 (subtract_busy avail busy) d n t (subtract_busy-Ordered 0 avail busy u o) h
      (ground (
        arith,
        within_any-subtract_busy (record { start = t; end = t + d }) avail busy (omega arith),
      ))
