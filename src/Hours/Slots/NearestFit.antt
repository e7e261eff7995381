-- ===== src/Hours/Slots/NearestFit.antt =====
-- What `nearest_fit_slot` returns.
use skulid.Base.{
  ℕ, ◌≡◌, ◌≤◌, ◌<◌, ◌+◌, true, List, [], ◌∷◌, Option, none, some, arith, All, ◌⊎◌, inl, inr,
  Option-cases,
}
use skulid.Hours.Window.{Window, within_any, clear, Ordered}
use skulid.Hours.Subtract.{subtract_busy}
use skulid.Hours.Subtract.Fit.{within_any-subtract_busy, subtract_busy-Ordered, IsUpright}
use skulid.Hours.Slots.{dist, Best, nearest_start, better, consider, nearest_fit, nearest_fit_slot}

-- The start `s` is legal in the window `f`: `d` long, and within `x` of `i`.
record Legal (d x i s : ℕ) (f : Window) : Type 0 where
  early : f.start ≤ s
  late : s + d ≤ f.end
  low : i ≤ s + x
  high : s ≤ i + x

nearest_start_sound : (d x i s : ℕ) (f : Window) → nearest_start d x i f ≡ some s → Legal d x i s f
unfolding nearest_start
nearest_start_sound d x i s f h = ground arith

-- `s` is nearer to `i` than `t`, or as near and not later.
abbrev pub IsNearer : ℕ → ℕ → ℕ → Type 0
IsNearer i t s = (dist s i < dist t i) ⊎ ((dist s i ≡ dist t i) × (s ≤ t))

abbrev Found : ℕ → ℕ → Option ℕ → Type 0
Found i t none = ⊥
Found i t (some s) = IsNearer i t s

nearest_start_nearest :
    (d x i t : ℕ) (f : Window) → Legal d x i t f → Found i t (nearest_start d x i f)
unfolding nearest_start
nearest_start_nearest d x i t f h = ground arith

-- The window of `b` is a legal slot in one of the free windows.
record IsSlot (d x i : ℕ) (free : List Window) (b : Best) : Type 0 where
  fits : within_any b.slot free ≡ true
  low : i ≤ b.slot.start + x
  high : b.slot.start ≤ i + x
  long : b.slot.end ≡ b.slot.start + d

consider_sound :
    (d x i : ℕ) (f : Window) (best : Option Best) (b : Best)
    → consider d i (nearest_start d x i f) best ≡ some b
    → (best ≡ some b) ⊎ IsSlot d x i (f ∷ []) b
unfolding consider better
consider_sound d x i f best b h = elim (Option-cases (nearest_start d x i f)) [
  | inl e ↦ ground arith
  | inr (s, e) ↦ ground (arith, nearest_start_sound d x i s f e)
]

nearest_fit_sound :
    (d x i : ℕ) (free : List Window) (best : Option Best) (b : Best)
    → nearest_fit d x i free best ≡ some b
    → (best ≡ some b) ⊎ IsSlot d x i free b
unfolding nearest_fit
nearest_fit_sound d x i [] best b h = inl h
nearest_fit_sound d x i (f ∷ free) best b h = ground (
  arith,
  nearest_fit_sound d x i free (consider d i (nearest_start d x i f) best) b h,
  consider_sound d x i f best b,
)

-- A slot that `NearestFitSlot` returns has the length asked for, starts within `flex` of the ideal
-- time, fits into one available window and overlaps no busy one, if the length is positive.
pub nearest_fit_slot_sound :
    (avail busy : List Window) (d x i : ℕ) (w : Window)
    → 0 < d
    → nearest_fit_slot avail busy d x i ≡ some w
    → (within_any w avail ≡ true)
      × (clear w busy ≡ true)
      × (i ≤ w.start + x)
      × (w.start ≤ i + x)
      × (w.end ≡ w.start + d)
unfolding nearest_fit_slot
nearest_fit_slot_sound avail busy d x i w p h =
    elim (Option-cases (nearest_fit d x i (subtract_busy avail busy) none)) [
      | inl e ↦ ground arith
      | inr (b, e) ↦ ground (
        arith,
        nearest_fit_sound d x i (subtract_busy avail busy) none b e,
        within_any-subtract_busy w avail busy,
      )
    ]

-- The best so far carries its distance and starts at `n` or before.
abbrev IsTracked : ℕ → ℕ → Option Best → Type 0
IsTracked i n none = Unit {0}
IsTracked i n (some b) = (b.distance ≡ dist b.slot.start i) × (b.slot.start ≤ n)

abbrev Beats : ℕ → ℕ → Option Best → Type 0
Beats i t none = ⊥
Beats i t (some b) = IsNearer i t b.slot.start

consider-IsTracked :
    (d x i n : ℕ) (f : Window) (best : Option Best)
    → n ≤ f.start
    → f.start ≤ f.end
    → IsTracked i n best
    → IsTracked i f.end (consider d i (nearest_start d x i f) best)
unfolding consider better
consider-IsTracked d x i n f best h u k = elim (Option-cases (nearest_start d x i f)) [
  | inl e ↦ ground arith
  | inr (s, e) ↦ ground (arith, nearest_start_sound d x i s f e)
]

consider-Beats :
    (d x i n t : ℕ) (f : Window) (best : Option Best)
    → IsTracked i n best
    → Beats i t best
    → Beats i t (consider d i (nearest_start d x i f) best)
unfolding consider better
consider-Beats d x i n t f best k b = ground arith

consider-Beats_new :
    (d x i n t : ℕ) (f : Window) (best : Option Best)
    → n ≤ f.start
    → IsTracked i n best
    → Legal d x i t f
    → Beats i t (consider d i (nearest_start d x i f) best)
unfolding consider better
consider-Beats_new d x i n t f best h k l = ground (arith, nearest_start_nearest d x i t f l)

nearest_fit-Beats :
    (d x i n t : ℕ) (free : List Window) (best : Option Best)
    → Ordered n free
    → IsTracked i n best
    → Beats i t best
    → Beats i t (nearest_fit d x i free best)
unfolding nearest_fit
nearest_fit-Beats d x i n t [] best o k b = b
nearest_fit-Beats d x i n t (f ∷ free) best o k b =
    nearest_fit-Beats d x i f.end t free (consider d i (nearest_start d x i f) best) o.2
      (consider-IsTracked d x i n f best o.0 o.1 k) (consider-Beats d x i n t f best k b)

nearest_fit_nearest :
    (d x i n t : ℕ) (free : List Window) (best : Option Best)
    → Ordered n free
    → IsTracked i n best
    → within_any (record { start = t; end = t + d }) free ≡ true
    → i ≤ t + x
    → t ≤ i + x
    → Beats i t (nearest_fit d x i free best)
unfolding nearest_fit
nearest_fit_nearest d x i n t [] best o k w p q = cc
nearest_fit_nearest d x i n t (f ∷ free) best o k w p q =
    let rest = consider d i (nearest_start d x i f) best in
    let tracked = consider-IsTracked d x i n f best o.0 o.1 k in
    ground (
      arith,
      λ (l : Legal d x i t f).
          nearest_fit-Beats d x i f.end t free rest o.2 tracked
            (consider-Beats_new d x i n t f best o.0 k l),
      nearest_fit_nearest d x i f.end t free rest o.2 tracked,
    )

-- `w` is a legal slot: it fits into an available window, overlaps no busy one, starts within `x` of
-- `i`, and has length `d`.
abbrev pub IsLegal : List Window → List Window → ℕ → ℕ → ℕ → Window → Type 0
IsLegal avail busy d x i w =
    (within_any w avail ≡ true)
    × (clear w busy ≡ true)
    × (i ≤ w.start + x)
    × (w.start ≤ i + x)
    × (w.end ≡ w.start + d)

-- There is a start, and it is nearer to `i` than `t`, or as near and not later.
abbrev StartsNearest : ℕ → ℕ → Option Window → Type 0
StartsNearest i t none = ⊥
StartsNearest i t (some w) = IsNearer i t w.start

starts_nearest :
    (avail busy : List Window) (d x i t : ℕ)
    → 0 < d
    → Ordered 0 avail
    → All IsUpright busy
    → IsLegal avail busy d x i (record { start = t; end = t + d })
    → StartsNearest i t (nearest_fit_slot avail busy d x i)
unfolding nearest_fit_slot
starts_nearest avail busy d x i t p o u legal =
    let free = subtract_busy avail busy in
    let fits =
      within_any-subtract_busy (record { start = t; end = t + d }) avail busy (omega arith) in
    let best =
      nearest_fit_nearest d x i 0 t free none (subtract_busy-Ordered 0 avail busy u o) tt
        (ground (arith, fits)) legal.2 legal.3 in
    ground (arith, best)

-- With a positive length, ordered availability and no inverted busy window, `NearestFitSlot` finds a
-- slot whenever there is a legal one: one that fits into an available window, overlaps no busy one,
-- starts within `flex` of the ideal time and has the length asked for. The slot that it finds is
-- legal itself, and starts nearer to the ideal time than the given one, or as near and not later.
pub nearest_fit_slot_nearest :
    (avail busy : List Window) (d x i t : ℕ)
    → 0 < d
    → Ordered 0 avail
    → All IsUpright busy
    → IsLegal avail busy d x i (record { start = t; end = t + d })
    → (w : Window) × (nearest_fit_slot avail busy d x i ≡ some w)
      × IsLegal avail busy d x i w
      × IsNearer i t w.start
nearest_fit_slot_nearest avail busy d x i t p o u legal =
    let near = starts_nearest avail busy d x i t p o u legal in
    elim (Option-cases (nearest_fit_slot avail busy d x i)) [
      | inl e ↦ absurd (rw e at near)
      | inr (w, e) ↦ (w, e, nearest_fit_slot_sound avail busy d x i w p e, rw e at near)
    ]
