-- ===== src/Planner/Cluster.antt =====
-- internal/httpx/handlers_planner.go: what `flush` does to a cluster of events.
use skulid.Base.{
  ℕ, ◌-◌, ◌≡◌, ◌≤◌, ◌<◌, refl, Bool, false, not, ◌&&◌, ◌||◌, List, [], ◌∷◌, ◌==◌, if◌then◌else◌,
  length, All, arith, inl, inr, Bool-cases,
}
use skulid.Hours.Window.{after, overlap}
use skulid.Planner.{PlannerEvent, place_lane, fill_lanes, set_lanes, at_least_one, flush}

pub All-weaken :
    (P Q : PlannerEvent → Type 0)
    → ((y : PlannerEvent) → P y → Q y)
    → (ys : List PlannerEvent) → All P ys
    → All Q ys
All-weaken P Q f [] a = tt
All-weaken P Q f (y ∷ ys) a = (f y a.0, All-weaken P Q f ys a.1)

-- Whether two events share time.
abbrev pub meets : PlannerEvent → PlannerEvent → Bool
meets x y =
    overlap (record { start = x.start; end = x.end }) (record { start = y.start; end = y.end })

-- Whether two events that share time share a lane, or divide the width differently.
abbrev pub clashes : PlannerEvent → PlannerEvent → Bool
clashes x y = meets x y && (x.lane == y.lane || not (x.lanes == y.lanes))

-- Each event has a lane of those it counts, and none clashes with a later one.
abbrev pub AreLaid : List PlannerEvent → Type 0
AreLaid [] = Unit {0}
AreLaid (x ∷ xs) = (x.lane < x.lanes) × All (λ y. clashes x y ≡ false) xs × AreLaid xs

abbrev end_at : ℕ → List ℕ → ℕ
end_at j [] = 0
end_at j (le ∷ ends) = if j == 0 then le else end_at (j - 1) ends

record IsOpen (e : PlannerEvent) (ends : List ℕ) : Type 0 where
  grows : length ends ≤ length (place_lane e ends).1
  is_lane : (place_lane e ends).0 < length (place_lane e ends).1
  free : end_at (place_lane e ends).0 ends ≤ e.start
  taken : end_at (place_lane e ends).0 (place_lane e ends).1 ≡ e.end

place_lane-IsOpen : (e : PlannerEvent) (ends : List ℕ) → IsOpen e ends
unfolding place_lane
place_lane-IsOpen e [] = record {
  grows = omega arith;
  is_lane = omega arith;
  free = omega arith;
  taken = refl;
}
place_lane-IsOpen e (le ∷ ends) =
    let further = place_lane-IsOpen e ends in
    elim (Bool-cases (after le e.start)) [
      | inl t ↦ record {
        grows = rw t (omega (arith, further.grows));
        is_lane = rw t (omega (arith, further.is_lane));
        free = rw t (ground (arith, further.free));
        taken = rw t (ground (arith, further.taken));
      }
      | inr n ↦ record {
        grows = rw n (omega arith);
        is_lane = rw n (omega arith);
        free = rw n (ground arith);
        taken = rw n refl;
      }
    ]

-- A lane ends no earlier once an event is placed.
place_lane-end_at :
    (e : PlannerEvent) (ends : List ℕ) (j : ℕ)
    → e.start ≤ e.end
    → end_at j ends ≤ end_at j (place_lane e ends).1
unfolding place_lane
place_lane-end_at e [] j v = omega arith
place_lane-end_at e (le ∷ ends) j v = elim (Bool-cases (after le e.start)) [
  | inl t ↦ rw t (ground (arith, place_lane-end_at e ends (j - 1) v))
  | inr n ↦ rw n (ground arith)
]

abbrev pub IsValid : PlannerEvent → Type 0
IsValid e = e.start ≤ e.end

fill_lanes-free :
    (ends : List ℕ) (events : List PlannerEvent)
    → All IsValid events
    → All (λ y. end_at y.lane ends ≤ y.start) (fill_lanes ends events).0
unfolding fill_lanes
fill_lanes-free ends [] v = tt
fill_lanes-free ends (e ∷ events) v =
    let placed = place_lane-IsOpen e ends in
    (
      placed.free,
      All-weaken _ _ (λ y le. omega (arith, le, place_lane-end_at e ends y.lane v.0))
          (fill_lanes ((place_lane e ends).1) events).0
          (fill_lanes-free (place_lane e ends).1 events v.1),
    )

abbrev shares : PlannerEvent → PlannerEvent → Bool
shares x y = meets x y && x.lane == y.lane

abbrev AreSplit : List PlannerEvent → Type 0
AreSplit [] = Unit {0}
AreSplit (x ∷ xs) = All (λ y. shares x y ≡ false) xs × AreSplit xs

no_share :
    (e : PlannerEvent) (ends : List ℕ) (y : PlannerEvent)
    → end_at y.lane (place_lane e ends).1 ≤ y.start
    → shares (record e { lane = (place_lane e ends).0 }) y ≡ false
no_share e ends y le = elim (Bool-cases ((place_lane e ends).0 == y.lane)) [
  | inl t ↦
      let placed = place_lane-IsOpen e ends in
      let lane : y.lane ≡ (place_lane e ends).0 = ground arith in
      let ended : e.end ≤ y.start = rw (lane, placed.taken) at le in ground arith
  | inr n ↦ ground arith
]

fill_lanes-AreSplit :
    (ends : List ℕ) (events : List PlannerEvent)
    → All IsValid events
    → AreSplit (fill_lanes ends events).0
unfolding fill_lanes
fill_lanes-AreSplit ends [] v = tt
fill_lanes-AreSplit ends (e ∷ events) v =
    let rest = (fill_lanes (place_lane e ends).1 events).0 in
    (
      All-weaken _ _ (λ y le. no_share e ends y le) rest
          (fill_lanes-free (place_lane e ends).1 events v.1),
      fill_lanes-AreSplit (place_lane e ends).1 events v.1,
    )

length-fill_lanes :
    (ends : List ℕ) (events : List PlannerEvent) → length ends ≤ length (fill_lanes ends events).1
unfolding fill_lanes
length-fill_lanes ends [] = omega arith
length-fill_lanes ends (e ∷ events) =
    let placed = place_lane-IsOpen e ends in
    omega (arith, placed.grows, length-fill_lanes (place_lane e ends).1 events)

fill_lanes-lane :
    (ends : List ℕ) (events : List PlannerEvent)
    → All (λ y. y.lane < length (fill_lanes ends events).1) (fill_lanes ends events).0
unfolding fill_lanes
fill_lanes-lane ends [] = tt
fill_lanes-lane ends (e ∷ events) =
    let placed = place_lane-IsOpen e ends in
    (
      omega (arith, placed.is_lane, length-fill_lanes (place_lane e ends).1 events),
      fill_lanes-lane (place_lane e ends).1 events,
    )

set_lanes-All :
    (total : ℕ) (x : PlannerEvent) (xs : List PlannerEvent)
    → All (λ y. shares x y ≡ false) xs
    → All (λ y. clashes (record x { lanes = total }) y ≡ false) (set_lanes total xs)
unfolding set_lanes
set_lanes-All total x [] a = tt
set_lanes-All total x (y ∷ xs) a = (ground arith, set_lanes-All total x xs a.1)

set_lanes-AreLaid :
    (total : ℕ) (xs : List PlannerEvent)
    → All (λ y. y.lane < total) xs
    → AreSplit xs
    → AreLaid (set_lanes (at_least_one total) xs)
unfolding set_lanes
set_lanes-AreLaid total [] l s = tt
set_lanes-AreLaid total (x ∷ xs) l s =
    (ground arith, set_lanes-All (at_least_one total) x xs s.0, set_lanes-AreLaid total xs l.1 s.1)

pub flush-AreLaid : (cluster : List PlannerEvent) → All IsValid cluster → AreLaid (flush cluster)
unfolding flush
flush-AreLaid cluster v =
    set_lanes-AreLaid (length (fill_lanes [] cluster).1) (fill_lanes [] cluster).0
      (fill_lanes-lane [] cluster) (fill_lanes-AreSplit [] cluster v)

module _ (P : ℕ → ℕ → Type 0) where
  fill_lanes-times :
      (ends : List ℕ) (xs : List PlannerEvent)
      → All (λ y. P y.start y.end) xs
      → All (λ y. P y.start y.end) (fill_lanes ends xs).0
  unfolding fill_lanes
  fill_lanes-times ends [] a = tt
  fill_lanes-times ends (x ∷ xs) a = (a.0, fill_lanes-times (place_lane x ends).1 xs a.1)

  set_lanes-times :
      (total : ℕ) (xs : List PlannerEvent)
      → All (λ y. P y.start y.end) xs
      → All (λ y. P y.start y.end) (set_lanes total xs)
  unfolding set_lanes
  set_lanes-times total [] a = tt
  set_lanes-times total (x ∷ xs) a = (a.0, set_lanes-times total xs a.1)

  -- What holds of the times of events still does when lanes are assigned.
  pub flush-All :
      (cluster : List PlannerEvent)
      → All (λ y. P y.start y.end) cluster
      → All (λ y. P y.start y.end) (flush cluster)
  unfolding flush
  flush-All cluster a =
      set_lanes-times (at_least_one (length (fill_lanes [] cluster).1)) (fill_lanes [] cluster).0
        (fill_lanes-times [] cluster a)
