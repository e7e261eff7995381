-- ===== src/Planner/Lanes.antt =====
-- What `assignEventLanes` does to a day's events in the order of their starts.
use mathlib.Core.List.{append-nil}
use skulid.Base.{
  ℕ, ◌≡◌, ◌≤◌, refl, sym, ◌∙◌, false, List, [], ◌∷◌, ◌++◌, if◌then◌else◌, length, All, All-append,
  arith, inl, inr, Bool-cases,
}
use skulid.Hours.Window.{after, before}
use skulid.Planner.{
  PlannerEvent, place_lane, fill_lanes, set_lanes, at_least_one, flush, sweep, assign_event_lanes,
}
use skulid.Planner.Cluster.{All-weaken, clashes, AreLaid, IsValid, flush-AreLaid, flush-All}

abbrev EndsBy : ℕ → PlannerEvent → Type 0
EndsBy n x = x.end ≤ n

abbrev StartsFrom : ℕ → PlannerEvent → Type 0
StartsFrom n x = n ≤ x.start

abbrev pub AreSorted : List PlannerEvent → Type 0
AreSorted [] = Unit {0}
AreSorted (x ∷ xs) = All (StartsFrom x.start) xs × AreSorted xs

apart-All :
    (n : ℕ) (x : PlannerEvent) (ys : List PlannerEvent)
    → x.end ≤ n
    → All (StartsFrom n) ys
    → All (λ y. clashes x y ≡ false) ys
apart-All n x [] e a = tt
apart-All n x (y ∷ ys) e a = (ground arith, apart-All n x ys e a.1)

append-AreLaid :
    (n : ℕ) (xs ys : List PlannerEvent)
    → All (EndsBy n) xs
    → All (StartsFrom n) ys
    → AreLaid xs
    → AreLaid ys
    → AreLaid (xs ++ ys)
append-AreLaid n [] ys e s p q = q
append-AreLaid n (x ∷ xs) ys e s p q =
    (p.0, All-append _ xs ys p.1 (apart-All n x ys e.0 s), append-AreLaid n xs ys e.1 s p.2 q)

module _ (P : ℕ → ℕ → Type 0) where
  sweep-All :
      (cluster : List PlannerEvent) (end : ℕ) (events : List PlannerEvent)
      → All (λ y. P y.start y.end) cluster
      → All (λ y. P y.start y.end) events
      → All (λ y. P y.start y.end) (sweep cluster end events)
  unfolding sweep
  sweep-All cluster end [] c a = flush-All P cluster c
  sweep-All cluster end (e ∷ events) c a = elim (Bool-cases (before e.start end)) [
    | inl t ↦
        rw t
          (sweep-All (cluster ++ e ∷ []) _ events (All-append _ cluster (e ∷ []) c (a.0, tt)) a.1)
    | inr n ↦ rw n (
        All-append _ (flush cluster) _ (flush-All P cluster c)
          (sweep-All (e ∷ []) e.end events (a.0, tt) a.1))
  ]

sweep-AreLaid :
    (cluster : List PlannerEvent) (end : ℕ) (events : List PlannerEvent)
    → All IsValid cluster
    → All (EndsBy end) cluster
    → All IsValid events
    → AreSorted events
    → AreLaid (sweep cluster end events)
unfolding sweep
sweep-AreLaid cluster end [] c b v s = flush-AreLaid cluster c
sweep-AreLaid cluster end (e ∷ events) c b v s = elim (Bool-cases (before e.start end)) [
  | inl t ↦
      let end' = if after e.end end then e.end else end in
      let later = All-weaken (EndsBy end) (EndsBy end') (λ y le. ground arith) cluster b in
      rw t (
        sweep-AreLaid (cluster ++ e ∷ []) end' events
          (All-append IsValid cluster (e ∷ []) c (v.0, tt))
          (All-append (EndsBy end') cluster (e ∷ []) later (ground arith, tt)) v.1 s.1)
  | inr n ↦
      let by = All-weaken (EndsBy end) (EndsBy e.start) (λ y le. ground arith) cluster b in
      rw n (
        append-AreLaid e.start (flush cluster) _ (flush-All (λ from to. to ≤ e.start) cluster by)
          (sweep-All (λ from to. e.start ≤ from) (e ∷ []) e.end events (omega arith, tt) s.0)
          (flush-AreLaid cluster c)
          (sweep-AreLaid (e ∷ []) e.end events (v.0, tt) (omega arith, tt) v.1 s.1))
]

-- The events without their places.
abbrev unplaced : PlannerEvent → PlannerEvent
unplaced e = record e { lane = 0; lanes = 0 }

abbrev pub all_unplaced : List PlannerEvent → List PlannerEvent
all_unplaced [] = []
all_unplaced (e ∷ es) = unplaced e ∷ all_unplaced es

all_unplaced-append :
    (xs ys : List PlannerEvent) → all_unplaced (xs ++ ys) ≡ all_unplaced xs ++ all_unplaced ys
all_unplaced-append [] ys = refl
all_unplaced-append (x ∷ xs) ys = rw (all_unplaced-append xs ys) refl

all_unplaced_last :
    (xs : List PlannerEvent) (e : PlannerEvent) (zs : List PlannerEvent)
    → all_unplaced (xs ++ e ∷ []) ++ zs ≡ all_unplaced xs ++ unplaced e ∷ zs
all_unplaced_last [] e zs = refl
all_unplaced_last (x ∷ xs) e zs = rw (all_unplaced_last xs e zs) refl

fill_lanes_unplaced :
    (ends : List ℕ) (xs : List PlannerEvent) → all_unplaced (fill_lanes ends xs).0 ≡ all_unplaced xs
unfolding fill_lanes
fill_lanes_unplaced ends [] = refl
fill_lanes_unplaced ends (x ∷ xs) = rw (fill_lanes_unplaced (place_lane x ends).1 xs) refl

set_lanes_unplaced :
    (total : ℕ) (xs : List PlannerEvent) → all_unplaced (set_lanes total xs) ≡ all_unplaced xs
unfolding set_lanes
set_lanes_unplaced total [] = refl
set_lanes_unplaced total (x ∷ xs) = rw (set_lanes_unplaced total xs) refl

flush_unplaced : (cluster : List PlannerEvent) → all_unplaced (flush cluster) ≡ all_unplaced cluster
unfolding flush
flush_unplaced cluster =
    let filled = fill_lanes [] cluster in
    set_lanes_unplaced (at_least_one (length filled.1)) filled.0 ∙ fill_lanes_unplaced [] cluster

sweep_unplaced :
    (cluster : List PlannerEvent) (end : ℕ) (events : List PlannerEvent)
    → all_unplaced (sweep cluster end events) ≡ all_unplaced cluster ++ all_unplaced events
unfolding sweep
sweep_unplaced cluster end [] = flush_unplaced cluster ∙ sym (append-nil (all_unplaced cluster))
sweep_unplaced cluster end (e ∷ events) = elim (Bool-cases (before e.start end)) [
  | inl t ↦ rw t (
      sweep_unplaced (cluster ++ e ∷ []) _ events
      ∙ all_unplaced_last cluster e (all_unplaced events))
  | inr n ↦
      rw
        (
          n,
          all_unplaced-append (flush cluster) (sweep (e ∷ []) e.end events),
          flush_unplaced cluster,
          sweep_unplaced (e ∷ []) e.end events,
        )
        refl
]

-- The layout of a day's events that are in the order of their starts and of which none ends before
-- it starts: the events are the same but for their places, each has one of the lanes that it counts,
-- and two that share time stand in different lanes and count the same number of lanes.
pub assign_event_lanes_lays_out :
    (events : List PlannerEvent)
    → AreSorted events
    → All IsValid events
    → (all_unplaced (assign_event_lanes events) ≡ all_unplaced events)
      × AreLaid (assign_event_lanes events)
unfolding assign_event_lanes
assign_event_lanes_lays_out [] s v = (refl, tt)
assign_event_lanes_lays_out (e ∷ events) s v = (
  sweep_unplaced (e ∷ []) e.end events,
  sweep-AreLaid (e ∷ []) e.end events (v.0, tt) (omega arith, tt) v.1 s.1,
)
