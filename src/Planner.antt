-- ===== src/Planner.antt =====
-- internal/httpx/handlers_planner.go: `assignEventLanes`, which lays a day's events out side by side.
pub mod Cluster
pub mod Lanes
mod Examples
use skulid.Base.{ℕ, suc, Bool, not, List, [], ◌∷◌, ◌++◌, if◌then◌else◌, ltb, length, Text}
use skulid.Hours.Window.{before, after}

-- `plannerEvent`, of which the layout reads and writes the last four fields.
pub record PlannerEvent : Type 0 where
  pub title : Text
  pub start : ℕ
  pub end : ℕ
  pub lane : ℕ
  pub lanes : ℕ

abbrev on_top : ℕ → ℕ × List ℕ → ℕ × List ℕ
on_top le (placed, lane_ends) = (suc placed, le ∷ lane_ends)

-- The first lane that is free at the event's start, or a new one, and the ends of the lanes with it.
unfoldable pub place_lane : PlannerEvent → List ℕ → ℕ × List ℕ
place_lane e [] = (0, e.end ∷ [])
place_lane e (le ∷ lane_ends) =
    let further = on_top le (place_lane e lane_ends) in
    if not (after le e.start) then (0, e.end ∷ lane_ends) else further

-- The first loop of `flush`, and the ends of the lanes after it.
unfoldable pub fill_lanes : List ℕ → List PlannerEvent → List PlannerEvent × List ℕ
fill_lanes lane_ends [] = ([], lane_ends)
fill_lanes lane_ends (e ∷ events) =
    let placed = place_lane e lane_ends in
    let rest = fill_lanes placed.1 events in (record e { lane = placed.0 } ∷ rest.0, rest.1)

-- The second loop of `flush`.
unfoldable pub set_lanes : ℕ → List PlannerEvent → List PlannerEvent
set_lanes total [] = []
set_lanes total (e ∷ events) = record e { lanes = total } ∷ set_lanes total events

abbrev pub at_least_one : ℕ → ℕ
at_least_one total = if ltb total 1 then 1 else total

unfoldable pub flush : List PlannerEvent → List PlannerEvent
flush cluster =
    let filled = fill_lanes [] cluster in set_lanes (at_least_one (length filled.1)) filled.0

-- The loop over the events: the cluster so far, where it ends, and the events to come.
unfoldable pub sweep : List PlannerEvent → ℕ → List PlannerEvent → List PlannerEvent
sweep cluster cluster_end [] = flush cluster
sweep cluster cluster_end (e ∷ events) =
    let joined =
      sweep (cluster ++ e ∷ []) (if after e.end cluster_end then e.end else cluster_end) events in
    let parted = flush cluster ++ sweep (e ∷ []) e.end events in
    if before e.start cluster_end then joined else parted

unfoldable pub assign_event_lanes : List PlannerEvent → List PlannerEvent
assign_event_lanes [] = []
assign_event_lanes (e ∷ events) = sweep (e ∷ []) e.end events
