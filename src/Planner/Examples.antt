-- ===== src/Planner/Examples.antt =====
-- The layout of internal/httpx/handlers_planner.go at three meetings of which the last stands alone.
use skulid.Base.{ℕ, ◌≡◌, refl, List, [], ◌∷◌, codes, arith}
use skulid.Planner.{
  PlannerEvent, place_lane, fill_lanes, set_lanes, flush, sweep, assign_event_lanes,
}
use skulid.Planner.Cluster.{AreLaid}
use skulid.Planner.Lanes.{all_unplaced, assign_event_lanes_lays_out}

abbrev meeting : ℕ → ℕ → ℕ → ℕ → PlannerEvent
meeting start end lane lanes = record {
  title = codes "Meeting";
  start = start;
  end = end;
  lane = lane;
  lanes = lanes;
}

abbrev three : List PlannerEvent
three = meeting 0 30 0 0 ∷ meeting 20 40 0 0 ∷ meeting 40 50 0 0 ∷ []

three_laid :
    assign_event_lanes three ≡ meeting 0 30 0 2 ∷ meeting 20 40 1 2 ∷ meeting 40 50 0 1 ∷ []
unfolding assign_event_lanes sweep flush set_lanes fill_lanes place_lane
three_laid = refl

assign_event_lanes_lays_out_example :
    (all_unplaced (assign_event_lanes three) ≡ all_unplaced three)
    × AreLaid (assign_event_lanes three)
assign_event_lanes_lays_out_example =
    assign_event_lanes_lays_out three
      ((omega arith, (omega arith, tt)), ((omega arith, tt), (tt, tt)))
      (omega arith, (omega arith, (omega arith, tt)))
