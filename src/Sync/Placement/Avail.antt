-- ===== src/Sync/Placement/Avail.antt =====
-- The availability by which a task's present blocks are judged.
use skulid.Base.{ℕ, ◌≡◌, ◌<◌, ◌≤◌, ◌↔◌, sym, true, List, [], ◌∷◌, if◌then◌else◌, All, arith, ◌∙◌}
use skulid.Hours.Window.{before, covers}
use skulid.Hours.Merge.Coverage.{covers-merge}
use skulid.Hours.Expand.{WorkingHours, Location, expand}
use skulid.Hours.Expand.Coverage.{IsForward, IsOpenFrom, covers-expand}
use skulid.Sync.Placement.{TaskChunk, earliest, placement_avail}

earliest_bound : (start : ℕ) (cs : List TaskChunk) → earliest start cs ≤ start
unfolding earliest
earliest_bound start [] = omega arith
earliest_bound start (c ∷ cs) =
    ground (arith, earliest_bound (if before c.starts_at start then c.starts_at else start) cs)

earliest-All : (start : ℕ) (cs : List TaskChunk) → All (λ c. earliest start cs ≤ c.starts_at) cs
unfolding earliest
earliest-All start [] = tt
earliest-All start (c ∷ cs) =
    let start' = if before c.starts_at start then c.starts_at else start in
    (ground (arith, earliest_bound start' cs), earliest-All start' cs)

-- With the deadline still to come, the availability by which a task's blocks are judged covers
-- exactly the working hours of the days from an instant on that is not after the present nor after
-- the start of any block, so that a block under way is not cut off.
pub covers-placement_avail :
    (t : ℕ) (wh : WorkingHours) (loc : Location) (existing : List TaskChunk) (from to : ℕ)
    → IsForward loc
    → from < to
    → let begin = earliest from existing in
      ((covers t (placement_avail wh loc existing from to) ≡ true)
        ↔ IsOpenFrom wh loc begin to t begin)
      × (begin ≤ from)
      × All (λ c. begin ≤ c.starts_at) existing
unfolding placement_avail
covers-placement_avail t wh loc existing from to f h =
    let begin = earliest from existing in
    let bound = earliest_bound from existing in
    let exact = covers-expand t wh loc begin to f (omega (arith, bound)) in
    (
      (
        λ c. exact.0 (sym (covers-merge t (expand wh begin to loc)) ∙ c),
        λ o. covers-merge t (expand wh begin to loc) ∙ exact.1 o,
      ),
      bound,
      earliest-All from existing,
    )
