-- ===== src/Sync/Placement.antt =====
-- internal/sync/scheduler.go: `placementHolds`, `placementAvail` and `excludeBusyExact`; internal/db/taskchunks.go:
-- `TaskChunk`.
pub mod Stability
pub mod Avail
mod Examples
use skulid.Base.{
  ℕ, ◌+◌, ◌-◌, Bool, true, false, not, ◌&&◌, ◌||◌, List, [], ◌∷◌, Option, none, some, ◌==◌,
  if◌then◌else◌, Text,
}
use skulid.Hours.Window.{Window, before, after, within_any, clear}
use skulid.Hours.Merge.{merge}
use skulid.Hours.Expand.{WorkingHours, Location, expand}

pub record TaskChunk : Type 0 where
  pub id : ℕ
  pub task_id : ℕ
  pub seq : ℕ
  pub google_event_id : Text
  pub starts_at : ℕ
  pub ends_at : ℕ

abbrev pub block_of : TaskChunk → Window
block_of c = record { start = c.starts_at; end = c.ends_at }

-- `i > 0 && block.Start.Before(existing[i-1].EndsAt)`.
abbrev early : Option ℕ → Window → Bool
early none block = false
early (some ended) block = before block.start ended

-- The loop over the blocks, on the end of the block before and on `sum`.
unfoldable pub blocks_hold : List Window → List Window → ℕ → Option ℕ → ℕ → List TaskChunk → Bool
blocks_hold avail busy total ended sum [] = sum == total
blocks_hold avail busy total ended sum (c ∷ existing) =
    let block = block_of c in
    let rest =
      blocks_hold avail busy total (some c.ends_at) (sum + (block.end - block.start)) existing in
    if not (after block.end block.start)
    then false
    else if early ended block
    then false
    else if not (within_any block avail)
    then false
    else if not (clear block busy)
    then false
    else rest

-- Whether the last block ends after `now`; false where there is no block.
unfoldable pub last_ends_after : ℕ → List TaskChunk → Bool
last_ends_after now [] = false
last_ends_after now (c ∷ []) = after c.ends_at now
last_ends_after now (c ∷ d ∷ existing) = last_ends_after now (d ∷ existing)

unfoldable pub placement_holds : List TaskChunk → List Window → List Window → ℕ → ℕ → Bool
placement_holds existing avail busy total now =
    if total == 0 || not (last_ends_after now existing)
    then false
    else blocks_hold avail busy total none 0 existing

unfoldable pub exclude_busy_exact : List Window → ℕ → ℕ → List Window
exclude_busy_exact [] start end = []
exclude_busy_exact (w ∷ ws) start end =
    if w.start == start && w.end == end
    then exclude_busy_exact ws start end
    else w ∷ exclude_busy_exact ws start end

-- The earliest start of a block before `from`, and `from` if there is none.
unfoldable pub earliest : ℕ → List TaskChunk → ℕ
earliest start [] = start
earliest start (c ∷ existing) =
    earliest (if before c.starts_at start then c.starts_at else start) existing

unfoldable pub placement_avail : WorkingHours → Location → List TaskChunk → ℕ → ℕ → List Window
placement_avail wh loc existing from to = merge (expand wh (earliest from existing) to loc)
