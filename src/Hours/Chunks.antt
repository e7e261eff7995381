-- ===== src/Hours/Chunks.antt =====
-- internal/hours/hours.go: `ChunkPlan` and `ChunkedSlots`.
pub mod Pieces
pub mod Plan
pub mod Twice
use skulid.Base.{
  ℕ, ◌+◌, ◌-◌, Bool, true, false, ◌&&◌, ◌||◌, List, [], ◌∷◌, ◌++◌, Option, none, some, ltb, leb,
  ◌==◌, if◌then◌else◌, length,
}
use skulid.Hours.Window.{Window}
use skulid.Hours.Subtract.{subtract_busy}
use skulid.Hours.Slots.{start_from, first_fit}

pub record ChunkPlan : Type 0 where
  pub slots : List Window
  pub placeable : ℕ
  pub fits : Bool

-- How much of `remaining` a free window takes from `start` on; `capacity` 0 stands for `<= 0`.
abbrev pub taken : ℕ → ℕ → ℕ
taken remaining capacity = if ltb capacity remaining then capacity else remaining

abbrev pub skipped : ℕ → ℕ → ℕ → Bool
skipped min_chunk remaining capacity =
    capacity == 0
    || ltb (taken remaining capacity) min_chunk && ltb (taken remaining capacity) remaining

abbrev pub piece : ℕ → ℕ → Window
piece start take = record { start = start; end = start + take }

-- The second loop, over the free windows, on `slots` and `remaining`.
unfoldable pub fill : ℕ → ℕ → ℕ → List Window → List Window → ℕ → List Window × ℕ
fill min_chunk not_before max_chunks [] slots remaining = (slots, remaining)
fill min_chunk not_before max_chunks (f ∷ free) slots remaining =
    elim (remaining == 0 || leb max_chunks (length slots)) [
      | true ↦ (slots, remaining)
      | false ↦
          let start = start_from not_before f in
          let capacity = f.end - start in
          let take = taken remaining capacity in
          let skip = skipped min_chunk remaining capacity in
          fill min_chunk not_before max_chunks free
            (if skip then slots else slots ++ piece start take ∷ [])
            (if skip then remaining else remaining - take)
    ]

abbrev pub effective_min : ℕ → ℕ → ℕ
effective_min total min_chunk =
    let m = if min_chunk == 0 then total else min_chunk in if ltb total m then total else m

unfoldable pub plan_of : ℕ → List Window × ℕ → ChunkPlan
plan_of total (slots, remaining) = record {
  slots = slots;
  placeable = total - remaining;
  fits = remaining == 0;
}

-- One contiguous block, if it fits, and the second loop otherwise.
unfoldable pub plan_from : ℕ → Option Window → List Window × ℕ → ChunkPlan
unfolding plan_of
plan_from total (some w) filled = record { slots = w ∷ []; placeable = total; fits = true }
plan_from total none filled = plan_of total filled

unfoldable pub chunked_slots : List Window → List Window → ℕ → ℕ → ℕ → ℕ → ChunkPlan
unfolding plan_from
chunked_slots avail busy total min_chunk not_before max_chunks =
    let free = subtract_busy avail busy in
    if total == 0 || max_chunks == 0
    then record { slots = []; placeable = 0; fits = total == 0 }
    else plan_from total (first_fit free total not_before)
        (fill (effective_min total min_chunk) not_before max_chunks free [] total)
