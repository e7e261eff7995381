-- ===== src/Sync/Placement/Stability.antt =====
-- A plan of `chunked_slots` that fits is a placement that `placement_holds` accepts.
use skulid.Base.{
  ℕ, ◌≡◌, ◌<◌, ◌+◌, ◌↔◌, refl, true, false, List, [], ◌∷◌, Option, none, some, arith, All, map,
}
use skulid.Hours.Window.{Window, within_any, Ordered, len}
use skulid.Hours.Merge.{merge}
use skulid.Hours.Merge.Fit.{within_any-merge}
use skulid.Hours.Subtract.Fit.{IsUpright}
use skulid.Hours.Chunks.{chunked_slots}
use skulid.Hours.Chunks.Pieces.{total_len}
use skulid.Hours.Chunks.Plan.{IsLegal, chunked_slots-IsPlan, chunked_slots-Ordered}
use skulid.Sync.Placement.{
  TaskChunk, block_of, early, blocks_hold, last_ends_after, placement_holds,
}

-- The blocks stand at the slots of a plan.
abbrev StandsAt : List TaskChunk → List Window → Type 0
StandsAt cs ws = map block_of cs ≡ ws

abbrev end_of : Option ℕ → ℕ
end_of none = 0
end_of (some n) = n

blocks_hold_complete :
    (avail avail' busy : List Window) (total n lo sum : ℕ) (ended : Option ℕ) (cs : List TaskChunk)
    → ((w : Window) → within_any w avail ≡ true → within_any w avail' ≡ true)
    → early ended (record { start = lo; end = lo }) ≡ false
    → All (IsLegal avail busy n) (map block_of cs)
    → Ordered lo (map block_of cs)
    → sum + total_len (map block_of cs) ≡ total
    → blocks_hold avail' busy total ended sum cs ≡ true
unfolding blocks_hold
blocks_hold_complete avail avail' busy total n lo sum ended [] wider e l o s = ground arith
blocks_hold_complete avail avail' busy total n lo sum ended (c ∷ cs) wider e l o s = ground (
  arith,
  wider (block_of c),
  blocks_hold_complete avail avail' busy total n c.ends_at (sum + len (block_of c)) (some c.ends_at)
      cs wider,
)

-- A plan that fits, for a positive total and ordered availability and no inverted busy window, is
-- a placement that still holds until its last block ends: the same busy time and the merged
-- availability accept the blocks that stand at its slots.
pub placement_holds-chunked_slots :
    (avail busy : List Window) (total m n k now : ℕ) (cs : List TaskChunk)
    → 0 < total
    → Ordered 0 avail
    → All IsUpright busy
    → (chunked_slots avail busy total m n k).fits ≡ true
    → StandsAt cs (chunked_slots avail busy total m n k).slots
    → last_ends_after now cs ≡ true
    → placement_holds cs (merge avail) busy total now ≡ true
unfolding placement_holds
placement_holds-chunked_slots avail busy total m n k now cs p o u fits at late =
    let plan = chunked_slots-IsPlan avail busy total m n k in
    let legal : All (IsLegal avail busy n) (map block_of cs) = rw at plan.legal in
    let ordered : Ordered 0 (map block_of cs) =
      rw at (chunked_slots-Ordered avail busy total m n k o u) in
    let sum : total_len (map block_of cs) ≡ total =
      rw at (ground (arith, plan.placed, plan.exact)) in
    ground (
      arith,
      blocks_hold_complete avail (merge avail) busy total n 0 0 none cs
          (λ w. within_any-merge w avail) refl legal ordered (omega (arith, sum)),
    )

blocks_hold_sound :
    (avail busy : List Window) (total lo sum : ℕ) (ended : Option ℕ) (cs : List TaskChunk)
    → lo ≡ end_of ended
    → blocks_hold avail busy total ended sum cs ≡ true
    → All (IsLegal avail busy 0) (map block_of cs)
      × Ordered lo (map block_of cs)
      × (sum + total_len (map block_of cs) ≡ total)
unfolding blocks_hold
blocks_hold_sound avail busy total lo sum ended [] e h = ground arith
blocks_hold_sound avail busy total lo sum ended (c ∷ cs) e h = ground (
  arith,
  blocks_hold_sound avail busy total c.ends_at (sum + len (block_of c)) (some c.ends_at) cs refl,
)

-- A placement that holds has, for a positive total, blocks that are legal in the availability and
-- the busy time, in order, and add up to the total, the last of which ends after `now`.
pub placement_holds_sound :
    (avail busy : List Window) (total now : ℕ) (cs : List TaskChunk)
    → placement_holds cs avail busy total now ≡ true
    → All (IsLegal avail busy 0) (map block_of cs)
      × Ordered 0 (map block_of cs)
      × (total_len (map block_of cs) ≡ total)
      × (last_ends_after now cs ≡ true)
unfolding placement_holds
placement_holds_sound avail busy total now cs h =
    ground (arith, blocks_hold_sound avail busy total 0 0 none cs refl)

-- `placementHolds` accepts the blocks of a task, for a positive total, exactly where each is longer
-- than no time, fits into an available window and overlaps no busy one, each ends by the start of
-- the next, they add up to the total, and the last of them ends after the present.
pub placement_holds_exact :
    (avail busy : List Window) (total now : ℕ) (cs : List TaskChunk)
    → 0 < total
    → (placement_holds cs avail busy total now ≡ true) ↔ (
        All (IsLegal avail busy 0) (map block_of cs)
        × Ordered 0 (map block_of cs)
        × (total_len (map block_of cs) ≡ total)
        × (last_ends_after now cs ≡ true))
unfolding placement_holds
placement_holds_exact avail busy total now cs p = (
  placement_holds_sound avail busy total now cs,
  λ (legal, order, sum, late). ground (
    arith,
    blocks_hold_complete avail avail busy total 0 0 0 none cs (λ w h. h) refl legal order
        (omega (arith, sum)),
  ),
)
