-- ===== src/Sync/Placement/Examples.antt =====
-- The theorems on placements at a task of three blocks.
use skulid.Base.{ℕ, ◌≡◌, ◌+◌, ◌↔◌, refl, true, List, [], ◌∷◌, map, All, arith}
use skulid.Hours.Window.{Window, Ordered}
use skulid.Hours.Merge.{merge}
use skulid.Hours.Subtract.{subtract_busy, carve, cut_all, cut}
use skulid.Hours.Slots.{first_fit}
use skulid.Hours.Chunks.{chunked_slots, plan_of, plan_from, fill}
use skulid.Hours.Chunks.Pieces.{total_len}
use skulid.Hours.Chunks.Plan.{IsLegal}
use skulid.Sync.Placement.{TaskChunk, block_of, placement_holds, last_ends_after}
use skulid.Sync.Placement.Stability.{placement_holds-chunked_slots, placement_holds_exact}

abbrev span : ℕ → ℕ → Window
span a b = record { start = a; end = b }

abbrev day : List Window
day = span 540 720 ∷ span 780 1020 ∷ []

abbrev meetings : List Window
meetings = span 600 660 ∷ []

abbrev chunk : ℕ → ℕ → ℕ → TaskChunk
chunk seq a b = record {
  id = seq;
  task_id = 7;
  seq = seq;
  google_event_id = (100 + seq) ∷ [];
  starts_at = a;
  ends_at = b;
}

abbrev three_blocks : List TaskChunk
three_blocks = chunk 0 540 600 ∷ chunk 1 660 720 ∷ chunk 2 780 960 ∷ []

placement_holds-chunked_slots_example :
    placement_holds three_blocks (merge day) meetings 300 700 ≡ true
unfolding chunked_slots plan_of plan_from fill first_fit subtract_busy carve cut_all cut
    last_ends_after
placement_holds-chunked_slots_example =
    placement_holds-chunked_slots day meetings 300 30 0 8 700 three_blocks (omega arith)
      (omega arith) (omega arith) refl refl refl

placement_holds_exact_example :
    (placement_holds three_blocks (merge day) meetings 300 700 ≡ true) ↔ (
      All (IsLegal (merge day) meetings 0) (map block_of three_blocks)
      × Ordered 0 (map block_of three_blocks)
      × (total_len (map block_of three_blocks) ≡ 300)
      × (last_ends_after 700 three_blocks ≡ true))
placement_holds_exact_example =
    placement_holds_exact (merge day) meetings 300 700 three_blocks (omega arith)
