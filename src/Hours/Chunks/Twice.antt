-- ===== src/Hours/Chunks/Twice.antt =====
-- A range that the working hours list twice.
use skulid.Base.{ℕ, ◌≡◌, ◌<◌, ◌≤◌, ◌+◌, true, [], ◌∷◌, arith}
use skulid.Hours.Subtract.{subtract_busy, carve}
use skulid.Hours.Slots.{first_fit}
use skulid.Hours.Chunks.{chunked_slots, fill, plan_of, plan_from, piece}

-- Where the availability is the same window listed twice and nothing else, nothing is busy, no time
-- is too early, the smallest chunk is positive and no longer than the window, and at least two
-- chunks may be made, a task of twice the window's length is planned onto the window twice, and the
-- plan fits: `ChunkedSlots` does not merge availability that repeats.
pub chunked_slots_twice :
    (start l m k : ℕ)
    → 0 < m
    → m ≤ l
    → 2 ≤ k
    → chunked_slots (piece start l ∷ piece start l ∷ []) [] (l + l) m 0 k
      ≡ record { slots = piece start l ∷ piece start l ∷ []; placeable = l + l; fits = true }
unfolding chunked_slots fill plan_of plan_from first_fit subtract_busy carve
chunked_slots_twice start l m k p q r = ground arith
