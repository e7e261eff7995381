-- ===== src/Hours/Chunks/Plan.antt =====
-- What the plan of `chunked_slots` holds.
use skulid.Base.{
  ℕ, ◌≡◌, ◌≤◌, ◌<◌, ◌-◌, refl, true, false, ◌||◌, ◌⊎◌, inl, inr, List, [], ◌∷◌, arith, All, length,
  ◌==◌, Bool-cases, Option-cases, none, some,
}
use skulid.Hours.Window.{Window, within_any, clear, Ordered}
use skulid.Hours.Subtract.{subtract_busy}
use skulid.Hours.Subtract.Fit.{within_any-subtract_busy, subtract_busy-Ordered, IsUpright}
use skulid.Hours.Slots.{first_fit, first_fit_slot}
use skulid.Hours.Slots.FirstFit.{first_fit_slot_sound}
use skulid.Hours.Chunks.{ChunkPlan, fill, plan_of, plan_from, chunked_slots, effective_min}
use skulid.Hours.Chunks.Pieces.{
  pieces, fill-pieces, total_len, total_len-pieces, length-pieces, IsPiece, pieces-IsPiece,
  pieces-Ordered, LongButLast, pieces-LongButLast,
}

-- The plan's cases: nothing to do or no piece allowed, one block, or the pieces of the second loop.
plan_cases {ℓ} :
    (P : ChunkPlan → Type ℓ) (avail busy : List Window) (total m n k : ℕ)
    → ((total ≡ 0) ⊎ (k ≡ 0) → P (record { slots = []; placeable = 0; fits = total == 0 }))
    → ((w : Window)
        → 0 < total
        → 0 < k
        → first_fit_slot avail busy total n ≡ some w
        → P (record { slots = w ∷ []; placeable = total; fits = true }))
    → (first_fit_slot avail busy total n ≡ none
        → 0 < k
        → P (plan_of total (pieces (effective_min total m) n k (subtract_busy avail busy) total)))
    → P (chunked_slots avail busy total m n k)
unfolding chunked_slots first_fit_slot
plan_cases P avail busy total m n k empty block split = elim (Bool-cases (total == 0 || k == 0)) [
  | inl e ↦ rw e (empty (ground arith))
  | inr e ↦ rw e (free_cases e)
]
  where
    free : List Window
    free = subtract_busy avail busy

    whole : k - 0 ≡ k
    whole = omega arith

    free_cases :
        (total == 0 || k == 0) ≡ false
        → P (
            plan_from total
              (first_fit free total n)
              (fill (effective_min total m) n k free [] total))
    free_cases e = elim (Option-cases (first_fit free total n)) [
      | inl f ↦
          rw (f, fill-pieces (effective_min total m) n k free [] total, whole)
            (split f (ground arith))
      | inr (w, f) ↦ rw f (block w (ground arith) (ground arith) f)
    ]

-- A slot is not empty, starts at `n` or later, fits into an available window, and overlaps no busy
-- one.
abbrev pub IsLegal : List Window → List Window → ℕ → Window → Type 0
IsLegal avail busy n w =
    (w.start < w.end) × (n ≤ w.start) × (within_any w avail ≡ true) × (clear w busy ≡ true)

pieces-IsLegal :
    (avail busy : List Window) (n : ℕ) (ws : List Window)
    → All (IsPiece n (subtract_busy avail busy)) ws
    → All (IsLegal avail busy n) ws
pieces-IsLegal avail busy n [] h = tt
pieces-IsLegal avail busy n (w ∷ ws) h =
    let fits = within_any-subtract_busy w avail busy h.0.0 in
    let rest = pieces-IsLegal avail busy n ws h.1 in ground (arith, fits, rest)

pub record IsPlan (avail busy : List Window) (total m n k : ℕ) (p : ChunkPlan) : Type 0 where
  pub placed : total_len p.slots ≡ p.placeable
  pub bounded : p.placeable ≤ total
  pub exact : p.fits ≡ (p.placeable == total)
  pub few : length p.slots ≤ k
  pub legal : All (IsLegal avail busy n) p.slots
  pub long : LongButLast (effective_min total m) p.slots

pieces-IsPlan :
    (avail busy : List Window) (total m n k : ℕ)
    → IsPlan avail busy total m n k
        (plan_of total (pieces (effective_min total m) n k (subtract_busy avail busy) total))
unfolding plan_of
pieces-IsPlan avail busy total m n k =
    let free = subtract_busy avail busy in
    let sum = total_len-pieces (effective_min total m) n k free total in
    record {
      placed = ground (arith, sum);
      bounded = omega arith;
      exact = ground (arith, sum);
      few = length-pieces (effective_min total m) n k free total;
      legal =
          pieces-IsLegal avail busy n (pieces (effective_min total m) n k free total).0
            (pieces-IsPiece (effective_min total m) n k free total);
      long = pieces-LongButLast (effective_min total m) n k free total;
    }

-- For any windows and limits, the slots of a plan add up to what it calls placeable, which is at
-- most the total, and equal to it exactly when the plan fits; there are at most `maxChunks` slots,
-- each is a legal slot, and each but the last is as long as the shortest allowed piece.
pub chunked_slots-IsPlan :
    (avail busy : List Window) (total m n k : ℕ)
    → IsPlan avail busy total m n k (chunked_slots avail busy total m n k)
chunked_slots-IsPlan avail busy total m n k =
    plan_cases (IsPlan avail busy total m n k) avail busy total m n k
      (λ h. record {
        placed = refl;
        bounded = omega arith;
        exact = ground arith;
        few = omega arith;
        legal = tt;
        long = tt;
      })
      (λ w p q h.
        let (inside, free, late, exact) = first_fit_slot_sound avail busy total n w p h in
        record {
          placed = omega arith;
          bounded = omega arith;
          exact = ground arith;
          few = omega arith;
          legal = ((omega arith, late, inside, free), tt);
          long = (inl refl, tt);
        })
      (λ f p. pieces-IsPlan avail busy total m n k)

-- With ordered availability and no inverted busy window, the slots of a plan are in order and do
-- not overlap.
pub chunked_slots-Ordered :
    (avail busy : List Window) (total m n k : ℕ)
    → Ordered 0 avail
    → All IsUpright busy
    → Ordered 0 (chunked_slots avail busy total m n k).slots
unfolding plan_of
chunked_slots-Ordered avail busy total m n k o u =
    plan_cases (λ p. Ordered 0 p.slots) avail busy total m n k (λ h. tt)
      (λ w p q h. ground (arith, first_fit_slot_sound avail busy total n w p h))
      (λ f p.
        pieces-Ordered (effective_min total m) n k 0 (subtract_busy avail busy) total
          (subtract_busy-Ordered 0 avail busy u o))

-- Whenever the whole total fits in one slot, the plan is that slot alone, the one that
-- `FirstFitSlot` finds.
pub chunked_slots_block :
    (avail busy : List Window) (total m n k : ℕ) (w : Window)
    → 0 < total
    → 0 < k
    → first_fit_slot avail busy total n ≡ some w
    → chunked_slots avail busy total m n k
      ≡ record { slots = w ∷ []; placeable = total; fits = true }
unfolding chunked_slots first_fit_slot
chunked_slots_block avail busy total m n k w p q h = ground arith
