-- ===== src/Hours/Chunks/Pieces.antt =====
-- The second loop of `chunked_slots` as a plain recursion, and what it returns.
use mathlib.Core.List.{append-nil, append_assoc}
use skulid.Base.{
  ℕ, ◌≡◌, ◌≤◌, ◌<◌, ◌+◌, ◌-◌, refl, true, ◌||◌, ◌⊎◌, List, [], ◌∷◌, ◌++◌, arith, All, length,
  length-append, ◌==◌, if◌then◌else◌,
}
use skulid.Hours.Window.{Window, within_any, Ordered, len}
use skulid.Hours.Subtract.Fit.{Ordered-mono}
use skulid.Hours.Slots.{start_from}
use skulid.Hours.Chunks.{taken, skipped, piece, fill}

-- The pieces cut from the free windows, `k` at most, and what remains of `r`.
pub pieces : ℕ → ℕ → ℕ → List Window → ℕ → List Window × ℕ
pieces m n k [] r = ([], r)
pieces m n k (f ∷ free) r =
    let capacity = f.end - start_from n f in
    let take = taken r capacity in
    let later = pieces m n k free r in
    let rest = pieces m n (k - 1) free (r - take) in
    if r == 0 || k == 0
    then ([], r)
    else if skipped m r capacity
    then later
    else (piece (start_from n f) take ∷ rest.0, rest.1)

pub fill-pieces :
    (m n k : ℕ) (free slots : List Window) (r : ℕ)
    → fill m n k free slots r ≡ (
      slots ++ (pieces m n (k - length slots) free r).0,
      (pieces m n (k - length slots) free r).1,
    )
unfolding fill pieces
fill-pieces m n k [] slots r = ground (arith, append-nil slots)
fill-pieces m n k (f ∷ free) slots r =
    let w = piece (start_from n f) (taken r (f.end - start_from n f)) in
    ground (
      arith,
      fill-pieces m n k free slots r,
      fill-pieces m n k free (slots ++ w ∷ []) (r - taken r (f.end - start_from n f)),
      append-nil slots,
      length-append slots (w ∷ []),
      append_assoc slots (w ∷ [])
          (pieces m n (k - length slots - 1) free (r - taken r (f.end - start_from n f))).0,
    )

abbrev pub total_len : List Window → ℕ
total_len [] = 0
total_len (w ∷ ws) = len w + total_len ws

pub total_len-pieces :
    (m n k : ℕ) (free : List Window) (r : ℕ)
    → total_len (pieces m n k free r).0 + (pieces m n k free r).1 ≡ r
unfolding pieces
total_len-pieces m n k [] r = omega arith
total_len-pieces m n k (f ∷ free) r = ground (
  arith,
  total_len-pieces m n k free r,
  total_len-pieces m n (k - 1) free (r - taken r (f.end - start_from n f)),
)

pub length-pieces : (m n k : ℕ) (free : List Window) (r : ℕ) → length (pieces m n k free r).0 ≤ k
unfolding pieces
length-pieces m n k [] r = omega arith
length-pieces m n k (f ∷ free) r = ground (
  arith,
  length-pieces m n k free r,
  length-pieces m n (k - 1) free (r - taken r (f.end - start_from n f)),
)

-- A piece is not empty, starts no earlier than `n`, and fits into one of the windows.
abbrev pub IsPiece : ℕ → List Window → Window → Type 0
IsPiece n ws w = (w.start < w.end) × (n ≤ w.start) × (within_any w ws ≡ true)

IsPiece-cons :
    (n : ℕ) (f : Window) (free ws : List Window)
    → All (IsPiece n free) ws
    → All (IsPiece n (f ∷ free)) ws
IsPiece-cons n f free [] h = tt
IsPiece-cons n f free (w ∷ ws) h = (ground arith, IsPiece-cons n f free ws h.1)

pub pieces-IsPiece :
    (m n k : ℕ) (free : List Window) (r : ℕ) → All (IsPiece n free) (pieces m n k free r).0
unfolding pieces
pieces-IsPiece m n k [] r = tt
pieces-IsPiece m n k (f ∷ free) r =
    let r' = r - taken r (f.end - start_from n f) in
    ground (
      arith,
      IsPiece-cons n f free (pieces m n k free r).0 (pieces-IsPiece m n k free r),
      IsPiece-cons n f free (pieces m n (k - 1) free r').0 (pieces-IsPiece m n (k - 1) free r'),
    )

pub pieces-Ordered :
    (m n k lo : ℕ) (free : List Window) (r : ℕ)
    → Ordered lo free
    → Ordered lo (pieces m n k free r).0
unfolding pieces
pieces-Ordered m n k lo [] r o = tt
pieces-Ordered m n k lo (f ∷ free) r o =
    let take = taken r (f.end - start_from n f) in
    let later = (pieces m n k free r).0 in
    let rest = (pieces m n (k - 1) free (r - take)).0 in
    ground (
      arith,
      λ (h : lo ≤ f.end).
          Ordered-mono {m = lo} {n = f.end} later h (pieces-Ordered m n k f.end free r o.2),
      λ (h : start_from n f + take ≤ f.end).
          Ordered-mono {m = start_from n f + take} {n = f.end} rest h
            (pieces-Ordered m n (k - 1) f.end free (r - take) o.2),
    )

-- Every piece but the last is `m` long at least.
abbrev pub LongButLast : ℕ → List Window → Type 0
LongButLast m [] = Unit {0}
LongButLast m (w ∷ ws) = ((ws ≡ []) ⊎ (m ≤ len w)) × LongButLast m ws

pieces_zero : (m n k : ℕ) (free : List Window) → (pieces m n k free 0).0 ≡ []
unfolding pieces
pieces_zero m n k [] = refl
pieces_zero m n k (f ∷ free) = refl

pub pieces-LongButLast :
    (m n k : ℕ) (free : List Window) (r : ℕ) → LongButLast m (pieces m n k free r).0
unfolding pieces
pieces-LongButLast m n k [] r = tt
pieces-LongButLast m n k (f ∷ free) r =
    let r' = r - taken r (f.end - start_from n f) in
    ground (
      arith,
      pieces-LongButLast m n k free r,
      pieces-LongButLast m n (k - 1) free r',
      pieces_zero m n (k - 1) free,
    )
