-- ===== src/Sync/SmartBlocks/Match.antt =====
-- The match of a window with the blocks that are left.
use mathlib.Core.Path.{subst}
use skulid.Base.{
  ℕ, ◌+◌, ◌≡◌, refl, true, false, ◌&&◌, List, [], ◌∷◌, Option, none, some, ◌==◌, All, arith, inl,
  inr, Bool-cases,
}
use skulid.Hours.Window.{Window, overlap}
use skulid.Sync.Desk.{ManagedBlock}
use skulid.Sync.Desk.Rows.Keys.{has_managed}
use skulid.Sync.SmartBlocks.{window_of, take_match}
use skulid.Sync.SmartBlocks.Bags.{some_inj, same, one, rows_at, AreApart}

abbrev pub found_at : ℕ → Window → Option ManagedBlock → ℕ
found_at id x none = 0
found_at id x (some m) = one (m.smart_block_id == id && same x (window_of m))

pub rows_at-take_match :
    (id : ℕ) (x d : Window) (left : List ManagedBlock)
    → rows_at id x left ≡ found_at id x (take_match d left).0 + rows_at id x (take_match d left).1
unfolding take_match
rows_at-take_match id x d [] = refl
rows_at-take_match id x d (m ∷ left) = elim (Bool-cases (overlap d (window_of m))) [
  | inl t ↦ rw t refl
  | inr n ↦ rw n (omega (arith, rows_at-take_match id x d left))
]

pub has_managed-take_match :
    (i : ℕ) (d : Window) (left : List ManagedBlock)
    → has_managed i left ≡ false
    → has_managed i (take_match d left).1 ≡ false
unfolding take_match
has_managed-take_match i d [] h = refl
has_managed-take_match i d (m ∷ left) h = elim (Bool-cases (overlap d (window_of m))) [
  | inl t ↦ rw t (ground arith)
  | inr n ↦ rw n (ground (arith, has_managed-take_match i d left))
]

pub take_match-AreApart :
    (d : Window) (left : List ManagedBlock) → AreApart left → AreApart (take_match d left).1
unfolding take_match
take_match-AreApart d [] a = tt
take_match-AreApart d (m ∷ left) a = elim (Bool-cases (overlap d (window_of m))) [
  | inl t ↦ rw t a.1
  | inr n ↦ rw n (has_managed-take_match m.id d left a.0, take_match-AreApart d left a.1)
]

take_match-has_managed :
    (d : Window) (left : List ManagedBlock) (m : ManagedBlock)
    → (take_match d left).0 ≡ some m
    → has_managed m.id left ≡ true
unfolding take_match
take_match-has_managed d [] m f = cc
take_match-has_managed d (y ∷ left) m f = elim (Bool-cases (overlap d (window_of y))) [
  | inl t ↦
      let e : y ≡ m = some_inj y m (rw t at f) in
      subst (λ v. has_managed v.id (y ∷ left) ≡ true) e (ground arith)
  | inr n ↦ ground (arith, take_match-has_managed d left m (rw n at f))
]

differ :
    (y m : ManagedBlock) (left : List ManagedBlock)
    → has_managed y.id left ≡ false
    → has_managed m.id left ≡ true
    → (y.id == m.id) ≡ false
differ y m [] h k = cc
differ y m (z ∷ left) h k = elim (Bool-cases (y.id == m.id)) [
  | inl t ↦
      let e : y.id ≡ m.id = ground arith in
      let h' : has_managed m.id (z ∷ left) ≡ false =
        subst (λ i. has_managed i (z ∷ left) ≡ false) e h in
      cc
  | inr n ↦ n
]

module _ (P : ManagedBlock → Type 0) where
  pub take_match-All :
      (d : Window) (left : List ManagedBlock) → All P left → All P (take_match d left).1
  unfolding take_match
  take_match-All d [] a = tt
  take_match-All d (m ∷ left) a = elim (Bool-cases (overlap d (window_of m))) [
    | inl t ↦ rw t a.1
    | inr n ↦ rw n (a.0, take_match-All d left a.1)
  ]

  -- What is found is one of the blocks that were left, and is left no more.
  pub take_match_found :
      (d : Window) (left : List ManagedBlock) (m : ManagedBlock)
      → All P left
      → AreApart left
      → (take_match d left).0 ≡ some m
      → P m × (has_managed m.id (take_match d left).1 ≡ false)
  unfolding take_match
  take_match_found d [] m a p f = cc
  take_match_found d (y ∷ left) m a p f = elim (Bool-cases (overlap d (window_of y))) [
    | inl t ↦
        let e : y ≡ m = some_inj y m (rw t at f) in
        subst (λ v. P v × (has_managed v.id (take_match d (y ∷ left)).1 ≡ false)) e (a.0, rw t p.0)
    | inr n ↦
        let rest = take_match_found d left m a.1 p.1 (rw n at f) in
        let apart : (y.id == m.id) ≡ false =
          differ y m left p.0 (take_match-has_managed d left m (rw n at f)) in
        rw (n, apart) rest
  ]
