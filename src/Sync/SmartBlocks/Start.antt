-- ===== src/Sync/SmartBlocks/Start.antt =====
-- The blocks that a recomputation starts with: rows of the table, no two with the same number.
use skulid.Base.{
  ℕ, ◌≡◌, refl, false, ◌&&◌, List, [], ◌∷◌, some, ◌==◌, All, arith, inl, inr, Bool-cases,
}
use skulid.Hours.Window.{after, before}
use skulid.Sync.Desk.{ManagedBlock, Desk}
use skulid.Sync.Desk.Rows.{place_managed, managed_of}
use skulid.Sync.Desk.Rows.Keys.{has_managed, AreNumbered}
use skulid.Sync.SmartBlocks.{in_range}
use skulid.Sync.SmartBlocks.Bags.{find_managed, IsIn, AreApart}
use skulid.Sync.SmartBlocks.Refine.{Left}

find_managed-absent :
    (j i : ℕ) (m : ManagedBlock) (table : List ManagedBlock)
    → has_managed j table ≡ false
    → find_managed i table ≡ some m
    → (j == i) ≡ false
find_managed-absent j i m [] h f = cc
find_managed-absent j i m (y ∷ table) h f = elim (Bool-cases (y.id == i)) [
  | inl t ↦ ground arith
  | inr n ↦ find_managed-absent j i m table (ground arith) (rw n at f)
]

IsIn-further :
    (id : ℕ) (y : ManagedBlock) (table left : List ManagedBlock)
    → has_managed y.id table ≡ false
    → All (IsIn id table) left
    → All (IsIn id (y ∷ table)) left
IsIn-further id y table [] h a = tt
IsIn-further id y table (m ∷ left) h a = (
  (a.0.0, rw (find_managed-absent y.id m.id m table h a.0.1) a.0.1),
  IsIn-further id y table left h a.1,
)

module _ (P : ManagedBlock → Type 0) where
  place_managed-All :
      (m : ManagedBlock) (ms : List ManagedBlock) → P m → All P ms → All P (place_managed m ms)
  unfolding place_managed
  place_managed-All m [] p a = (p, tt)
  place_managed-All m (x ∷ xs) p a = elim (Bool-cases (before x.starts_at m.starts_at)) [
    | inl t ↦ rw t (a.0, place_managed-All m xs p a.1)
    | inr n ↦ rw n (p, a)
  ]

  in_range-All : (start end : ℕ) (ms : List ManagedBlock) → All P ms → All P (in_range start end ms)
  unfolding in_range
  in_range-All start end [] a = tt
  in_range-All start end (m ∷ ms) a =
      elim (Bool-cases (after m.ends_at start && before m.starts_at end)) [
        | inl t ↦ rw t (a.0, in_range-All start end ms a.1)
        | inr n ↦ rw n (in_range-All start end ms a.1)
      ]

managed_of-IsIn :
    (id next : ℕ) (table : List ManagedBlock)
    → AreNumbered next table
    → All (IsIn id table) (managed_of id table)
unfolding managed_of
managed_of-IsIn id next [] k = tt
managed_of-IsIn id next (m ∷ ms) k =
    let further = IsIn-further id m ms (managed_of id ms) k.1 (managed_of-IsIn id next ms k.2) in
    elim (Bool-cases (m.smart_block_id == id)) [
      | inl t ↦
          let head : IsIn id (m ∷ ms) m = (ground arith, ground arith) in
          rw t (place_managed-All (IsIn id (m ∷ ms)) m (managed_of id ms) head further)
      | inr n ↦ rw n further
    ]

has_managed-place_managed :
    (i : ℕ) (m : ManagedBlock) (ms : List ManagedBlock)
    → has_managed i (place_managed m ms) ≡ has_managed i (m ∷ ms)
unfolding place_managed
has_managed-place_managed i m [] = refl
has_managed-place_managed i m (x ∷ xs) = ground (arith, has_managed-place_managed i m xs)

has_managed-managed_of :
    (i id : ℕ) (ms : List ManagedBlock)
    → has_managed i ms ≡ false
    → has_managed i (managed_of id ms) ≡ false
unfolding managed_of
has_managed-managed_of i id [] h = refl
has_managed-managed_of i id (m ∷ ms) h =
    ground (arith, has_managed-managed_of i id ms, has_managed-place_managed i m (managed_of id ms))

place_managed-AreApart :
    (m : ManagedBlock) (ms : List ManagedBlock)
    → has_managed m.id ms ≡ false
    → AreApart ms
    → AreApart (place_managed m ms)
unfolding place_managed
place_managed-AreApart m [] h a = (refl, tt)
place_managed-AreApart m (x ∷ xs) h a = elim (Bool-cases (before x.starts_at m.starts_at)) [
  | inl t ↦
      let head : has_managed x.id (place_managed m xs) ≡ false =
        ground (arith, has_managed-place_managed x.id m xs) in
      rw t (head, place_managed-AreApart m xs (ground arith) a.1)
  | inr n ↦ rw n (h, a)
]

managed_of-AreApart :
    (id next : ℕ) (table : List ManagedBlock)
    → AreNumbered next table
    → AreApart (managed_of id table)
unfolding managed_of
managed_of-AreApart id next [] k = tt
managed_of-AreApart id next (m ∷ ms) k =
    let further = managed_of-AreApart id next ms k.2 in
    elim (Bool-cases (m.smart_block_id == id)) [
      | inl t ↦ rw t (
          place_managed-AreApart m (managed_of id ms) (has_managed-managed_of m.id id ms k.1)
            further)
      | inr n ↦ rw n further
    ]

has_managed-in_range :
    (i start end : ℕ) (ms : List ManagedBlock)
    → has_managed i ms ≡ false
    → has_managed i (in_range start end ms) ≡ false
unfolding in_range
has_managed-in_range i start end [] h = refl
has_managed-in_range i start end (m ∷ ms) h = ground (arith, has_managed-in_range i start end ms)

in_range-AreApart :
    (start end : ℕ) (ms : List ManagedBlock) → AreApart ms → AreApart (in_range start end ms)
unfolding in_range
in_range-AreApart start end [] a = tt
in_range-AreApart start end (m ∷ ms) a =
    elim (Bool-cases (after m.ends_at start && before m.starts_at end)) [
      | inl t ↦
          rw t (has_managed-in_range m.id start end ms a.0, in_range-AreApart start end ms a.1)
      | inr n ↦ rw n (in_range-AreApart start end ms a.1)
    ]

pub in_range-Left :
    (id start end : ℕ) (w : Desk)
    → AreNumbered w.next_row w.managed
    → Left id (in_range start end (managed_of id w.managed)) w
in_range-Left id start end w k = record {
  numbered = k;
  members =
      in_range-All (IsIn id w.managed) start end (managed_of id w.managed)
        (managed_of-IsIn id w.next_row w.managed k);
  apart =
      in_range-AreApart start end (managed_of id w.managed)
        (managed_of-AreApart id w.next_row w.managed k);
}
