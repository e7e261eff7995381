-- ===== src/Sync/SmartBlocks/Bags.antt =====
-- How many rows of a smart block stand at a window, and what the statements do to that number.
use mathlib.Core.Path.{subst}
use skulid.Base.{
  ℕ, ◌+◌, ◌≡◌, ◌⊎◌, refl, sym, ◌∙◌, Bool, false, ◌&&◌, List, [], ◌∷◌, Option, none, some, ◌==◌,
  if◌then◌else◌, All, arith, inl, inr, Bool-cases,
}
use skulid.Hours.Window.{Window, after, before}
use skulid.Sync.Desk.{ManagedBlock}
use skulid.Sync.Desk.Rows.{managed_of, place_managed, move_managed, drop_managed}
use skulid.Sync.Desk.Rows.Keys.{has_managed, AreNumbered}
use skulid.Sync.SmartBlocks.{window_of, in_range}

abbrev pub same : Window → Window → Bool
same x d = x.start == d.start && x.end == d.end

abbrev pub one : Bool → ℕ
one b = if b then 1 else 0

-- How often a window occurs in a list.
abbrev pub times : Window → List Window → ℕ
times x [] = 0
times x (d ∷ ds) = one (same x d) + times x ds

-- How many rows of a smart block stand at a window.
abbrev pub rows_at : ℕ → Window → List ManagedBlock → ℕ
rows_at id x [] = 0
rows_at id x (m ∷ ms) = one (m.smart_block_id == id && same x (window_of m)) + rows_at id x ms

-- The rows that no window of the range reaches.
abbrev pub outside : ℕ → ℕ → List ManagedBlock → List ManagedBlock
outside start end [] = []
outside start end (m ∷ ms) =
    if after m.ends_at start && before m.starts_at end
    then outside start end ms
    else m ∷ outside start end ms

abbrev pub find_managed : ℕ → List ManagedBlock → Option ManagedBlock
find_managed i [] = none
find_managed i (m ∷ ms) = if m.id == i then some m else find_managed i ms

pub some_inj : {A : Type 0} (x y : A) → Option.some x ≡ some y → x ≡ y
some_inj x y h = cc

rows_at-place_managed :
    (id : ℕ) (x : Window) (m : ManagedBlock) (ms : List ManagedBlock)
    → rows_at id x (place_managed m ms) ≡ rows_at id x (m ∷ ms)
unfolding place_managed
rows_at-place_managed id x m [] = refl
rows_at-place_managed id x m (y ∷ ms) = ground (arith, rows_at-place_managed id x m ms)

rows_at-managed_of :
    (id : ℕ) (x : Window) (ms : List ManagedBlock)
    → rows_at id x (managed_of id ms) ≡ rows_at id x ms
unfolding managed_of
rows_at-managed_of id x [] = refl
rows_at-managed_of id x (m ∷ ms) =
    ground (arith, rows_at-managed_of id x ms, rows_at-place_managed id x m (managed_of id ms))

rows_at-in_range :
    (id : ℕ) (x : Window) (start end : ℕ) (ms : List ManagedBlock)
    → rows_at id x (in_range start end ms) + rows_at id x (outside start end ms) ≡ rows_at id x ms
unfolding in_range
rows_at-in_range id x start end [] = refl
rows_at-in_range id x start end (m ∷ ms) = ground (arith, rows_at-in_range id x start end ms)

-- The rows of a smart block are those in the range and those outside it.
pub rows_at-split :
    (id : ℕ) (x : Window) (start end : ℕ) (ms : List ManagedBlock)
    → rows_at id x (in_range start end (managed_of id ms))
        + rows_at id x (outside start end (managed_of id ms))
      ≡ rows_at id x ms
rows_at-split id x start end ms =
    rows_at-in_range id x start end (managed_of id ms) ∙ rows_at-managed_of id x ms

move_managed_absent :
    (i s e : ℕ) (ms : List ManagedBlock) → has_managed i ms ≡ false → move_managed i s e ms ≡ ms
unfolding move_managed
move_managed_absent i s e [] h = refl
move_managed_absent i s e (m ∷ ms) h = ground (arith, move_managed_absent i s e ms)

drop_managed_absent :
    (i : ℕ) (ms : List ManagedBlock) → has_managed i ms ≡ false → drop_managed i ms ≡ ms
unfolding drop_managed
drop_managed_absent i [] h = refl
drop_managed_absent i (m ∷ ms) h = ground (arith, drop_managed_absent i ms)

-- The row that is found at the head of a table, or further on.
head_or_rest :
    (y m : ManagedBlock) (ms : List ManagedBlock)
    → find_managed m.id (y ∷ ms) ≡ some m
    → (y ≡ m) ⊎ (((y.id == m.id) ≡ false) × (find_managed m.id ms ≡ some m))
head_or_rest y m ms f = elim (Bool-cases (y.id == m.id)) [
  | inl t ↦ inl (some_inj y m (rw t at f))
  | inr n ↦ inr (n, rw n at f)
]

abbrev Moves : ℕ → Window → Window → ManagedBlock → List ManagedBlock → Type 0
Moves id x d m ms =
    rows_at id x (move_managed m.id d.start d.end ms) + one (same x (window_of m))
    ≡ rows_at id x ms + one (same x d)

move_head :
    (id : ℕ) (x d : Window) (m : ManagedBlock) (ms : List ManagedBlock)
    → has_managed m.id ms ≡ false
    → m.smart_block_id ≡ id
    → Moves id x d m (m ∷ ms)
unfolding move_managed
move_head id x d m ms h b = ground (arith, move_managed_absent m.id d.start d.end ms h)

-- A row of the smart block that moves leaves its window for the other.
pub rows_at-move_managed :
    (id : ℕ) (x d : Window) (next : ℕ) (m : ManagedBlock) (ms : List ManagedBlock)
    → AreNumbered next ms
    → find_managed m.id ms ≡ some m
    → m.smart_block_id ≡ id
    → Moves id x d m ms
unfolding move_managed
rows_at-move_managed id x d next m [] k f b = cc
rows_at-move_managed id x d next m (y ∷ ms) k f b = elim (head_or_rest y m ms f) [
  | inl e ↦
      let absent : has_managed m.id ms ≡ false = subst (λ v. has_managed v.id ms ≡ false) e k.1 in
      subst (λ v. Moves id x d m (v ∷ ms)) (sym e) (move_head id x d m ms absent b)
  | inr (n, f') ↦ rw n (omega (arith, rows_at-move_managed id x d next m ms k.2 f' b))
]

abbrev Drops : ℕ → Window → ManagedBlock → List ManagedBlock → Type 0
Drops id x m ms = rows_at id x (drop_managed m.id ms) + one (same x (window_of m)) ≡ rows_at id x ms

drop_head :
    (id : ℕ) (x : Window) (m : ManagedBlock) (ms : List ManagedBlock)
    → has_managed m.id ms ≡ false
    → m.smart_block_id ≡ id
    → Drops id x m (m ∷ ms)
unfolding drop_managed
drop_head id x m ms h b = ground (arith, drop_managed_absent m.id ms h)

-- A row of the smart block that goes leaves its window.
pub rows_at-drop_managed :
    (id : ℕ) (x : Window) (next : ℕ) (m : ManagedBlock) (ms : List ManagedBlock)
    → AreNumbered next ms
    → find_managed m.id ms ≡ some m
    → m.smart_block_id ≡ id
    → Drops id x m ms
unfolding drop_managed
rows_at-drop_managed id x next m [] k f b = cc
rows_at-drop_managed id x next m (y ∷ ms) k f b = elim (head_or_rest y m ms f) [
  | inl e ↦
      let absent : has_managed m.id ms ≡ false = subst (λ v. has_managed v.id ms ≡ false) e k.1 in
      subst (λ v. Drops id x m (v ∷ ms)) (sym e) (drop_head id x m ms absent b)
  | inr (n, f') ↦ rw n (omega (arith, rows_at-drop_managed id x next m ms k.2 f' b))
]

find_managed-move_managed :
    (i j s e : ℕ) (ms : List ManagedBlock)
    → (i == j) ≡ false
    → find_managed j (move_managed i s e ms) ≡ find_managed j ms
unfolding move_managed
find_managed-move_managed i j s e [] n = refl
find_managed-move_managed i j s e (m ∷ ms) n = ground (arith, find_managed-move_managed i j s e ms)

find_managed-drop_managed :
    (i j : ℕ) (ms : List ManagedBlock)
    → (i == j) ≡ false
    → find_managed j (drop_managed i ms) ≡ find_managed j ms
unfolding drop_managed
find_managed-drop_managed i j [] n = refl
find_managed-drop_managed i j (m ∷ ms) n = ground (arith, find_managed-drop_managed i j ms)

-- A row of the smart block that is in the table.
abbrev pub IsIn : ℕ → List ManagedBlock → ManagedBlock → Type 0
IsIn id table m = (m.smart_block_id ≡ id) × (find_managed m.id table ≡ some m)

-- Rows whose numbers differ.
abbrev pub AreApart : List ManagedBlock → Type 0
AreApart [] = Unit {0}
AreApart (m ∷ ms) = (has_managed m.id ms ≡ false) × AreApart ms

-- Rows of which none has a number stay in the table when that number's row moves, goes or comes.
pub IsIn-move_managed :
    (id i s e : ℕ) (table left : List ManagedBlock)
    → has_managed i left ≡ false
    → All (IsIn id table) left
    → All (IsIn id (move_managed i s e table)) left
IsIn-move_managed id i s e table [] h a = tt
IsIn-move_managed id i s e table (m ∷ left) h a = (
  (a.0.0, find_managed-move_managed i m.id s e table (ground arith) ∙ a.0.1),
  IsIn-move_managed id i s e table left (ground arith) a.1,
)

pub IsIn-drop_managed :
    (id i : ℕ) (table left : List ManagedBlock)
    → has_managed i left ≡ false
    → All (IsIn id table) left
    → All (IsIn id (drop_managed i table)) left
IsIn-drop_managed id i table [] h a = tt
IsIn-drop_managed id i table (m ∷ left) h a = (
  (a.0.0, find_managed-drop_managed i m.id table (ground arith) ∙ a.0.1),
  IsIn-drop_managed id i table left (ground arith) a.1,
)

find_managed-number :
    (i next : ℕ) (m : ManagedBlock) (table : List ManagedBlock)
    → AreNumbered next table
    → find_managed i table ≡ some m
    → (next == i) ≡ false
find_managed-number i next m [] k f = cc
find_managed-number i next m (y ∷ table) k f = elim (Bool-cases (y.id == i)) [
  | inl t ↦ ground arith
  | inr n ↦ find_managed-number i next m table k.2 (rw n at f)
]

pub IsIn-cons :
    (id next : ℕ) (new : ManagedBlock) (table left : List ManagedBlock)
    → new.id ≡ next
    → AreNumbered next table
    → All (IsIn id table) left
    → All (IsIn id (new ∷ table)) left
IsIn-cons id next new table [] e k a = tt
IsIn-cons id next new table (m ∷ left) e k a =
    let differs : (new.id == m.id) ≡ false = rw e (find_managed-number m.id next m table k a.0.1) in
    ((a.0.0, rw differs a.0.1), IsIn-cons id next new table left e k a.1)
