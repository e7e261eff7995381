-- ===== src/Sync/Desk/Rows/Keys.antt =====
-- The keys of the tables of planned blocks.
use skulid.Base.{
  ℕ, suc, ◌≡◌, ◌<◌, refl, Bool, true, false, ◌&&◌, ◌||◌, List, [], ◌∷◌, ◌==◌, Text, text_eq,
  text_eq_iff, sym, arith, inl, inr, Bool-cases,
}
use skulid.Sync.Placement.{TaskChunk}
use skulid.Sync.Desk.{ManagedBlock, HabitOccurrence}
use skulid.Sync.Desk.Rows.{
  has_chunk, move_chunk, drop_chunk, move_managed, drop_managed, upsert_occurrence, drop_occurrence,
}

abbrev pub has_id : ℕ → List TaskChunk → Bool
has_id id [] = false
has_id id (c ∷ cs) = c.id == id || has_id id cs

-- Numbers are below `next` and differ, and a task has one block at most for a place.
abbrev pub AreKeyed : ℕ → List TaskChunk → Type 0
AreKeyed next [] = Unit {0}
AreKeyed next (c ∷ cs) =
    (c.id < next)
    × (has_id c.id cs ≡ false)
    × (has_chunk c.task_id c.seq cs ≡ false)
    × AreKeyed next cs

has_id_fresh : (next : ℕ) (cs : List TaskChunk) → AreKeyed next cs → has_id next cs ≡ false
has_id_fresh next [] k = refl
has_id_fresh next (c ∷ cs) k = ground (arith, has_id_fresh next cs)

pub AreKeyed-suc : (next : ℕ) (cs : List TaskChunk) → AreKeyed next cs → AreKeyed (suc next) cs
AreKeyed-suc next [] k = tt
AreKeyed-suc next (c ∷ cs) k = ground (arith, AreKeyed-suc next cs)

pub cons-AreKeyed :
    (c : TaskChunk) (next : ℕ) (cs : List TaskChunk)
    → has_chunk c.task_id c.seq cs ≡ false
    → AreKeyed next cs
    → AreKeyed (suc next) (record c { id = next } ∷ cs)
cons-AreKeyed c next cs h k = (omega arith, has_id_fresh next cs k, h, AreKeyed-suc next cs k)

has_id-move_chunk :
    (id i s e : ℕ) (cs : List TaskChunk) → has_id id (move_chunk i s e cs) ≡ has_id id cs
unfolding move_chunk
has_id-move_chunk id i s e [] = refl
has_id-move_chunk id i s e (c ∷ cs) = ground (arith, has_id-move_chunk id i s e cs)

pub has_chunk-move_chunk :
    (task_id seq i s e : ℕ) (cs : List TaskChunk)
    → has_chunk task_id seq (move_chunk i s e cs) ≡ has_chunk task_id seq cs
unfolding move_chunk has_chunk
has_chunk-move_chunk task_id seq i s e [] = refl
has_chunk-move_chunk task_id seq i s e (c ∷ cs) =
    ground (arith, has_chunk-move_chunk task_id seq i s e cs)

pub move_chunk-AreKeyed :
    (next i s e : ℕ) (cs : List TaskChunk) → AreKeyed next cs → AreKeyed next (move_chunk i s e cs)
unfolding move_chunk
move_chunk-AreKeyed next i s e [] k = tt
move_chunk-AreKeyed next i s e (c ∷ cs) k = ground (
  arith,
  has_id-move_chunk c.id i s e cs,
  has_chunk-move_chunk c.task_id c.seq i s e cs,
  move_chunk-AreKeyed next i s e cs k.3,
)

has_id-drop_chunk :
    (id i : ℕ) (cs : List TaskChunk) → has_id id cs ≡ false → has_id id (drop_chunk i cs) ≡ false
unfolding drop_chunk
has_id-drop_chunk id i [] h = refl
has_id-drop_chunk id i (c ∷ cs) h = ground (arith, has_id-drop_chunk id i cs)

has_chunk-drop_chunk :
    (task_id seq i : ℕ) (cs : List TaskChunk)
    → has_chunk task_id seq cs ≡ false
    → has_chunk task_id seq (drop_chunk i cs) ≡ false
unfolding drop_chunk has_chunk
has_chunk-drop_chunk task_id seq i [] h = refl
has_chunk-drop_chunk task_id seq i (c ∷ cs) h =
    ground (arith, has_chunk-drop_chunk task_id seq i cs)

pub drop_chunk-AreKeyed :
    (next i : ℕ) (cs : List TaskChunk) → AreKeyed next cs → AreKeyed next (drop_chunk i cs)
unfolding drop_chunk
drop_chunk-AreKeyed next i [] k = tt
drop_chunk-AreKeyed next i (c ∷ cs) k = ground (
  arith,
  has_id-drop_chunk c.id i cs,
  has_chunk-drop_chunk c.task_id c.seq i cs,
  drop_chunk-AreKeyed next i cs k.3,
)

abbrev pub has_managed : ℕ → List ManagedBlock → Bool
has_managed id [] = false
has_managed id (m ∷ ms) = m.id == id || has_managed id ms

abbrev pub AreNumbered : ℕ → List ManagedBlock → Type 0
AreNumbered next [] = Unit {0}
AreNumbered next (m ∷ ms) = (m.id < next) × (has_managed m.id ms ≡ false) × AreNumbered next ms

has_managed_fresh :
    (next : ℕ) (ms : List ManagedBlock) → AreNumbered next ms → has_managed next ms ≡ false
has_managed_fresh next [] k = refl
has_managed_fresh next (m ∷ ms) k = ground (arith, has_managed_fresh next ms)

pub AreNumbered-suc :
    (next : ℕ) (ms : List ManagedBlock) → AreNumbered next ms → AreNumbered (suc next) ms
AreNumbered-suc next [] k = tt
AreNumbered-suc next (m ∷ ms) k = ground (arith, AreNumbered-suc next ms)

pub cons-AreNumbered :
    (m : ManagedBlock) (next : ℕ) (ms : List ManagedBlock)
    → AreNumbered next ms
    → AreNumbered (suc next) (record m { id = next } ∷ ms)
cons-AreNumbered m next ms k = (omega arith, has_managed_fresh next ms k, AreNumbered-suc next ms k)

pub has_managed-move_managed :
    (id i s e : ℕ) (ms : List ManagedBlock)
    → has_managed id (move_managed i s e ms) ≡ has_managed id ms
unfolding move_managed
has_managed-move_managed id i s e [] = refl
has_managed-move_managed id i s e (m ∷ ms) = ground (arith, has_managed-move_managed id i s e ms)

pub move_managed-AreNumbered :
    (next i s e : ℕ) (ms : List ManagedBlock)
    → AreNumbered next ms
    → AreNumbered next (move_managed i s e ms)
unfolding move_managed
move_managed-AreNumbered next i s e [] k = tt
move_managed-AreNumbered next i s e (m ∷ ms) k =
    ground
      (arith, has_managed-move_managed m.id i s e ms, move_managed-AreNumbered next i s e ms k.2)

has_managed-drop_managed :
    (id i : ℕ) (ms : List ManagedBlock)
    → has_managed id ms ≡ false
    → has_managed id (drop_managed i ms) ≡ false
unfolding drop_managed
has_managed-drop_managed id i [] h = refl
has_managed-drop_managed id i (m ∷ ms) h = ground (arith, has_managed-drop_managed id i ms)

pub drop_managed-AreNumbered :
    (next i : ℕ) (ms : List ManagedBlock)
    → AreNumbered next ms
    → AreNumbered next (drop_managed i ms)
unfolding drop_managed
drop_managed-AreNumbered next i [] k = tt
drop_managed-AreNumbered next i (m ∷ ms) k =
    ground (arith, has_managed-drop_managed m.id i ms, drop_managed-AreNumbered next i ms k.2)

abbrev has_day : ℕ → Text → List HabitOccurrence → Bool
has_day habit_id day [] = false
has_day habit_id day (o ∷ os) =
    o.habit_id == habit_id && text_eq o.occurs_on day || has_day habit_id day os

-- A habit has one occurrence at most on a day.
abbrev pub AreDaily : List HabitOccurrence → Type 0
AreDaily [] = Unit {0}
AreDaily (o ∷ os) = (has_day o.habit_id o.occurs_on os ≡ false) × AreDaily os

has_day-upsert_occurrence :
    (id : ℕ) (day : Text) (new : HabitOccurrence) (os : List HabitOccurrence)
    → (new.habit_id == id && text_eq new.occurs_on day) ≡ false
    → has_day id day os ≡ false
    → has_day id day (upsert_occurrence new os) ≡ false
unfolding upsert_occurrence
has_day-upsert_occurrence id day new [] n h = ground arith
has_day-upsert_occurrence id day new (o ∷ os) n h =
    ground (arith, has_day-upsert_occurrence id day new os n)

same_day_sym :
    (a b : HabitOccurrence)
    → (a.habit_id == b.habit_id && text_eq a.occurs_on b.occurs_on) ≡ false
    → (b.habit_id == a.habit_id && text_eq b.occurs_on a.occurs_on) ≡ false
same_day_sym a b h = elim (Bool-cases (text_eq b.occurs_on a.occurs_on)) [
  | inl t ↦
      let e : a.occurs_on ≡ b.occurs_on = sym ((text_eq_iff b.occurs_on a.occurs_on).0 t) in
      let t' : text_eq a.occurs_on b.occurs_on ≡ true = (text_eq_iff a.occurs_on b.occurs_on).1 e in
      ground arith
  | inr f ↦ ground arith
]

pub upsert_occurrence-AreDaily :
    (new : HabitOccurrence) (os : List HabitOccurrence)
    → AreDaily os
    → AreDaily (upsert_occurrence new os)
unfolding upsert_occurrence
upsert_occurrence-AreDaily new [] k = (refl, tt)
upsert_occurrence-AreDaily new (o ∷ os) k =
    elim (Bool-cases (o.habit_id == new.habit_id && text_eq o.occurs_on new.occurs_on)) [
      | inl t ↦
          let e : o.habit_id ≡ new.habit_id = ground arith in
          let d : o.occurs_on ≡ new.occurs_on =
            (text_eq_iff o.occurs_on new.occurs_on).0 (ground arith) in
          let clear : has_day new.habit_id new.occurs_on os ≡ false = rw (sym e, sym d) k.0 in
          rw t (clear, k.1)
      | inr f ↦ rw f (
        has_day-upsert_occurrence o.habit_id o.occurs_on new os (same_day_sym o new f) k.0,
        upsert_occurrence-AreDaily new os k.1,
      )
    ]

has_day-drop_occurrence :
    (id : ℕ) (day : Text) (i : ℕ) (os : List HabitOccurrence)
    → has_day id day os ≡ false
    → has_day id day (drop_occurrence i os) ≡ false
unfolding drop_occurrence
has_day-drop_occurrence id day i [] h = refl
has_day-drop_occurrence id day i (o ∷ os) h = ground (arith, has_day-drop_occurrence id day i os)

pub drop_occurrence-AreDaily :
    (i : ℕ) (os : List HabitOccurrence) → AreDaily os → AreDaily (drop_occurrence i os)
unfolding drop_occurrence
drop_occurrence-AreDaily i [] k = tt
drop_occurrence-AreDaily i (o ∷ os) k =
    ground (
      arith,
      has_day-drop_occurrence o.habit_id o.occurs_on i os,
      drop_occurrence-AreDaily i os k.1,
    )
