-- ===== src/Sync/Desk/Rows/View.antt =====
-- The blocks of a task as its rows list them, and what the statements do to that list.
use skulid.Base.{
  ℕ, suc, ◌+◌, ◌≡◌, ◌≤◌, refl, Bool, false, ◌||◌, List, [], ◌∷◌, ◌++◌, ◌==◌, ltb, if◌then◌else◌,
  length, All, arith, inl, inr, Bool-cases,
}
use skulid.Sync.Placement.{TaskChunk}
use skulid.Sync.Desk.Rows.{place_chunk, chunks_of, has_chunk, move_chunk, drop_chunk}
use skulid.Sync.Desk.Rows.Keys.{has_id, AreKeyed}

abbrev pub AreDistinct : List TaskChunk → Type 0
AreDistinct [] = Unit {0}
AreDistinct (c ∷ cs) = (has_id c.id cs ≡ false) × AreDistinct cs

-- The places are n, n + 1 and so on.
abbrev pub AreFrom : ℕ → List TaskChunk → Type 0
AreFrom n [] = Unit {0}
AreFrom n (c ∷ cs) = (c.seq ≡ n) × AreFrom (suc n) cs

abbrev NotBefore : ℕ → List TaskChunk → Type 0
NotBefore n cs = All (λ c. n ≤ c.seq) cs

abbrev IsSorted : List TaskChunk → Type 0
IsSorted [] = Unit {0}
IsSorted (c ∷ cs) = NotBefore c.seq cs × IsSorted cs

NotBefore-weaken : (n m : ℕ) (cs : List TaskChunk) → n ≤ m → NotBefore m cs → NotBefore n cs
NotBefore-weaken n m [] le h = tt
NotBefore-weaken n m (c ∷ cs) le h = (omega (arith, h.0), NotBefore-weaken n m cs le h.1)

place_chunk-NotBefore :
    (n : ℕ) (c : TaskChunk) (cs : List TaskChunk)
    → n ≤ c.seq
    → NotBefore n cs
    → NotBefore n (place_chunk c cs)
unfolding place_chunk
place_chunk-NotBefore n c [] le h = (le, tt)
place_chunk-NotBefore n c (x ∷ cs) le h = ground (arith, place_chunk-NotBefore n c cs le)

place_chunk-IsSorted :
    (c : TaskChunk) (cs : List TaskChunk) → IsSorted cs → IsSorted (place_chunk c cs)
unfolding place_chunk
place_chunk-IsSorted c [] s = (tt, tt)
place_chunk-IsSorted c (x ∷ cs) s = elim (Bool-cases (ltb x.seq c.seq)) [
  | inl t ↦
      rw t (place_chunk-NotBefore x.seq c cs (ground arith) s.0, place_chunk-IsSorted c cs s.1)
  | inr f ↦ rw f ((ground arith, NotBefore-weaken c.seq x.seq cs (ground arith) s.0), s)
]

chunks_of-IsSorted : (task_id : ℕ) (cs : List TaskChunk) → IsSorted (chunks_of task_id cs)
unfolding chunks_of
chunks_of-IsSorted task_id [] = tt
chunks_of-IsSorted task_id (c ∷ cs) = elim (Bool-cases (c.task_id == task_id)) [
  | inl t ↦ rw t (place_chunk-IsSorted c _ (chunks_of-IsSorted task_id cs))
  | inr f ↦ rw f (chunks_of-IsSorted task_id cs)
]

place_chunk_first :
    (c : TaskChunk) (cs : List TaskChunk) → NotBefore c.seq cs → place_chunk c cs ≡ c ∷ cs
unfolding place_chunk
place_chunk_first c [] h = refl
place_chunk_first c (x ∷ cs) h = ground arith

drop_chunk-NotBefore :
    (n i : ℕ) (cs : List TaskChunk) → NotBefore n cs → NotBefore n (drop_chunk i cs)
unfolding drop_chunk
drop_chunk-NotBefore n i [] h = tt
drop_chunk-NotBefore n i (c ∷ cs) h = ground (arith, drop_chunk-NotBefore n i cs h.1)

drop_chunk-place_chunk :
    (i : ℕ) (c : TaskChunk) (cs : List TaskChunk)
    → IsSorted cs
    → drop_chunk i (place_chunk c cs)
      ≡ (if c.id == i then drop_chunk i cs else place_chunk c (drop_chunk i cs))
unfolding drop_chunk place_chunk
drop_chunk-place_chunk i c [] s = ground arith
drop_chunk-place_chunk i c (x ∷ cs) s = ground (
  arith,
  drop_chunk-place_chunk i c cs s.1,
  place_chunk_first c (drop_chunk i cs),
  drop_chunk-NotBefore c.seq i cs,
  NotBefore-weaken c.seq x.seq cs,
)

pub chunks_of-drop_chunk :
    (task_id i : ℕ) (cs : List TaskChunk)
    → chunks_of task_id (drop_chunk i cs) ≡ drop_chunk i (chunks_of task_id cs)
unfolding chunks_of drop_chunk
chunks_of-drop_chunk task_id i [] = refl
chunks_of-drop_chunk task_id i (c ∷ cs) = ground (
  arith,
  chunks_of-drop_chunk task_id i cs,
  drop_chunk-place_chunk i c (chunks_of task_id cs) (chunks_of-IsSorted task_id cs),
)

move_chunk-place_chunk :
    (i s e : ℕ) (c : TaskChunk) (cs : List TaskChunk)
    → move_chunk i s e (place_chunk c cs)
      ≡ place_chunk
          (if c.id == i then record c { starts_at = s; ends_at = e } else c)
          (move_chunk i s e cs)
unfolding move_chunk place_chunk
move_chunk-place_chunk i s e c [] = refl
move_chunk-place_chunk i s e c (x ∷ cs) = ground (arith, move_chunk-place_chunk i s e c cs)

pub chunks_of-move_chunk :
    (task_id i s e : ℕ) (cs : List TaskChunk)
    → chunks_of task_id (move_chunk i s e cs) ≡ move_chunk i s e (chunks_of task_id cs)
unfolding chunks_of move_chunk
chunks_of-move_chunk task_id i s e [] = refl
chunks_of-move_chunk task_id i s e (c ∷ cs) = ground (
  arith,
  chunks_of-move_chunk task_id i s e cs,
  move_chunk-place_chunk i s e c (chunks_of task_id cs),
)

has_id-place_chunk :
    (id : ℕ) (c : TaskChunk) (cs : List TaskChunk)
    → has_id id (place_chunk c cs) ≡ (c.id == id || has_id id cs)
unfolding place_chunk
has_id-place_chunk id c [] = refl
has_id-place_chunk id c (x ∷ cs) = ground (arith, has_id-place_chunk id c cs)

has_id-chunks_of :
    (id task_id : ℕ) (cs : List TaskChunk)
    → has_id id cs ≡ false
    → has_id id (chunks_of task_id cs) ≡ false
unfolding chunks_of
has_id-chunks_of id task_id [] h = refl
has_id-chunks_of id task_id (c ∷ cs) h =
    ground (arith, has_id-chunks_of id task_id cs, has_id-place_chunk id c (chunks_of task_id cs))

place_chunk-AreDistinct :
    (c : TaskChunk) (cs : List TaskChunk)
    → has_id c.id cs ≡ false
    → AreDistinct cs
    → AreDistinct (place_chunk c cs)
unfolding place_chunk
place_chunk-AreDistinct c [] h d = (refl, tt)
place_chunk-AreDistinct c (x ∷ cs) h d =
    ground (arith, place_chunk-AreDistinct c cs, has_id-place_chunk x.id c cs)

pub chunks_of-AreDistinct :
    (task_id next : ℕ) (cs : List TaskChunk) → AreKeyed next cs → AreDistinct (chunks_of task_id cs)
unfolding chunks_of
chunks_of-AreDistinct task_id next [] k = tt
chunks_of-AreDistinct task_id next (c ∷ cs) k = elim (Bool-cases (c.task_id == task_id)) [
  | inl t ↦ rw t (
      place_chunk-AreDistinct c _ (has_id-chunks_of c.id task_id cs k.1)
        (chunks_of-AreDistinct task_id next cs k.3))
  | inr f ↦ rw f (chunks_of-AreDistinct task_id next cs k.3)
]

abbrev has_seq : ℕ → List TaskChunk → Bool
has_seq n [] = false
has_seq n (c ∷ cs) = c.seq == n || has_seq n cs

has_seq-place_chunk :
    (n : ℕ) (c : TaskChunk) (cs : List TaskChunk)
    → has_seq n (place_chunk c cs) ≡ (c.seq == n || has_seq n cs)
unfolding place_chunk
has_seq-place_chunk n c [] = refl
has_seq-place_chunk n c (x ∷ cs) = ground (arith, has_seq-place_chunk n c cs)

has_chunk-chunks_of :
    (task_id n : ℕ) (cs : List TaskChunk)
    → has_chunk task_id n cs ≡ has_seq n (chunks_of task_id cs)
unfolding has_chunk chunks_of
has_chunk-chunks_of task_id n [] = refl
has_chunk-chunks_of task_id n (c ∷ cs) =
    ground (arith, has_chunk-chunks_of task_id n cs, has_seq-place_chunk n c (chunks_of task_id cs))

place_chunk_last :
    (n : ℕ) (c : TaskChunk) (cs : List TaskChunk)
    → AreFrom n cs
    → c.seq ≡ length cs + n
    → (place_chunk c cs ≡ cs ++ c ∷ []) × (has_seq c.seq cs ≡ false)
unfolding place_chunk
place_chunk_last n c [] f h = (refl, refl)
place_chunk_last n c (x ∷ cs) f h =
    ground (arith, place_chunk_last (suc n) c cs f.1 (omega (arith, h)))

pub AreFrom-end :
    (n : ℕ) (c : TaskChunk) (cs : List TaskChunk)
    → AreFrom n cs
    → c.seq ≡ length cs + n
    → AreFrom n (cs ++ c ∷ [])
AreFrom-end n c [] f h = (omega (arith, h), tt)
AreFrom-end n c (x ∷ cs) f h = (f.0, AreFrom-end (suc n) c cs f.1 (omega (arith, h)))

-- A new block after the others of the task is the last of them, and its place is free.
pub chunks_of-cons :
    (c : TaskChunk) (cs : List TaskChunk)
    → AreFrom 0 (chunks_of c.task_id cs)
    → c.seq ≡ length (chunks_of c.task_id cs)
    → (chunks_of c.task_id (c ∷ cs) ≡ chunks_of c.task_id cs ++ c ∷ [])
      × (has_chunk c.task_id c.seq cs ≡ false)
unfolding chunks_of
chunks_of-cons c cs f h =
    let last = place_chunk_last 0 c (chunks_of c.task_id cs) f (omega (arith, h)) in
    ground (arith, last, has_chunk-chunks_of c.task_id c.seq cs)

pub move_chunk_absent :
    (i s e : ℕ) (cs : List TaskChunk) → has_id i cs ≡ false → move_chunk i s e cs ≡ cs
unfolding move_chunk
move_chunk_absent i s e [] h = refl
move_chunk_absent i s e (c ∷ cs) h = ground (arith, move_chunk_absent i s e cs)

drop_chunk_absent : (i : ℕ) (cs : List TaskChunk) → has_id i cs ≡ false → drop_chunk i cs ≡ cs
unfolding drop_chunk
drop_chunk_absent i [] h = refl
drop_chunk_absent i (c ∷ cs) h = ground (arith, drop_chunk_absent i cs)

has_id-append :
    (id : ℕ) (xs ys : List TaskChunk) → has_id id (xs ++ ys) ≡ (has_id id xs || has_id id ys)
has_id-append id [] ys = refl
has_id-append id (x ∷ xs) ys = ground (arith, has_id-append id xs ys)

-- Where numbers differ, a statement on a block changes that block alone.
pub move_chunk_middle :
    (xs : List TaskChunk) (c : TaskChunk) (ys : List TaskChunk) (s e : ℕ)
    → AreDistinct (xs ++ c ∷ ys)
    → move_chunk c.id s e (xs ++ c ∷ ys) ≡ xs ++ record c { starts_at = s; ends_at = e } ∷ ys
unfolding move_chunk
move_chunk_middle [] c ys s e d = ground (arith, move_chunk_absent c.id s e ys d.0)
move_chunk_middle (x ∷ xs) c ys s e d =
    ground (arith, move_chunk_middle xs c ys s e d.1, has_id-append x.id xs (c ∷ ys))

pub drop_chunk_middle :
    (xs : List TaskChunk) (c : TaskChunk) (ys : List TaskChunk)
    → AreDistinct (xs ++ c ∷ ys)
    → drop_chunk c.id (xs ++ c ∷ ys) ≡ xs ++ ys
unfolding drop_chunk
drop_chunk_middle [] c ys d = ground (arith, drop_chunk_absent c.id ys d.0)
drop_chunk_middle (x ∷ xs) c ys d =
    ground (arith, drop_chunk_middle xs c ys d.1, has_id-append x.id xs (c ∷ ys))
