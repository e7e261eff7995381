-- ===== src/Sync/Desk/Rows.antt =====
-- The statements on rows of internal/db: taskchunks.go, tasks.go, habits.go, smart_blocks.go and
-- managedwindows.go.
pub mod Keys
pub mod View
use skulid.Base.{
  ℕ, Bool, true, false, ◌&&◌, ◌||◌, List, [], ◌∷◌, ◌++◌, Option, none, some, ◌==◌, ltb, leb,
  if◌then◌else◌, Text, codes, text_eq,
}
use skulid.Hours.Window.{Window, before, after}
use skulid.Sync.Placement.{TaskChunk}
use skulid.Sync.Buffers.Recompute.{BufferEvent}
use skulid.Sync.Desk.{
  SmartBlock, ManagedBlock, TaskStatus, task_pending, task_scheduled, task_completed,
  task_cancelled, Task, Habit, HabitOccurrence, Desk,
}

unfoldable pub find_task : ℕ → List Task → Option Task
find_task id [] = none
find_task id (t ∷ ts) = if t.id == id then some t else find_task id ts

-- `UpdateScheduled`.
unfoldable pub update_scheduled :
    ℕ → Text → Option ℕ → Option ℕ → TaskStatus → Text → List Task → List Task
update_scheduled id event starts ends status note [] = []
update_scheduled id event starts ends status note (t ∷ ts) =
    (if t.id == id
      then record t {
        scheduled_event_id = event;
        scheduled_starts_at = starts;
        scheduled_ends_at = ends;
        status = status;
        schedule_note = note;
      }
      else t)
    ∷ update_scheduled id event starts ends status note ts

abbrev is_active : TaskStatus → Bool
is_active task_pending = true
is_active task_scheduled = true
is_active task_completed = false
is_active task_cancelled = false

-- `due_at NULLS LAST, id`.
abbrev due_before : Task → Task → Bool
due_before a b = elim a.due_at [
  | none ↦ elim b.due_at [ none ↦ ltb a.id b.id | some d ↦ false ]
  | some c ↦ elim b.due_at [ none ↦ true | some d ↦ ltb c d || c == d && ltb a.id b.id ]
]

unfoldable pub place_due : Task → List Task → List Task
place_due t [] = t ∷ []
place_due t (x ∷ xs) = if due_before x t then x ∷ place_due t xs else t ∷ x ∷ xs

-- `ListAllActive`.
unfoldable pub active_tasks : List Task → List Task
active_tasks [] = []
active_tasks (t ∷ ts) =
    let rest = active_tasks ts in if is_active t.status then place_due t rest else rest

-- `ORDER BY seq`.
unfoldable pub place_chunk : TaskChunk → List TaskChunk → List TaskChunk
place_chunk c [] = c ∷ []
place_chunk c (x ∷ xs) = if ltb x.seq c.seq then x ∷ place_chunk c xs else c ∷ x ∷ xs

-- `ListByTask`.
unfoldable pub chunks_of : ℕ → List TaskChunk → List TaskChunk
chunks_of task_id [] = []
chunks_of task_id (c ∷ cs) =
    let rest = chunks_of task_id cs in if c.task_id == task_id then place_chunk c rest else rest

-- The table's unique key.
unfoldable pub has_chunk : ℕ → ℕ → List TaskChunk → Bool
has_chunk task_id seq [] = false
has_chunk task_id seq (c ∷ cs) = c.task_id == task_id && c.seq == seq || has_chunk task_id seq cs

unfoldable pub move_chunk : ℕ → ℕ → ℕ → List TaskChunk → List TaskChunk
move_chunk id starts ends [] = []
move_chunk id starts ends (c ∷ cs) =
    (if c.id == id then record c { starts_at = starts; ends_at = ends } else c)
    ∷ move_chunk id starts ends cs

unfoldable pub drop_chunk : ℕ → List TaskChunk → List TaskChunk
drop_chunk id [] = []
drop_chunk id (c ∷ cs) = let rest = drop_chunk id cs in if c.id == id then rest else c ∷ rest

unfoldable pub find_block : ℕ → List SmartBlock → Option SmartBlock
find_block id [] = none
find_block id (b ∷ bs) = if b.id == id then some b else find_block id bs

unfoldable pub place_managed : ManagedBlock → List ManagedBlock → List ManagedBlock
place_managed m [] = m ∷ []
place_managed m (x ∷ xs) =
    if before x.starts_at m.starts_at then x ∷ place_managed m xs else m ∷ x ∷ xs

-- `ListByBlock`.
unfoldable pub managed_of : ℕ → List ManagedBlock → List ManagedBlock
managed_of id [] = []
managed_of id (m ∷ ms) =
    let rest = managed_of id ms in if m.smart_block_id == id then place_managed m rest else rest

unfoldable pub move_managed : ℕ → ℕ → ℕ → List ManagedBlock → List ManagedBlock
move_managed id starts ends [] = []
move_managed id starts ends (m ∷ ms) =
    (if m.id == id then record m { starts_at = starts; ends_at = ends } else m)
    ∷ move_managed id starts ends ms

unfoldable pub drop_managed : ℕ → List ManagedBlock → List ManagedBlock
drop_managed id [] = []
drop_managed id (m ∷ ms) = let rest = drop_managed id ms in if m.id == id then rest else m ∷ rest

unfoldable pub find_habit : ℕ → List Habit → Option Habit
find_habit id [] = none
find_habit id (h ∷ hs) = if h.id == id then some h else find_habit id hs

-- `ListEnabled`; the table is in the order of the numbers.
unfoldable pub enabled_habits : List Habit → List Habit
enabled_habits [] = []
enabled_habits (h ∷ hs) = let rest = enabled_habits hs in if h.enabled then h ∷ rest else rest

unfoldable pub occurrences_of : ℕ → List HabitOccurrence → List HabitOccurrence
occurrences_of id [] = []
occurrences_of id (o ∷ os) =
    let rest = occurrences_of id os in if o.habit_id == id then o ∷ rest else rest

-- A read of `occByDate`.
unfoldable pub on_date : Text → List HabitOccurrence → Option HabitOccurrence
on_date day [] = none
on_date day (o ∷ os) = if text_eq o.occurs_on day then some o else on_date day os

-- `Upsert`: the row of the habit's day takes the new event and window, and keeps its number.
unfoldable pub upsert_occurrence : HabitOccurrence → List HabitOccurrence → List HabitOccurrence
upsert_occurrence new [] = new ∷ []
upsert_occurrence new (o ∷ os) =
    if o.habit_id == new.habit_id && text_eq o.occurs_on new.occurs_on
    then record new { id = o.id } ∷ os
    else o ∷ upsert_occurrence new os

unfoldable pub drop_occurrence : ℕ → List HabitOccurrence → List HabitOccurrence
drop_occurrence id [] = []
drop_occurrence id (o ∷ os) =
    let rest = drop_occurrence id os in if o.id == id then rest else o ∷ rest

-- `ends_at > $1 AND starts_at < $2`.
abbrev pub keep_reaching : ℕ → ℕ → Window → List Window → List Window
keep_reaching from to w rest = if after w.end from && before w.start to then w ∷ rest else rest

abbrev windows_of_managed : ℕ → ℕ → List ManagedBlock → List Window
windows_of_managed from to [] = []
windows_of_managed from to (m ∷ ms) =
    keep_reaching from to (record { start = m.starts_at; end = m.ends_at })
      (windows_of_managed from to ms)

abbrev windows_of_occurrences : ℕ → ℕ → List HabitOccurrence → List Window
windows_of_occurrences from to [] = []
windows_of_occurrences from to (o ∷ os) =
    keep_reaching from to (record { start = o.starts_at; end = o.ends_at })
      (windows_of_occurrences from to os)

-- A travel buffer stays busy.
abbrev windows_of_buffers : ℕ → ℕ → List BufferEvent → List Window
windows_of_buffers from to [] = []
windows_of_buffers from to (b ∷ bs) =
    let rest = windows_of_buffers from to bs in
    if text_eq b.key.buffer_type (codes "decompression")
    then keep_reaching from to (record { start = b.starts_at; end = b.ends_at }) rest
    else rest

abbrev windows_of_chunks : ℕ → ℕ → List TaskChunk → List Window
windows_of_chunks from to [] = []
windows_of_chunks from to (c ∷ cs) =
    keep_reaching from to (record { start = c.starts_at; end = c.ends_at })
      (windows_of_chunks from to cs)

-- `InRange` of `ManagedWindowRepo`.
unfoldable pub managed_in_range : ℕ → ℕ → Desk → List Window
managed_in_range from to w =
    windows_of_managed from to w.managed
    ++ windows_of_occurrences from to w.occurrences
    ++ windows_of_buffers from to w.buffer_rows
    ++ windows_of_chunks from to w.chunks
