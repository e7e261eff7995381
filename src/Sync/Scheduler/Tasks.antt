-- ===== src/Sync/Scheduler/Tasks.antt =====
-- internal/sync/scheduler.go: `PlaceTask`, `unschedule`, `applyChunks`, `PlaceAllPending` and what
-- they call; internal/db/tasks.go: `TaskMinChunkMinutes`.
pub mod Neat
pub mod Steps
pub mod Refine
pub mod Outcome
pub mod Quiet
use skulid.Base.{
  ℕ, suc, ◌+◌, ◌-◌, ◌*◌, ◌/◌, ◌%◌, Bool, true, false, not, ◌&&◌, ◌||◌, List, [], ◌∷◌, ◌++◌, Option,
  none, some, ◌==◌, ltb, leb, if◌then◌else◌, Text, codes, text_eq, is_nil, itoa, atoi, trim_space,
  Signed, length,
}
use skulid.Hours.Window.{Window, after}
use skulid.Hours.Expand.{WorkingHours, Location, expand}
use skulid.Hours.Stored.{parse_hours}
use skulid.Hours.Chunks.{ChunkPlan, chunked_slots}
use skulid.Sync.Outside.{
  bad_hours, out_of_range, ok, err, Result, M, pure, or_fail, ignore, log_error, ◌>>=◌, ◌>>◌,
  Outside,
}
use skulid.Sync.Event.{Event, Calendar}
use skulid.Sync.Filter.{Runtime}
use skulid.Sync.Availability.{working, effective_calendar_hours, located}
use skulid.Sync.Placement.{TaskChunk, placement_holds, exclude_busy_exact, placement_avail}
use skulid.Sync.Buffers.{minutes_long}
use skulid.Sync.Engine.Store.{insert, update}
use skulid.Sync.Desk.{
  TaskStatus, task_pending, task_scheduled, task_completed, task_cancelled, Task, Desk, Zones, ask,
  read, write, call_google, delete_google, client_for, get_calendar, get_account, write_audit,
  block_event,
}
use skulid.Sync.Desk.Rows.{
  find_task, update_scheduled, active_tasks, chunks_of, has_chunk, move_chunk, drop_chunk,
}
use skulid.Sync.Scheduler.{busy_everywhere}

-- `TaskProps`.
unfoldable pub task_props : ℕ → List (Text × Text)
task_props task_id = (codes "skulidManaged", codes "1") ∷ (codes "skulidTaskId", itoa task_id) ∷ []

abbrev positive : Option Signed → Bool
positive none = false
positive (some v) = not v.negative && not (v.magnitude == 0)

abbrev pub thirty : Signed
thirty = record { negative = false; magnitude = 30 }

-- `TaskMinChunkMinutes` of the setting, none where it is not set or not read.
unfoldable pub task_min_chunk_minutes : Option Text → Signed
task_min_chunk_minutes none = thirty
task_min_chunk_minutes (some v) = elim (atoi (trim_space v)) [
  | none ↦ thirty
  | some n ↦ if not n.negative && not (n.magnitude == 0) then n else thirty
]

-- `d.Round(time.Minute)`, in minutes, of a duration that is not negative.
abbrev minutes_rounded : ℕ → ℕ
minutes_rounded d =
    let rest = d % 60000000000 in
    if ltb (rest + rest) 60000000000 then d / 60000000000 else suc (d / 60000000000)

unfoldable pub rounded_duration : ℕ → Text
rounded_duration d =
    let h = minutes_rounded d / 60 in
    let m = minutes_rounded d % 60 in
    if not (h == 0) && not (m == 0)
    then itoa h ++ codes "h" ++ itoa m ++ codes "m"
    else if not (h == 0)
    then itoa h ++ codes "h"
    else itoa m ++ codes "m"

unfoldable pub no_fit_note : Zones → ℕ → ℕ → Option ℕ → Location → Text
no_fit_note zones want placeable due loc =
    if placeable == 0
    then elim due [
      | some d ↦ codes "No free time before " ++ zones.due_text loc d ++ codes "."
      | none ↦ codes "No free time in your working hours over the next two weeks."
    ]
    else codes "Only "
      ++ rounded_duration placeable
      ++ codes " of the "
      ++ rounded_duration want
      ++ codes " needed would fit. Free up time, shorten the task, or move the due date."

unfoldable pub chunk_title : Text → ℕ → ℕ → Text
chunk_title title i total =
    if leb total 1
    then title
    else title ++ codes " (" ++ itoa (suc i) ++ codes "/" ++ itoa total ++ codes ")"

-- Whether the blocks stand at the slots, one by one.
unfoldable pub same_windows : List TaskChunk → List Window → Bool
same_windows [] [] = true
same_windows [] (s ∷ slots) = false
same_windows (c ∷ existing) [] = false
same_windows (c ∷ existing) (s ∷ slots) =
    c.starts_at == s.start && c.ends_at == s.end && same_windows existing slots

abbrev pub is_scheduled : TaskStatus → Bool
is_scheduled task_pending = false
is_scheduled task_scheduled = true
is_scheduled task_completed = false
is_scheduled task_cancelled = false

abbrev pub is_closed : TaskStatus → Bool
is_closed task_pending = false
is_closed task_scheduled = false
is_closed task_completed = true
is_closed task_cancelled = true

-- Whether nothing but the windows could ask for a change.
abbrev pub is_settled : Task → Bool
is_settled t = is_nil t.schedule_note && is_scheduled t.status

-- `existing[len(slots):]`.
unfoldable pub beyond : List Window → List TaskChunk → List TaskChunk
beyond [] existing = existing
beyond (s ∷ slots) [] = []
beyond (s ∷ slots) (c ∷ existing) = beyond slots existing

-- The loop that excludes each of the task's own blocks.
unfoldable pub exclude_own : List Window → List TaskChunk → List Window
exclude_own busy [] = busy
exclude_own busy (c ∷ existing) =
    exclude_own (exclude_busy_exact busy c.starts_at c.ends_at) existing

-- `defaultTaskHorizon` and `maxTaskChunks`.
abbrev pub default_task_horizon : ℕ
default_task_horizon = 1209600000000000

abbrev pub max_task_chunks : ℕ
max_task_chunks = 8

abbrev pub deadline : ℕ → Option ℕ → ℕ
deadline now none = now + default_task_horizon
deadline now (some due) = due

module _ (out : Outside) (go : Runtime) (zones : Zones) where
  unfoldable pub set_scheduled :
      ℕ → Text → Option ℕ → Option ℕ → TaskStatus → Text → M Desk (Unit {0})
  set_scheduled id event starts ends status note =
      write out
        (λ w. record w { tasks = update_scheduled id event starts ends status note w.tasks })

  -- The table refuses a second row for a task and a place.
  abbrev pub inserted : TaskChunk → Desk → Option ℕ × Desk
  inserted c w = if has_chunk c.task_id c.seq w.chunks then (none, w) else (
    some w.next_row,
    record w { chunks = record c { id = w.next_row } ∷ w.chunks; next_row = suc w.next_row },
  )

  unfoldable pub insert_chunk : TaskChunk → M Desk ℕ
  insert_chunk c = ask out (inserted c)

  unfoldable pub update_chunk : ℕ → ℕ → ℕ → M Desk (Unit {0})
  update_chunk id starts ends =
      write out (λ w. record w { chunks = move_chunk id starts ends w.chunks })

  unfoldable pub delete_chunk : ℕ → M Desk (Unit {0})
  delete_chunk id = write out (λ w. record w { chunks = drop_chunk id w.chunks })

  -- `minChunk`: the setting is not read where the query fails.
  unfoldable pub min_chunk : M Desk ℕ
  min_chunk w = (
    ok (
        minutes_long
          (task_min_chunk_minutes (if out.query_ok w.tick then w.min_chunk_setting else none))),
    record w { tick = suc w.tick },
  )

  -- The loop of `unschedule`, and the one of `applyChunks` over the blocks that are no longer needed.
  pub clear_blocks : Calendar → Text → List TaskChunk → M Desk (Unit {0})
  clear_blocks cal message [] = pure tt
  clear_blocks cal message (c ∷ existing) = do
    ignore (delete_google out cal.google_calendar_id c.google_event_id)
    ignore (delete_chunk c.id)
    ignore (write_audit out (codes "task") c.google_event_id (codes "unscheduled") message)
    clear_blocks cal message existing

  -- The last lines of `unschedule`.
  pub record_note : Task → List TaskChunk → Text → M Desk (Unit {0})
  record_note t existing note =
      if is_nil existing && is_nil t.scheduled_event_id && text_eq t.schedule_note note
      then pure tt
      else set_scheduled t.id [] none none task_pending note

  pub unschedule : Calendar → Task → List TaskChunk → Text → M Desk (Unit {0})
  unschedule cal t existing note = do
    clear_blocks cal (codes "no fit found for task #" ++ itoa t.id) existing
    record_note t existing note

  pub chunk_event : Task → Text → ℕ → ℕ → Window → Event
  chunk_event t zone i total slot =
      block_event out go (chunk_title t.title i total) t.notes zone slot.start slot.end
        (task_props t.id)

  abbrev where_placed : Window → Text
  where_placed slot = go.format_time slot.start ++ 8211 ∷ go.format_time slot.end

  unfoldable pub audit_chunk : ℕ → Text → Text → ℕ → ℕ → Window → M Desk (Unit {0})
  audit_chunk task_id event action i total slot = write_audit out (codes "task") event action (
      if ltb 1 total
      then codes "task #"
        ++ itoa task_id
        ++ codes " block "
        ++ itoa (suc i)
        ++ codes "/"
        ++ itoa total
        ++ codes " scheduled "
        ++ where_placed slot
      else codes "task #" ++ itoa task_id ++ codes " scheduled " ++ where_placed slot)

  abbrev pub chunk_at : Task → ℕ → Text → Window → TaskChunk
  chunk_at t i event slot = record {
    id = 0;
    task_id = t.id;
    seq = i;
    google_event_id = event;
    starts_at = slot.start;
    ends_at = slot.end;
  }

  abbrev pub first_of : ℕ → Text → Text → Text
  first_of i event first = if i == 0 then event else first

  -- The loop over the slots, from the i-th on: a block that is there moves, and the others are new.
  -- `first` is `firstEventID`.
  pub write_slots :
      Calendar → Task → Text → ℕ → ℕ → List TaskChunk → List Window → Text → M Desk Text
  write_slots cal t zone i total existing [] first = pure first
  write_slots cal t zone i total (c ∷ existing) (slot ∷ slots) first = do
    saved ←
        call_google out
          (update cal.google_calendar_id c.google_event_id (chunk_event t zone i total slot))
    update_chunk c.id slot.start slot.end
    ignore (audit_chunk t.id saved.id (codes "rescheduled") i total slot)
    write_slots cal t zone (suc i) total existing slots (first_of i saved.id first)
  write_slots cal t zone i total [] (slot ∷ slots) first = do
    saved ← call_google out (insert cal.google_calendar_id (chunk_event t zone i total slot))
    row ← insert_chunk (chunk_at t i saved.id slot)
    ignore (audit_chunk t.id saved.id (codes "scheduled") i total slot)
    write_slots cal t zone (suc i) total [] slots (first_of i saved.id first)

  -- The last lines of `applyChunks`, which read `plan.Slots[0]`.
  pub summarise : Task → List Window → Text → M Desk (Unit {0})
  summarise t [] first = λ w. (err out_of_range, w)
  summarise t (slot ∷ slots) first =
      set_scheduled t.id first (some slot.start) (some slot.end) task_scheduled []

  pub write_plan : Calendar → Task → List TaskChunk → List Window → Text → M Desk (Unit {0})
  write_plan cal t existing slots zone = do
    first ← write_slots cal t zone 0 (length slots) existing slots []
    clear_blocks cal (codes "task #" ++ itoa t.id ++ codes " no longer needs this block")
        (beyond slots existing)
    summarise t slots first

  pub apply_chunks : Calendar → Task → List TaskChunk → List Window → Text → M Desk (Unit {0})
  apply_chunks cal t existing slots zone =
      if not (is_nil existing) && same_windows existing slots && is_settled t
      then pure tt
      else write_plan cal t existing slots zone

  abbrev pub duration_of : Task → ℕ
  duration_of t = minutes_long t.duration_minutes

  pub settle_plan :
      Calendar → Task → List TaskChunk → WorkingHours → Location → ChunkPlan → M Desk (Unit {0})
  settle_plan cal t existing wh loc plan =
      if not plan.fits
      then unschedule cal t existing (no_fit_note zones (duration_of t) plan.placeable t.due_at loc)
      else apply_chunks cal t existing plan.slots wh.time_zone

  -- From the reads of the busy time and of the blocks on.
  pub reconcile_task :
      ℕ
      → ℕ
      → Calendar
      → Task
      → WorkingHours
      → Location
      → List Window
      → List TaskChunk
      → M Desk (Unit {0})
  reconcile_task now to cal t wh loc busy existing =
      let others = exclude_own busy existing in
      if placement_holds existing (placement_avail wh loc existing now to) others (duration_of t)
          now
        && is_settled t
      then pure tt
      else do
        shortest ← min_chunk
        settle_plan cal t existing wh loc (
            chunked_slots (expand wh now to loc) others (duration_of t) shortest now
              max_task_chunks)

  pub place_within : ℕ → ℕ → Calendar → Task → WorkingHours × Location → M Desk (Unit {0})
  place_within now to cal t hours = if not (after to now) then pure tt else do
    busy ← busy_everywhere out go now to
    existing ← read out (λ w. some (chunks_of t.id w.chunks))
    reconcile_task now to cal t hours.0 hours.1 busy existing

  pub place_on : ℕ → Task → Calendar → M Desk (Unit {0})
  place_on now t cal = if not cal.enabled then pure tt else do
    client_for out
    acct ← get_account out cal.account_id
    hours ←
        or_fail bad_hours
          (located zones.load (parse_hours (effective_calendar_hours cal (some acct) working)))
    place_within now (deadline now t.due_at) cal t hours

  pub place_task : ℕ → ℕ → M Desk (Unit {0})
  place_task now task_id = do
    t ← read out (λ w. find_task task_id w.tasks)
    if is_closed t.status
        then pure tt
        else do cal ← get_calendar out t.target_calendar_id; place_on now t cal

  -- The loop of `PlaceAllPending`; an error is logged. The instants of the calls are given.
  pub place_each : (ℕ → ℕ) → List Task → M Desk (Unit {0})
  place_each now [] = pure tt
  place_each now (t ∷ ts) = λ w. (log_error (place_task (now w.tick) t.id) >> place_each now ts) w

  pub place_all_pending : (ℕ → ℕ) → M Desk (Unit {0})
  place_all_pending now = do
    tasks ← read out (λ w. some (active_tasks w.tasks))
    place_each now tasks
