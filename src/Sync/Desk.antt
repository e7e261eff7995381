-- ===== src/Sync/Desk.antt =====
-- What the planning engines of internal/sync (scheduler.go, smart_block.go) work on: the rows of
-- internal/db (models.go, tasks.go, taskchunks.go, habits.go, smart_blocks.go,
-- managedwindows.go) and the steps that read and write them or call Google.
pub mod Rows
pub mod Neat
use skulid.Base.{
  ℕ, suc, Bool, true, false, not, List, [], ◌∷◌, Option, none, some, ◌==◌, if◌then◌else◌, Text,
  codes, text_eq, is_nil, Signed,
}
use skulid.Hours.Expand.{Location}
use skulid.Hours.Stored.{Blob}
use skulid.Sync.Outside.{
  query_failed, no_row, no_client, google_failed, ok, err, M, pure, or_fail, ignore, ◌>>=◌, ◌>>◌,
  Saved, FreeBusy, Outside,
}
use skulid.Sync.Event.{Event, EventTime, Calendar}
use skulid.Sync.Filter.{Runtime}
use skulid.Sync.Availability.{Account, HoursKind, find_account}
use skulid.Sync.Placement.{TaskChunk}
use skulid.Sync.Buffers.{BufferSettings, parse_buffers}
use skulid.Sync.Buffers.Recompute.{BufferEvent}
use skulid.Sync.Engine.Store.{Call, insert, update, delete, find_calendar}

pub record SmartBlock : Type 0 where
  pub id : ℕ
  pub target_calendar_id : ℕ
  pub source_calendar_ids : List ℕ
  pub working_hours : Blob
  -- 0 for what is not positive
  pub horizon_days : ℕ
  pub min_block_minutes : Signed
  pub merge_gap_minutes : Signed
  pub title_template : Text
  pub enabled : Bool

pub record ManagedBlock : Type 0 where
  pub id : ℕ
  pub smart_block_id : ℕ
  pub target_account_id : ℕ
  pub target_calendar_id : ℕ
  pub target_event_id : Text
  pub starts_at : ℕ
  pub ends_at : ℕ

pub data TaskStatus : Type 0 where
  task_pending task_scheduled task_completed task_cancelled : TaskStatus

pub record Task : Type 0 where
  pub id : ℕ
  pub title : Text
  pub notes : Text
  pub duration_minutes : Signed
  pub due_at : Option ℕ
  pub status : TaskStatus
  pub target_calendar_id : ℕ
  pub scheduled_event_id : Text
  pub scheduled_starts_at : Option ℕ
  pub scheduled_ends_at : Option ℕ
  pub schedule_note : Text

pub record Habit : Type 0 where
  pub id : ℕ
  pub title : Text
  pub duration_minutes : Signed
  pub ideal_time : Text
  pub flex_minutes : Signed
  pub days_of_week : List Text
  pub hours_kind : HoursKind
  pub target_calendar_id : ℕ
  -- 0 for what is not positive
  pub horizon_days : ℕ
  pub enabled : Bool

-- `occurs_on` is the text of the date.
pub record HabitOccurrence : Type 0 where
  pub id : ℕ
  pub habit_id : ℕ
  pub target_event_id : Text
  pub occurs_on : Text
  pub starts_at : ℕ
  pub ends_at : ℕ

pub record PlanAudit : Type 0 where
  pub kind : Text
  pub target_event_id : Text
  pub action : Text
  pub message : Text

-- The tables, two of the settings (none where they are not set), the calls made to Google, newest
-- first, and the number of steps outside so far. A new row of any table has the number `next_row`.
pub record Desk : Type 0 where
  pub calendars : List Calendar
  pub accounts : List Account
  pub buffer_setting : Option Text
  pub min_chunk_setting : Option Text
  pub blocks : List SmartBlock
  pub managed : List ManagedBlock
  pub tasks : List Task
  pub chunks : List TaskChunk
  pub habits : List Habit
  pub occurrences : List HabitOccurrence
  pub buffer_rows : List BufferEvent
  pub next_row : ℕ
  pub audit : List PlanAudit
  pub calls : List Call
  pub tick : ℕ

-- `time.LoadLocation`, `AddDate` and `Format` with the three layouts that are used: of a date, of a
-- clock time, and of the note on a task with a due time.
pub record Zones : Type 0 where
  pub load : Text → Option Location
  pub add_days : Location → ℕ → ℕ → ℕ
  pub date_text : Location → ℕ → Text
  pub clock_text : Location → ℕ → Text
  pub due_text : Location → ℕ → Text

abbrev pub tick : Desk → Desk
tick w = record w { tick = suc w.tick }

abbrev setting_or_zero : Option Text → BufferSettings
setting_or_zero none = parse_buffers []
setting_or_zero (some v) = parse_buffers v

module _ (out : Outside) where
  unfoldable pub ask : {A : Type 0} → (Desk → Option A × Desk) → M Desk A
  ask run w =
      if out.query_ok w.tick
      then or_fail no_row (run w).0 (tick (run w).1)
      else (err query_failed, tick w)

  -- A query that changes nothing, and a statement that returns nothing.
  unfoldable pub read : {A : Type 0} → (Desk → Option A) → M Desk A
  read run = ask (λ w. (run w, w))

  unfoldable pub write : (Desk → Desk) → M Desk (Unit {0})
  write run = ask (λ w. (some tt, run w))

  unfoldable pub call_google : Call → M Desk Saved
  call_google call w =
      or_fail google_failed (out.saved w.tick) (tick (record w { calls = call ∷ w.calls }))

  unfoldable pub delete_google : Text → Text → M Desk (Unit {0})
  delete_google cal id w =
      let w' = tick (record w { calls = delete cal id ∷ w.calls }) in
      if out.deleted w.tick then (ok tt, w') else (err google_failed, w')

  unfoldable pub client_for : M Desk (Unit {0})
  client_for w = if out.client_ok w.tick then (ok tt, tick w) else (err no_client, tick w)

  unfoldable pub free_busy : List Text → ℕ → ℕ → M Desk FreeBusy
  free_busy ids from to w = or_fail google_failed (out.busy w.tick ids from to) (tick w)

  -- `LoadBuffers`.
  unfoldable pub load_buffers : M Desk BufferSettings
  load_buffers w = (
    ok (if out.query_ok w.tick then setting_or_zero w.buffer_setting else parse_buffers []),
    tick w,
  )

  unfoldable pub effective_buffers : Calendar → M Desk BufferSettings
  effective_buffers cal =
      if not (is_nil cal.buffers) then pure (parse_buffers cal.buffers) else load_buffers

  unfoldable pub get_calendar : ℕ → M Desk Calendar
  get_calendar id = read (λ w. find_calendar id w.calendars)

  unfoldable pub get_account : ℕ → M Desk Account
  get_account id = read (λ w. find_account id w.accounts)

  unfoldable pub write_audit : Text → Text → Text → Text → M Desk (Unit {0})
  write_audit kind target action message = write (λ w. record w {
    audit =
        record { kind = kind; target_event_id = target; action = action; message = message }
        ∷ w.audit;
  })

  -- The event of a block, whoever owns it.
  abbrev pub block_event : Runtime → Text → Text → Text → ℕ → ℕ → List (Text × Text) → Event
  block_event go summary description zone start end props = record {
    id = [];
    status = [];
    summary = summary;
    description = description;
    location = [];
    color_id = [];
    transparency = codes "opaque";
    visibility = [];
    etag = [];
    start = some (record { date_time = go.format_time start; date = []; time_zone = zone });
    end = some (record { date_time = go.format_time end; date = []; time_zone = zone });
    recurrence = [];
    attendees = [];
    props = props;
  }
