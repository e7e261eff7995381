-- ===== src/Sync/Scheduler/Sample.antt =====
-- What the examples on internal/sync/scheduler.go and smart_block.go share: a database and Google that
-- answer, a zone of Mondays, and the tables with a calendar and a task.
use skulid.Base.{ℕ, ◌+◌, ◌*◌, ◌/◌, refl, true, false, List, [], ◌∷◌, none, some, codes, length}
use skulid.Hours.Ranges.{minutes}
use skulid.Hours.Stored.{absent}
use skulid.Hours.Expand.{WorkingHours, Location, monday}
use skulid.Sync.Outside.{Outside}
use skulid.Sync.Event.{no_hours_set, Calendar}
use skulid.Sync.Filter.{Runtime}
use skulid.Sync.Placement.{TaskChunk}
use skulid.Sync.Engine.Outcome.{Answers}
use skulid.Sync.Desk.{task_scheduled, SmartBlock, ManagedBlock, Task, Desk, Zones}

abbrev pub minute : ℕ
minute = 60000000000

-- A time's text stands for as many minutes as it has characters.
abbrev pub short_go : Runtime
short_go = record {
  matches = λ pattern text. some true;
  to_lower = λ t. t;
  parse_time = λ t. some (record { instant = length t * minute; hour = 9 });
  format_time = λ t. [];
}

abbrev pub answering : Outside
answering = record {
  query_ok = λ n. true;
  client_ok = λ n. true;
  saved = λ n. some (record { id = codes "g"; etag = [] });
  deleted = λ n. true;
  synced = λ n. some [];
  listed = λ n. some [];
  busy = λ n ids from to. some [];
}

pub answering-Answers : Answers answering
answering-Answers = record {
  queries = λ n. refl;
  clients = λ n. refl;
  saves = λ n. record { id = codes "g"; etag = [] };
  saved_is = λ n. refl;
  deletes = λ n. refl;
}

abbrev pub mondays : Location
mondays = record {
  weekday = λ t. monday;
  date_at = λ t c. t / (1440 * minute) * (1440 * minute) + minutes c * minute;
  next_day = λ t. t + 1440 * minute;
}

abbrev pub one_zone : Zones
one_zone = record {
  load = λ zone. some mondays;
  add_days = λ loc t n. t + n * (1440 * minute);
  date_text = λ loc t. (t / (1440 * minute)) ∷ [];
  clock_text = λ loc t. [];
  due_text = λ loc t. codes "then";
}

abbrev pub office_hours : WorkingHours
office_hours = record {
  time_zone = codes "UTC";
  days = (codes "mon", codes "9:00-17:00" ∷ []) ∷ [];
}

abbrev pub office : Calendar
office = record {
  id = 1;
  account_id = 1;
  google_calendar_id = codes "o";
  time_zone = codes "UTC";
  buffers = codes "0,0,0";
  hours = no_hours_set;
  enabled = true;
}

abbrev pub report : Task
report = record {
  id = 7;
  title = codes "Report";
  notes = [];
  duration_minutes = record { negative = false; magnitude = 2 };
  due_at = none;
  status = task_scheduled;
  target_calendar_id = 1;
  scheduled_event_id = codes "e";
  scheduled_starts_at = none;
  scheduled_ends_at = none;
  schedule_note = [];
}

abbrev pub block : ℕ → ℕ → TaskChunk
block seq at = record {
  id = seq;
  task_id = 7;
  seq = seq;
  google_event_id = codes "e";
  starts_at = at * minute;
  ends_at = (at + 2) * minute;
}

abbrev pub desk : List TaskChunk → Desk
desk chunks = record {
  calendars = office ∷ [];
  accounts = record { id = 1; hours = no_hours_set } ∷ [];
  buffer_setting = none;
  min_chunk_setting = none;
  blocks = [];
  managed = [];
  tasks = report ∷ [];
  chunks = chunks;
  habits = [];
  occurrences = [];
  buffer_rows = [];
  next_row = 2;
  audit = [];
  calls = [];
  tick = 0;
}

abbrev pub focus : SmartBlock
focus = record {
  id = 4;
  target_calendar_id = 1;
  source_calendar_ids = 1 ∷ [];
  working_hours = absent;
  horizon_days = 1;
  min_block_minutes = record { negative = false; magnitude = 30 };
  merge_gap_minutes = record { negative = false; magnitude = 0 };
  title_template = codes "Focus";
  enabled = true;
}

abbrev pub row : ℕ → ℕ → ManagedBlock
row id at = record {
  id = id;
  smart_block_id = 4;
  target_account_id = 1;
  target_calendar_id = 1;
  target_event_id = codes "f";
  starts_at = at * minute;
  ends_at = (at + 60) * minute;
}
