-- ===== src/Sync/Buffers/Examples.antt =====
-- The theorems on buffers at a meeting of two people in an office.
use skulid.Base.{
  ◌≡◌, ◌*◌, refl, true, false, List, [], ◌∷◌, none, some, All, map, arith, Text, codes, length,
  text_eq,
}
use skulid.Hours.Window.{Ordered, overlap}
use skulid.Sync.Outside.{Result, ok, Outside}
use skulid.Sync.Event.{no_hours_set, Event, Attendee, Calendar}
use skulid.Sync.Filter.{Runtime}
use skulid.Sync.Engine.Store.{insert}
use skulid.Sync.Buffers.{BufferSettings, BufferKey, PlannedBuffer, block_of, plan_buffers}
use skulid.Sync.Buffers.Plan.{plan_buffers-Ordered}
use skulid.Sync.Buffers.Recompute.{
  BufferEvent, Shelf, taken, find_key, body_of, place_all, recompute,
}
use skulid.Sync.Buffers.Recompute.Invariant.{Tidy, recompute-Tidy}
use skulid.Sync.Buffers.Recompute.Orphan.{place_all_orphan}

-- A time's text stands for as many minutes as it has characters.
abbrev short_go : Runtime
short_go = record {
  matches = λ pattern text. some true;
  to_lower = λ t. t;
  parse_time = λ t. some (record { instant = length t * 60000000000; hour = 9 });
  format_time = λ t. [];
}

abbrev person : Text → Attendee
person email = record { email = email; resource = false }

abbrev review : Event
review = record {
  id = codes "r";
  status = codes "confirmed";
  summary = codes "Review";
  description = [];
  location = codes "Office";
  color_id = [];
  transparency = [];
  visibility = [];
  etag = [];
  start = some (record { date_time = codes "aaaaaaaaaa"; date = []; time_zone = [] });
  end = some (record { date_time = codes "aaaaaaaaaaaa"; date = []; time_zone = [] });
  recurrence = [];
  attendees = person (codes "ann") ∷ person (codes "bob") ∷ [];
  props = [];
}

abbrev five_and_ten : BufferSettings
five_and_ten = record {
  task_habit_break_minutes = record { negative = false; magnitude = 0 };
  decompression_minutes = record { negative = false; magnitude = 5 };
  travel_minutes = record { negative = false; magnitude = 10 };
}

plan_buffers-Ordered_example :
    Ordered 0 (map block_of (plan_buffers short_go five_and_ten review))
    × All
        (λ p. overlap (block_of p) (record { start = 600000000000; end = 720000000000 }) ≡ false)
        (plan_buffers short_go five_and_ten review)
plan_buffers-Ordered_example =
    plan_buffers-Ordered short_go five_and_ten review (record { instant = 600000000000; hour = 9 })
      (record { instant = 720000000000; hour = 9 }) refl refl (omega arith)

abbrev answering : Outside
answering = record {
  query_ok = λ n. true;
  client_ok = λ n. true;
  saved = λ n. some (record { id = codes "g"; etag = [] });
  deleted = λ n. true;
  synced = λ n. some [];
  listed = λ n. some (review ∷ []);
  busy = λ n ids from to. some [];
}

abbrev office : Calendar
office = record {
  id = 1;
  account_id = 1;
  google_calendar_id = codes "o";
  time_zone = codes "UTC";
  buffers = codes "0,5,10";
  hours = no_hours_set;
  enabled = true;
}

abbrev travel_there : BufferKey
travel_there = record {
  source_event_id = codes "r";
  buffer_type = codes "travel";
  placement = codes "before";
}

-- A row of a time that has passed.
abbrev past_row : BufferEvent
past_row = record {
  id = 1;
  calendar_id = 1;
  target_event_id = codes "t";
  key = travel_there;
  starts_at = 1;
  ends_at = 2;
}

abbrev shelf : Shelf
shelf = record {
  calendars = office ∷ [];
  buffer_setting = none;
  rows = past_row ∷ [];
  next_row = 2;
  audit = [];
  calls = [];
  tick = 0;
}

shelf-Tidy : Tidy short_go shelf
unfolding taken
shelf-Tidy = record { unique = (refl, tt); inert = tt }

recompute-Tidy_example : Tidy short_go (recompute answering short_go 100 1 shelf).1
recompute-Tidy_example = recompute-Tidy short_go answering 100 1 shelf shelf-Tidy

abbrev travel_block : PlannedBuffer
travel_block = record { key = travel_there; summary = codes "Travel"; start = 500; end = 600 }

abbrev after_orphan : Result (List BufferEvent) × Shelf
after_orphan = place_all answering short_go office (travel_block ∷ []) [] shelf

place_all_orphan_example :
    (after_orphan.0 ≡ ok [])
    × (after_orphan.1.rows ≡ past_row ∷ [])
    × (after_orphan.1.calls
        ≡ insert (codes "o") (body_of answering short_go office travel_block) ∷ [])
unfolding taken find_key text_eq
place_all_orphan_example =
    place_all_orphan answering short_go office travel_block []
      (record { id = codes "g"; etag = [] }) shelf refl refl refl
