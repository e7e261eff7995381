-- ===== src/Worker/Examples.antt =====
-- The theorems on the worker at one calendar.
use skulid.Base.{
  ℕ, ◌≡◌, ◌⊎◌, refl, true, List, [], ◌∷◌, Option, none, some, Text, codes, text_eq, is_nil,
  if◌then◌else◌, arith,
}
use skulid.Sync.Outside.{Result, ok, Outside}
use skulid.Sync.Event.{is_managed, marked, no_hours_set, Event, Calendar}
use skulid.Sync.Filter.{Runtime}
use skulid.Sync.Desk.{Desk}
use skulid.Sync.Desk.Neat.{Neat}
use skulid.Sync.Engine.{HoursOf}
use skulid.Sync.Engine.Store.{World, insert}
use skulid.Sync.Desk.Rows.{has_chunk}
use skulid.Sync.Scheduler.Sample.{short_go, one_zone, desk, block, focus, row}
use skulid.Worker.Queue.{enqueue_calendar}
use skulid.Worker.Queue.Laws.{Act, touch, pass, run, due_of, expected, AreSingle, run_refines}
use skulid.Worker.Site.{SyncToken, Site, find_token, ensure_token, find_channel}
use skulid.Worker.Sync.{
  Page, page, gone, failed, Paging, synced, read_pages, sync_from, full_sync, sync_calendar,
}
use skulid.Worker.Sync.Pages.{read_pages-linked}
use skulid.Worker.Sync.Token.{stored_token, sync_calendar_token}
use skulid.Worker.Watch.{Channel, Notice, start_watch, serve_http}
use skulid.Worker.Watch.Laws.{IsFrom, serve_http_authentic, start_watch_serves}
use skulid.Worker.Maintenance.{maintain, place_one, recompute_one, run_triggers, run_triggers-Neat}

abbrev answering : Outside
answering = record {
  query_ok = λ n. true;
  client_ok = λ n. true;
  saved = λ n. some (record { id = codes "g"; etag = [] });
  deleted = λ n. true;
  synced = λ n. some [];
  listed = λ n. some [];
  busy = λ n ids from to. some [];
}

abbrev plain_go : Runtime
plain_go = record {
  matches = λ pattern text. some true;
  to_lower = λ t. t;
  parse_time = λ t. none;
  format_time = λ t. [];
}

abbrev lunch : Event
lunch = record {
  id = codes "l";
  status = codes "confirmed";
  summary = codes "Lunch";
  description = [];
  location = [];
  color_id = [];
  transparency = [];
  visibility = [];
  etag = codes "e";
  start = none;
  end = none;
  recurrence = [];
  attendees = [];
  props = [];
}

abbrev office : Calendar
office = record {
  id = 1;
  account_id = 1;
  google_calendar_id = codes "o";
  time_zone = codes "UTC";
  buffers = [];
  hours = no_hours_set;
  enabled = true;
}

abbrev acts : List Act
acts = touch 4 1000 ∷ touch 5 1500 ∷ touch 4 2000 ∷ pass 15000001000 ∷ []

run_refines_example : (due_of 4 (run acts []) ≡ expected 4 acts none) × AreSingle (run acts [])
run_refines_example = run_refines 4 acts [] tt

put_off : expected 4 acts none ≡ some 15000002000
put_off = refl

-- Google has a second page of events under the token "p".
abbrev two_pages : Text → Page
two_pages token =
    if is_nil token
    then page (lunch ∷ []) (codes "p") []
    else if text_eq token (codes "p")
    then page (lunch ∷ lunch ∷ []) [] (codes "n")
    else failed

read_pages-linked_example :
    read_pages 5 two_pages [] ≡ synced (lunch ∷ lunch ∷ lunch ∷ []) (codes "n")
unfolding text_eq
read_pages-linked_example =
    read_pages-linked 5 two_pages ((lunch ∷ [], codes "p") ∷ []) (lunch ∷ lunch ∷ []) (codes "n")
      (omega arith) (refl, refl, refl)

abbrev no_world : World
no_world = record {
  calendars = office ∷ [];
  rules = [];
  links = [];
  next_link = 1;
  audit = [];
  calls = [];
  tick = 0;
}

abbrev stale : SyncToken
stale = record {
  account_id = 1;
  calendar_id = 1;
  sync_token = codes "k";
  watch_channel_id = codes "c";
  watch_resource_id = [];
  watch_token_secret = codes "s";
  watch_expires_at = none;
  last_polled_at = none;
}

abbrev site : Site
site = record {
  world = no_world;
  tokens = stale ∷ [];
  blocks = [];
  workers = [];
  block_timers = [];
  buffer_timers = [];
  marks = [];
  channel_calls = [];
}

abbrev no_hours : HoursOf
no_hours cal = none

-- Google refuses the token, and its answer without a token has no token for the next sync.
abbrev refused : Paging
refused = record {
  rounds = 5;
  page_of = λ n sync_token page_token. if is_nil sync_token then page (lunch ∷ []) [] [] else gone;
}

abbrev clock : ℕ → ℕ
clock n = n

sync_calendar_token_example :
    ((sync_calendar answering plain_go no_hours refused clock office site).0 ≡ ok tt)
    × (stored_token office
          (sync_calendar answering plain_go no_hours refused clock office site).1.tokens
        ≡ codes "k")
unfolding find_token ensure_token sync_from full_sync read_pages
sync_calendar_token_example =
    sync_calendar_token answering plain_go no_hours refused clock office (lunch ∷ []) [] site
      (λ n. refl) refl

abbrev secrets : ℕ → Text
secrets n = n ∷ []

abbrev opened : Channel
opened = record { id = codes "d"; resource_id = codes "r"; expiration = 0 }

abbrev always_opened : ℕ → Option Channel
always_opened n = some opened

abbrev knock : Text → Text → Notice
knock channel secret = record {
  channel_id = channel;
  resource_id = [];
  resource_state = codes "exists";
  channel_token = secret;
}

abbrev knocked : ℕ × Site
knocked = serve_http answering secrets always_opened clock (knock (codes "c") (codes "s")) site

serve_http_authentic_example :
    (knocked.1.workers ≡ [])
    ⊎ ((tok : SyncToken) × (find_channel (codes "c") (stale ∷ []) ≡ some tok)
        × IsFrom answering secrets always_opened clock (knock (codes "c") (codes "s")) tok
        × (knocked.0 ≡ 200)
        × (knocked.1.workers ≡ enqueue_calendar tok.account_id tok.calendar_id []))
serve_http_authentic_example =
    serve_http_authentic answering secrets always_opened clock (knock (codes "c") (codes "s")) site

abbrev watched : Result (Unit {0}) × Site
watched = start_watch answering secrets always_opened clock 1 1 office (codes "https://x") site

abbrev served : ℕ × Site
served = serve_http answering secrets always_opened clock (knock (codes "d") (2 ∷ [])) watched.1

start_watch_serves_example :
    (watched.0 ≡ ok tt) × (served.0 ≡ 200) × (served.1.workers ≡ enqueue_calendar 1 1 [])
unfolding find_channel text_eq
start_watch_serves_example =
    start_watch_serves answering secrets always_opened clock 1 1 office (codes "https://x") opened
      (knock (codes "d") (2 ∷ [])) site (λ k. refl) (λ k. refl) refl refl refl refl refl

-- A task with a block too many, and a smart block whose one row is of a later day.
abbrev full_desk : Desk
full_desk = record (desk (block 1 650 ∷ block 0 600 ∷ [])) {
  blocks = focus ∷ [];
  managed = row 2 3000 ∷ [];
  occurrences =
      record {
        id = 4;
        habit_id = 5;
        target_event_id = codes "h";
        occurs_on = codes "d";
        starts_at = 0;
        ends_at = 1;
      }
      ∷ [];
  next_row = 5;
  calls =
      insert (codes "o") (record lunch { props = (codes "skulidManaged", codes "1") ∷ [] }) ∷ [];
}

full_desk-Neat : Neat full_desk
unfolding has_chunk is_managed marked text_eq
full_desk-Neat = record {
  marked = (refl, tt);
  keyed = (omega arith, refl, refl, (omega arith, refl, refl, tt));
  numbered = (omega arith, refl, tt);
  daily = (refl, tt);
}

-- The run moves one block of the task, deletes the other, and inserts an event and a row for the
-- smart block.
run_triggers-Neat_example : Neat (
    run_triggers answering short_go one_zone
      (λ t. none)
      clock
      (place_one 7 ∷ recompute_one 4 ∷ maintain ∷ [])
      full_desk)
run_triggers-Neat_example =
    run_triggers-Neat answering short_go one_zone (λ t. none) clock
      (place_one 7 ∷ recompute_one 4 ∷ maintain ∷ []) full_desk full_desk-Neat
