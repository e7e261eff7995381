-- ===== src/Sync/Engine/Examples.antt =====
-- The theorems on the rule engine at one bidirectional rule between two calendars.
use skulid.Base.{◌≡◌, refl, true, false, [], ◌∷◌, ◌++◌, none, some, codes, text_eq, All}
use skulid.Sync.Outside.{ok, google_failed, ◌>>=◌, ◌>>◌, ignore, or_fail, Outside}
use skulid.Sync.Event.{no_hours_set, Event, Calendar, is_managed, marked}
use skulid.Sync.Filter.{
  Runtime, is_all_day_event, Filter, match_event, allowed_by_all_day_mode, title_passes,
  color_passes, attendee_passes, free_busy_passes, all_day_passes, hours_pass,
}
use skulid.Sync.Transform.{Transform, transform_for_mode}
use skulid.Sync.Engine.Store.{
  World, EventLink, SyncRule, find_link, put_link, rules_for, find_calendar, query, saving,
  get_calendar, get_link, upsert_link, write_audit, get_client, update_event, list_rules,
}
use skulid.Sync.Engine.Store.Links.{etag_of}
use skulid.Sync.Engine.{
  HoursOf, qualifies, transform_of, mirror_of, unchanged, record_mirror, write_mirror,
  write_or_drop, reconcile_with, reconcile, link_key, propagate, mirror_event, apply_rule, audited,
  run_rules, process_change,
}
use skulid.Sync.Engine.Invariant.{Inv, process_change-Inv}
use skulid.Sync.Engine.Outcome.{Answers, needed_calls, apply_rule_settles}
use skulid.Sync.Engine.Echo.{IsQuiet, process_change-IsQuiet}
use skulid.Sync.Engine.Errors.{apply_rule_err}
use skulid.Sync.Engine.Twice.{apply_rule_twice}

abbrev standup : Event
standup = record {
  id = codes "s";
  status = codes "confirmed";
  summary = codes "Standup";
  description = [];
  location = [];
  color_id = [];
  transparency = [];
  visibility = [];
  etag = codes "e0";
  start = some (record { date_time = codes "9"; date = []; time_zone = [] });
  end = some (record { date_time = codes "10"; date = []; time_zone = [] });
  recurrence = [];
  attendees = [];
  props = [];
}

abbrev answering : Outside
answering = record {
  query_ok = λ n. true;
  client_ok = λ n. true;
  saved = λ n. some (record { id = codes "m"; etag = codes "e1" });
  deleted = λ n. true;
  synced = λ n. some (standup ∷ []);
  listed = λ n. some (standup ∷ []);
  busy = λ n ids from to. some [];
}

abbrev refusing : Outside
refusing = record answering { saved = λ n. none; deleted = λ n. false }

answering-Answers : Answers answering
answering-Answers = record {
  queries = λ n. refl;
  clients = λ n. refl;
  saves = λ n. record { id = codes "m"; etag = codes "e1" };
  saved_is = λ n. refl;
  deletes = λ n. refl;
}

abbrev plain_go : Runtime
plain_go = record {
  matches = λ pattern text. some (text_eq pattern text);
  to_lower = λ t. t;
  parse_time = λ t. none;
  format_time = λ t. [];
}

abbrev no_hours : HoursOf
no_hours cal = none

abbrev work : Calendar
work = record {
  id = 1;
  account_id = 1;
  google_calendar_id = codes "w";
  time_zone = [];
  buffers = [];
  hours = no_hours_set;
  enabled = true;
}

abbrev home : Calendar
home = record {
  id = 2;
  account_id = 2;
  google_calendar_id = codes "h";
  time_zone = [];
  buffers = [];
  hours = no_hours_set;
  enabled = true;
}

abbrev everything : Filter
everything = record {
  title_regex = [];
  color_ids = [];
  attendee_any = [];
  free_busy = [];
  all_day = [];
  start_hour = 0;
  end_hour = 0;
}

abbrev both_ways : SyncRule
both_ways = record {
  id = 5;
  source_calendar_id = 1;
  target_calendar_id = 2;
  direction = codes "bidirectional";
  filter = some everything;
  transform = none;
  backfill_days = 30;
  backfill_done = false;
  enabled = true;
  visibility_mode = codes "busy";
  all_day_mode = codes "skip";
  working_hours_only = false;
}

abbrev busy : Transform
busy = record {
  title_template = codes "Busy";
  mark_busy = true;
  strip_attendees = true;
  strip_description = true;
  visibility = codes "private";
}

abbrev stale_link : EventLink
stale_link = record {
  id = 1;
  rule_id = 5;
  source_account_id = 1;
  source_calendar_id = 1;
  source_event_id = codes "s";
  target_account_id = 2;
  target_calendar_id = 2;
  target_event_id = codes "m";
  source_etag = codes "old";
  target_etag = codes "t";
}

abbrev linked : World
linked = record {
  calendars = work ∷ home ∷ [];
  rules = both_ways ∷ [];
  links = stale_link ∷ [];
  next_link = 2;
  audit = [];
  calls = [];
  tick = 0;
}

linked-Inv : Inv linked
unfolding find_link
linked-Inv = record { keyed = (refl, tt); marks = tt }

process_change-Inv_example : Inv (process_change answering plain_go no_hours 1 standup linked).1
process_change-Inv_example =
    process_change-Inv answering plain_go no_hours 1 standup linked linked-Inv

process_change-IsQuiet_example :
    All
      (IsQuiet answering plain_go no_hours)
      (process_change answering plain_go no_hours 1 standup linked).1.calls
process_change-IsQuiet_example =
    process_change-IsQuiet answering plain_go no_hours 1 standup linked refl

-- The standup's mirror is updated, and its link holds the new etag.
standup_mirrored :
    etag_of (
      find_link 5 (codes "s") (process_change answering plain_go no_hours 1 standup linked).1.links)
    ≡ some (codes "e0")
unfolding process_change list_rules rules_for run_rules audited apply_rule is_managed marked
    mirror_event get_calendar find_calendar propagate link_key get_link find_link get_client
    reconcile reconcile_with transform_of transform_for_mode qualifies match_event title_passes
    color_passes attendee_passes free_busy_passes all_day_passes hours_pass allowed_by_all_day_mode
    is_all_day_event write_or_drop write_mirror unchanged update_event saving record_mirror
    upsert_link write_audit put_link query ◌>>=◌ ◌>>◌ ignore or_fail text_eq
standup_mirrored = refl

apply_rule_settles_example :
    ((apply_rule answering plain_go no_hours both_ways standup false linked).0 ≡ ok tt)
    × (etag_of (
          find_link 5
            (link_key answering plain_go no_hours standup false)
            (apply_rule answering plain_go no_hours both_ways standup false linked).1.links)
        ≡ some (codes "e0"))
    × ((apply_rule answering plain_go no_hours both_ways standup false linked).1.calls
        ≡ needed_calls both_ways standup home.google_calendar_id
            (mirror_of answering plain_go no_hours both_ways busy standup)
            (find_link 5 (link_key answering plain_go no_hours standup false) linked.links)
            true
          ++ linked.calls)
unfolding is_managed marked find_calendar find_link match_event title_passes color_passes
    attendee_passes free_busy_passes all_day_passes hours_pass allowed_by_all_day_mode
    is_all_day_event transform_for_mode text_eq
apply_rule_settles_example =
    apply_rule_settles answering answering-Answers plain_go no_hours both_ways standup false work
      home everything busy true linked refl (refl, tt) refl refl refl refl refl refl

apply_rule_twice_example :
    (apply_rule answering plain_go no_hours both_ways standup false
      (apply_rule answering plain_go no_hours both_ways standup false linked).1).1.calls
    ≡ (apply_rule answering plain_go no_hours both_ways standup false linked).1.calls
unfolding find_calendar find_link match_event title_passes color_passes attendee_passes
    free_busy_passes all_day_passes hours_pass allowed_by_all_day_mode is_all_day_event
    transform_for_mode text_eq
apply_rule_twice_example =
    apply_rule_twice answering answering-Answers plain_go no_hours both_ways standup false work home
      everything busy true linked (refl, tt) refl refl refl refl refl refl refl

apply_rule_err_example :
    (apply_rule refusing plain_go no_hours both_ways standup false linked).1.links ≡ linked.links
unfolding apply_rule is_managed marked mirror_event get_calendar find_calendar propagate link_key
    get_link find_link get_client reconcile reconcile_with transform_of transform_for_mode qualifies
    match_event title_passes color_passes attendee_passes free_busy_passes all_day_passes hours_pass
    allowed_by_all_day_mode is_all_day_event write_or_drop write_mirror unchanged update_event
    saving query ◌>>=◌ ◌>>◌ or_fail text_eq
apply_rule_err_example =
    apply_rule_err refusing plain_go no_hours both_ways standup false linked google_failed refl
