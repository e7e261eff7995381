-- ===== src/Sync/Engine.antt =====
-- internal/sync/rule_engine.go: `Engine`, over the tables of internal/db/event_links.go,
-- internal/db/calendars.go and internal/db/rules.go. What a rule's JSON columns hold is decoded.
pub mod Store
pub mod Steps
pub mod Invariant
mod Examples
pub mod Outcome
pub mod Echo
pub mod Errors
pub mod Twice
use skulid.Base.{
  ℕ, suc, Bool, true, false, not, ◌&&◌, ◌||◌, List, [], ◌∷◌, ◌++◌, Option, none, some, ◌==◌,
  if◌then◌else◌, Text, codes, text_eq, is_nil,
}
use skulid.Hours.Window.{Window, inside, covers}
use skulid.Hours.Ranges.{Clock}
use skulid.Hours.Expand.{WorkingHours, Location, expand}
use skulid.Sync.Outside.{
  Error, no_client, bad_filter, bad_transform, bad_hours, Result, ok, err, M, then_do, ◌>>=◌, ◌>>◌,
  pure, or_fail, ignore, Saved, Outside,
}
use skulid.Sync.Event.{Event, Calendar, is_managed, managed_props}
use skulid.Sync.Filter.{Runtime, Stamp, Filter, date_time_of, match_event, allowed_by_all_day_mode}
use skulid.Sync.Transform.{Transform, transform_for_mode, apply}
use Store.{
  World, EventLink, SyncRule, Audit, get_account, get_calendar, get_link, delete_link, upsert_link,
  write_audit, get_client, insert_event, update_event, delete_event, list_rules, get_rule,
  mark_backfill_done, incremental_sync,
}

abbrev midnight : Clock
midnight = record { hour = 0; minute = 0 }

-- The account's and the calendar's hours with their time zone, or none where they do not load.
abbrev pub HoursOf : Type 0
HoursOf = Calendar → Option (WorkingHours × Location)

module _ (out : Outside) (go : Runtime) (hours_of : HoursOf) where
  pub covered_by_hours : Calendar → Stamp → M World Bool
  covered_by_hours cal at = do
    hours ← or_fail bad_hours (hours_of cal)
    let loc = hours.1
    let day = loc.date_at at.instant midnight
    pure (covers at.instant (expand hours.0 day (loc.next_day day) loc))

  pub starts_in_hours : Calendar → Option Stamp → M World Bool
  starts_in_hours cal none = λ w. (err bad_hours, w)
  starts_in_hours cal (some at) = do get_account out; covered_by_hours cal at

  -- An event of whole days, or with no start, passes.
  pub event_within_working_hours : Calendar → Event → M World Bool
  unfolding starts_in_hours
  event_within_working_hours cal ev =
      if is_nil (date_time_of ev.start)
      then pure true
      else starts_in_hours cal (go.parse_time (date_time_of ev.start))

  pub qualifies : SyncRule → Filter → Calendar → Event → M World Bool
  qualifies rule filter src ev =
      let matches = match_event go filter ev && allowed_by_all_day_mode rule.all_day_mode ev in
      if matches && rule.working_hours_only then event_within_working_hours src ev else pure matches

  -- That the link could not be deleted is not noticed.
  pub record_drop : SyncRule → Event → EventLink → Text → M World (Unit {0})
  record_drop rule ev link action = do
    ignore (delete_link out link.id)
    ignore (
        write_audit out (record {
          rule_id = rule.id;
          source_event_id = ev.id;
          target_event_id = link.target_event_id;
          action = action;
        }))

  -- The mirror goes, if there is one.
  pub drop_mirror : SyncRule → Calendar → Event → Option EventLink → Text → M World (Unit {0})
  drop_mirror rule tgt ev none action = pure tt
  drop_mirror rule tgt ev (some link) action = do
    delete_event out tgt.google_calendar_id link.target_event_id
    record_drop rule ev link action

  pub transform_of : SyncRule → M World Transform
  transform_of rule =
      if is_nil rule.visibility_mode
      then or_fail bad_transform rule.transform
      else pure (transform_for_mode rule.visibility_mode)

  pub mirror_of : SyncRule → Transform → Event → Event
  mirror_of rule t ev = record (apply t ev) { props = managed_props rule.id ev.id }

  -- The source has not changed since a bidirectional rule last saw it.
  pub unchanged : SyncRule → Event → EventLink → Bool
  unchanged rule ev link =
      text_eq rule.direction (codes "bidirectional")
      && not (is_nil ev.etag)
      && text_eq ev.etag link.source_etag

  pub link_of : SyncRule → Calendar → Calendar → Event → Text → Saved → EventLink
  link_of rule src tgt ev key saved = record {
    id = 0;
    rule_id = rule.id;
    source_account_id = src.account_id;
    source_calendar_id = src.id;
    source_event_id = key;
    target_account_id = tgt.account_id;
    target_calendar_id = tgt.id;
    target_event_id = saved.id;
    source_etag = ev.etag;
    target_etag = saved.etag;
  }

  -- The link and the audit entry of a mirror that Google has saved.
  pub record_mirror :
      SyncRule → Calendar → Calendar → Event → Text → Text → Saved → M World (Unit {0})
  unfolding link_of
  record_mirror rule src tgt ev key action saved = do
    upsert_link out (link_of rule src tgt ev key saved)
    ignore (
        write_audit out (record {
          rule_id = rule.id;
          source_event_id = ev.id;
          target_event_id = saved.id;
          action = action;
        }))

  pub write_mirror :
      SyncRule → Calendar → Calendar → Event → Text → Event → Option EventLink → M World (Unit {0})
  write_mirror rule src tgt ev key mirror none = do
    saved ← insert_event out tgt.google_calendar_id mirror
    record_mirror rule src tgt ev key (codes "create") saved
  write_mirror rule src tgt ev key mirror (some link) =
      if unchanged rule ev link then pure tt else do
        saved ← update_event out tgt.google_calendar_id link.target_event_id mirror
        record_mirror rule src tgt ev key (codes "update") saved

  pub write_or_drop :
      SyncRule
      → Calendar
      → Calendar
      → Event
      → Text
      → Option EventLink
      → Transform
      → Bool
      → M World (Unit {0})
  write_or_drop rule src tgt ev key existing t matches =
      if matches
      then write_mirror rule src tgt ev key (mirror_of rule t ev) existing
      else drop_mirror rule tgt ev existing (codes "filter_drop")

  pub reconcile_with :
      SyncRule → Calendar → Calendar → Event → Text → Option EventLink → Filter → M World (Unit {0})
  reconcile_with rule src tgt ev key existing filter = do
    transform ← transform_of rule
    matches ← qualifies rule filter src ev
    write_or_drop rule src tgt ev key existing transform matches

  pub reconcile :
      SyncRule → Calendar → Calendar → Event → Text → Option EventLink → M World (Unit {0})
  reconcile rule src tgt ev key existing = do
    filter ← or_fail bad_filter rule.filter
    reconcile_with rule src tgt ev key existing filter

  -- The synthetic key of a reverse pass keeps it from the forward pass's link.
  pub link_key : Event → Bool → Text
  link_key ev reverse = if reverse then codes "rev:" ++ ev.id else ev.id

  pub propagate : SyncRule → Calendar → Calendar → Event → Text → M World (Unit {0})
  propagate rule src tgt ev key = do
    existing ← get_link out rule.id key
    get_client out
    if text_eq ev.status (codes "cancelled")
        then drop_mirror rule tgt ev existing (codes "delete")
        else reconcile rule src tgt ev key existing

  pub mirror_event : SyncRule → Event → Bool → M World (Unit {0})
  mirror_event rule ev reverse = do
    src ← get_calendar out (if reverse then rule.target_calendar_id else rule.source_calendar_id)
    tgt ← get_calendar out (if reverse then rule.source_calendar_id else rule.target_calendar_id)
    if not src.enabled || not tgt.enabled
        then pure tt
        else propagate rule src tgt ev (link_key ev reverse)

  -- The loop guard comes first: an event that skulid wrote is never passed on.
  pub apply_rule : SyncRule → Event → Bool → M World (Unit {0})
  apply_rule rule ev reverse = if is_managed ev then pure tt else mirror_event rule ev reverse

  -- An error is written to the audit log, and the next rule runs.
  pub audited : SyncRule → Event → Result (Unit {0}) → M World (Unit {0})
  audited rule ev (ok a) = pure tt
  audited rule ev (err x) = ignore (
      write_audit out (record {
        rule_id = rule.id;
        source_event_id = ev.id;
        target_event_id = [];
        action = codes "error";
      }))

  pub run_rules : ℕ → Event → List SyncRule → M World (Unit {0})
  unfolding audited
  run_rules calendar_id ev [] = pure tt
  run_rules calendar_id ev (rule ∷ rules) = λ w.
      let applied = apply_rule rule ev (not (rule.source_calendar_id == calendar_id)) w in
      (audited rule ev applied.0 >> run_rules calendar_id ev rules) applied.1

  pub process_change : ℕ → Event → M World (Unit {0})
  process_change calendar_id ev = do
    rules ← list_rules out calendar_id
    run_rules calendar_id ev rules

  -- The loop of `Backfill`: an error is logged, and the next event follows.
  pub apply_events : SyncRule → List Event → M World (Unit {0})
  apply_events rule [] = pure tt
  apply_events rule (ev ∷ events) = do ignore (apply_rule rule ev false); apply_events rule events

  pub walk_history : SyncRule → M World (Unit {0})
  walk_history rule = do
    src ← get_calendar out rule.source_calendar_id
    get_client out
    events ← incremental_sync out
    apply_events rule events
    mark_backfill_done out rule.id
    ignore (
        write_audit out (record {
          rule_id = rule.id;
          source_event_id = [];
          target_event_id = [];
          action = codes "backfill_complete";
        }))

  pub backfill : ℕ → M World (Unit {0})
  backfill rule_id = do
    rule ← get_rule out rule_id
    if rule.backfill_days == 0 then pure tt else walk_history rule
