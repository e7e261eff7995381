-- ===== src/Sync/Engine/Store.antt =====
-- The rows and the calls of the rule engine.
pub mod Links
use skulid.Base.{
  ℕ, suc, Bool, true, false, not, ◌&&◌, ◌||◌, List, [], ◌∷◌, ◌++◌, Option, none, some, ◌==◌,
  if◌then◌else◌, Text, codes, text_eq, is_nil,
}
use skulid.Sync.Outside.{
  query_failed, no_row, no_client, google_failed, Result, ok, err, M, then_do, ◌>>=◌, ◌>>◌, pure,
  or_fail, ignore, Saved, Outside,
}
use skulid.Sync.Event.{Event, Calendar}
use skulid.Sync.Filter.{Filter}
use skulid.Sync.Transform.{Transform}

pub record EventLink : Type 0 where
  pub id : ℕ
  pub rule_id : ℕ
  pub source_account_id : ℕ
  pub source_calendar_id : ℕ
  pub source_event_id : Text
  pub target_account_id : ℕ
  pub target_calendar_id : ℕ
  pub target_event_id : Text
  pub source_etag : Text
  pub target_etag : Text

-- `filter` and `transform` are none where their column does not parse.
pub record SyncRule : Type 0 where
  pub id : ℕ
  pub source_calendar_id : ℕ
  pub target_calendar_id : ℕ
  pub direction : Text
  pub filter : Option Filter
  pub transform : Option Transform
  pub backfill_days : ℕ
  pub backfill_done : Bool
  pub enabled : Bool
  pub visibility_mode : Text
  pub all_day_mode : Text
  pub working_hours_only : Bool

pub data Call : Type 0 where
  insert : Text → Event → Call
  update : Text → Text → Event → Call
  delete : Text → Text → Call

pub record Audit : Type 0 where
  pub rule_id : ℕ
  pub source_event_id : Text
  pub target_event_id : Text
  pub action : Text

-- The tables, the calls made to Google, newest first, and the number of steps outside so far.
pub record World : Type 0 where
  pub calendars : List Calendar
  pub rules : List SyncRule
  pub links : List EventLink
  pub next_link : ℕ
  pub audit : List Audit
  pub calls : List Call
  pub tick : ℕ

abbrev pub next : World → World
next w = record w { tick = suc w.tick }

abbrev pub has_key : ℕ → Text → EventLink → Bool
has_key rule_id key l = l.rule_id == rule_id && text_eq l.source_event_id key

unfoldable pub find_link : ℕ → Text → List EventLink → Option EventLink
find_link rule_id key [] = none
find_link rule_id key (l ∷ ls) = if has_key rule_id key l then some l else find_link rule_id key ls

unfoldable pub remove_link : ℕ → List EventLink → List EventLink
remove_link id [] = []
remove_link id (l ∷ ls) = if l.id == id then remove_link id ls else l ∷ remove_link id ls

-- `ON CONFLICT … DO UPDATE`: the columns that it names take the new values.
abbrev pub merge_row : EventLink → EventLink → EventLink
merge_row old new = record old {
  target_account_id = new.target_account_id;
  target_calendar_id = new.target_calendar_id;
  target_event_id = new.target_event_id;
  source_etag = new.source_etag;
  target_etag = new.target_etag;
}

unfoldable pub put_link : EventLink → List EventLink → List EventLink
put_link new [] = new ∷ []
put_link new (l ∷ ls) =
    if has_key new.rule_id new.source_event_id l then merge_row l new ∷ ls else l ∷ put_link new ls

-- A row that is new takes the next id.
abbrev pub upserted : EventLink → World → World
upserted l w = record w {
  links = put_link (record l { id = w.next_link }) w.links;
  next_link = suc w.next_link;
}

unfoldable pub find_calendar : ℕ → List Calendar → Option Calendar
find_calendar id [] = none
find_calendar id (c ∷ cs) = if c.id == id then some c else find_calendar id cs

unfoldable pub find_rule : ℕ → List SyncRule → Option SyncRule
find_rule id [] = none
find_rule id (r ∷ rs) = if r.id == id then some r else find_rule id rs

unfoldable pub set_done : ℕ → List SyncRule → List SyncRule
set_done id [] = []
set_done id (r ∷ rs) =
    (if r.id == id then record r { backfill_done = true } else r) ∷ set_done id rs

-- The rules whose source is the calendar, or whose target it is if they are bidirectional.
unfoldable pub rules_for : ℕ → List SyncRule → List SyncRule
rules_for id [] = []
rules_for id (r ∷ rs) =
    let rest = rules_for id rs in
    if r.enabled
      && (r.source_calendar_id == id
          || text_eq r.direction (codes "bidirectional") && r.target_calendar_id == id)
    then r ∷ rest
    else rest

module _ (out : Outside) where
  unfoldable pub query : {A : Type 0} → (World → Option A × World) → M World A
  query run w =
      if out.query_ok w.tick
      then or_fail no_row (run w).0 (next (run w).1)
      else (err query_failed, next w)

  unfoldable pub get_calendar : ℕ → M World Calendar
  get_calendar id = query (λ w. (find_calendar id w.calendars, w))

  unfoldable pub get_account : M World (Unit {0})
  get_account = query (λ w. (some tt, w))

  unfoldable pub get_link : ℕ → Text → M World (Option EventLink)
  get_link rule_id key = query (λ w. (some (find_link rule_id key w.links), w))

  unfoldable pub delete_link : ℕ → M World (Unit {0})
  delete_link id = query (λ w. (some tt, record w { links = remove_link id w.links }))

  unfoldable pub upsert_link : EventLink → M World (Unit {0})
  upsert_link l = query (λ w. (some tt, upserted l w))

  unfoldable pub write_audit : Audit → M World (Unit {0})
  write_audit a = query (λ w. (some tt, record w { audit = a ∷ w.audit }))

  unfoldable pub get_client : M World (Unit {0})
  get_client w = if out.client_ok w.tick then (ok tt, next w) else (err no_client, next w)

  unfoldable pub saving : Call → M World Saved
  saving call w =
      or_fail google_failed (out.saved w.tick) (next (record w { calls = call ∷ w.calls }))

  unfoldable pub insert_event : Text → Event → M World Saved
  insert_event cal ev = saving (insert cal ev)

  unfoldable pub update_event : Text → Text → Event → M World Saved
  update_event cal id ev = saving (update cal id ev)

  unfoldable pub delete_event : Text → Text → M World (Unit {0})
  delete_event cal id w =
      let w' = next (record w { calls = delete cal id ∷ w.calls }) in
      if out.deleted w.tick then (ok tt, w') else (err google_failed, w')

  unfoldable pub list_rules : ℕ → M World (List SyncRule)
  list_rules id = query (λ w. (some (rules_for id w.rules), w))

  unfoldable pub get_rule : ℕ → M World SyncRule
  get_rule id = query (λ w. (find_rule id w.rules, w))

  unfoldable pub mark_backfill_done : ℕ → M World (Unit {0})
  mark_backfill_done id = query (λ w. (some tt, record w { rules = set_done id w.rules }))

  -- `IncrementalSync` with no token: what Google answers is the events since an instant.
  unfoldable pub incremental_sync : M World (List Event)
  incremental_sync w = or_fail google_failed (out.synced w.tick) (next w)
