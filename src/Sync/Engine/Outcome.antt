-- ===== src/Sync/Engine/Outcome.antt =====
-- What a rule does to its mirror when the database and Google answer.
use mathlib.Core.Path.{subst, sym}
use skulid.Base.{
  ℕ, suc, ◌≡◌, refl, Bool, true, false, not, ◌&&◌, List, [], ◌∷◌, ◌++◌, Option, none, some,
  if◌then◌else◌, Text, codes, text_eq, text_eq_iff, is_nil, arith, Option-cases,
}
use skulid.Sync.Outside.{ok, M, ◌>>=◌, ◌>>◌, ignore, or_fail, Saved, Outside, no_row}
use skulid.Sync.Event.{Event, Calendar, is_managed}
use skulid.Sync.Filter.{Runtime, Stamp, Filter, date_time_of, match_event, allowed_by_all_day_mode}
use skulid.Hours.Window.{covers}
use skulid.Hours.Ranges.{Clock}
use skulid.Hours.Expand.{WorkingHours, Location, expand}
use skulid.Sync.Transform.{Transform, transform_for_mode}
use skulid.Sync.Engine.Store.{
  World, EventLink, SyncRule, Call, insert, update, delete, find_link, next, find_calendar, query,
  saving, get_account, get_calendar, get_link, delete_link, upsert_link, write_audit, get_client,
  insert_event, update_event, delete_event,
}
use skulid.Sync.Engine.Store.Links.{IsKeyed, etag_of, find_link-remove_link, find_link-put_link}
use skulid.Sync.Engine.{
  HoursOf, starts_in_hours, covered_by_hours, event_within_working_hours, qualifies, drop_mirror,
  transform_of, mirror_of, unchanged, record_mirror, record_drop, write_mirror, write_or_drop,
  reconcile_with, reconcile, link_key, propagate, mirror_event, apply_rule, link_of,
}

-- The database and Google answer every call.
pub record Answers (out : Outside) : Type 0 where
  pub queries : (n : ℕ) → out.query_ok n ≡ true
  pub clients : (n : ℕ) → out.client_ok n ≡ true
  pub saves : ℕ → Saved
  pub saved_is : (n : ℕ) → out.saved n ≡ some (saves n)
  pub deletes : (n : ℕ) → out.deleted n ≡ true

abbrev at_midnight : Clock
at_midnight = record { hour = 0; minute = 0 }

-- The answer of the working hours, with no state: none where something does not load.
abbrev hours_answer : Stamp → Option (WorkingHours × Location) → Option Bool
hours_answer at none = none
hours_answer at (some (wh, loc)) =
    let day = loc.date_at at.instant at_midnight in
    some (covers at.instant (expand wh day (loc.next_day day) loc))

abbrev stamp_answer : HoursOf → Calendar → Option Stamp → Option Bool
stamp_answer hours_of cal none = none
stamp_answer hours_of cal (some at) = hours_answer at (hours_of cal)

-- Whether a rule mirrors an event of a calendar: its filter, its mode for whole days and, where it
-- asks for them, the working hours.
abbrev pub decides : Runtime → HoursOf → SyncRule → Filter → Calendar → Event → Option Bool
decides go hours_of rule f src ev =
    let matches = match_event go f ev && allowed_by_all_day_mode rule.all_day_mode ev in
    if matches && rule.working_hours_only
    then if is_nil (date_time_of ev.start)
      then some true
      else stamp_answer hours_of src (go.parse_time (date_time_of ev.start))
    else some matches

-- The transform of a rule: its mode's, or the stored one where it has no mode.
abbrev pub chosen : SyncRule → Option Transform
chosen rule =
    if is_nil rule.visibility_mode
    then rule.transform
    else some (transform_for_mode rule.visibility_mode)

abbrev called : Call → World → World
called call w = next (record w { calls = call ∷ w.calls })

-- The source has not changed since a bidirectional rule last saw it.
abbrev pub is_seen : SyncRule → Event → EventLink → Bool
is_seen rule ev link =
    text_eq rule.direction (codes "bidirectional")
    && not (is_nil ev.etag)
    && text_eq ev.etag link.source_etag

-- What a rule has to ask Google for, by the link that there is and whether there should be a mirror.
abbrev pub needed_calls : SyncRule → Event → Text → Event → Option EventLink → Bool → List Call
needed_calls rule ev cal mirror none false = []
needed_calls rule ev cal mirror none true = insert cal mirror ∷ []
needed_calls rule ev cal mirror (some link) false = delete cal link.target_event_id ∷ []
needed_calls rule ev cal mirror (some link) true =
    if is_seen rule ev link then [] else update cal link.target_event_id mirror ∷ []

module _ (out : Outside) (a : Answers out) where
  pub query-ok :
      {A : Type 0} (run : World → Option A × World) (w : World)
      → query out run w ≡ or_fail no_row (run w).0 (next (run w).1)
  unfolding query
  query-ok run w = ground (arith, a.queries w.tick)

  module _ (go : Runtime) (hours_of : HoursOf) where
    drop_mirror-ok :
        (rule : SyncRule) (tgt : Calendar) (ev : Event) (existing : Option EventLink)
        (action key : Text) (mirror : Event) (w : World)
        → IsKeyed w.links
        → find_link rule.id key w.links ≡ existing
        → ((drop_mirror out go hours_of rule tgt ev existing action w).0 ≡ ok tt)
          × (find_link rule.id key
                (drop_mirror out go hours_of rule tgt ev existing action w).1.links
              ≡ none)
          × ((drop_mirror out go hours_of rule tgt ev existing action w).1.calls
              ≡ needed_calls rule ev tgt.google_calendar_id mirror existing false ++ w.calls)
    unfolding drop_mirror record_drop delete_event delete_link write_audit ignore ◌>>◌ ◌>>=◌ or_fail
        query
    drop_mirror-ok rule tgt ev none action key mirror w k h = (refl, h, refl)
    drop_mirror-ok rule tgt ev (some link) action key mirror w k h = ground (
      arith,
      a.deletes w.tick,
      a.queries (suc w.tick),
      a.queries (suc (suc w.tick)),
      find_link-remove_link rule.id key w.links link k h,
    )

    record_mirror-ok :
        (rule : SyncRule) (src tgt : Calendar) (ev : Event) (key action : Text) (saved : Saved)
        (w : World)
        → ((record_mirror out go hours_of rule src tgt ev key action saved w).0 ≡ ok tt)
          × (etag_of (
                find_link rule.id key
                  (record_mirror out go hours_of rule src tgt ev key action saved w).1.links)
              ≡ some ev.etag)
          × ((record_mirror out go hours_of rule src tgt ev key action saved w).1.calls ≡ w.calls)
    unfolding record_mirror upsert_link write_audit ignore ◌>>◌ ◌>>=◌ or_fail query link_of
    record_mirror-ok rule src tgt ev key action saved w = ground (
      arith,
      a.queries w.tick,
      a.queries (suc w.tick),
      find_link-put_link
          (record (link_of out go hours_of rule src tgt ev key saved) { id = w.next_link }) w.links,
    )

    write_mirror-ok :
        (rule : SyncRule) (src tgt : Calendar) (ev : Event) (key : Text) (mirror : Event)
        (existing : Option EventLink) (w : World)
        → find_link rule.id key w.links ≡ existing
        → ((write_mirror out go hours_of rule src tgt ev key mirror existing w).0 ≡ ok tt)
          × (etag_of (
                find_link rule.id key
                  (write_mirror out go hours_of rule src tgt ev key mirror existing w).1.links)
              ≡ some ev.etag)
          × ((write_mirror out go hours_of rule src tgt ev key mirror existing w).1.calls
              ≡ needed_calls rule ev tgt.google_calendar_id mirror existing true ++ w.calls)
    unfolding write_mirror insert_event update_event unchanged saving ◌>>=◌ or_fail
    write_mirror-ok rule src tgt ev key mirror none w h = ground (
      arith,
      a.saved_is w.tick,
      record_mirror-ok rule src tgt ev key (codes "create") (a.saves w.tick)
          (called (insert tgt.google_calendar_id mirror) w),
    )
    write_mirror-ok rule src tgt ev key mirror (some link) w h = ground (
      arith,
      a.saved_is w.tick,
      text_eq_iff ev.etag link.source_etag,
      record_mirror-ok rule src tgt ev key (codes "update") (a.saves w.tick)
          (called (update tgt.google_calendar_id link.target_event_id mirror) w),
    )

    pub starts_in_hours-ok :
        (cal : Calendar) (at : Option Stamp) (w : World) (b : Bool)
        → stamp_answer hours_of cal at ≡ some b
        → ((starts_in_hours out go hours_of cal at w).0 ≡ ok b)
          × ((starts_in_hours out go hours_of cal at w).1.links ≡ w.links)
          × ((starts_in_hours out go hours_of cal at w).1.calls ≡ w.calls)
    unfolding starts_in_hours covered_by_hours get_account query ◌>>◌ ◌>>=◌ or_fail
    starts_in_hours-ok cal none w b h = ground arith
    starts_in_hours-ok cal (some at) w b h =
        ground (arith, a.queries w.tick, Option-cases (hours_of cal))

    pub qualifies-ok :
        (rule : SyncRule) (f : Filter) (src : Calendar) (ev : Event) (w : World) (b : Bool)
        → decides go hours_of rule f src ev ≡ some b
        → ((qualifies out go hours_of rule f src ev w).0 ≡ ok b)
          × ((qualifies out go hours_of rule f src ev w).1.links ≡ w.links)
          × ((qualifies out go hours_of rule f src ev w).1.calls ≡ w.calls)
    unfolding qualifies event_within_working_hours
    qualifies-ok rule f src ev w b h =
        ground (arith, starts_in_hours-ok src (go.parse_time (date_time_of ev.start)) w b)

    -- The state of the mirror that a rule and an event call for.
    abbrev pub settled : Event → Bool → Option Text
    settled ev b = if b then some ev.etag else none

    abbrev Settles : SyncRule → Text → Option Text → List Call → M World (Unit {0}) → World → Type 0
    Settles rule key etag calls m w =
        ((m w).0 ≡ ok tt)
        × (etag_of (find_link rule.id key (m w).1.links) ≡ etag)
        × ((m w).1.calls ≡ calls ++ w.calls)

    abbrev pub calls_for :
        SyncRule → Calendar → Event → Transform → Option EventLink → Bool → List Call
    calls_for rule tgt ev t existing b =
        needed_calls rule ev tgt.google_calendar_id (mirror_of out go hours_of rule t ev) existing b

    write_or_drop-ok :
        (rule : SyncRule) (src tgt : Calendar) (ev : Event) (key : Text)
        (existing : Option EventLink) (t : Transform) (b : Bool) (w : World) (ls : List EventLink)
        → w.links ≡ ls
        → IsKeyed ls
        → find_link rule.id key ls ≡ existing
        → Settles rule key
            (settled ev b)
            (calls_for rule tgt ev t existing b)
            (write_or_drop out go hours_of rule src tgt ev key existing t b)
            w
    unfolding write_or_drop
    write_or_drop-ok rule src tgt ev key existing t b w ls e k h = ground (
      arith,
      write_mirror-ok rule src tgt ev key (mirror_of out go hours_of rule t ev) existing w,
      drop_mirror-ok rule tgt ev existing (codes "filter_drop") key
          (mirror_of out go hours_of rule t ev) w (subst IsKeyed (sym e) k),
    )

    reconcile-ok :
        (rule : SyncRule) (src tgt : Calendar) (ev : Event) (key : Text)
        (existing : Option EventLink) (f : Filter) (t : Transform) (b : Bool) (w : World)
        → IsKeyed w.links
        → find_link rule.id key w.links ≡ existing
        → rule.filter ≡ some f
        → chosen rule ≡ some t
        → decides go hours_of rule f src ev ≡ some b
        → Settles rule key
            (settled ev b)
            (calls_for rule tgt ev t existing b)
            (reconcile out go hours_of rule src tgt ev key existing)
            w
    unfolding reconcile reconcile_with transform_of ◌>>=◌ or_fail
    reconcile-ok rule src tgt ev key existing f t b w k h p q d = ground (
      arith,
      qualifies-ok rule f src ev w b d,
      write_or_drop-ok rule src tgt ev key existing t b
          (qualifies out go hours_of rule f src ev w).1 w.links (qualifies-ok rule f src ev w b d).1
          k,
    )

    abbrev pub wanted : Event → Bool → Bool
    wanted ev b = b && not (text_eq ev.status (codes "cancelled"))

    propagate-ok :
        (rule : SyncRule) (src tgt : Calendar) (ev : Event) (key : Text) (f : Filter)
        (t : Transform) (b : Bool) (w : World)
        → IsKeyed w.links
        → rule.filter ≡ some f
        → chosen rule ≡ some t
        → decides go hours_of rule f src ev ≡ some b
        → Settles rule key
            (settled ev (wanted ev b))
            (calls_for rule tgt ev t (find_link rule.id key w.links) (wanted ev b))
            (propagate out go hours_of rule src tgt ev key)
            w
    unfolding propagate get_link get_client query ◌>>=◌ ◌>>◌ or_fail
    propagate-ok rule src tgt ev key f t b w k p q d =
        let existing = find_link rule.id key w.links in
        let w' = next (next w) in
        ground (
          arith,
          a.queries w.tick,
          a.clients (suc w.tick),
          drop_mirror-ok rule tgt ev existing (codes "delete") key
              (mirror_of out go hours_of rule t ev) w' k refl,
          reconcile-ok rule src tgt ev key existing f t b w' k refl p q d,
        )

    -- When the database and Google answer, both calendars of a rule are there and enabled, its
    -- filter and its transform decode, and the test of the event's hours can be made, the rule ends
    -- without an error on an event that skulid did not write, and the mirror is in step with the
    -- event. If the event passes the rule and is not cancelled, the link of the event holds its
    -- etag, and Google was asked for the mirror, to insert it where there was no link and else to
    -- update it, unless a bidirectional rule had seen this etag and it is not empty. Otherwise
    -- there is no link, and Google was asked to delete the mirror where there was a link. Nothing
    -- else was asked of Google.
    pub apply_rule_settles :
        (rule : SyncRule) (ev : Event) (reverse : Bool) (src tgt : Calendar) (f : Filter)
        (t : Transform) (b : Bool) (w : World)
        → is_managed ev ≡ false
        → IsKeyed w.links
        → find_calendar
            (if reverse then rule.target_calendar_id else rule.source_calendar_id)
            w.calendars
          ≡ some src
        → find_calendar
            (if reverse then rule.source_calendar_id else rule.target_calendar_id)
            w.calendars
          ≡ some tgt
        → (src.enabled && tgt.enabled) ≡ true
        → rule.filter ≡ some f
        → chosen rule ≡ some t
        → decides go hours_of rule f src ev ≡ some b
        → ((apply_rule out go hours_of rule ev reverse w).0 ≡ ok tt)
          × (etag_of (
                find_link rule.id
                  (link_key out go hours_of ev reverse)
                  (apply_rule out go hours_of rule ev reverse w).1.links)
              ≡ (if b && not (text_eq ev.status (codes "cancelled")) then some ev.etag else none))
          × ((apply_rule out go hours_of rule ev reverse w).1.calls
              ≡ needed_calls rule ev tgt.google_calendar_id
                  (mirror_of out go hours_of rule t ev)
                  (find_link rule.id (link_key out go hours_of ev reverse) w.links)
                  (b && not (text_eq ev.status (codes "cancelled")))
                ++ w.calls)
    unfolding apply_rule mirror_event get_calendar query ◌>>=◌ or_fail
    apply_rule_settles rule ev reverse src tgt f t b w m k hs ht en p q d = ground (
      arith,
      a.queries w.tick,
      a.queries (suc w.tick),
      propagate-ok rule src tgt ev (link_key out go hours_of ev reverse) f t b (next (next w)) k p q
          d,
    )
