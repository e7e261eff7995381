-- ===== src/Sync/Engine/Steps.antt =====
-- What the steps of the engine keep of its state, whatever the database and Google answer.
use skulid.Base.{
  ℕ, ◌≡◌, refl, Bool, true, false, List, [], ◌∷◌, Option, none, some, ◌==◌, if◌then◌else◌, Text,
  codes, text_eq, is_nil,
}
use skulid.Sync.Outside.{Result, ok, err, ignore, Saved, Outside}
use skulid.Sync.Outside.Rules.{Keeps, bind-Keeps, then-Keeps, or_fail-Keeps, ignore-Keeps, if-Keeps}
use skulid.Sync.Event.{Event, Calendar, is_managed, managed_props, marked}
use skulid.Sync.Filter.{Runtime, Stamp, Filter, date_time_of}
use skulid.Sync.Transform.{Transform}
use skulid.Sync.Engine.Store.{
  World, EventLink, SyncRule, Audit, Call, insert, update, delete, remove_link, next, upserted,
  query, saving, get_account, get_calendar, get_link, delete_link, upsert_link, write_audit,
  get_client, insert_event, update_event, delete_event, list_rules, set_done, get_rule,
  mark_backfill_done, incremental_sync,
}
use skulid.Sync.Engine.{
  HoursOf, starts_in_hours, covered_by_hours, record_drop, event_within_working_hours, qualifies,
  drop_mirror, transform_of, mirror_of, unchanged, record_mirror, write_mirror, write_or_drop,
  reconcile_with, reconcile, propagate, mirror_event, apply_rule, run_rules, audited,
  process_change, apply_events, walk_history, backfill,
}

-- What is written to a calendar carries the mark of a managed event.
abbrev pub IsMarked : Call → Type 0
IsMarked (insert cal ev) = is_managed ev ≡ true
IsMarked (update cal id ev) = is_managed ev ≡ true
IsMarked (delete cal id) = Unit {0}

-- What every step of the engine keeps: the number of steps, the audit log, the links and the calls
-- change only in these ways.
pub record Stable (P : World → Type 0) : Type 0 where
  pub ticks : (w : World) → P w → P (next w)
  pub audits : (a : Audit) (w : World) → P w → P (record w { audit = a ∷ w.audit })
  pub drops : (id : ℕ) (w : World) → P w → P (record w { links = remove_link id w.links })
  pub puts : (l : EventLink) (w : World) → P w → P (upserted l w)
  pub rewrites : (rs : List SyncRule) (w : World) → P w → P (record w { rules = rs })
  pub makes :
      (call : Call) (w : World) → IsMarked call → P w → P (record w { calls = call ∷ w.calls })

module _ (P : World → Type 0) (s : Stable P) (out : Outside) where
  if-answer :
      {A : Type 0} (b : Bool) (m n : Result A × World) → P m.1 → P n.1 → P (if b then m else n).1
  if-answer true m n h k = h
  if-answer false m n h k = k

  query-Keeps :
      {A : Type 0} (run : World → Option A × World)
      → ((w : World) → P w → P (run w).1)
      → Keeps P (query out run)
  unfolding query
  query-Keeps run h w p =
      if-answer (out.query_ok w.tick) _ _
        (or_fail-Keeps P _ (run w).0 _ (s.ticks (run w).1 (h w p))) (s.ticks w p)

  saving-Keeps : (call : Call) → IsMarked call → Keeps P (saving out call)
  unfolding saving
  saving-Keeps call m w p = or_fail-Keeps P _ (out.saved w.tick) _ (s.ticks _ (s.makes call w m p))

  get_calendar-Keeps : (id : ℕ) → Keeps P (get_calendar out id)
  unfolding get_calendar
  get_calendar-Keeps id = query-Keeps _ λ w p. p

  get_link-Keeps : (rule_id : ℕ) (key : Text) → Keeps P (get_link out rule_id key)
  unfolding get_link
  get_link-Keeps rule_id key = query-Keeps _ λ w p. p

  list_rules-Keeps : (id : ℕ) → Keeps P (list_rules out id)
  unfolding list_rules
  list_rules-Keeps id = query-Keeps _ λ w p. p

  get_account-Keeps : Keeps P (get_account out)
  unfolding get_account
  get_account-Keeps = query-Keeps _ λ w p. p

  get_client-Keeps : Keeps P (get_client out)
  unfolding get_client
  get_client-Keeps w p = if-answer (out.client_ok w.tick) _ _ (s.ticks w p) (s.ticks w p)

  write_audit-Keeps : (a : Audit) → Keeps P (ignore (write_audit out a))
  unfolding write_audit
  write_audit-Keeps a = ignore-Keeps P _ (query-Keeps _ (s.audits a))

  delete_link-Keeps : (id : ℕ) → Keeps P (ignore (delete_link out id))
  unfolding delete_link
  delete_link-Keeps id = ignore-Keeps P _ (query-Keeps _ (s.drops id))

  upsert_link-Keeps : (l : EventLink) → Keeps P (upsert_link out l)
  unfolding upsert_link
  upsert_link-Keeps l = query-Keeps _ (s.puts l)

  get_rule-Keeps : (id : ℕ) → Keeps P (get_rule out id)
  unfolding get_rule
  get_rule-Keeps id = query-Keeps _ λ w p. p

  mark_backfill_done-Keeps : (id : ℕ) → Keeps P (mark_backfill_done out id)
  unfolding mark_backfill_done
  mark_backfill_done-Keeps id = query-Keeps _ λ w. s.rewrites (set_done id w.rules) w

  incremental_sync-Keeps : Keeps P (incremental_sync out)
  unfolding incremental_sync
  incremental_sync-Keeps w p = or_fail-Keeps P _ (out.synced w.tick) _ (s.ticks w p)

  delete_event-Keeps : (cal id : Text) → Keeps P (delete_event out cal id)
  unfolding delete_event
  delete_event-Keeps cal id w p =
      let kept = s.ticks _ (s.makes (delete cal id) w tt p) in
      if-answer (out.deleted w.tick) _ _ kept kept

module _ (out : Outside) (go : Runtime) (hours_of : HoursOf) where
  mirror_of-managed :
      (rule : SyncRule) (t : Transform) (ev : Event)
      → is_managed (mirror_of out go hours_of rule t ev) ≡ true
  unfolding mirror_of is_managed marked managed_props text_eq
  mirror_of-managed rule t ev = refl

module _ (P : World → Type 0) (s : Stable P) (out : Outside) (go : Runtime)
    (hours_of : HoursOf) where
  record_drop-Keeps :
      (rule : SyncRule) (ev : Event) (link : EventLink) (action : Text)
      → Keeps P (record_drop out go hours_of rule ev link action)
  unfolding record_drop
  record_drop-Keeps rule ev link action =
      then-Keeps P _ _ (delete_link-Keeps P s out link.id) (write_audit-Keeps P s out _)

  drop_mirror-Keeps :
      (rule : SyncRule) (tgt : Calendar) (ev : Event) (existing : Option EventLink) (action : Text)
      → Keeps P (drop_mirror out go hours_of rule tgt ev existing action)
  unfolding drop_mirror
  drop_mirror-Keeps rule tgt ev none action = λ w i. i
  drop_mirror-Keeps rule tgt ev (some link) action =
      then-Keeps P _ _ (delete_event-Keeps P s out tgt.google_calendar_id link.target_event_id)
        (record_drop-Keeps rule ev link action)

  transform_of-Keeps : (rule : SyncRule) → Keeps P (transform_of out go hours_of rule)
  unfolding transform_of
  transform_of-Keeps rule =
      if-Keeps P (is_nil rule.visibility_mode) _ _ (or_fail-Keeps P _ rule.transform) λ w i. i

  starts_in_hours-Keeps :
      (cal : Calendar) (at : Option Stamp) → Keeps P (starts_in_hours out go hours_of cal at)
  unfolding starts_in_hours covered_by_hours
  starts_in_hours-Keeps cal none = λ w i. i
  starts_in_hours-Keeps cal (some at) =
      then-Keeps P _ _ (get_account-Keeps P s out)
        (bind-Keeps P _ _ (or_fail-Keeps P _ (hours_of cal)) λ wh w i. i)

  within_hours-Keeps :
      (cal : Calendar) (ev : Event) → Keeps P (event_within_working_hours out go hours_of cal ev)
  unfolding event_within_working_hours
  within_hours-Keeps cal ev =
      if-Keeps P (is_nil (date_time_of ev.start)) _ _ (λ w i. i) (starts_in_hours-Keeps cal _)

  qualifies-Keeps :
      (rule : SyncRule) (filter : Filter) (src : Calendar) (ev : Event)
      → Keeps P (qualifies out go hours_of rule filter src ev)
  unfolding qualifies
  qualifies-Keeps rule filter src ev = if-Keeps P _ _ _ (within_hours-Keeps src ev) λ w i. i

  record_mirror-Keeps :
      (rule : SyncRule) (src tgt : Calendar) (ev : Event) (key action : Text) (saved : Saved)
      → Keeps P (record_mirror out go hours_of rule src tgt ev key action saved)
  unfolding record_mirror
  record_mirror-Keeps rule src tgt ev key action saved =
      then-Keeps P _ _ (upsert_link-Keeps P s out _) (write_audit-Keeps P s out _)

  write_mirror-Keeps :
      (rule : SyncRule) (src tgt : Calendar) (ev : Event) (key : Text) (mirror : Event)
      → is_managed mirror ≡ true
      → (existing : Option EventLink)
      → Keeps P (write_mirror out go hours_of rule src tgt ev key mirror existing)
  unfolding write_mirror insert_event update_event
  write_mirror-Keeps rule src tgt ev key mirror m none =
      bind-Keeps P _ _ (saving-Keeps P s out (insert tgt.google_calendar_id mirror) m)
        λ saved. record_mirror-Keeps rule src tgt ev key _ saved
  write_mirror-Keeps rule src tgt ev key mirror m (some link) =
      if-Keeps P (unchanged out go hours_of rule ev link) _ _ (λ w i. i)
        (bind-Keeps P _ _
          (saving-Keeps P s out (update tgt.google_calendar_id link.target_event_id mirror) m)
          λ saved. record_mirror-Keeps rule src tgt ev key _ saved)

  write_or_drop-Keeps :
      (rule : SyncRule) (src tgt : Calendar) (ev : Event) (key : Text) (existing : Option EventLink)
      (t : Transform) (matches : Bool)
      → Keeps P (write_or_drop out go hours_of rule src tgt ev key existing t matches)
  unfolding write_or_drop
  write_or_drop-Keeps rule src tgt ev key existing t matches =
      if-Keeps P matches _ _
        (write_mirror-Keeps rule src tgt ev key _ (mirror_of-managed out go hours_of rule t ev)
          existing)
        (drop_mirror-Keeps rule tgt ev existing _)

  reconcile_with-Keeps :
      (rule : SyncRule) (src tgt : Calendar) (ev : Event) (key : Text) (existing : Option EventLink)
      (filter : Filter)
      → Keeps P (reconcile_with out go hours_of rule src tgt ev key existing filter)
  unfolding reconcile_with
  reconcile_with-Keeps rule src tgt ev key existing filter =
      bind-Keeps P _ _ (transform_of-Keeps rule) λ t.
        bind-Keeps P _ _ (qualifies-Keeps rule filter src ev)
          (write_or_drop-Keeps rule src tgt ev key existing t)

  reconcile-Keeps :
      (rule : SyncRule) (src tgt : Calendar) (ev : Event) (key : Text) (existing : Option EventLink)
      → Keeps P (reconcile out go hours_of rule src tgt ev key existing)
  unfolding reconcile
  reconcile-Keeps rule src tgt ev key existing =
      bind-Keeps P _ _ (or_fail-Keeps P _ rule.filter)
        (reconcile_with-Keeps rule src tgt ev key existing)

  propagate-Keeps :
      (rule : SyncRule) (src tgt : Calendar) (ev : Event) (key : Text)
      → Keeps P (propagate out go hours_of rule src tgt ev key)
  unfolding propagate
  propagate-Keeps rule src tgt ev key =
      bind-Keeps P _ _ (get_link-Keeps P s out rule.id key) λ existing.
        then-Keeps P _ _ (get_client-Keeps P s out) (
          if-Keeps P (text_eq ev.status (codes "cancelled")) _ _
            (drop_mirror-Keeps rule tgt ev existing _)
            (reconcile-Keeps rule src tgt ev key existing))

  mirror_event-Keeps :
      (rule : SyncRule) (ev : Event) (reverse : Bool)
      → Keeps P (mirror_event out go hours_of rule ev reverse)
  unfolding mirror_event
  mirror_event-Keeps rule ev reverse = bind-Keeps P _ _ (get_calendar-Keeps P s out _) λ src.
      bind-Keeps P _ _ (get_calendar-Keeps P s out _)
        λ tgt. if-Keeps P _ _ _ (λ w i. i) (propagate-Keeps rule src tgt ev _)

  pub apply_rule-Keeps :
      (rule : SyncRule) (ev : Event) (reverse : Bool)
      → Keeps P (apply_rule out go hours_of rule ev reverse)
  unfolding apply_rule
  apply_rule-Keeps rule ev reverse =
      if-Keeps P (is_managed ev) _ _ (λ w i. i) (mirror_event-Keeps rule ev reverse)

  audited-Keeps :
      (rule : SyncRule) (ev : Event) (r : Result (Unit {0}))
      → Keeps P (audited out go hours_of rule ev r)
  unfolding audited
  audited-Keeps rule ev (ok a) = λ w i. i
  audited-Keeps rule ev (err x) = write_audit-Keeps P s out _

  run_rules-Keeps :
      (calendar_id : ℕ) (ev : Event) (rules : List SyncRule)
      → Keeps P (run_rules out go hours_of calendar_id ev rules)
  unfolding run_rules
  run_rules-Keeps calendar_id ev [] w i = i
  run_rules-Keeps calendar_id ev (rule ∷ rules) w i =
      then-Keeps P _ _ (audited-Keeps rule ev _) (run_rules-Keeps calendar_id ev rules) _
        (apply_rule-Keeps rule ev _ w i)

  pub process_change-Keeps :
      (calendar_id : ℕ) (ev : Event) → Keeps P (process_change out go hours_of calendar_id ev)
  unfolding process_change
  process_change-Keeps calendar_id ev =
      bind-Keeps P _ _ (list_rules-Keeps P s out calendar_id)
        λ rules. run_rules-Keeps calendar_id ev rules

  apply_events-Keeps :
      (rule : SyncRule) (events : List Event) → Keeps P (apply_events out go hours_of rule events)
  unfolding apply_events
  apply_events-Keeps rule [] w p = p
  apply_events-Keeps rule (ev ∷ events) w p =
      then-Keeps P _ _ (ignore-Keeps P _ (apply_rule-Keeps rule ev false))
        (apply_events-Keeps rule events) w p

  walk_history-Keeps : (rule : SyncRule) → Keeps P (walk_history out go hours_of rule)
  unfolding walk_history
  walk_history-Keeps rule = bind-Keeps P _ _ (get_calendar-Keeps P s out _) λ src.
      then-Keeps P _ _ (get_client-Keeps P s out) (
        bind-Keeps P _ _ (incremental_sync-Keeps P s out) λ events.
          then-Keeps P _ _ (apply_events-Keeps rule events) (
            then-Keeps P _ _ (mark_backfill_done-Keeps P s out rule.id)
              (write_audit-Keeps P s out _)))

  pub backfill-Keeps : (rule_id : ℕ) → Keeps P (backfill out go hours_of rule_id)
  unfolding backfill
  backfill-Keeps rule_id =
      bind-Keeps P _ _ (get_rule-Keeps P s out rule_id)
        λ rule. if-Keeps P (rule.backfill_days == 0) _ _ (λ w p. p) (walk_history-Keeps rule)
