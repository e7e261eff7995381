-- ===== src/Sync/Engine/Errors.antt =====
-- A rule that fails on an event leaves the links as they were.
use skulid.Base.{
  ℕ, ◌≡◌, refl, Bool, true, false, ◌∷◌, Option, none, some, if◌then◌else◌, Text, codes, text_eq,
  arith, Option-cases, ◌∙◌,
}
use skulid.Sync.Outside.{
  Error, Result, ok, err, M, then_do, ◌>>=◌, ◌>>◌, pure, ignore, or_fail, Saved, Outside, no_row,
  bad_transform,
}
use skulid.Sync.Event.{Event, Calendar, is_managed}
use skulid.Sync.Filter.{Runtime, Stamp, Filter, date_time_of}
use skulid.Sync.Engine.Store.{
  World, EventLink, SyncRule, Call, next, query, saving, get_account, get_calendar, get_link,
  upsert_link, get_client, insert_event, update_event, delete_event,
}
use skulid.Sync.Engine.{
  HoursOf, starts_in_hours, covered_by_hours, event_within_working_hours, qualifies, drop_mirror,
  record_drop, transform_of, unchanged, record_mirror, write_mirror, write_or_drop, reconcile_with,
  reconcile, propagate, mirror_event, apply_rule,
}

-- The step does not write to the links.
abbrev Reads : {A : Type 0} → M World A → Type 0
Reads m = (w : World) → (m w).1.links ≡ w.links

-- The step does not write to the links if it fails.
abbrev Leaves : {A : Type 0} → M World A → Type 0
Leaves m = (w : World) (x : Error) → (m w).0 ≡ err x → (m w).1.links ≡ w.links

Reads-Leaves : {A : Type 0} (m : M World A) → Reads m → Leaves m
Reads-Leaves m r w x h = r w

then_do-Leaves :
    {A B : Type 0} (r : Result A) (w v : World) (f : A → M World B)
    → w.links ≡ v.links
    → ((a : A) → Leaves (f a))
    → (x : Error) → (then_do r w f).0 ≡ err x
    → (then_do r w f).1.links ≡ v.links
then_do-Leaves (ok a) w v f e k x h = k a w x h ∙ e
then_do-Leaves (err y) w v f e k x h = e

bind-Leaves :
    {A B : Type 0} (m : M World A) (f : A → M World B)
    → Reads m
    → ((a : A) → Leaves (f a))
    → Leaves (m >>= f)
unfolding ◌>>=◌
bind-Leaves m f r k w = then_do-Leaves (m w).0 (m w).1 w f (r w) k

then-Leaves :
    {B : Type 0} (m : M World (Unit {0})) (k : M World B) → Reads m → Leaves k → Leaves (m >> k)
unfolding ◌>>◌
then-Leaves m k r l = bind-Leaves m (λ _. k) r (λ _. l)

if-Leaves :
    {A : Type 0} (b : Bool) (m n : M World A) → Leaves m → Leaves n → Leaves (if b then m else n)
if-Leaves true m n h k = h
if-Leaves false m n h k = k

pure-Leaves : {A : Type 0} (a : A) → Leaves (pure a)
pure-Leaves a w x h = refl

or_fail-Reads : {A : Type 0} (x : Error) (o : Option A) → Reads (or_fail x o)
unfolding or_fail
or_fail-Reads x none w = refl
or_fail-Reads x (some a) w = refl

module _ (out : Outside) where
  query-Reads :
      {A : Type 0} (run : World → Option A × World)
      → ((w : World) → (run w).1.links ≡ w.links)
      → Reads (query out run)
  unfolding query
  query-Reads run h w = ground (arith, h w, or_fail-Reads no_row (run w).0 (next (run w).1))

  saving-Reads : (call : Call) → Reads (saving out call)
  unfolding saving
  saving-Reads call w =
      or_fail-Reads _ (out.saved w.tick) (next (record w { calls = call ∷ w.calls }))

  get_calendar-Reads : (id : ℕ) → Reads (get_calendar out id)
  unfolding get_calendar
  get_calendar-Reads id = query-Reads _ λ w. refl

  get_link-Reads : (rule_id : ℕ) (key : Text) → Reads (get_link out rule_id key)
  unfolding get_link
  get_link-Reads rule_id key = query-Reads _ λ w. refl

  get_account-Reads : Reads (get_account out)
  unfolding get_account
  get_account-Reads = query-Reads _ λ w. refl

  get_client-Reads : Reads (get_client out)
  unfolding get_client
  get_client-Reads w = ground arith

  delete_event-Reads : (cal id : Text) → Reads (delete_event out cal id)
  unfolding delete_event
  delete_event-Reads cal id w = ground arith

  upsert_link-Leaves : (l : EventLink) → Leaves (upsert_link out l)
  unfolding upsert_link query or_fail
  upsert_link-Leaves l w x h = ground arith

module _ (out : Outside) (go : Runtime) (hours_of : HoursOf) where
  drop_mirror-Leaves :
      (rule : SyncRule) (tgt : Calendar) (ev : Event) (existing : Option EventLink) (action : Text)
      → Leaves (drop_mirror out go hours_of rule tgt ev existing action)
  unfolding drop_mirror record_drop ignore ◌>>◌ ◌>>=◌ delete_event
  drop_mirror-Leaves rule tgt ev none action w x h = ground arith
  drop_mirror-Leaves rule tgt ev (some link) action w x h = ground arith

  record_mirror-Leaves :
      (rule : SyncRule) (src tgt : Calendar) (ev : Event) (key action : Text) (saved : Saved)
      → Leaves (record_mirror out go hours_of rule src tgt ev key action saved)
  unfolding record_mirror ignore ◌>>◌ ◌>>=◌ upsert_link query or_fail
  record_mirror-Leaves rule src tgt ev key action saved w x h = ground arith

  write_mirror-Leaves :
      (rule : SyncRule) (src tgt : Calendar) (ev : Event) (key : Text) (mirror : Event)
      (existing : Option EventLink)
      → Leaves (write_mirror out go hours_of rule src tgt ev key mirror existing)
  unfolding write_mirror insert_event update_event
  write_mirror-Leaves rule src tgt ev key mirror none =
      bind-Leaves _ _ (saving-Reads out _) (record_mirror-Leaves rule src tgt ev key _)
  write_mirror-Leaves rule src tgt ev key mirror (some link) =
      if-Leaves (unchanged out go hours_of rule ev link) _ _ (pure-Leaves tt)
        (bind-Leaves _ _ (saving-Reads out _) (record_mirror-Leaves rule src tgt ev key _))

  starts_in_hours-Reads :
      (cal : Calendar) (at : Option Stamp) → Reads (starts_in_hours out go hours_of cal at)
  unfolding starts_in_hours covered_by_hours get_account query ◌>>◌ ◌>>=◌ or_fail
  starts_in_hours-Reads cal none w = refl
  starts_in_hours-Reads cal (some at) w = ground (arith, Option-cases (hours_of cal))

  qualifies-Reads :
      (rule : SyncRule) (filter : Filter) (src : Calendar) (ev : Event)
      → Reads (qualifies out go hours_of rule filter src ev)
  unfolding qualifies event_within_working_hours
  qualifies-Reads rule filter src ev w =
      ground (arith, starts_in_hours-Reads src (go.parse_time (date_time_of ev.start)) w)

  transform_of-Reads : (rule : SyncRule) → Reads (transform_of out go hours_of rule)
  unfolding transform_of
  transform_of-Reads rule w = ground (arith, or_fail-Reads bad_transform rule.transform w)

  reconcile-Leaves :
      (rule : SyncRule) (src tgt : Calendar) (ev : Event) (key : Text) (existing : Option EventLink)
      → Leaves (reconcile out go hours_of rule src tgt ev key existing)
  unfolding reconcile reconcile_with write_or_drop
  reconcile-Leaves rule src tgt ev key existing =
      bind-Leaves _ _ (or_fail-Reads _ rule.filter) λ filter.
        bind-Leaves _ _ (transform_of-Reads rule) λ t.
          bind-Leaves _ _ (qualifies-Reads rule filter src ev) λ matches.
            if-Leaves matches _ _ (write_mirror-Leaves rule src tgt ev key _ existing)
              (drop_mirror-Leaves rule tgt ev existing _)

  propagate-Leaves :
      (rule : SyncRule) (src tgt : Calendar) (ev : Event) (key : Text)
      → Leaves (propagate out go hours_of rule src tgt ev key)
  unfolding propagate
  propagate-Leaves rule src tgt ev key =
      bind-Leaves _ _ (get_link-Reads out rule.id key) λ existing.
        then-Leaves _ _ (get_client-Reads out) (
          if-Leaves (text_eq ev.status (codes "cancelled")) _ _
            (drop_mirror-Leaves rule tgt ev existing _)
            (reconcile-Leaves rule src tgt ev key existing))

  mirror_event-Leaves :
      (rule : SyncRule) (ev : Event) (reverse : Bool)
      → Leaves (mirror_event out go hours_of rule ev reverse)
  unfolding mirror_event
  mirror_event-Leaves rule ev reverse = bind-Leaves _ _ (get_calendar-Reads out _) λ src.
      bind-Leaves _ _ (get_calendar-Reads out _)
        λ tgt. if-Leaves _ _ _ (pure-Leaves tt) (propagate-Leaves rule src tgt ev _)

  -- Whatever the database and Google answer, a rule that ends in an error leaves the table of
  -- links as it was.
  pub apply_rule_err :
      (rule : SyncRule) (ev : Event) (reverse : Bool) (w : World) (x : Error)
      → (apply_rule out go hours_of rule ev reverse w).0 ≡ err x
      → (apply_rule out go hours_of rule ev reverse w).1.links ≡ w.links
  unfolding apply_rule
  apply_rule_err rule ev reverse =
      if-Leaves (is_managed ev) _ _ (pure-Leaves tt) (mirror_event-Leaves rule ev reverse)
