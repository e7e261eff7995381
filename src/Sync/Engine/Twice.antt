-- ===== src/Sync/Engine/Twice.antt =====
-- A bidirectional rule that sees the same event again.
use skulid.Base.{
  suc, ◌≡◌, refl, Bool, true, false, not, ◌&&◌, List, Option, none, some, if◌then◌else◌, Text,
  codes, text_eq, text_eq_iff, is_nil, arith, Option-cases,
}
use skulid.Sync.Outside.{◌>>=◌, ◌>>◌, or_fail, Outside}
use skulid.Sync.Event.{Event, Calendar}
use skulid.Sync.Filter.{Runtime, Filter}
use skulid.Sync.Transform.{Transform}
use skulid.Sync.Engine.Store.{
  World, EventLink, SyncRule, next, find_calendar, find_link, query, get_calendar, get_link,
  get_client,
}
use skulid.Sync.Engine.Store.Links.{IsKeyed, etag_of}
use skulid.Sync.Engine.{
  HoursOf, drop_mirror, transform_of, unchanged, write_mirror, write_or_drop, reconcile_with,
  reconcile, link_key, propagate, mirror_event, apply_rule,
}
use skulid.Sync.Engine.Steps.{Stable, apply_rule-Keeps}
use skulid.Sync.Engine.Outcome.{Answers, decides, chosen, qualifies-ok, apply_rule_settles}

module _ (out : Outside) (a : Answers out) (go : Runtime) (hours_of : HoursOf) where
  reconcile-calls :
      (rule : SyncRule) (src tgt : Calendar) (ev : Event) (key : Text) (existing : Option EventLink)
      (f : Filter) (t : Transform) (b : Bool) (w : World)
      → text_eq rule.direction (codes "bidirectional") ≡ true
      → is_nil ev.etag ≡ false
      → rule.filter ≡ some f
      → chosen rule ≡ some t
      → decides go hours_of rule f src ev ≡ some b
      → etag_of existing ≡ (if b then some ev.etag else none)
      → (reconcile out go hours_of rule src tgt ev key existing w).1.calls ≡ w.calls
  unfolding reconcile reconcile_with write_or_drop write_mirror drop_mirror unchanged transform_of
      ◌>>=◌ or_fail
  reconcile-calls rule src tgt ev key none f t b w h n p q d e =
      ground (arith, qualifies-ok out a go hours_of rule f src ev w b d)
  reconcile-calls rule src tgt ev key (some link) f t b w h n p q d e = ground (
    arith,
    qualifies-ok out a go hours_of rule f src ev w b d,
    text_eq_iff ev.etag link.source_etag,
  )

  propagate-calls :
      (rule : SyncRule) (src tgt : Calendar) (ev : Event) (key : Text) (f : Filter) (t : Transform)
      (b : Bool) (w : World)
      → text_eq rule.direction (codes "bidirectional") ≡ true
      → is_nil ev.etag ≡ false
      → rule.filter ≡ some f
      → chosen rule ≡ some t
      → decides go hours_of rule f src ev ≡ some b
      → etag_of (find_link rule.id key w.links)
        ≡ (if b && not (text_eq ev.status (codes "cancelled")) then some ev.etag else none)
      → (propagate out go hours_of rule src tgt ev key w).1.calls ≡ w.calls
  unfolding propagate drop_mirror get_link get_client query ◌>>=◌ ◌>>◌ or_fail
  propagate-calls rule src tgt ev key f t b w h n p q d e = ground (
    arith,
    a.queries w.tick,
    a.clients (suc w.tick),
    Option-cases (find_link rule.id key w.links),
    reconcile-calls rule src tgt ev key (find_link rule.id key w.links) f t b (next (next w)) h n p
        q d,
  )

  calendars-Stable : (cs : List Calendar) → Stable (λ w. w.calendars ≡ cs)
  calendars-Stable cs = record {
    ticks = λ w h. h;
    audits = λ x w h. h;
    drops = λ id w h. h;
    puts = λ l w h. h;
    rewrites = λ rs w h. h;
    makes = λ call w m h. h;
  }

  -- When the database and Google answer, a bidirectional rule that sees an event with an etag a
  -- second time, with no change between, makes no call to Google.
  pub apply_rule_twice :
      (rule : SyncRule) (ev : Event) (reverse : Bool) (src tgt : Calendar) (f : Filter)
      (t : Transform) (b : Bool) (w : World)
      → IsKeyed w.links
      → find_calendar
          (if reverse then rule.target_calendar_id else rule.source_calendar_id)
          w.calendars
        ≡ some src
      → find_calendar
          (if reverse then rule.source_calendar_id else rule.target_calendar_id)
          w.calendars
        ≡ some tgt
      → rule.filter ≡ some f
      → chosen rule ≡ some t
      → decides go hours_of rule f src ev ≡ some b
      → text_eq rule.direction (codes "bidirectional") ≡ true
      → is_nil ev.etag ≡ false
      → (apply_rule out go hours_of rule ev reverse
          (apply_rule out go hours_of rule ev reverse w).1).1.calls
        ≡ (apply_rule out go hours_of rule ev reverse w).1.calls
  unfolding apply_rule mirror_event get_calendar query ◌>>=◌ or_fail
  apply_rule_twice rule ev reverse src tgt f t b w k hs ht p q d dir n =
      let w' = (apply_rule out go hours_of rule ev reverse w).1 in
      let kept =
        apply_rule-Keeps _ (calendars-Stable w.calendars) out go hours_of rule ev reverse w refl in
      ground (
        arith,
        kept,
        a.queries w'.tick,
        a.queries (suc w'.tick),
        apply_rule_settles out a go hours_of rule ev reverse src tgt f t b w,
        propagate-calls rule src tgt ev (link_key out go hours_of ev reverse) f t b (next (next w'))
            dir n p q d,
      )
