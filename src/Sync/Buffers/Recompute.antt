-- ===== src/Sync/Buffers/Recompute.antt =====
-- internal/sync/buffers.go: `Recompute` and `apply`, over the table of internal/db/bufferevents.go
-- and the lookup of the settings in internal/db/buffers.go and internal/db/calendars.go.
-- `byKey`, a Go map, is a list of rows, one for a key; the reaping takes its rows in that order.
pub mod Invariant
pub mod Orphan
use skulid.Base.{
  ℕ, suc, ◌+◌, Bool, true, false, not, ◌&&◌, ◌||◌, List, [], ◌∷◌, ◌++◌, Option, none, some, ◌==◌,
  ltb, leb, if◌then◌else◌, Text, codes, text_eq, is_nil,
}
use skulid.Sync.Outside.{
  query_failed, no_row, no_client, google_failed, Result, ok, err, M, then_do, ◌>>=◌, ◌>>◌, pure,
  or_fail, ignore, Saved, Outside,
}
use skulid.Sync.Event.{Event, EventTime, Calendar, buffer_props}
use skulid.Sync.Filter.{Runtime}
use skulid.Sync.Buffers.{BufferSettings, BufferKey, PlannedBuffer, parse_buffers, plan_buffers}
use skulid.Sync.Engine.Store.{Call, insert, update, delete, find_calendar}

pub record BufferEvent : Type 0 where
  pub id : ℕ
  pub calendar_id : ℕ
  pub target_event_id : Text
  pub key : BufferKey
  pub starts_at : ℕ
  pub ends_at : ℕ

-- An audit entry of kind "buffer".
pub record BufferAudit : Type 0 where
  pub target_event_id : Text
  pub action : Text
  pub message : Text

-- The tables, the calls made to Google, newest first, and the number of steps outside so far.
-- `buffer_setting` is the value of the setting `buffers`, none where it is not set.
pub record Shelf : Type 0 where
  pub calendars : List Calendar
  pub buffer_setting : Option Text
  pub rows : List BufferEvent
  pub next_row : ℕ
  pub audit : List BufferAudit
  pub calls : List Call
  pub tick : ℕ

abbrev pub key_eq : BufferKey → BufferKey → Bool
key_eq a b =
    text_eq a.source_event_id b.source_event_id
    && text_eq a.buffer_type b.buffer_type
    && text_eq a.placement b.placement

unfoldable pub find_key : BufferKey → List BufferEvent → Option BufferEvent
find_key k [] = none
find_key k (b ∷ bs) = if key_eq b.key k then some b else find_key k bs

-- `byKey[k] = row`.
unfoldable pub set_key : BufferEvent → List BufferEvent → List BufferEvent
set_key row [] = row ∷ []
set_key row (b ∷ bs) = if key_eq b.key row.key then row ∷ bs else b ∷ set_key row bs

unfoldable pub seen_key : BufferKey → List BufferKey → Bool
seen_key k [] = false
seen_key k (s ∷ seen) = key_eq s k || seen_key k seen

-- The table's unique key.
unfoldable pub taken : BufferEvent → List BufferEvent → Bool
taken new [] = false
taken new (b ∷ bs) = b.calendar_id == new.calendar_id && key_eq b.key new.key || taken new bs

unfoldable pub in_range : ℕ → ℕ → ℕ → List BufferEvent → List BufferEvent
in_range calendar_id from to [] = []
in_range calendar_id from to (b ∷ bs) =
    let rest = in_range calendar_id from to bs in
    if b.calendar_id == calendar_id && leb from b.ends_at && ltb b.starts_at to
    then b ∷ rest
    else rest

unfoldable pub move_row : ℕ → ℕ → ℕ → List BufferEvent → List BufferEvent
move_row id starts ends [] = []
move_row id starts ends (b ∷ bs) =
    (if b.id == id then record b { starts_at = starts; ends_at = ends } else b)
    ∷ move_row id starts ends bs

unfoldable pub drop_row : ℕ → List BufferEvent → List BufferEvent
drop_row id [] = []
drop_row id (b ∷ bs) = let rest = drop_row id bs in if b.id == id then rest else b ∷ rest

abbrev pub tick : Shelf → Shelf
tick w = record w { tick = suc w.tick }

-- `LoadBuffers` and `EffectiveCalendarBuffers`: what cannot be read is zero.
abbrev setting_or_zero : Option Text → BufferSettings
setting_or_zero none = parse_buffers []
setting_or_zero (some v) = parse_buffers v

module _ (out : Outside) (go : Runtime) where
  unfoldable pub ask : {A : Type 0} → (Shelf → Option A × Shelf) → M Shelf A
  ask run w =
      if out.query_ok w.tick
      then or_fail no_row (run w).0 (tick (run w).1)
      else (err query_failed, tick w)

  unfoldable pub call_google : Call → M Shelf Saved
  call_google call w =
      or_fail google_failed (out.saved w.tick) (tick (record w { calls = call ∷ w.calls }))

  unfoldable pub delete_google : Text → Text → M Shelf (Unit {0})
  delete_google cal id w =
      let w' = tick (record w { calls = delete cal id ∷ w.calls }) in
      if out.deleted w.tick then (ok tt, w') else (err google_failed, w')

  unfoldable pub client_for : M Shelf (Unit {0})
  client_for w = if out.client_ok w.tick then (ok tt, tick w) else (err no_client, tick w)

  unfoldable pub list_events : M Shelf (List Event)
  list_events w = or_fail google_failed (out.listed w.tick) (tick w)

  unfoldable pub load_buffers : M Shelf BufferSettings
  load_buffers w = (
    ok (if out.query_ok w.tick then setting_or_zero w.buffer_setting else parse_buffers []),
    tick w,
  )

  unfoldable pub effective_buffers : Calendar → M Shelf BufferSettings
  effective_buffers cal =
      if not (is_nil cal.buffers) then pure (parse_buffers cal.buffers) else load_buffers

  -- A row whose key is taken is refused.
  abbrev pub inserted : BufferEvent → Shelf → Option ℕ × Shelf
  inserted row w = if taken row w.rows then (none, w) else (
    some w.next_row,
    record w { rows = record row { id = w.next_row } ∷ w.rows; next_row = suc w.next_row },
  )

  unfoldable pub insert_row : BufferEvent → M Shelf ℕ
  insert_row row = ask (inserted row)

  unfoldable pub update_window : ℕ → ℕ → ℕ → M Shelf (Unit {0})
  update_window id starts ends =
      ask (λ w. (some tt, record w { rows = move_row id starts ends w.rows }))

  unfoldable pub delete_row : ℕ → M Shelf (Unit {0})
  delete_row id = ask (λ w. (some tt, record w { rows = drop_row id w.rows }))

  unfoldable pub audit_buffer : Text → Text → Text → M Shelf (Unit {0})
  audit_buffer target action message = ask (λ w. (
    some tt,
    record w {
      audit = record { target_event_id = target; action = action; message = message } ∷ w.audit;
    },
  ))

  abbrev event_time : Calendar → ℕ → Option EventTime
  event_time cal t =
      some (record { date_time = go.format_time t; date = []; time_zone = cal.time_zone })

  -- The event of a buffer.
  pub body_of : Calendar → PlannedBuffer → Event
  body_of cal want = record {
    id = [];
    status = [];
    summary = want.summary;
    description = [];
    location = [];
    color_id = [];
    transparency = codes "opaque";
    visibility = [];
    etag = [];
    start = event_time cal want.start;
    end = event_time cal want.end;
    recurrence = [];
    attendees = [];
    props = buffer_props want.key.buffer_type want.key.source_event_id;
  }

  pub move_buffer :
      Calendar → PlannedBuffer → BufferEvent → List BufferEvent → M Shelf (List BufferEvent)
  move_buffer cal want row by_key = do
    updated ← call_google (update cal.google_calendar_id row.target_event_id (body_of cal want))
    update_window row.id want.start want.end
    ignore (audit_buffer updated.id (codes "update") want.key.buffer_type)
    pure (set_key (record row { starts_at = want.start; ends_at = want.end }) by_key)

  abbrev pub row_of : Calendar → PlannedBuffer → Text → ℕ → BufferEvent
  row_of cal want target id = record {
    id = id;
    calendar_id = cal.id;
    target_event_id = target;
    key = want.key;
    starts_at = want.start;
    ends_at = want.end;
  }

  pub create_buffer : Calendar → PlannedBuffer → List BufferEvent → M Shelf (List BufferEvent)
  create_buffer cal want by_key = do
    saved ← call_google (insert cal.google_calendar_id (body_of cal want))
    id ← insert_row (row_of cal want saved.id 0)
    ignore (audit_buffer saved.id (codes "create") want.key.buffer_type)
    pure (set_key (row_of cal want saved.id id) by_key)

  -- `apply`: the map after it.
  pub apply_buffer :
      Calendar → PlannedBuffer → Option BufferEvent → List BufferEvent → M Shelf (List BufferEvent)
  apply_buffer cal want none by_key = create_buffer cal want by_key
  apply_buffer cal want (some row) by_key =
      if row.starts_at == want.start && row.ends_at == want.end
      then pure by_key
      else move_buffer cal want row by_key

  -- An error is logged, and leaves the map as it was.
  abbrev pub map_after : List BufferEvent → Result (List BufferEvent) → List BufferEvent
  map_after by_key (ok b) = b
  map_after by_key (err x) = by_key

  -- The inner loop, over the planned buffers of an event.
  pub place_all : Calendar → List PlannedBuffer → List BufferEvent → M Shelf (List BufferEvent)
  place_all cal [] by_key = pure by_key
  place_all cal (want ∷ wants) by_key = λ w.
      let applied = apply_buffer cal want (find_key want.key by_key) by_key w in
      place_all cal wants (map_after by_key applied.0) applied.1

  -- The planned buffers of the events, in the order of both loops.
  pub wanted : BufferSettings → List Event → List PlannedBuffer
  wanted bufs [] = []
  wanted bufs (ev ∷ events) = plan_buffers go bufs ev ++ wanted bufs events

  pub keys_of : List PlannedBuffer → List BufferKey
  keys_of [] = []
  keys_of (p ∷ ps) = p.key ∷ keys_of ps

  -- The loop over the orphans.
  pub reap : Calendar → List BufferKey → List BufferEvent → M Shelf (Unit {0})
  reap cal seen [] = pure tt
  reap cal seen (row ∷ by_key) = if seen_key row.key seen then reap cal seen by_key else do
    ignore (delete_google cal.google_calendar_id row.target_event_id)
    ignore (delete_row row.id)
    ignore (audit_buffer row.target_event_id (codes "delete") row.key.buffer_type)
    reap cal seen by_key

  pub settle : Calendar → List PlannedBuffer → List BufferEvent → M Shelf (Unit {0})
  settle cal wants existing = do
    by_key ← place_all cal wants existing
    reap cal (keys_of wants) by_key

  pub recompute_calendar : ℕ → ℕ → Calendar → M Shelf (Unit {0})
  recompute_calendar from to cal = do
    client_for
    bufs ← effective_buffers cal
    existing ← ask (λ w. (some (in_range cal.id from to w.rows), w))
    events ← list_events
    settle cal (wanted bufs events) existing

  -- `from` is the present, `to` the horizon of seven days.
  pub recompute : ℕ → ℕ → M Shelf (Unit {0})
  recompute now calendar_id = do
    cal ← ask (λ w. (find_calendar calendar_id w.calendars, w))
    if not cal.enabled then pure tt else recompute_calendar now (now + 604800000000000) cal
