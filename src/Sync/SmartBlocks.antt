-- ===== src/Sync/SmartBlocks.antt =====
-- internal/sync/smart_block.go: `Recompute`. The marks on existing blocks that a window has matched
-- are the list of those left.
pub mod Neat
pub mod Bags
pub mod Match
pub mod Refine
pub mod Start
pub mod Settle
pub mod Outcome
mod Examples
use skulid.Base.{
  ℕ, suc, ◌+◌, ◌-◌, ◌*◌, Bool, true, false, not, ◌&&◌, ◌||◌, List, [], ◌∷◌, ◌++◌, Option, none,
  some, ◌==◌, ltb, leb, if◌then◌else◌, Text, codes, text_eq, is_nil, itoa, Signed,
}
use skulid.Hours.Window.{Window, after, before, overlap, len}
use skulid.Hours.Merge.{merge, merge_with_gap, merge_with_short_gap}
use skulid.Hours.Subtract.{subtract_busy}
use skulid.Hours.Expand.{WorkingHours, Location, expand}
use skulid.Hours.Stored.{parse_hours}
use skulid.Sync.Outside.{
  bad_hours, ok, err, M, Result, pure, or_fail, ignore, ◌>>=◌, ◌>>◌, Saved, TimePeriod, FreeBusy,
  Outside,
}
use skulid.Sync.Event.{Event, Calendar}
use skulid.Sync.Filter.{Runtime}
use skulid.Sync.Availability.{located}
use skulid.Sync.Conflicts.{periods_to_windows}
use skulid.Sync.Buffers.{minutes_long, minutes_below}
use skulid.Sync.Engine.Store.{insert, update, find_calendar}
use skulid.Sync.Desk.{
  SmartBlock, ManagedBlock, Desk, Zones, ask, read, write, call_google, delete_google, client_for,
  free_busy, get_calendar, write_audit, block_event,
}
use skulid.Sync.Desk.Rows.{find_block, managed_of, move_managed, drop_managed}

-- `SmartBlockProps`.
unfoldable pub smart_block_props : ℕ → List (Text × Text)
smart_block_props block_id =
    (codes "skulidManaged", codes "1") ∷ (codes "skulidSmartBlockId", itoa block_id) ∷ []

abbrev pub or_thirty : ℕ → ℕ
or_thirty n = if n == 0 then 30 else n

unfoldable pub long_enough : ℕ → List Window → List Window
long_enough shortest [] = []
long_enough shortest (w ∷ ws) =
    let rest = long_enough shortest ws in if leb shortest (len w) then w ∷ rest else rest

-- `MergeWithGap` on a product of minutes, which may lie below 0.
unfoldable pub merge_over : Signed → List Window → List Window
merge_over gap ws =
    if minutes_below gap == 0
    then merge_with_gap ws (minutes_long gap)
    else merge_with_short_gap ws (minutes_below gap)

-- The windows that a smart block should stand at: the available time without what is busy, joined
-- over short gaps, where it is long enough.
unfoldable pub desired : SmartBlock → List Window → List Window → List Window
desired b avail busy =
    long_enough (minutes_long b.min_block_minutes)
      (merge_over b.merge_gap_minutes (subtract_busy avail (merge busy)))

unfoldable pub all_windows : Runtime → FreeBusy → List Window
all_windows go [] = []
all_windows go ((id, periods) ∷ fb) = periods_to_windows go periods ++ all_windows go fb

abbrev pub window_of : ManagedBlock → Window
window_of m = record { start = m.starts_at; end = m.ends_at }

unfoldable pub in_range : ℕ → ℕ → List ManagedBlock → List ManagedBlock
in_range start end [] = []
in_range start end (m ∷ ms) =
    let rest = in_range start end ms in
    if after m.ends_at start && before m.starts_at end then m ∷ rest else rest

-- The first block left that overlaps a window, and the blocks left without it.
abbrev behind :
    ManagedBlock → Option ManagedBlock × List ManagedBlock → Option ManagedBlock × List ManagedBlock
behind m (found, left) = (found, m ∷ left)

unfoldable pub take_match : Window → List ManagedBlock → Option ManagedBlock × List ManagedBlock
take_match d [] = (none, [])
take_match d (m ∷ ms) =
    let rest = behind m (take_match d ms) in if overlap d (window_of m) then (some m, ms) else rest

-- The unique key of managed_block: a block has one row at most for an event.
unfoldable pub has_event : ℕ → Text → List ManagedBlock → Bool
has_event block_id event [] = false
has_event block_id event (m ∷ ms) =
    m.smart_block_id == block_id && text_eq m.target_event_id event || has_event block_id event ms

-- `Insert` of a row, which its unique key may refuse.
abbrev pub inserted : ManagedBlock → Desk → Option (Unit {0}) × Desk
inserted m w = if has_event m.smart_block_id m.target_event_id w.managed then (none, w) else (
  some tt,
  record w { managed = record m { id = w.next_row } ∷ w.managed; next_row = suc w.next_row },
)

module _ (out : Outside) (go : Runtime) (zones : Zones) where
  -- The loop over the source calendars: one that is missing or disabled adds nothing.
  pub source_busy : ℕ → ℕ → Calendar → M Desk (List Window)
  source_busy start end cal = if not cal.enabled then pure [] else do
    client_for out
    fb ← free_busy out (cal.google_calendar_id ∷ []) start end
    pure (all_windows go fb)

  pub add_source : ℕ → ℕ → Result Calendar → M Desk (List Window)
  add_source start end (err x) = pure []
  add_source start end (ok cal) = source_busy start end cal

  pub busy_of : ℕ → ℕ → List ℕ → M Desk (List Window)
  busy_of start end [] = pure []
  busy_of start end (id ∷ ids) = λ w.
      let got = get_calendar out id w in
      (add_source start end got.0 >>= λ windows.
      busy_of start end ids >>= λ rest. pure (windows ++ rest))
        got.1

  pub smart_event : SmartBlock → Text → Window → Event
  smart_event b zone d =
      block_event out go b.title_template [] zone d.start d.end (smart_block_props b.id)

  abbrev pub managed_at : SmartBlock → Calendar → Text → Window → ManagedBlock
  managed_at b cal event d = record {
    id = 0;
    smart_block_id = b.id;
    target_account_id = cal.account_id;
    target_calendar_id = cal.id;
    target_event_id = event;
    starts_at = d.start;
    ends_at = d.end;
  }

  unfoldable pub insert_managed : ManagedBlock → M Desk (Unit {0})
  insert_managed m = ask out (inserted m)

  unfoldable pub update_managed : ℕ → ℕ → ℕ → M Desk (Unit {0})
  update_managed id starts ends =
      write out (λ w. record w { managed = move_managed id starts ends w.managed })

  unfoldable pub delete_managed : ℕ → M Desk (Unit {0})
  delete_managed id = write out (λ w. record w { managed = drop_managed id w.managed })

  abbrev pub audit_block : Text → Text → M Desk (Unit {0})
  audit_block event action = write_audit out (codes "smart_block") event action []

  -- What the loop does for a window and the block that it matches.
  pub place_window : SmartBlock → Calendar → Text → Window → Option ManagedBlock → M Desk (Unit {0})
  place_window b cal zone d none = do
    saved ← call_google out (insert cal.google_calendar_id (smart_event b zone d))
    insert_managed (managed_at b cal saved.id d)
    ignore (audit_block saved.id (codes "create"))
  place_window b cal zone d (some m) =
      if m.starts_at == d.start && m.ends_at == d.end then pure tt else do
        updated ←
            call_google out (update cal.google_calendar_id m.target_event_id (smart_event b zone d))
        update_managed m.id d.start d.end
        ignore (audit_block m.target_event_id (codes "update"))

  -- The loop over the windows: the blocks that none has matched.
  pub place_windows :
      SmartBlock → Calendar → Text → List ManagedBlock → List Window → M Desk (List ManagedBlock)
  place_windows b cal zone left [] = pure left
  place_windows b cal zone left (d ∷ ds) = do
    place_window b cal zone d (take_match d left).0
    place_windows b cal zone (take_match d left).1 ds

  pub drop_left : Calendar → List ManagedBlock → M Desk (Unit {0})
  drop_left cal [] = pure tt
  drop_left cal (m ∷ left) = do
    ignore (delete_google out cal.google_calendar_id m.target_event_id)
    ignore (delete_managed m.id)
    ignore (audit_block m.target_event_id (codes "delete"))
    drop_left cal left

  pub settle_block :
      SmartBlock → Calendar → Text → List ManagedBlock → List Window → M Desk (Unit {0})
  settle_block b cal zone existing ds = do
    left ← place_windows b cal zone existing ds
    drop_left cal left

  pub recompute_within : SmartBlock → Calendar → WorkingHours → Location → ℕ → M Desk (Unit {0})
  recompute_within b cal wh loc start = do
    let end = zones.add_days loc start (or_thirty b.horizon_days)
    busy ← busy_of start end b.source_calendar_ids
    existing ← read out (λ w. some (managed_of b.id w.managed))
    settle_block b cal wh.time_zone (in_range start end existing)
        (desired b (expand wh start end loc) busy)

  pub recompute_on : ℕ → SmartBlock → Calendar → M Desk (Unit {0})
  recompute_on now b cal = if not cal.enabled then pure tt else do
    client_for out
    hours ← or_fail bad_hours (located zones.load (parse_hours b.working_hours))
    recompute_within b cal hours.0 hours.1 (hours.1.date_at now (record { hour = 0; minute = 0 }))

  pub recompute_block : ℕ → ℕ → M Desk (Unit {0})
  recompute_block now block_id = do
    b ← read out (λ w. find_block block_id w.blocks)
    if not b.enabled
        then pure tt
        else do cal ← get_calendar out b.target_calendar_id; recompute_on now b cal
