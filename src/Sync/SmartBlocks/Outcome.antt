-- ===== src/Sync/SmartBlocks/Outcome.antt =====
-- What `Recompute` leaves in the table of a smart block.
use mathlib.Core.Path.{subst}
use skulid.Base.{true, ℕ, ◌+◌, ◌≡◌, refl, ap, List, [], ◌∷◌, arith}
use skulid.Hours.Window.{Window}
use skulid.Hours.Expand.{WorkingHours, Location, expand}
use skulid.Sync.Outside.{Result, ok, err, ◌>>=◌, or_fail, Outside}
use skulid.Sync.Outside.Rules.{Keeps, bind-Keeps, then-Keeps, if-Keeps}
use skulid.Sync.Event.{Calendar}
use skulid.Sync.Filter.{Runtime}
use skulid.Sync.Engine.Outcome.{Answers}
use skulid.Sync.Desk.{SmartBlock, Desk, Zones, tick, ask, read, get_calendar}
use skulid.Sync.Desk.Rows.{managed_of}
use skulid.Sync.Desk.Rows.Keys.{AreNumbered}
use skulid.Sync.Scheduler.Busy.{IsQuiet, read-IsQuiet, client_for-IsQuiet, free_busy-IsQuiet}
use skulid.Sync.SmartBlocks.{
  or_thirty, desired, in_range, source_busy, add_source, busy_of, settle_block, recompute_within,
}
use skulid.Sync.SmartBlocks.Bags.{times, rows_at, outside, rows_at-split}
use skulid.Sync.SmartBlocks.Start.{in_range-Left}
use skulid.Sync.SmartBlocks.Settle.{are_new, settled}

module _ (out : Outside) (go : Runtime) (zones : Zones) where
  -- The read of the source calendars leaves the tables alone.
  module _ (w : Desk) where
    add_source-IsQuiet :
        (s e : ℕ) (got : Result Calendar) → Keeps (IsQuiet w) (add_source out go zones s e got)
    unfolding add_source source_busy
    add_source-IsQuiet s e (err x) = λ w' q. q
    add_source-IsQuiet s e (ok cal) =
        if-Keeps (IsQuiet w) _ _ _ (λ w' q. q)
          (then-Keeps (IsQuiet w) _ _ (client_for-IsQuiet out go w)
            (bind-Keeps (IsQuiet w) _ _ (free_busy-IsQuiet out go w _ s e) λ fb w' q. q))

    busy_of-IsQuiet : (s e : ℕ) (ids : List ℕ) → Keeps (IsQuiet w) (busy_of out go zones s e ids)
    unfolding busy_of get_calendar
    busy_of-IsQuiet s e [] = λ w' q. q
    busy_of-IsQuiet s e (id ∷ ids) = λ w' q.
        bind-Keeps (IsQuiet w) _ _ (add_source-IsQuiet s e _)
          (λ ws. bind-Keeps (IsQuiet w) _ _ (busy_of-IsQuiet s e ids) λ rest w'' q'. q') _
          (read-IsQuiet out go w _ w' q)

  abbrev range_end : SmartBlock → Location → ℕ → ℕ
  range_end b loc start = zones.add_days loc start (or_thirty b.horizon_days)

  module _ (a : Answers out) where
    -- With the busy time read, the rest settles the block's rows in the range.
    recompute_within_settles :
        (b : SmartBlock) (cal : Calendar) (wh : WorkingHours) (loc : Location) (start : ℕ)
        (busy : List Window) (w : Desk)
        → (busy_of out go zones start (range_end b loc start) b.source_calendar_ids w).0 ≡ ok busy
        → let end = range_end b loc start in
          let w' = (busy_of out go zones start end b.source_calendar_ids w).1 in
          recompute_within out go zones b cal wh loc start w
          ≡ settle_block out go zones b cal wh.time_zone
              (in_range start end (managed_of b.id w'.managed))
              (desired b (expand wh start end loc) busy)
              (tick w')
    unfolding recompute_within read ask ◌>>=◌ or_fail
    recompute_within_settles b cal wh loc start busy w answered =
        let w' = (busy_of out go zones start (range_end b loc start) b.source_calendar_ids w).1 in
        rw (answered, a.queries w'.tick) refl

    -- Where the database and Google answer, the busy time of the source calendars is read, no two
    -- rows share a number, and each event that is inserted gets an id that no row of the block has by
    -- then, the recomputation of a smart block succeeds, and then its rows stand at a window as often
    -- as the window is among those that it should stand at, besides its rows outside the range, which
    -- stay.
    pub recompute_within_refines :
        (b : SmartBlock) (cal : Calendar) (wh : WorkingHours) (loc : Location) (start : ℕ)
        (busy : List Window) (w : Desk) (x : Window)
        → AreNumbered w.next_row w.managed
        → (busy_of out go zones start (range_end b loc start) b.source_calendar_ids w).0 ≡ ok busy
        → (let end = range_end b loc start in
            let w' = (busy_of out go zones start end b.source_calendar_ids w).1 in
            are_new out a go zones b cal wh.time_zone
              (in_range start end (managed_of b.id w'.managed))
              (desired b (expand wh start end loc) busy)
              (tick w')
            ≡ true)
        → let end = range_end b loc start in
          let after = recompute_within out go zones b cal wh loc start w in
          (after.0 ≡ ok tt)
          × (rows_at b.id x after.1.managed
              ≡ times x (desired b (expand wh start end loc) busy)
                + rows_at b.id x (outside start end (managed_of b.id w.managed)))
    recompute_within_refines b cal wh loc start busy w x k answered new =
        let end = range_end b loc start in
        let w' = (busy_of out go zones start end b.source_calendar_ids w).1 in
        let quiet : IsQuiet w w' = busy_of-IsQuiet w start end b.source_calendar_ids w refl in
        let table : w'.managed ≡ w.managed = ap {A = Desk} (λ v. v.managed) quiet in
        let number : w'.next_row ≡ w.next_row = ap {A = Desk} (λ v. v.next_row) quiet in
        let k' : AreNumbered w'.next_row w'.managed = rw (table, number) k in
        let result =
          settled out a go zones b cal wh.time_zone (desired b (expand wh start end loc) busy)
            (in_range start end (managed_of b.id w'.managed)) (tick w') new
            (in_range-Left b.id start end (tick w') k') in
        let step = recompute_within_settles b cal wh loc start busy w answered in
        (
          rw step result.succeeds,
          subst
              (λ rows.
                rows_at b.id x (recompute_within out go zones b cal wh loc start w).1.managed
                ≡ times x (desired b (expand wh start end loc) busy)
                  + rows_at b.id x (outside start end (managed_of b.id rows)))
              table
              (rw step (omega (arith, result.bag x, rows_at-split b.id x start end w'.managed))),
        )
