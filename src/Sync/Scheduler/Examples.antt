-- ===== src/Sync/Scheduler/Examples.antt =====
-- The theorems on the scheduler at a task of two minutes on a Monday.
use skulid.Base.{
  ◌≡◌, ◌*◌, ◌⊎◌, refl, true, false, List, [], ◌∷◌, none, some, codes, text_eq, All, arith,
}
use skulid.Hours.Window.{Window, covers}
use skulid.Hours.Subtract.{subtract_busy, carve, cut_all, cut}
use skulid.Hours.Merge.{insert, sort, extend, coalesce, merge_sorted, merge}
use skulid.Base.{trim_space, trim_left, trim_right, is_space, atoi, digits, scan, split_at}
use skulid.Sync.Conflicts.{
  enabled_calendars, group_by_account, group_on, append_to, periods_to_windows, subtract_managed,
}
use skulid.Hours.Chunks.{ChunkPlan}
use skulid.Sync.Buffers.{minutes_long, parse_buffers}
use skulid.Sync.Outside.{Error, out_of_range, Result, ok, err, ◌>>=◌, ◌>>◌, or_fail, Outside}
use skulid.Sync.Desk.{Task, Desk, read, ask, client_for, free_busy, effective_buffers}
use skulid.Sync.Desk.Rows.{find_task, chunks_of, place_chunk, has_chunk, managed_in_range}
use skulid.Sync.Desk.Rows.Keys.{AreKeyed}
use skulid.Sync.Scheduler.Tasks.{
  no_fit_note, duration_of, exclude_own, write_plan, reconcile_task, place_within,
}
use skulid.Sync.Scheduler.Tasks.Refine.{IsSummarised, write_plan_refines}
use skulid.Sync.Scheduler.Busy.{IsQuiet}
use skulid.Sync.Scheduler.Closed.{Answered, busy_everywhere_complete}
use skulid.Sync.Scheduler.Tasks.Quiet.{place_within_fails_closed, reconcile_task_stops}
use skulid.Sync.Scheduler.{
  busy_everywhere, gather, collect, pad_known, apply_buffer_padding, padding_minutes, padded,
  by_google_id,
}
use skulid.Sync.Scheduler.Tasks.Outcome.{IsPlaced, IsNoted, plan_for, reconcile_task_settles}
use skulid.Sync.Scheduler.Sample.{
  minute, short_go, answering, answering-Answers, mondays, one_zone, office_hours, office, report,
  block, desk,
}

-- The task's block and one that it does not need.
abbrev twice : Desk
twice = desk (block 1 650 ∷ block 0 600 ∷ [])

abbrev nine : Window
nine = record { start = 540 * minute; end = 542 * minute }

twice-AreKeyed : AreKeyed 2 twice.chunks
unfolding has_chunk
twice-AreKeyed = (omega arith, refl, refl, (omega arith, refl, refl, tt))

twice_blocks : chunks_of 7 twice.chunks ≡ block 0 600 ∷ block 1 650 ∷ []
unfolding chunks_of place_chunk
twice_blocks = refl

write_plan_refines_example :
    IsSummarised answering answering-Answers short_go one_zone report nine [] (
      write_plan answering short_go one_zone office report
        (chunks_of 7 twice.chunks)
        (nine ∷ [])
        (codes "UTC")
        twice)
unfolding chunks_of place_chunk find_task
write_plan_refines_example =
    write_plan_refines answering answering-Answers short_go one_zone office report (codes "UTC")
      nine [] twice twice-AreKeyed (refl, (refl, tt)) refl

-- A meeting is in the way of both blocks.
abbrev meeting : List Window
meeting = record { start = 590 * minute; end = 660 * minute } ∷ []

abbrev settled : Result (Unit {0}) × Desk
settled =
    reconcile_task answering short_go one_zone 0 (1440 * minute) office report office_hours mondays
      meeting (chunks_of 7 twice.chunks) twice

abbrev report_plan : ChunkPlan
report_plan =
    plan_for answering answering-Answers short_go one_zone 0 (1440 * minute) report office_hours
      mondays meeting (chunks_of 7 twice.chunks) none

reconcile_task_settles_example :
    (settled.0 ≡ ok tt)
    × (IsPlaced 7
          (duration_of answering short_go one_zone report)
          (exclude_own meeting (chunks_of 7 twice.chunks))
          settled.1
        ⊎ ((report_plan.fits ≡ false)
            × IsNoted 7
                (no_fit_note one_zone
                  (duration_of answering short_go one_zone report)
                  report_plan.placeable
                  none
                  mondays)
                settled.1))
unfolding chunks_of place_chunk find_task minutes_long
reconcile_task_settles_example =
    reconcile_task_settles answering answering-Answers short_go one_zone 0 (1440 * minute) office
      report office_hours mondays meeting twice twice-AreKeyed (refl, (refl, tt)) refl (omega arith)

-- Google answers all calls but those for the busy time.
abbrev silent : Outside
silent = record answering { busy = λ n ids from to. none }

abbrev closed : Result (Unit {0}) × Desk
closed =
    place_within silent short_go one_zone 0 (1440 * minute) office report (office_hours, mondays)
      twice

place_within_fails_closed_example : (x : Error) × (closed.0 ≡ err x) × IsQuiet twice closed.1
unfolding enabled_calendars group_by_account group_on append_to
place_within_fails_closed_example =
    place_within_fails_closed silent short_go one_zone 0 (1440 * minute) office report
      (office_hours, mondays) twice (1, office ∷ []) [] [] refl refl (λ n. refl)

-- The task's one block, at ten.
abbrev once : Desk
once = desk (block 0 600 ∷ [])

-- More minutes than 64 bits of nanoseconds hold.
abbrev endless : Task
endless = record report { duration_minutes = record { negative = false; magnitude = 200000000 } }

reconcile_task_stops_example :
    (reconcile_task answering short_go one_zone 0
      (1440 * minute)
      office
      endless
      office_hours
      mondays
      []
      []
      twice).0
    ≡ err out_of_range
unfolding minutes_long
reconcile_task_stops_example =
    reconcile_task_stops answering short_go one_zone 0 (1440 * minute) office endless office_hours
      mondays [] [] twice refl

-- Google answers with a meeting from the first minute to the third.
abbrev meeting_answer : Outside
meeting_answer = record answering {
  busy = λ n ids from to.
      some ((codes "o", record { start = codes "a"; end = codes "aaa" } ∷ []) ∷ []);
}

busy_everywhere_complete_example :
    All
      (Answered meeting_answer short_go 0 (1440 * minute) (λ t.
        covers t (managed_in_range 0 (1440 * minute) once) ≡ false
        → covers t (record { start = minute; end = 3 * minute } ∷ []) ≡ true))
      (group_by_account (enabled_calendars (office ∷ [])))
unfolding busy_everywhere gather collect pad_known apply_buffer_padding by_google_id padding_minutes
    padded client_for free_busy effective_buffers read ask or_fail ◌>>=◌ ◌>>◌ enabled_calendars
    group_by_account group_on append_to periods_to_windows managed_in_range parse_buffers split_at
    atoi digits scan trim_space trim_left trim_right is_space minutes_long text_eq subtract_managed
    merge merge_sorted sort insert coalesce extend subtract_busy carve cut_all cut
busy_everywhere_complete_example =
    busy_everywhere_complete meeting_answer short_go 0 (1440 * minute)
      (record { start = minute; end = 3 * minute } ∷ []) once refl
