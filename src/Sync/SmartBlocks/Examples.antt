-- ===== src/Sync/SmartBlocks/Examples.antt =====
-- The theorem on smart blocks at a block that should fill a Monday.
use skulid.Base.{◌≡◌, ◌*◌, ◌+◌, refl, [], ◌∷◌, arith}
use skulid.Hours.Window.{Window}
use skulid.Hours.Expand.{expand, expand_days, expand_ranges, clip, parse_range, ranges_on}
use skulid.Sync.Outside.{Result, ok, ◌>>=◌, ◌>>◌, or_fail}
use skulid.Sync.Desk.{Desk, ask, read, client_for, free_busy, get_calendar}
use skulid.Sync.Desk.Rows.{managed_of, place_managed}
use skulid.Sync.Engine.Store.{find_calendar}
use skulid.Sync.Scheduler.Sample.{
  minute, short_go, answering, answering-Answers, mondays, one_zone, office_hours, office, desk,
  focus, row,
}
use skulid.Base.{
  replace_char, trim_space, trim_left, trim_right, is_space, cut_at, atoi, digits, scan, itoa,
  text_eq,
}
use skulid.Hours.Ranges.{parse_hm, pad, plain_dashes, show_range, read_range, normalize_range}
use skulid.Hours.Subtract.{subtract_busy, carve, cut_all, cut}
use skulid.Hours.Merge.{
  insert, sort, extend, merge_sorted, merge, coalesce_gap, merge_sorted_gap, merge_with_gap,
}
use skulid.Sync.Buffers.{minutes_long, minutes_below}
use skulid.Sync.SmartBlocks.{
  in_range, take_match, merge_over, long_enough, desired, add_source, source_busy, busy_of,
  all_windows, recompute_within,
}
use skulid.Sync.SmartBlocks.Bags.{times, rows_at, outside}
use skulid.Sync.SmartBlocks.Outcome.{recompute_within_refines}

-- A block to move, one to delete, and one of a later day.
abbrev three_rows : Desk
three_rows = record (desk []) { managed = row 2 3000 ∷ row 1 700 ∷ row 0 600 ∷ []; next_row = 3 }

abbrev workday : Window
workday = record { start = 540 * minute; end = 1020 * minute }

abbrev recomputed : Result (Unit {0}) × Desk
recomputed =
    recompute_within answering short_go one_zone focus office office_hours mondays 0 three_rows

recompute_within_refines_example :
    (recomputed.0 ≡ ok tt)
    × (rows_at 4 workday recomputed.1.managed
        ≡ times workday (desired focus (expand office_hours 0 (1440 * minute) mondays) [])
          + rows_at 4 workday (outside 0 (1440 * minute) (managed_of 4 three_rows.managed)))
unfolding busy_of add_source source_busy all_windows get_calendar find_calendar client_for free_busy
    read ask or_fail ◌>>=◌ ◌>>◌ in_range managed_of place_managed take_match desired merge_over
    long_enough minutes_below minutes_long merge_with_gap merge_sorted_gap coalesce_gap extend sort
    insert merge merge_sorted subtract_busy carve cut_all cut expand expand_days expand_ranges clip
    parse_range ranges_on normalize_range read_range plain_dashes replace_char trim_space trim_left
    trim_right is_space cut_at parse_hm atoi digits scan show_range pad itoa text_eq
recompute_within_refines_example =
    recompute_within_refines answering short_go one_zone answering-Answers focus office office_hours
      mondays 0 [] three_rows workday
      (omega arith, refl, (omega arith, refl, (omega arith, refl, tt))) refl refl
