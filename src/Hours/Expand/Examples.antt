-- ===== src/Hours/Expand/Examples.antt =====
-- The theorems on working hours at a calendar of days of 1440 minutes that begins on a Monday.
use skulid.Base.{
  ℕ, ◌≡◌, ◌+◌, ◌-◌, ◌*◌, ◌/◌, ◌%◌, refl, true, ◌↔◌, [], ◌∷◌, arith, text_eq, codes, is_space, ◌==◌,
  if◌then◌else◌, trim_left, trim_right, trim_space, replace_char, cut_at, atoi, digits, scan, itoa,
}
use skulid.Hours.Window.{Window, covers}
use skulid.Hours.Ranges.{
  minutes, parse_hm, pad, plain_dashes, show_range, read_range, normalize_range,
}
use skulid.Hours.Expand.{
  Weekday, monday, tuesday, sunday, WorkingHours, Location, parse_range, expand, expand_days,
  expand_ranges, clip, ranges_on,
}
use skulid.Hours.Expand.Coverage.{IsOpenFrom, covers-expand, IsForward, expand_enough}

abbrev weekday_of : ℕ → Weekday
weekday_of n = if n % 7 == 0 then monday else if n % 7 == 1 then tuesday else sunday

abbrev plain_days : Location
plain_days = record {
  weekday = λ t. weekday_of (t / 1440);
  date_at = λ t c. t / 1440 * 1440 + minutes c;
  next_day = λ t. t + 1440;
}

abbrev split_day : WorkingHours
split_day = record {
  time_zone = codes "UTC";
  days = (codes "mon", codes "9-12:00" ∷ codes "9:00-12:00" ∷ codes "13:00–17:00" ∷ []) ∷ [];
}

abbrev span : ℕ → ℕ → Window
span a b = record { start = a; end = b }

monday_hours : expand split_day 600 2880 plain_days ≡ span 600 720 ∷ span 780 1020 ∷ []
unfolding expand expand_days expand_ranges clip parse_range ranges_on normalize_range read_range
    plain_dashes replace_char trim_space trim_left trim_right is_space cut_at parse_hm atoi digits
    scan show_range pad itoa text_eq
monday_hours = refl

plain_days-IsForward : IsForward plain_days
plain_days-IsForward day = omega arith

covers-expand_example :
    (covers 700 (expand split_day 600 2880 plain_days) ≡ true)
    ↔ IsOpenFrom split_day plain_days 600 2880 700 600
covers-expand_example =
    covers-expand 700 split_day plain_days 600 2880 plain_days-IsForward (omega arith)

-- A week after a Monday at 10:00, up to the next Monday at 9:50: that Monday's morning is left out.
last_morning : expand split_day 600 (7 * 1440 + 590) plain_days ≡ span 600 720 ∷ span 780 1020 ∷ []
unfolding expand expand_days expand_ranges clip parse_range ranges_on normalize_range read_range
    plain_dashes replace_char trim_space trim_left trim_right is_space cut_at parse_hm atoi digits
    scan show_range pad itoa text_eq
last_morning = refl

expand_enough_example :
    expand_days (2880 - 600 + 9) split_day plain_days 600 2880 600
    ≡ expand split_day 600 2880 plain_days
expand_enough_example = expand_enough 9 split_day plain_days 600 2880 plain_days-IsForward
