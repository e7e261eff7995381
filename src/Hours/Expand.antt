-- ===== src/Hours/Expand.antt =====
-- internal/hours/hours.go: `WorkingHours`, `DayKey`, `ParseRange` and `Expand`. The time zone
-- database is a parameter: what the calendar of a location says of an instant.
pub mod Coverage
mod Examples
use skulid.Base.{
  ℕ, zero, suc, ◌-◌, Bool, true, false, ◌||◌, List, [], ◌∷◌, ◌++◌, Option, none, some,
  if◌then◌else◌, Text, cut_at, codes, text_eq,
}
use skulid.Hours.Window.{Window, before, after}
use skulid.Hours.Ranges.{Clock, parse_hm, normalize_range}

pub data Weekday : Type 0 where
  monday tuesday wednesday thursday friday saturday sunday : Weekday

abbrev pub day_key : Weekday → Text
day_key monday = codes "mon"
day_key tuesday = codes "tue"
day_key wednesday = codes "wed"
day_key thursday = codes "thu"
day_key friday = codes "fri"
day_key saturday = codes "sat"
day_key sunday = codes "sun"

pub record WorkingHours : Type 0 where
  pub time_zone : Text
  pub days : List (Text × List Text)

-- `weekday` of an instant, `time.Date` at a clock time of an instant's day, and `AddDate(0, 0, 1)`.
pub record Location : Type 0 where
  pub weekday : ℕ → Weekday
  pub date_at : ℕ → Clock → ℕ
  pub next_day : ℕ → ℕ

-- A read of `wh.Days`; a missing key gives no ranges.
unfoldable pub ranges_on : Text → List (Text × List Text) → List Text
ranges_on key [] = []
ranges_on key ((k, rs) ∷ days) = if text_eq k key then rs else ranges_on key days

-- `strings.Cut` and `parseHM` with their last result dropped: what is not found is empty or zero.
abbrev sides : Option (Text × Text) → Text → Text × Text
sides none whole = (whole, [])
sides (some parts) whole = parts

abbrev clock_or_zero : Option Clock → Clock
clock_or_zero none = record { hour = 0; minute = 0 }
clock_or_zero (some c) = c

abbrev window_on : Location → ℕ → Option Text → Option Window
window_on loc day none = none
window_on loc day (some norm) =
    let parts = sides (cut_at 45 norm) norm in
    some (record {
      start = loc.date_at day (clock_or_zero (parse_hm parts.0));
      end = loc.date_at day (clock_or_zero (parse_hm parts.1));
    })

unfoldable pub parse_range : Text → ℕ → Location → Option Window
parse_range r day loc = window_on loc day (normalize_range r)

-- One round of the loop over a day's ranges, clipped to `from` and `to`.
unfoldable pub clip : ℕ → ℕ → Option Window → List Window
clip from to none = []
clip from to (some w) =
    if before w.end from || after w.start to
    then []
    else record {
      start = if before w.start from then from else w.start;
      end = if after w.end to then to else w.end;
    }
      ∷ []

unfoldable pub expand_ranges : Location → ℕ → ℕ → ℕ → List Text → List Window
expand_ranges loc from to day [] = []
expand_ranges loc from to day (r ∷ rs) =
    clip from to (parse_range r day loc) ++ expand_ranges loc from to day rs

-- The loop over the days, with as many rounds as `fuel` says.
unfoldable pub expand_days : ℕ → WorkingHours → Location → ℕ → ℕ → ℕ → List Window
expand_days zero wh loc from to day = []
expand_days (suc fuel) wh loc from to day =
    let rest = expand_days fuel wh loc from to (loc.next_day day) in
    let ranges = ranges_on (day_key (loc.weekday day)) wh.days in
    if before day to then expand_ranges loc from to day ranges ++ rest else []

-- A day is longer than no time, so that `to - from` rounds are enough.
unfoldable pub expand : WorkingHours → ℕ → ℕ → Location → List Window
expand wh from to loc = expand_days (to - from) wh loc from to from
