-- ===== src/Sync/Scheduler/Habits.antt =====
-- internal/sync/scheduler.go: `PlaceHabit`, `PlaceAllHabits` and `splitHHMM`.
pub mod Neat
use skulid.Base.{
  ℕ, zero, suc, ◌+◌, ◌-◌, ◌*◌, Bool, true, false, not, ◌&&◌, ◌||◌, List, [], ◌∷◌, ◌++◌, Option,
  none, some, ◌==◌, ltb, leb, if◌then◌else◌, Text, codes, text_eq, is_nil, itoa, Signed,
}
use skulid.Hours.Window.{Window}
use skulid.Hours.Ranges.{Clock}
use skulid.Hours.Expand.{WorkingHours, Location, day_key, expand}
use skulid.Hours.Stored.{parse_hours}
use skulid.Hours.Slots.{nearest_fit_slot, nearest_fit_slot_short}
use skulid.Sync.Outside.{
  bad_hours, bad_time, ok, err, Result, M, pure, or_fail, ignore, ◌>>=◌, ◌>>◌, Saved, Outside,
}
use skulid.Sync.Event.{Event, Calendar}
use skulid.Sync.Filter.{Runtime, member}
use skulid.Sync.Availability.{effective_calendar_hours, located}
use skulid.Sync.Placement.{exclude_busy_exact}
use skulid.Sync.Buffers.{minutes_long, minutes_below}
use skulid.Sync.Engine.Store.{insert, update}
use skulid.Sync.Desk.{
  Habit, HabitOccurrence, Desk, Zones, ask, read, write, call_google, delete_google, client_for,
  get_calendar, get_account, write_audit, block_event,
}
use skulid.Sync.Desk.Rows.{
  enabled_habits, find_habit, occurrences_of, on_date, upsert_occurrence, drop_occurrence,
}
use skulid.Sync.Scheduler.{busy_everywhere}

-- `HabitProps`.
unfoldable pub habit_props : ℕ → List (Text × Text)
habit_props habit_id =
    (codes "skulidManaged", codes "1") ∷ (codes "skulidHabitId", itoa habit_id) ∷ []

abbrev or_zero_days : ℕ → ℕ
or_zero_days n = if n == 0 then 14 else n

-- `fmt.Sscanf` with `%d:%d%c`, where it reads the two numbers and no third field, is a parameter.
abbrev pub ScanPair : Type 0
ScanPair = Text → Option (Signed × Signed)

abbrev in_bounds : ℕ → Signed → Bool
in_bounds top v = not (v.negative && not (v.magnitude == 0)) && leb v.magnitude top

-- `splitHHMM`.
unfoldable pub split_hhmm : ScanPair → Text → Option Clock
split_hhmm scan s = elim (scan s) [
  | none ↦ none
  | some (h, m) ↦
      if in_bounds 23 h && in_bounds 59 m
      then some (record { hour = h.magnitude; minute = m.magnitude })
      else none
]

-- `NearestFitSlot` on products of minutes, which may lie below 0: with a negative flex no start is
-- legal.
pub nearest_for : List Window → List Window → Signed → Signed → ℕ → Option Window
nearest_for avail busy duration flex ideal =
    if not (minutes_below flex == 0)
    then none
    else if minutes_below duration == 0
    then nearest_fit_slot avail busy (minutes_long duration) (minutes_long flex) ideal
    else nearest_fit_slot_short avail busy (minutes_below duration) (minutes_long flex) ideal

module _ (out : Outside) (go : Runtime) (zones : Zones) where
  pub habit_event : Habit → Text → Window → Event
  habit_event h zone slot =
      block_event out go h.title [] zone slot.start slot.end (habit_props h.id)

  unfoldable pub upsert : HabitOccurrence → M Desk (Unit {0})
  upsert o = write out (λ w. record w {
    occurrences = upsert_occurrence (record o { id = w.next_row }) w.occurrences;
    next_row = suc w.next_row;
  })

  unfoldable pub delete_by_id : ℕ → M Desk (Unit {0})
  delete_by_id id = write out (λ w. record w { occurrences = drop_occurrence id w.occurrences })

  abbrev hash_of : Habit → Text
  hash_of h = codes "habit #" ++ itoa h.id

  -- No slot fits: the day's occurrence, if there is one, goes.
  pub drop_day : Calendar → Habit → Text → Option HabitOccurrence → M Desk (Unit {0})
  drop_day cal h key none = pure tt
  drop_day cal h key (some prev) = do
    ignore (delete_google out cal.google_calendar_id prev.target_event_id)
    ignore (delete_by_id prev.id)
    ignore (
        write_audit out (codes "habit") prev.target_event_id (codes "drop")
          (hash_of h ++ codes " no fit on " ++ key))

  abbrev pub occurrence_at : Habit → Text → Text → Window → HabitOccurrence
  occurrence_at h key event slot = record {
    id = 0;
    habit_id = h.id;
    target_event_id = event;
    occurs_on = key;
    starts_at = slot.start;
    ends_at = slot.end;
  }

  pub record_day : Habit → Text → Text → Text → Window → Text → M Desk (Unit {0})
  record_day h clock key event slot action = do
    upsert (occurrence_at h key event slot)
    ignore (
        write_audit out (codes "habit") event action
          (hash_of h ++ codes " " ++ key ++ codes " " ++ clock))

  pub create_day : Calendar → Habit → Text → Text → Text → Window → M Desk (Unit {0})
  create_day cal h zone clock key slot = do
    saved ← call_google out (insert cal.google_calendar_id (habit_event h zone slot))
    record_day h clock key saved.id slot (codes "scheduled")

  pub move_day : Calendar → Habit → Text → Text → Text → Window → Text → M Desk (Unit {0})
  move_day cal h zone clock key slot target = do
    saved ← call_google out (update cal.google_calendar_id target (habit_event h zone slot))
    record_day h clock key saved.id slot (codes "rescheduled")

  pub write_day :
      Calendar → Habit → Text → Text → Text → Window → Option HabitOccurrence → M Desk (Unit {0})
  write_day cal h zone clock key slot none = create_day cal h zone clock key slot
  write_day cal h zone clock key slot (some prev) =
      if is_nil prev.target_event_id
      then create_day cal h zone clock key slot
      else move_day cal h zone clock key slot prev.target_event_id

  abbrev stands_at : Option HabitOccurrence → Window → Bool
  stands_at none slot = false
  stands_at (some prev) slot = prev.starts_at == slot.start && prev.ends_at == slot.end

  pub settle_day :
      Calendar
      → Habit
      → Text
      → (Window → Text)
      → Text
      → Option HabitOccurrence
      → Option Window
      → M Desk (Unit {0})
  settle_day cal h zone clock key prev none = drop_day cal h key prev
  settle_day cal h zone clock key prev (some slot) =
      if stands_at prev slot then pure tt else write_day cal h zone (clock slot) key slot prev

  abbrev pub without_prev : List Window → Option HabitOccurrence → List Window
  without_prev busy none = busy
  without_prev busy (some prev) = exclude_busy_exact busy prev.starts_at prev.ends_at

  -- A round of the loop for a day whose weekday the habit names.
  pub place_day :
      Calendar
      → Habit
      → WorkingHours
      → Location
      → Clock
      → List HabitOccurrence
      → ℕ
      → M Desk (Unit {0})
  place_day cal h wh loc ideal existing day = do
    let next = zones.add_days loc day 1
    let prev = on_date (zones.date_text loc day) existing
    busy ← busy_everywhere out go day next
    settle_day cal h wh.time_zone (λ slot. zones.clock_text loc slot.start)
        (zones.date_text loc day) prev
        (nearest_for (expand wh day next loc) (without_prev busy prev) h.duration_minutes
          h.flex_minutes (loc.date_at day ideal))

  -- The loop over the days, `left` of them from the i-th on; an error of a day is logged.
  pub place_days :
      ℕ
      → ℕ
      → Calendar
      → Habit
      → WorkingHours
      → Location
      → Clock
      → List HabitOccurrence
      → ℕ
      → M Desk (Unit {0})
  place_days zero i cal h wh loc ideal existing start = pure tt
  place_days (suc left) i cal h wh loc ideal existing start =
      let day = zones.add_days loc start i in
      let rest = place_days left (suc i) cal h wh loc ideal existing start in
      if not (member (day_key (loc.weekday day)) h.days_of_week)
      then rest
      else ignore (place_day cal h wh loc ideal existing day) >> rest

  module _ (scan : ScanPair) where
    pub place_habit_within :
        ℕ → Calendar → Habit → WorkingHours × Location → Clock → M Desk (Unit {0})
    place_habit_within now cal h hours ideal = if is_nil h.days_of_week then pure tt else do
      existing ← read out (λ w. some (occurrences_of h.id w.occurrences))
      place_days (or_zero_days h.horizon_days) 0 cal h hours.0 hours.1 ideal existing
          (hours.1.date_at now (record { hour = 0; minute = 0 }))

    pub place_habit_on : ℕ → Habit → Calendar → M Desk (Unit {0})
    place_habit_on now h cal = if not cal.enabled then pure tt else do
      client_for out
      acct ← get_account out cal.account_id
      hours ←
          or_fail bad_hours (
            located zones.load
              (parse_hours (effective_calendar_hours cal (some acct) h.hours_kind)))
      ideal ← or_fail bad_time (split_hhmm scan h.ideal_time)
      place_habit_within now cal h hours ideal

    pub place_habit : ℕ → ℕ → M Desk (Unit {0})
    place_habit now habit_id = do
      h ← read out (λ w. find_habit habit_id w.habits)
      if not h.enabled
          then pure tt
          else do cal ← get_calendar out h.target_calendar_id; place_habit_on now h cal

    -- The loop of `PlaceAllHabits`; an error is logged. The instants of the calls are given.
    pub place_each_habit : (ℕ → ℕ) → List Habit → M Desk (Unit {0})
    place_each_habit now [] = pure tt
    place_each_habit now (h ∷ hs) =
        λ w. (ignore (place_habit (now w.tick) h.id) >> place_each_habit now hs) w

    pub place_all_habits : (ℕ → ℕ) → M Desk (Unit {0})
    place_all_habits now = do
      hs ← read out (λ w. some (enabled_habits w.habits))
      place_each_habit now hs
