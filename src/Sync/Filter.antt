-- ===== src/Sync/Filter.antt =====
-- internal/sync/filter.go: `Filter` and `Match`; internal/sync/rule_engine.go:
-- `allowedByAllDayMode` and `isAllDayEvent`. Regular expressions, lower case and the reading of
-- RFC 3339 times are Go's, and parameters.
use skulid.Base.{
  ℕ, Bool, true, false, not, ◌&&◌, ◌||◌, List, [], ◌∷◌, Option, none, some, ltb, leb, ◌==◌,
  if◌then◌else◌, Text, codes, text_eq, is_nil,
}
use skulid.Sync.Event.{Event, EventTime, Attendee}

-- An instant, and the hour that its text shows.
pub record Stamp : Type 0 where
  pub instant : ℕ
  pub hour : ℕ

-- `regexp.Compile` with `MatchString` (none where the expression does not compile),
-- `strings.ToLower`, and `time.Parse` and `Format` with `time.RFC3339`.
pub record Runtime : Type 0 where
  pub matches : Text → Text → Option Bool
  pub to_lower : Text → Text
  pub parse_time : Text → Option Stamp
  pub format_time : ℕ → Text

-- An empty text and a zero hour leave their test out.
pub record Filter : Type 0 where
  pub title_regex : Text
  pub color_ids : List Text
  pub attendee_any : List Text
  pub free_busy : Text
  pub all_day : Text
  pub start_hour : ℕ
  pub end_hour : ℕ

abbrev yes_or_no : Option Bool → Bool
yes_or_no none = false
yes_or_no (some b) = b

abbrev pub date_time_of : Option EventTime → Text
date_time_of none = []
date_time_of (some t) = t.date_time

abbrev is_date : Option EventTime → Bool
is_date none = false
is_date (some t) = is_nil t.date_time && not (is_nil t.date)

unfoldable pub is_all_day_event : Event → Bool
is_all_day_event ev = is_date ev.start

unfoldable pub member : Text → List Text → Bool
member t [] = false
member t (c ∷ cs) = text_eq c t || member t cs

module _ (go : Runtime) where
  open go use {matches, to_lower, parse_time}

  -- Whether an attendee has the address `want`, whatever the case of either.
  unfoldable pub attends : Text → List Attendee → Bool
  attends want [] = false
  attends want (a ∷ attendees) =
      text_eq (to_lower a.email) (to_lower want) || attends want attendees

  unfoldable pub any_attends : List Text → List Attendee → Bool
  any_attends [] attendees = false
  any_attends (want ∷ wanted) attendees = attends want attendees || any_attends wanted attendees

  unfoldable pub title_passes : Filter → Event → Bool
  title_passes f ev = is_nil f.title_regex || yes_or_no (matches f.title_regex ev.summary)

  unfoldable pub color_passes : Filter → Event → Bool
  color_passes f ev = is_nil f.color_ids || member ev.color_id f.color_ids

  unfoldable pub attendee_passes : Filter → Event → Bool
  attendee_passes f ev = is_nil f.attendee_any || any_attends f.attendee_any ev.attendees

  unfoldable pub free_busy_passes : Filter → Event → Bool
  free_busy_passes f ev =
      let is_free = text_eq ev.transparency (codes "transparent") in
      not (text_eq f.free_busy (codes "busy") && is_free)
      && not (text_eq f.free_busy (codes "free") && not is_free)

  unfoldable pub all_day_passes : Filter → Event → Bool
  all_day_passes f ev =
      not (text_eq f.all_day (codes "only") && not (is_all_day_event ev))
      && not (text_eq f.all_day (codes "exclude") && is_all_day_event ev)

  abbrev hour_passes : Filter → Option Stamp → Bool
  hour_passes f none = false
  hour_passes f (some t) =
      not (not (f.start_hour == 0) && ltb t.hour f.start_hour)
      && not (not (f.end_hour == 0) && leb f.end_hour t.hour)

  unfoldable pub hours_pass : Filter → Event → Bool
  hours_pass f ev =
      let time = date_time_of ev.start in
      f.start_hour == 0 && f.end_hour == 0 || not (is_nil time) && hour_passes f (parse_time time)

  -- The early returns of `Match`, in their order.
  unfoldable pub match_event : Filter → Event → Bool
  match_event f ev =
      not (text_eq ev.status (codes "cancelled"))
      && title_passes f ev
      && color_passes f ev
      && attendee_passes f ev
      && free_busy_passes f ev
      && all_day_passes f ev
      && hours_pass f ev

unfoldable pub allowed_by_all_day_mode : Text → Event → Bool
unfolding is_all_day_event
allowed_by_all_day_mode mode ev =
    if not (is_all_day_event ev)
    then true
    else if text_eq mode (codes "skip")
    then false
    else if text_eq mode (codes "only_busy")
    then not (text_eq ev.transparency (codes "transparent"))
    else true
