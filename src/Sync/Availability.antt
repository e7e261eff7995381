-- ===== src/Sync/Availability.antt =====
-- internal/db/calendars.go: `EffectiveCalendarHours`, `CalendarZone` and `pickCalendarHours`;
-- internal/db/accounts.go: `EffectiveHours`; and how the rule engine turns them into hours with
-- their location. `time.LoadLocation` is a parameter.
pub mod Zone
mod Examples
use skulid.Base.{
  ℕ, Bool, true, false, not, List, [], ◌∷◌, Option, none, some, ◌==◌, if◌then◌else◌, Text, codes,
  is_nil, trim_space,
}
use skulid.Hours.Expand.{WorkingHours, Location}
use skulid.Hours.Stored.{
  Blob, absent, null, broken, bad_days, decoded, parse_hours, zone_of, with_zone,
}
use skulid.Sync.Event.{Calendar, HourColumns}

pub data HoursKind : Type 0 where
  working personal meeting : HoursKind

pub record Account : Type 0 where
  pub id : ℕ
  pub hours : HourColumns

-- `len(raw) > 0`.
abbrev pub is_set : Blob → Bool
is_set absent = false
is_set null = true
is_set broken = true
is_set (bad_days zone) = true
is_set (decoded zone days) = true

abbrev pub or_else : Blob → Blob → Blob
or_else raw fallback = if is_set raw then raw else fallback

unfoldable pub effective_hours : Account → HoursKind → Blob
effective_hours a working = a.hours.working
effective_hours a personal = or_else a.hours.personal a.hours.working
effective_hours a meeting = or_else a.hours.meeting a.hours.working

abbrev from_account : Option Account → HoursKind → Blob
from_account none kind = absent
from_account (some a) kind = effective_hours a kind

-- `pickCalendarHours` of a calendar that is not nil.
unfoldable pub pick_calendar_hours : Calendar → Option Account → HoursKind → Blob
pick_calendar_hours cal acct working = or_else cal.hours.working (from_account acct working)
pick_calendar_hours cal acct personal =
    or_else cal.hours.personal (or_else cal.hours.working (from_account acct personal))
pick_calendar_hours cal acct meeting =
    or_else cal.hours.meeting (or_else cal.hours.working (from_account acct meeting))

abbrev account_zone : Option Account → Text
account_zone none = []
account_zone (some a) = zone_of a.hours.working

unfoldable pub calendar_zone : Calendar → Option Account → Text
calendar_zone cal acct =
    let own = trim_space cal.time_zone in
    if not (is_nil own)
    then own
    else if not (is_nil (account_zone acct))
    then account_zone acct
    else codes "UTC"

unfoldable pub effective_calendar_hours : Calendar → Option Account → HoursKind → Blob
effective_calendar_hours cal acct kind =
    let raw = pick_calendar_hours cal acct kind in
    if not (is_nil (zone_of raw)) then raw else with_zone raw (calendar_zone cal acct)

unfoldable pub find_account : ℕ → List Account → Option Account
find_account id [] = none
find_account id (a ∷ accounts) = if a.id == id then some a else find_account id accounts

abbrev pub located :
    (Text → Option Location) → Option WorkingHours → Option (WorkingHours × Location)
located load none = none
located load (some wh) = elim (load wh.time_zone) [ none ↦ none | some loc ↦ some (wh, loc) ]

abbrev of_account :
    (Text → Option Location) → Calendar → Option Account → Option (WorkingHours × Location)
of_account load cal none = none
of_account load cal (some a) =
    located load (parse_hours (effective_calendar_hours cal (some a) working))

-- The working hours that the rule engine asks of a source calendar: its parameter `hours_of`.
unfoldable pub working_hours_of :
    List Account → (Text → Option Location) → Calendar → Option (WorkingHours × Location)
working_hours_of accounts load cal = of_account load cal (find_account cal.account_id accounts)
