-- ===== src/Sync/Availability/Zone.antt =====
-- The zone in which a calendar's hours are read.
use skulid.Base.{
  ◌≡◌, refl, true, false, List, [], ◌∷◌, Option, some, if◌then◌else◌, Text, is_nil, trim_space,
  trim_left, trim_right, arith,
}
use skulid.Hours.Stored.{decoded, parse_hours, zone_of, with_zone}
use skulid.Sync.Event.{Calendar}
use skulid.Sync.Availability.{
  HoursKind, Account, pick_calendar_hours, calendar_zone, effective_calendar_hours,
}

calendar_zone_some :
    (cal : Calendar) (acct : Option Account) → is_nil (calendar_zone cal acct) ≡ false
unfolding calendar_zone
calendar_zone_some cal acct = ground arith

trim_space_nil : (zone : Text) → is_nil zone ≡ true → is_nil (trim_space zone) ≡ true
unfolding trim_space trim_left trim_right
trim_space_nil [] h = refl
trim_space_nil (c ∷ zone) h = ground arith

-- Where the hours that win the chain of overrides decode, they are read in their own zone if they
-- name one that is not blank, and else in the calendar's zone; their days stay as they are.
pub effective_calendar_hours_zone :
    (cal : Calendar) (acct : Option Account) (kind : HoursKind) (zone : Text)
    (days : List (Text × List Text))
    → pick_calendar_hours cal acct kind ≡ decoded zone (some days)
    → parse_hours (effective_calendar_hours cal acct kind)
      ≡ some (record {
        time_zone = if is_nil (trim_space zone) then calendar_zone cal acct else zone;
        days = days;
      })
unfolding effective_calendar_hours parse_hours zone_of with_zone
effective_calendar_hours_zone cal acct kind zone days h =
    ground (arith, calendar_zone_some cal acct, trim_space_nil zone)
