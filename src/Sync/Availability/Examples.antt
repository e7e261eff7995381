-- ===== src/Sync/Availability/Examples.antt =====
-- The theorem on zones at a calendar whose own hours name no zone.
use skulid.Base.{
  true, ◌≡◌, refl, ◌∷◌, [], none, some, List, Text, codes, if◌then◌else◌, is_nil, trim_space,
}
use skulid.Hours.Stored.{absent, decoded, parse_hours}
use skulid.Sync.Event.{Calendar}
use skulid.Sync.Availability.{
  personal, pick_calendar_hours, calendar_zone, effective_calendar_hours,
}
use skulid.Sync.Availability.Zone.{effective_calendar_hours_zone}

abbrev mondays : List (Text × List Text)
mondays = (codes "mon", codes "10:00-12:00" ∷ []) ∷ []

abbrev family : Calendar
family = record {
  id = 3;
  account_id = 9;
  google_calendar_id = codes "f";
  time_zone = codes "Europe/Paris";
  buffers = [];
  hours = record { working = decoded [] (some mondays); personal = absent; meeting = absent };
  enabled = true;
}

effective_calendar_hours_zone_example :
    parse_hours (effective_calendar_hours family none personal)
    ≡ some (record {
      time_zone = if is_nil (trim_space []) then calendar_zone family none else [];
      days = mondays;
    })
unfolding pick_calendar_hours
effective_calendar_hours_zone_example =
    effective_calendar_hours_zone family none personal [] mondays refl
