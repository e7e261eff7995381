-- ===== src/Hours/Stored.antt =====
-- internal/hours/hours.go: `Default` and `Parse`; internal/db/calendars.go: `zoneOf` and `withZone`.
-- A JSON column is taken as what decoding finds in it.
use skulid.Base.{List, [], ◌∷◌, Option, none, some, if◌then◌else◌, Text, codes, is_nil, trim_space}
use skulid.Hours.Expand.{WorkingHours}

-- A column with nothing in it, with the text `null`, with a text that is no object of the right
-- shape, with a zone beside days that do not decode, or with a zone and days. A zone that is
-- missing is empty, and days that are missing or null are none.
pub data Blob : Type 0 where
  absent null broken : Blob
  bad_days : Text → Blob
  decoded : Text → Option (List (Text × List Text)) → Blob

abbrev nine_to_five : List Text
nine_to_five = codes "09:00-17:00" ∷ []

-- `Default`.
abbrev pub default_hours : WorkingHours
default_hours = record {
  time_zone = codes "UTC";
  days =
      (codes "mon", nine_to_five)
      ∷ (codes "tue", nine_to_five)
      ∷ (codes "wed", nine_to_five)
      ∷ (codes "thu", nine_to_five)
      ∷ (codes "fri", nine_to_five)
      ∷ [];
}

abbrev or_empty : Option (List (Text × List Text)) → List (Text × List Text)
or_empty none = []
or_empty (some days) = days

-- `Parse`; none for an error.
unfoldable pub parse_hours : Blob → Option WorkingHours
parse_hours absent = some default_hours
parse_hours null = some default_hours
parse_hours broken = none
parse_hours (bad_days zone) = none
parse_hours (decoded zone days) =
    some (record { time_zone = if is_nil zone then codes "UTC" else zone; days = or_empty days })

unfoldable pub zone_of : Blob → Text
zone_of absent = []
zone_of null = []
zone_of broken = []
zone_of (bad_days zone) = trim_space zone
zone_of (decoded zone days) = trim_space zone

unfoldable pub with_zone : Blob → Text → Blob
with_zone absent zone = absent
with_zone null zone = decoded zone none
with_zone broken zone = broken
with_zone (bad_days old) zone = bad_days old
with_zone (decoded old days) zone = decoded zone days
