-- ===== src/Sync/Event.antt =====
-- Google Calendar events as the engines read them; internal/calendar/client.go: the marks of
-- managed events; internal/db/models.go: `Calendar` with its hours. A nil attendee, which every count skips, is
-- left out of a list.
use skulid.Hours.Stored.{Blob, absent}
use skulid.Base.{
  ℕ, Bool, false, ◌||◌, List, [], ◌∷◌, Option, if◌then◌else◌, Text, codes, text_eq, itoa,
}

pub record EventTime : Type 0 where
  pub date_time : Text
  pub date : Text
  pub time_zone : Text

pub record Attendee : Type 0 where
  pub email : Text
  pub resource : Bool

pub record Event : Type 0 where
  pub id : Text
  pub status : Text
  pub summary : Text
  pub description : Text
  pub location : Text
  pub color_id : Text
  pub transparency : Text
  pub visibility : Text
  pub etag : Text
  pub start : Option EventTime
  pub end : Option EventTime
  pub recurrence : List Text
  pub attendees : List Attendee
  -- `ExtendedProperties.Private`
  pub props : List (Text × Text)

-- The hours of a calendar or of an account.
pub record HourColumns : Type 0 where
  pub working : Blob
  pub personal : Blob
  pub meeting : Blob

abbrev pub no_hours_set : HourColumns
no_hours_set = record { working = absent; personal = absent; meeting = absent }

pub record Calendar : Type 0 where
  pub id : ℕ
  pub account_id : ℕ
  pub google_calendar_id : Text
  pub time_zone : Text
  pub buffers : Text
  pub hours : HourColumns
  pub enabled : Bool

-- Whether `props[key] == "1"`; a missing key reads as the empty text.
unfoldable pub marked : Text → List (Text × Text) → Bool
marked key [] = false
marked key ((k, v) ∷ props) = if text_eq k key then text_eq v (codes "1") else marked key props

unfoldable pub is_managed : Event → Bool
is_managed ev =
    marked (codes "skulidManaged") ev.props || marked (codes "calmAxolotlManaged") ev.props

unfoldable pub managed_props : ℕ → Text → List (Text × Text)
managed_props rule_id source_event_id =
    (codes "skulidManaged", codes "1")
    ∷ (codes "skulidRuleId", itoa rule_id)
    ∷ (codes "skulidSourceEventId", source_event_id)
    ∷ []

unfoldable pub buffer_props : Text → Text → List (Text × Text)
buffer_props buffer_type source_event_id =
    (codes "skulidManaged", codes "1")
    ∷ (codes "skulidBufferType", buffer_type)
    ∷ (codes "skulidBufferForEventId", source_event_id)
    ∷ []
