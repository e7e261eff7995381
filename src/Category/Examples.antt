-- ===== src/Category/Examples.antt =====
-- The theorems on categories at a meeting of three people, one of them a guest, and a room.
use skulid.Base.{◌≡◌, refl, true, false, [], ◌∷◌, none, Text, codes, text_eq, contains}
use skulid.Sync.Event.{Event, Attendee}
use skulid.Sync.Filter.{is_all_day_event, member}
use skulid.Category.{
  Folding, Context, has_keyword, first_slug, count_real_attendees, title_keyword, domain_of,
  after_at, any_external, has_external_attendee, by_people, classify,
}
use skulid.Category.Laws.{without_rooms, classify_rooms}

abbrev plain : Folding
plain = record { to_lower = λ t. t; equal_fold = text_eq }

abbrev ours : Context
ours = record { owner_domains = codes "a.com" ∷ []; calendar_default_slug = codes "team" }

abbrev guest : Text → Attendee
guest email = record { email = email; resource = false }

abbrev visit : Event
visit = record {
  id = codes "v";
  status = codes "confirmed";
  summary = codes "Visit";
  description = [];
  location = [];
  color_id = [];
  transparency = [];
  visibility = [];
  etag = [];
  start = none;
  end = none;
  recurrence = [];
  attendees =
      guest (codes "x@a.com")
      ∷ record { email = codes "room@r.com"; resource = true }
      ∷ guest (codes "y@a.com")
      ∷ guest (codes "z@b.com")
      ∷ [];
  props = [];
}

visit_external : classify plain visit ours ≡ codes "external"
unfolding classify by_people has_external_attendee any_external count_real_attendees title_keyword
    first_slug has_keyword contains domain_of after_at member is_all_day_event text_eq
visit_external = refl

classify_rooms_example :
    classify plain (record visit { attendees = without_rooms visit.attendees }) ours
    ≡ classify plain visit ours
classify_rooms_example = classify_rooms plain visit ours
