-- ===== src/Category/Laws.antt =====
-- What the category of an event depends on, and that every event has one.
use skulid.Base.{◌≡◌, refl, false, List, [], ◌∷◌, if◌then◌else◌, Text, is_nil, arith}
use skulid.Sync.Event.{Event, Attendee}
use skulid.Sync.Filter.{is_all_day_event}
use skulid.Category.{
  Folding, Context, count_real_attendees, any_external, has_external_attendee, by_people, classify,
}

-- `Classify` never returns the empty text.
pub classify_some :
    (go : Folding) (ev : Event) (ctx : Context) → is_nil (classify go ev ctx) ≡ false
unfolding classify by_people
classify_some go ev ctx = ground arith

abbrev pub without_rooms : List Attendee → List Attendee
without_rooms [] = []
without_rooms (a ∷ attendees) =
    if a.resource then without_rooms attendees else a ∷ without_rooms attendees

count-without_rooms :
    (attendees : List Attendee)
    → count_real_attendees (without_rooms attendees) ≡ count_real_attendees attendees
unfolding count_real_attendees
count-without_rooms [] = refl
count-without_rooms (a ∷ attendees) = ground (arith, count-without_rooms attendees)

external-without_rooms :
    (go : Folding) (domains : List Text) (attendees : List Attendee)
    → any_external go domains (without_rooms attendees) ≡ any_external go domains attendees
unfolding any_external
external-without_rooms go domains [] = refl
external-without_rooms go domains (a ∷ attendees) =
    ground (arith, external-without_rooms go domains attendees)

-- Rooms and equipment among the attendees do not change the category.
pub classify_rooms :
    (go : Folding) (ev : Event) (ctx : Context)
    → classify go (record ev { attendees = without_rooms ev.attendees }) ctx ≡ classify go ev ctx
unfolding classify by_people has_external_attendee is_all_day_event
classify_rooms go ev ctx = ground (
  arith,
  count-without_rooms ev.attendees,
  external-without_rooms go ctx.owner_domains ev.attendees,
)
