-- ===== src/Sync/Transform/Examples.antt =====
-- The theorem on visibility modes at a lunch under an unknown mode.
use skulid.Base.{◌≡◌, ◌≢◌, ◌⊎◌, [], none, codes, text_eq, text_eq_iff, arith}
use skulid.Sync.Event.{Event}
use skulid.Sync.Transform.Laws.{mirrored, apply_hides}

abbrev lunch : Event
lunch = record {
  id = codes "l";
  status = codes "confirmed";
  summary = codes "Lunch with Ann";
  description = codes "secret";
  location = codes "Cafe";
  color_id = [];
  transparency = [];
  visibility = [];
  etag = [];
  start = none;
  end = none;
  recurrence = [];
  attendees = [];
  props = [];
}

not_busy_others : codes "hidden" ≢ codes "details_for_you_busy_others"
unfolding text_eq
not_busy_others = ground (arith, text_eq_iff (codes "hidden") (codes "details_for_you_busy_others"))

not_access : codes "hidden" ≢ codes "details_for_you_and_access"
unfolding text_eq
not_access = ground (arith, text_eq_iff (codes "hidden") (codes "details_for_you_and_access"))

apply_hides_example :
    ((mirrored (codes "hidden") lunch).visibility ≡ codes "private")
    × ((mirrored (codes "hidden") lunch).transparency ≡ codes "opaque")
    × ((mirrored (codes "hidden") lunch).start ≡ none)
    × ((mirrored (codes "hidden") lunch).end ≡ none)
    × (((mirrored (codes "hidden") lunch).summary ≡ codes "Busy")
        ⊎ ((mirrored (codes "hidden") lunch).summary ≡ codes "Personal Commitment"))
    × ((mirrored (codes "hidden") lunch).attendees ≡ [])
    × ((mirrored (codes "hidden") lunch).description ≡ [])
apply_hides_example = apply_hides (codes "hidden") lunch not_busy_others not_access
