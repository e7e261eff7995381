-- ===== src/Sync/Transform/Laws.antt =====
-- What each visibility mode lets through to the mirror.
use skulid.Base.{◌≡◌, ◌≢◌, refl, [], Text, codes, text_eq_iff, arith, ◌⊎◌, replace_all}
use skulid.Sync.Event.{Event}
use skulid.Sync.Transform.{transform_for_mode, render_title, apply}

abbrev pub mirrored : Text → Event → Event
mirrored mode ev = apply (transform_for_mode mode) ev

render_busy : (ev : Event) → render_title (codes "Busy") ev ≡ codes "Busy"
unfolding render_title replace_all
render_busy ev = refl

render_personal :
    (ev : Event) → render_title (codes "Personal Commitment") ev ≡ codes "Personal Commitment"
unfolding render_title replace_all
render_personal ev = refl

-- Under every mode but the two that are named for showing details, also under an unknown one, the
-- mirror of an event is private busy time at the source's times, with a fixed title, no attendee
-- and no description.
pub apply_hides :
    (mode : Text) (ev : Event)
    → mode ≢ codes "details_for_you_busy_others"
    → mode ≢ codes "details_for_you_and_access"
    → ((mirrored mode ev).visibility ≡ codes "private")
      × ((mirrored mode ev).transparency ≡ codes "opaque")
      × ((mirrored mode ev).start ≡ ev.start)
      × ((mirrored mode ev).end ≡ ev.end)
      × (((mirrored mode ev).summary ≡ codes "Busy")
          ⊎ ((mirrored mode ev).summary ≡ codes "Personal Commitment"))
      × ((mirrored mode ev).attendees ≡ [])
      × ((mirrored mode ev).description ≡ [])
unfolding apply transform_for_mode
apply_hides mode ev p q = ground (
  arith,
  text_eq_iff mode (codes "details_for_you_busy_others"),
  text_eq_iff mode (codes "details_for_you_and_access"),
  render_busy ev,
  render_personal ev,
)
