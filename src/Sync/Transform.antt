-- ===== src/Sync/Transform.antt =====
-- internal/sync/transform.go: `Transform`, `TransformForMode`, `Apply` and `renderTitle`.
pub mod Laws
mod Examples
use skulid.Base.{
  Bool, true, false, not, List, [], Option, if◌then◌else◌, Text, codes, text_eq, is_nil,
  replace_all,
}
use skulid.Sync.Event.{Event}

pub record Transform : Type 0 where
  pub title_template : Text
  pub mark_busy : Bool
  pub strip_attendees : Bool
  pub strip_description : Bool
  pub visibility : Text

-- An unknown mode, also an empty one, is the default.
unfoldable pub transform_for_mode : Text → Transform
transform_for_mode mode =
    if text_eq mode (codes "personal_commitment")
    then record {
      title_template = codes "Personal Commitment";
      mark_busy = true;
      strip_attendees = true;
      strip_description = true;
      visibility = codes "private";
    }
    else if text_eq mode (codes "details_for_you_busy_others")
    then record {
      title_template = [];
      mark_busy = true;
      strip_attendees = true;
      strip_description = false;
      visibility = codes "private";
    }
    else if text_eq mode (codes "details_for_you_and_access")
    then record {
      title_template = [];
      mark_busy = true;
      strip_attendees = false;
      strip_description = false;
      visibility = codes "default";
    }
    else record {
      title_template = codes "Busy";
      mark_busy = true;
      strip_attendees = true;
      strip_description = true;
      visibility = codes "private";
    }

unfoldable pub render_title : Text → Event → Text
render_title tmpl source =
    if is_nil tmpl
    then if is_nil source.summary then codes "Busy" else source.summary
    else replace_all (codes "{location}") source.location
        (replace_all (codes "{title}") source.summary tmpl)

-- A field that `Apply` does not set is empty.
unfoldable pub apply : Transform → Event → Event
apply t source = record {
  id = [];
  status = [];
  summary = render_title t.title_template source;
  description = if t.strip_description then [] else source.description;
  location = source.location;
  color_id = source.color_id;
  transparency = if t.mark_busy then codes "opaque" else source.transparency;
  visibility = if is_nil t.visibility then source.visibility else t.visibility;
  etag = [];
  start = source.start;
  end = source.end;
  recurrence = source.recurrence;
  attendees = if t.strip_attendees then [] else source.attendees;
  props = [];
}
