-- ===== src/Category.antt =====
-- internal/category/categorize.go: `Classify`. Case folding is Go's, and a parameter. 64 is "@".
pub mod Laws
mod Examples
use skulid.Base.{
  ℕ, suc, Bool, true, false, not, ◌&&◌, ◌||◌, List, [], ◌∷◌, ◌++◌, Option, none, some, leb, ◌==◌,
  if◌then◌else◌, Text, codes, text_eq, is_nil, contains,
}
use skulid.Sync.Event.{Event, Attendee}
use skulid.Sync.Filter.{is_all_day_event, member}

-- `strings.ToLower` and `strings.EqualFold`.
pub record Folding : Type 0 where
  pub to_lower : Text → Text
  pub equal_fold : Text → Text → Bool

-- `owner_domains` is a set: a list that `member` reads.
pub record Context : Type 0 where
  pub owner_domains : List Text
  pub calendar_default_slug : Text

-- `keywordMap`: each category with its keywords.
abbrev pub keyword_map : List (Text × List Text)
keyword_map =
    (
      codes "focus",
      codes "focus"
          ∷ codes "deep work"
          ∷ codes "deep-work"
          ∷ codes "writing block"
          ∷ codes "heads down"
          ∷ [],
    )
    ∷ (
      codes "travel",
      codes "lunch"
          ∷ codes "break"
          ∷ codes "decompress"
          ∷ codes "decompression"
          ∷ codes "commute"
          ∷ codes "travel"
          ∷ codes "drive"
          ∷ [],
    )
    ∷ []

unfoldable pub has_keyword : Text → List Text → Bool
has_keyword lower [] = false
has_keyword lower (kw ∷ kws) = contains lower kw || has_keyword lower kws

unfoldable pub first_slug : Text → List (Text × List Text) → Text
first_slug lower [] = []
first_slug lower ((slug, matches) ∷ rest) =
    if has_keyword lower matches then slug else first_slug lower rest

unfoldable pub count_real_attendees : List Attendee → ℕ
count_real_attendees [] = 0
count_real_attendees (a ∷ attendees) =
    let n = count_real_attendees attendees in if a.resource then n else suc n

-- What follows the last "@", on what follows the last one so far.
unfoldable pub after_at : Option Text → Text → Option Text
after_at found [] = found
after_at found (c ∷ s) = if c == 64 then after_at (some s) s else after_at found s

module _ (go : Folding) where
  -- Empty if nothing matches.
  unfoldable pub title_keyword : Text → Text
  title_keyword summary =
      if is_nil summary then [] else first_slug (go.to_lower summary) keyword_map

  abbrev lowered : Option Text → Text
  lowered none = []
  lowered (some s) = if is_nil s then [] else go.to_lower s

  unfoldable pub domain_of : Text → Text
  domain_of email = lowered (after_at none email)

  unfoldable pub domains_from_emails : List Text → List Text
  domains_from_emails [] = []
  domains_from_emails (e ∷ emails) =
      let rest = domains_from_emails emails in
      if is_nil (domain_of e) then rest else domain_of e ∷ rest

  -- Whether an attendee counts as a guest from outside the domains.
  abbrev pub is_external : List Text → Attendee → Bool
  is_external domains a =
      not (a.resource || is_nil a.email)
      && not (is_nil (domain_of a.email))
      && not (member (domain_of a.email) domains)

  unfoldable pub any_external : List Text → List Attendee → Bool
  any_external domains [] = false
  any_external domains (a ∷ attendees) =
      if is_external domains a then true else any_external domains attendees

  unfoldable pub has_external_attendee : List Attendee → List Text → Bool
  has_external_attendee attendees domains =
      if is_nil domains then false else any_external domains attendees

  abbrev default_or : Context → Text → Text
  default_or ctx slug = if is_nil ctx.calendar_default_slug then slug else ctx.calendar_default_slug

  -- The part of `Classify` on timed events with no keyword, by the number of people.
  unfoldable pub by_people : Event → Context → ℕ → Text
  by_people ev ctx n =
      if leb n 1
      then default_or ctx (codes "focus")
      else if n == 2
      then codes "one_on_one"
      else if has_external_attendee ev.attendees ctx.owner_domains
      then codes "external"
      else codes "team"

  -- `Classify` of an event that is not nil.
  unfoldable pub classify : Event → Context → Text
  classify ev ctx =
      if text_eq ev.status (codes "cancelled")
      then codes "other"
      else if go.equal_fold ev.transparency (codes "transparent")
      then default_or ctx (codes "free")
      else if not (is_nil (title_keyword ev.summary))
      then title_keyword ev.summary
      else if is_all_day_event ev
      then default_or ctx (codes "personal")
      else by_people ev ctx (count_real_attendees ev.attendees)
