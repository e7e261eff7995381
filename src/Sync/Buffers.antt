-- ===== src/Sync/Buffers.antt =====
-- internal/sync/buffers.go: `plannedBuffer`, `planBuffers` and the tests it asks;
-- internal/db/buffers.go: `BufferSettings` and its encoding; internal/db/bufferevents.go:
-- `BufferKey`. Times are read by Go's `time.Parse`, a parameter.
pub mod Plan
pub mod Recompute
mod Examples
use skulid.Base.{
  ℕ, zero, suc, ◌+◌, ◌-◌, ◌*◌, ◌%◌, ◌^◌, Bool, true, false, not, ◌&&◌, ◌||◌, List, [], ◌∷◌, ◌++◌,
  Option, none, some, ltb, leb, ◌==◌, if◌then◌else◌, Text, codes, text_eq, is_nil, trim_space,
  split_at, atoi, itoa, Signed, contains,
}
use skulid.Hours.Window.{Window}
use skulid.Sync.Event.{Event, Attendee, is_managed}
use skulid.Sync.Filter.{Runtime, Stamp, date_time_of}

pub record BufferSettings : Type 0 where
  pub task_habit_break_minutes : Signed
  pub decompression_minutes : Signed
  pub travel_minutes : Signed

abbrev pub nothing : Signed
nothing = record { negative = false; magnitude = 0 }

abbrev or_zero : Option Signed → Signed
or_zero none = nothing
or_zero (some v) = v

-- `atoiOr` of a part, and zero where there is no such part.
abbrev part_at : ℕ → List Text → Signed
part_at i [] = nothing
part_at zero (p ∷ parts) = or_zero (atoi (trim_space p))
part_at (suc i) (p ∷ parts) = part_at i parts

-- `parseBuffers`.
unfoldable pub parse_buffers : Text → BufferSettings
parse_buffers v =
    let parts = if is_nil (trim_space v) then [] else split_at 44 v in
    record {
      task_habit_break_minutes = part_at 0 parts;
      decompression_minutes = part_at 1 parts;
      travel_minutes = part_at 2 parts;
    }

abbrev clamp_non_neg : Signed → ℕ
clamp_non_neg v = if v.negative then 0 else v.magnitude

unfoldable pub encode_buffers : BufferSettings → Text
encode_buffers b =
    itoa (clamp_non_neg b.task_habit_break_minutes)
    ++ 44
      ∷ (itoa (clamp_non_neg b.decompression_minutes) ++ 44 ∷ itoa (clamp_non_neg b.travel_minutes))

-- `time.Duration(v) * time.Minute` on 64 bits; 0 stands for what is not positive.
unfoldable pub minutes_long : Signed → ℕ
minutes_long v =
    let bits = v.magnitude * 60000000000 % 2 ^ 64 in
    let signed = if v.negative then (2 ^ 64 - bits) % 2 ^ 64 else bits in
    if ltb signed (2 ^ 63) then signed else 0

-- How far the same product lies below 0.
unfoldable pub minutes_below : Signed → ℕ
minutes_below v =
    let bits = v.magnitude * 60000000000 % 2 ^ 64 in
    let signed = if v.negative then (2 ^ 64 - bits) % 2 ^ 64 else bits in
    if ltb signed (2 ^ 63) then 0 else 2 ^ 64 - signed

pub record BufferKey : Type 0 where
  pub source_event_id : Text
  pub buffer_type : Text
  pub placement : Text

pub record PlannedBuffer : Type 0 where
  pub key : BufferKey
  pub summary : Text
  pub start : ℕ
  pub end : ℕ

abbrev pub block_of : PlannedBuffer → Window
block_of p = record { start = p.start; end = p.end }

-- `isRealCommitment`.
unfoldable pub is_real_commitment : Event → Bool
is_real_commitment ev =
    if text_eq ev.status (codes "cancelled")
    then false
    else if is_managed ev
    then false
    else if is_nil (date_time_of ev.start)
    then false
    else not (text_eq ev.transparency (codes "transparent"))

-- The attendees that are no rooms.
unfoldable pub people : List Attendee → ℕ
people [] = 0
people (a ∷ attendees) = if a.resource then people attendees else suc (people attendees)

unfoldable pub is_decompressible_meeting : Event → Bool
is_decompressible_meeting ev = is_real_commitment ev && leb 2 (people ev.attendees)

abbrev virtual_location_hosts : List Text
virtual_location_hosts =
    codes "meet.google.com"
    ∷ codes "zoom.us"
    ∷ codes "teams.microsoft.com"
    ∷ codes "teams.live.com"
    ∷ codes "webex.com"
    ∷ codes "gotomeeting.com"
    ∷ codes "whereby.com"
    ∷ codes "chime.aws"
    ∷ codes "bluejeans.com"
    ∷ codes "discord.gg"
    ∷ codes "discord.com"
    ∷ codes "slack.com"
    ∷ []

unfoldable pub contains_any : Text → List Text → Bool
contains_any l [] = false
contains_any l (h ∷ hosts) = contains l h || contains_any l hosts

module _ (go : Runtime) where
  unfoldable pub is_virtual_location : Text → Bool
  is_virtual_location loc = contains_any (go.to_lower loc) virtual_location_hosts

  unfoldable pub is_travel_worthy : Event → Bool
  is_travel_worthy ev =
      let loc = trim_space ev.location in
      is_real_commitment ev && not (is_nil loc) && not (is_virtual_location loc)

  -- `parseEvStart` and `parseEvEnd`.
  abbrev pub instant_of : Text → Option Stamp
  instant_of t = if is_nil t then none else go.parse_time t

  abbrev planned : Event → Text → Text → Text → ℕ → ℕ → PlannedBuffer
  planned ev kind placement summary start end = record {
    key = record { source_event_id = ev.id; buffer_type = kind; placement = placement };
    summary = summary;
    start = start;
    end = end;
  }

  -- The plan of an event with both times, by its travel and decompression time.
  unfoldable pub plan_around : Event → ℕ → ℕ → ℕ → ℕ → List PlannedBuffer
  plan_around ev start end travel decomp =
      let travels = not (travel == 0) && is_travel_worthy ev in
      let rests = not (decomp == 0) && is_decompressible_meeting ev in
      let trailing = if rests then end + decomp else end in
      (if travels
        then planned ev (codes "travel") (codes "before") (codes "Travel") (start - travel) start
          ∷ []
        else [])
      ++ (if rests
          then planned ev (codes "decompression") (codes "after") (codes "Decompress") end
              (end + decomp)
            ∷ []
          else [])
      ++ (if travels
          then planned ev (codes "travel") (codes "after") (codes "Travel") trailing
              (trailing + travel)
            ∷ []
          else [])

  abbrev pub plan_between :
      BufferSettings → Event → Option Stamp → Option Stamp → List PlannedBuffer
  plan_between bufs ev none e = []
  plan_between bufs ev (some s) none = []
  plan_between bufs ev (some s) (some e) =
      plan_around ev s.instant e.instant (minutes_long bufs.travel_minutes)
        (minutes_long bufs.decompression_minutes)

  unfoldable pub plan_buffers : BufferSettings → Event → List PlannedBuffer
  plan_buffers bufs ev =
      plan_between bufs ev (instant_of (date_time_of ev.start)) (instant_of (date_time_of ev.end))
