-- ===== src/Sync/Scheduler.antt =====
-- internal/sync/scheduler.go: what is busy everywhere, and the children place tasks and habits.
-- Go walks the accounts in any order; here they come in the order of their first calendar.
pub mod Neat
pub mod Busy
pub mod Sample
mod Examples
pub mod Closed
pub mod Tasks
pub mod Habits
use skulid.Base.{
  ℕ, ◌+◌, Bool, true, false, not, ◌&&◌, List, [], ◌∷◌, ◌++◌, Option, none, some, ◌==◌, ltb,
  if◌then◌else◌, Text, text_eq, is_nil, Signed,
}
use skulid.Hours.Window.{Window}
use skulid.Hours.Merge.{merge}
use skulid.Sync.Outside.{M, pure, ◌>>=◌, ◌>>◌, TimePeriod, FreeBusy, Outside}
use skulid.Sync.Event.{Calendar}
use skulid.Sync.Filter.{Runtime}
use skulid.Sync.Conflicts.{
  enabled_calendars, group_by_account, periods_to_windows, subtract_managed,
}
use skulid.Sync.Buffers.{BufferSettings, minutes_long}
use skulid.Sync.Desk.{Desk, read, client_for, free_busy, effective_buffers}
use skulid.Sync.Desk.Rows.{managed_in_range}

-- `a > b`.
abbrev signed_gt : Signed → Signed → Bool
signed_gt a b =
    if a.negative
    then b.negative && ltb a.magnitude b.magnitude
    else if b.negative
    then not (a.magnitude == 0 && b.magnitude == 0)
    else ltb b.magnitude a.magnitude

-- `PaddingMinutes`.
unfoldable pub padding_minutes : BufferSettings → Signed
padding_minutes b =
    if signed_gt b.task_habit_break_minutes b.decompression_minutes
    then b.task_habit_break_minutes
    else b.decompression_minutes

unfoldable pub padded : ℕ → List Window → List Window
padded pad [] = []
padded pad (w ∷ ws) = record w { end = w.end + pad } ∷ padded pad ws

abbrev pub google_ids : List Calendar → List Text
google_ids [] = []
google_ids (c ∷ cs) = c.google_calendar_id ∷ google_ids cs

abbrev or_this : Option Calendar → Text → Calendar → Option Calendar
or_this (some later) id c = some later
or_this none id c = if text_eq c.google_calendar_id id then some c else none

-- A read of `byGoogleID`, where the last calendar with an id wins.
unfoldable pub by_google_id : Text → List Calendar → Option Calendar
by_google_id id [] = none
by_google_id id (c ∷ cs) = or_this (by_google_id id cs) id c

module _ (out : Outside) (go : Runtime) where
  -- `applyBufferPadding`; a padding of 0 changes nothing.
  unfoldable pub apply_buffer_padding : Calendar → List Window → M Desk (List Window)
  apply_buffer_padding cal windows = if is_nil windows then pure windows else do
    bufs ← effective_buffers out cal
    pure (padded (minutes_long (padding_minutes bufs)) windows)

  unfoldable pub pad_known : Option Calendar → List Window → M Desk (List Window)
  pad_known none windows = pure windows
  pad_known (some cal) windows = apply_buffer_padding cal windows

  -- The loop over an account's answer.
  unfoldable pub collect : List Calendar → FreeBusy → M Desk (List Window)
  collect cals [] = pure []
  collect cals ((google_id, periods) ∷ fb) = do
    windows ← pad_known (by_google_id google_id cals) (periods_to_windows go periods)
    rest ← collect cals fb
    pure (windows ++ rest)

  -- The loop over the accounts.
  unfoldable pub gather : ℕ → ℕ → List (ℕ × List Calendar) → M Desk (List Window)
  gather from to [] = pure []
  gather from to ((account_id, cals) ∷ groups) = do
    client_for out
    fb ← free_busy out (google_ids cals) from to
    windows ← collect cals fb
    rest ← gather from to groups
    pure (windows ++ rest)

  unfoldable pub busy_everywhere : ℕ → ℕ → M Desk (List Window)
  busy_everywhere from to = do
    all ← read out (λ w. some w.calendars)
    gathered ← gather from to (group_by_account (enabled_calendars all))
    managed ← read out (λ w. some (managed_in_range from to w))
    pure (subtract_managed (merge gathered) managed)
