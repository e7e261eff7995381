-- ===== src/Sync/Conflicts.antt =====
-- internal/sync/conflicts.go: the calendars and the busy windows that a placement takes into
-- account. Go's maps are association lists here, and times are read by a parameter.
pub mod Laws
mod Examples
use skulid.Base.{
  ℕ, Bool, true, false, List, [], ◌∷◌, ◌++◌, Option, none, some, ◌==◌, if◌then◌else◌, Text, is_nil,
}
use skulid.Hours.Window.{Window}
use skulid.Hours.Subtract.{subtract_busy}
use skulid.Sync.Event.{Calendar}
use skulid.Sync.Outside.{TimePeriod}
use skulid.Sync.Filter.{Runtime, Stamp}

unfoldable pub enabled_calendars : List Calendar → List Calendar
enabled_calendars [] = []
enabled_calendars (c ∷ cs) = let rest = enabled_calendars cs in if c.enabled then c ∷ rest else rest

-- `out[c.AccountID] = append(out[c.AccountID], c)`.
unfoldable pub append_to : Calendar → List (ℕ × List Calendar) → List (ℕ × List Calendar)
append_to c [] = (c.account_id, c ∷ []) ∷ []
append_to c ((account_id, cs) ∷ groups) =
    if account_id == c.account_id
    then (account_id, cs ++ c ∷ []) ∷ groups
    else (account_id, cs) ∷ append_to c groups

unfoldable pub group_on : List (ℕ × List Calendar) → List Calendar → List (ℕ × List Calendar)
group_on groups [] = groups
group_on groups (c ∷ cs) = group_on (append_to c groups) cs

unfoldable pub group_by_account : List Calendar → List (ℕ × List Calendar)
group_by_account cs = group_on [] cs

abbrev window_of : Option Stamp → Option Stamp → List Window → List Window
window_of none e rest = rest
window_of (some s) none rest = rest
window_of (some s) (some e) rest = record { start = s.instant; end = e.instant } ∷ rest

unfoldable pub periods_to_windows : Runtime → List TimePeriod → List Window
periods_to_windows go [] = []
periods_to_windows go (p ∷ periods) =
    window_of (go.parse_time p.start) (go.parse_time p.end) (periods_to_windows go periods)

unfoldable pub subtract_managed : List Window → List Window → List Window
subtract_managed busy managed = if is_nil managed then busy else subtract_busy busy managed
