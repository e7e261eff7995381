-- ===== src/Exclusion.antt =====
-- internal/ai/exclusion.go: the accounts that the assistant must not reach. `AccountRepo` and the
-- client of an account are parameters.
pub mod Laws
mod Examples
use skulid.Base.{
  ℕ, Bool, true, false, ◌||◌, List, [], ◌∷◌, Option, none, some, ◌==◌, if◌then◌else◌, is_nil,
}
use skulid.Sync.Event.{Calendar}

pub data Access (A : Type 0) : Type 0 where
  granted : A → Access A
  excluded check_failed unreachable : Access A

-- `IsAIExcluded` (none for an error) and the inner `ClientFor`, here by account.
pub record Accounts (A : Type 0) : Type 0 where
  pub is_ai_excluded : ℕ → Option Bool
  pub inner : ℕ → Access A

abbrev after_check : {A : Type 0} → Option Bool → Access A → Access A
after_check none client = check_failed
after_check (some true) client = excluded
after_check (some false) client = client

unfoldable pub guard_client_for : {A : Type 0} → Accounts A → ℕ → Access A
guard_client_for accounts id = after_check (accounts.is_ai_excluded id) (accounts.inner id)

unfoldable pub has_id : ℕ → List ℕ → Bool
has_id id [] = false
has_id id (x ∷ ids) = x == id || has_id id ids

unfoldable pub keep_visible : List ℕ → List Calendar → List Calendar
keep_visible ids [] = []
keep_visible ids (c ∷ cs) =
    let rest = keep_visible ids cs in if has_id c.account_id ids then rest else c ∷ rest

unfoldable pub filter_excluded_calendars : List Calendar → List ℕ → List Calendar
filter_excluded_calendars cs ids = if is_nil ids then cs else keep_visible ids cs

-- `visibleCalendars`, on what `ListAll` and `AIExcludedIDs` return; none for an error of either.
abbrev filtered : List Calendar → Option (List ℕ) → Option (List Calendar)
filtered cs none = none
filtered cs (some ids) = some (filter_excluded_calendars cs ids)

unfoldable pub visible_calendars : Option (List Calendar) → Option (List ℕ) → Option (List Calendar)
visible_calendars none ids = none
visible_calendars (some cs) ids = filtered cs ids
