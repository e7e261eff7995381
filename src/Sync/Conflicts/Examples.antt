-- ===== src/Sync/Conflicts/Examples.antt =====
-- The theorems on conflicts at three calendars of two accounts.
use skulid.Base.{◌≡◌, refl, true, [], ◌∷◌, ℕ, List}
use skulid.Sync.Event.{no_hours_set, Calendar}
use skulid.Sync.Conflicts.{group_by_account, group_on, append_to}

abbrev calendar : ℕ → ℕ → Calendar
calendar id account_id = record {
  id = id;
  account_id = account_id;
  google_calendar_id = [];
  time_zone = [];
  buffers = [];
  hours = no_hours_set;
  enabled = true;
}

abbrev three : List Calendar
three = calendar 1 7 ∷ calendar 2 8 ∷ calendar 3 7 ∷ []

three_grouped :
    group_by_account three ≡ (7, calendar 1 7 ∷ calendar 3 7 ∷ []) ∷ (8, calendar 2 8 ∷ []) ∷ []
unfolding group_by_account group_on append_to
three_grouped = refl
