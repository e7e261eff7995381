-- ===== src/Exclusion/Examples.antt =====
-- The theorems on exclusion at two accounts, one of them excluded.
use skulid.Base.{ℕ, true, some, [], ◌∷◌, List}
use skulid.Sync.Event.{no_hours_set, Calendar}
use skulid.Exclusion.{granted, Accounts, has_id}

abbrev calendar : ℕ → ℕ → Calendar
calendar id account_id = record {
  id = id;
  account_id = account_id;
  google_calendar_id = [];
  time_zone = [];
  buffers = [];
  hours = no_hours_set;
  enabled = true;
}

abbrev both : List Calendar
both = calendar 1 7 ∷ calendar 2 8 ∷ []

-- Account 8 is excluded.
abbrev guarded : Accounts ℕ
guarded = record { is_ai_excluded = λ id. some (has_id id (8 ∷ [])); inner = λ id. granted id }
