-- ===== src/Exclusion/Laws.antt =====
-- What the assistant can reach and see.
use skulid.Base.{
  ℕ, ◌+◌, ◌≡◌, ◌↔◌, Bool, true, false, List, [], ◌∷◌, some, if◌then◌else◌, arith, Option-cases,
}
use skulid.Sync.Event.{Calendar}
use skulid.Exclusion.{
  Access, granted, excluded, check_failed, unreachable, Accounts, guard_client_for, has_id,
}

-- The guard grants a client exactly where the account was checked and found not to be excluded,
-- and the inner function grants the same client.
pub guard_client_for_granted :
    {A : Type 0} (accounts : Accounts A) (id : ℕ) (client : A)
    → (guard_client_for accounts id ≡ granted client)
      ↔ ((accounts.is_ai_excluded id ≡ some false) × (accounts.inner id ≡ granted client))
unfolding guard_client_for
guard_client_for_granted accounts id client =
    ground (arith, Option-cases (accounts.is_ai_excluded id))

-- How many calendars pass a test.
abbrev pub count : (Calendar → Bool) → List Calendar → ℕ
count p [] = 0
count p (c ∷ cs) = (if p c then 1 else 0) + count p cs

abbrev pub grants : {A : Type 0} → Access A → Bool
grants (granted client) = true
grants excluded = false
grants check_failed = false
grants unreachable = false

module _ {A : Type 0} (accounts : Accounts A) (ids : List ℕ) where
  -- The check of an account looks it up among the excluded ones, and every account has a client.
  abbrev pub Agrees : Type 0
  Agrees =
      (id : ℕ)
      → (accounts.is_ai_excluded id ≡ some (has_id id ids))
        × ((client : A) × (accounts.inner id ≡ granted client))

  -- Whether the guard hands out a client for a calendar's account.
  abbrev pub reachable : Calendar → Bool
  reachable c = grants (guard_client_for accounts c.account_id)
