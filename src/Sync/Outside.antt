-- ===== src/Sync/Outside.antt =====
-- Steps that may fail, over a state: the monad of the engines. What the database and Google answer
-- is not under the program's control: `Outside` gives each answer by the number of the step.
pub mod Rules
use skulid.Sync.Event.{Event}
use skulid.Base.{List, ℕ, Bool, true, false, Option, none, some, Text, if◌then◌else◌}

pub data Error : Type 0 where
  query_failed no_row no_client google_failed bad_filter bad_transform bad_hours bad_time : Error
  -- A read beyond the end of a slice, which stops the program.
  out_of_range : Error

pub data Result (A : Type 0) : Type 0 where
  err : Error → Result A
  ok : A → Result A

abbrev pub M : Type 0 → Type 0 → Type 0
M S A = S → Result A × S

abbrev pub then_do : {S A B : Type 0} → Result A → S → (A → M S B) → Result B × S
then_do (ok a) s f = f a s
then_do (err x) s f = (err x, s)

infixl 5 ◌>>=◌ ◌>>◌
unfoldable pub ◌>>=◌ : {S A B : Type 0} → M S A → (A → M S B) → M S B
◌>>=◌ m f s = then_do (m s).0 (m s).1 f

unfoldable pub ◌>>◌ : {S B : Type 0} → M S (Unit {0}) → M S B → M S B
unfolding ◌>>=◌
m >> k = m >>= λ _. k

abbrev pub pure : {S A : Type 0} → A → M S A
pure a s = (ok a, s)

unfoldable pub or_fail : {S A : Type 0} → Error → Option A → M S A
or_fail x none s = (err x, s)
or_fail x (some a) s = (ok a, s)

-- `_ = step`.
unfoldable pub ignore : {S A : Type 0} → M S A → M S (Unit {0})
ignore m s = (ok tt, (m s).1)

abbrev pub logged : {S A : Type 0} → Result A → S → Result (Unit {0}) × S
logged (ok a) s = (ok tt, s)
logged (err out_of_range) s = (err out_of_range, s)
logged (err x) s = (ok tt, s)

-- A step whose error is logged. A read beyond the end of a slice is no error that is returned: it
-- ends the run.
unfoldable pub log_error : {S A : Type 0} → M S A → M S (Unit {0})
log_error m s = logged (m s).0 (m s).1

-- What Google returns of a saved event.
pub record Saved : Type 0 where
  pub id : Text
  pub etag : Text

-- A period of Google's free and busy answer, which lists a calendar's periods under its id.
pub record TimePeriod : Type 0 where
  pub start : Text
  pub end : Text

abbrev pub FreeBusy : Type 0
FreeBusy = List (Text × List TimePeriod)

-- `busy` is asked for the ids of calendars, from an instant to another.
pub record Outside : Type 0 where
  pub query_ok : ℕ → Bool
  pub client_ok : ℕ → Bool
  pub saved : ℕ → Option Saved
  pub deleted : ℕ → Bool
  pub synced : ℕ → Option (List Event)
  pub listed : ℕ → Option (List Event)
  pub busy : ℕ → List Text → ℕ → ℕ → Option FreeBusy
