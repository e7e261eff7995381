-- ===== src/Worker/Queue.antt =====
-- internal/worker/worker.go: an account's queue of jobs, and the timers that put a recomputation off.
-- A timer that fires or is stopped leaves the list.
pub mod Laws
use skulid.Base.{
  ℕ, ◌+◌, Bool, true, false, not, ◌||◌, List, [], ◌∷◌, ◌++◌, Option, none, some, ◌==◌, ltb, leb,
  if◌then◌else◌, length,
}

pub record Job : Type 0 where
  pub account_id : ℕ
  pub calendar_id : ℕ

abbrev pub capacity : ℕ
capacity = 64

-- `enqueue`: a full queue drops the job.
unfoldable pub enqueue : Job → List Job → List Job
enqueue j jobs = if ltb (length jobs) capacity then jobs ++ j ∷ [] else jobs

-- The worker of an account, which is made where it is missing.
unfoldable pub enqueue_for : ℕ → Job → List (ℕ × List Job) → List (ℕ × List Job)
enqueue_for account_id j [] = (account_id, enqueue j []) ∷ []
enqueue_for account_id j ((id, jobs) ∷ workers) =
    if id == account_id
    then (id, enqueue j jobs) ∷ workers
    else (id, jobs) ∷ enqueue_for account_id j workers

unfoldable pub enqueue_account : ℕ → List (ℕ × List Job) → List (ℕ × List Job)
enqueue_account account_id workers =
    enqueue_for account_id (record { account_id = account_id; calendar_id = 0 }) workers

unfoldable pub enqueue_calendar : ℕ → ℕ → List (ℕ × List Job) → List (ℕ × List Job)
enqueue_calendar account_id calendar_id workers =
    enqueue_for account_id (record { account_id = account_id; calendar_id = calendar_id }) workers

pub record Timer : Type 0 where
  pub key : ℕ
  pub due : ℕ

-- 15 seconds
abbrev pub dwell : ℕ
dwell = 15000000000

unfoldable pub stop_timer : ℕ → List Timer → List Timer
stop_timer key [] = []
stop_timer key (t ∷ ts) = let rest = stop_timer key ts in if t.key == key then rest else t ∷ rest

-- The body of `debounceSmartBlock` and of `EnqueueBuffersForCalendar`.
unfoldable pub debounce : ℕ → ℕ → List Timer → List Timer
debounce key now timers = record { key = key; due = now + dwell } ∷ stop_timer key timers

-- The timers that have fired by an instant leave.
unfoldable pub fire : ℕ → List Timer → List Timer
fire now [] = []
fire now (t ∷ ts) = let rest = fire now ts in if leb t.due now then rest else t ∷ rest
