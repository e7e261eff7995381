-- ===== src/Worker/Queue/Laws.antt =====
-- The queues are bounded, and the timers stand for a map from keys to instants.
use skulid.Base.{
  ℕ, ◌+◌, ◌≡◌, ◌≤◌, refl, Bool, false, ◌||◌, List, [], ◌∷◌, ◌++◌, Option, none, some, ◌==◌, ltb,
  leb, if◌then◌else◌, length, length-append, All, arith, inl, inr, Bool-cases,
}
use skulid.Worker.Queue.{Job, capacity, enqueue, enqueue_for, Timer, stop_timer, debounce, fire}

-- A missing worker has no job.
abbrev pub queue_of : ℕ → List (ℕ × List Job) → List Job
queue_of id [] = []
queue_of id ((account_id, jobs) ∷ workers) = if account_id == id then jobs else queue_of id workers

abbrev pub AreBounded : List (ℕ × List Job) → Type 0
AreBounded workers = All (λ w. length w.1 ≤ capacity) workers

enqueue-bounded :
    (j : Job) (jobs : List Job) → length jobs ≤ capacity → length (enqueue j jobs) ≤ capacity
unfolding enqueue
enqueue-bounded j jobs le = ground (arith, length-append jobs (j ∷ []))

enqueue_for-AreBounded :
    (id : ℕ) (j : Job) (workers : List (ℕ × List Job))
    → AreBounded workers
    → AreBounded (enqueue_for id j workers)
unfolding enqueue_for
enqueue_for-AreBounded id j [] b = (enqueue-bounded j [] (omega arith), tt)
enqueue_for-AreBounded id j ((k, jobs) ∷ workers) b = elim (Bool-cases (k == id)) [
  | inl t ↦ rw t (enqueue-bounded j jobs b.0, b.1)
  | inr f ↦ rw f (b.0, enqueue_for-AreBounded id j workers b.1)
]

queue_of-enqueue_for :
    (id other : ℕ) (j : Job) (workers : List (ℕ × List Job))
    → queue_of other (enqueue_for id j workers)
      ≡ (if id == other then enqueue j (queue_of id workers) else queue_of other workers)
unfolding enqueue_for
queue_of-enqueue_for id other j [] = ground arith
queue_of-enqueue_for id other j ((k, jobs) ∷ workers) =
    ground (arith, queue_of-enqueue_for id other j workers)

-- A job joins the end of its account's queue, or is dropped where 64 jobs wait there; the other
-- accounts' queues stay as they are, and no queue grows beyond 64 jobs.
pub enqueue_for_bounded :
    (id other : ℕ) (j : Job) (workers : List (ℕ × List Job))
    → AreBounded workers
    → (queue_of other (enqueue_for id j workers) ≡ (
        if id == other
        then if ltb (length (queue_of id workers)) 64
          then queue_of id workers ++ j ∷ []
          else queue_of id workers
        else queue_of other workers))
      × AreBounded (enqueue_for id j workers)
unfolding enqueue
enqueue_for_bounded id other j workers b =
    (queue_of-enqueue_for id other j workers, enqueue_for-AreBounded id j workers b)

-- A change is seen on a key at an instant, or time passes to an instant.
pub data Act : Type 0 where
  touch : ℕ → ℕ → Act
  pass : ℕ → Act

abbrev act : Act → List Timer → List Timer
act (touch key at) ts = debounce key at ts
act (pass at) ts = fire at ts

abbrev pub run : List Act → List Timer → List Timer
run [] ts = ts
run (a ∷ acts) ts = run acts (act a ts)

-- When the timer of a key is due.
abbrev pub due_of : ℕ → List Timer → Option ℕ
due_of key [] = none
due_of key (t ∷ ts) = if t.key == key then some t.due else due_of key ts

-- What is expected of one key: the last change puts the run off by 15 seconds, and a run that is due
-- takes place once.
abbrev pass_due : ℕ → Option ℕ → Option ℕ
pass_due at none = none
pass_due at (some due) = if leb due at then none else some due

abbrev expect : ℕ → Act → Option ℕ → Option ℕ
expect key (touch k at) due = if k == key then some (at + 15000000000) else due
expect key (pass at) due = pass_due at due

abbrev pub expected : ℕ → List Act → Option ℕ → Option ℕ
expected key [] due = due
expected key (a ∷ acts) due = expected key acts (expect key a due)

abbrev has_timer : ℕ → List Timer → Bool
has_timer key [] = false
has_timer key (t ∷ ts) = t.key == key || has_timer key ts

-- A key has one timer at most.
abbrev pub AreSingle : List Timer → Type 0
AreSingle [] = Unit {0}
AreSingle (t ∷ ts) = (has_timer t.key ts ≡ false) × AreSingle ts

has_timer-stop_timer :
    (key k : ℕ) (ts : List Timer)
    → has_timer key (stop_timer k ts) ≡ (if k == key then false else has_timer key ts)
unfolding stop_timer
has_timer-stop_timer key k [] = ground arith
has_timer-stop_timer key k (t ∷ ts) = ground (arith, has_timer-stop_timer key k ts)

stop_timer-AreSingle : (k : ℕ) (ts : List Timer) → AreSingle ts → AreSingle (stop_timer k ts)
unfolding stop_timer
stop_timer-AreSingle k [] s = tt
stop_timer-AreSingle k (t ∷ ts) s =
    ground (arith, stop_timer-AreSingle k ts, has_timer-stop_timer t.key k ts)

has_timer-fire :
    (key at : ℕ) (ts : List Timer) → has_timer key ts ≡ false → has_timer key (fire at ts) ≡ false
unfolding fire
has_timer-fire key at [] h = refl
has_timer-fire key at (t ∷ ts) h = ground (arith, has_timer-fire key at ts)

fire-AreSingle : (at : ℕ) (ts : List Timer) → AreSingle ts → AreSingle (fire at ts)
unfolding fire
fire-AreSingle at [] s = tt
fire-AreSingle at (t ∷ ts) s = ground (arith, fire-AreSingle at ts, has_timer-fire t.key at ts)

due_of-stop_timer :
    (key k : ℕ) (ts : List Timer)
    → due_of key (stop_timer k ts) ≡ (if k == key then none else due_of key ts)
unfolding stop_timer
due_of-stop_timer key k [] = ground arith
due_of-stop_timer key k (t ∷ ts) = ground (arith, due_of-stop_timer key k ts)

due_of_absent : (key : ℕ) (ts : List Timer) → has_timer key ts ≡ false → due_of key ts ≡ none
due_of_absent key [] h = refl
due_of_absent key (t ∷ ts) h = ground (arith, due_of_absent key ts)

due_of-fire :
    (key at : ℕ) (ts : List Timer)
    → AreSingle ts
    → due_of key (fire at ts) ≡ pass_due at (due_of key ts)
unfolding fire
due_of-fire key at [] s = refl
due_of-fire key at (t ∷ ts) s =
    ground (arith, due_of-fire key at ts, due_of_absent key (fire at ts), has_timer-fire key at ts)

act-AreSingle : (a : Act) (ts : List Timer) → AreSingle ts → AreSingle (act a ts)
unfolding debounce
act-AreSingle (touch key at) ts s =
    (ground (arith, has_timer-stop_timer key key ts), stop_timer-AreSingle key ts s)
act-AreSingle (pass at) ts s = fire-AreSingle at ts s

due_of-act :
    (key : ℕ) (a : Act) (ts : List Timer)
    → AreSingle ts
    → due_of key (act a ts) ≡ expect key a (due_of key ts)
unfolding debounce
due_of-act key (touch k at) ts s = ground (arith, due_of-stop_timer key k ts)
due_of-act key (pass at) ts s = due_of-fire key at ts s

-- Where a key has one timer at most, the timers stand, through any sequence of changes and passing
-- time, for a map: a key is due 15 seconds after the last change seen on it, and not at all once
-- that instant has passed.
pub run_refines :
    (key : ℕ) (acts : List Act) (ts : List Timer)
    → AreSingle ts
    → (due_of key (run acts ts) ≡ expected key acts (due_of key ts)) × AreSingle (run acts ts)
run_refines key [] ts s = (refl, s)
run_refines key (a ∷ acts) ts s =
    rw⁻¹ (due_of-act key a ts s) (run_refines key acts (act a ts) (act-AreSingle a ts s))
