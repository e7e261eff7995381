-- ===== src/Worker/Maintenance.antt =====
-- internal/worker/worker.go: `runMaintenance`, `RecomputeAllSmartBlocks`, and any order of the runs
-- of the planning engines that timers, web pages and the assistant start.
use skulid.Base.{ℕ, Bool, true, false, not, List, [], ◌∷◌, Option, none, some, if◌then◌else◌}
use skulid.Hours.Window.{before}
use skulid.Sync.Outside.{M, pure, ignore, log_error, ◌>>=◌, ◌>>◌, Outside}
use skulid.Sync.Outside.Rules.{
  Keeps, bind-Keeps, then-Keeps, ignore-Keeps, log_error-Keeps, if-Keeps,
}
use skulid.Sync.Filter.{Runtime}
use skulid.Sync.Desk.{
  SmartBlock, TaskStatus, task_pending, task_scheduled, task_completed, task_cancelled, Task, Desk,
  Zones, read,
}
use skulid.Sync.Desk.Neat.{Neat, read-Neat}
use skulid.Sync.Desk.Rows.{active_tasks}
use skulid.Sync.Scheduler.Tasks.{place_task, place_all_pending}
use skulid.Sync.Scheduler.Tasks.Neat.{place_task-Neat, place_all_pending-Neat}
use skulid.Sync.Scheduler.Habits.{ScanPair, place_habit, place_all_habits}
use skulid.Sync.Scheduler.Habits.Neat.{place_habit-Neat, place_all_habits-Neat}
use skulid.Sync.SmartBlocks.{recompute_block}
use skulid.Sync.SmartBlocks.Neat.{recompute_block-Neat}

abbrev has_ended : ℕ → Option ℕ → Bool
has_ended now none = false
has_ended now (some ends) = before ends now

-- Whether a task is pending, or its scheduled window has passed.
unfoldable pub needs_refresh : ℕ → TaskStatus → Option ℕ → Bool
needs_refresh now task_pending ends = true
needs_refresh now task_scheduled ends = has_ended now ends
needs_refresh now task_completed ends = false
needs_refresh now task_cancelled ends = false

-- A run that something outside starts.
pub data Trigger : Type 0 where
  maintain place_pending place_habits recompute_blocks : Trigger
  place_one place_one_habit recompute_one : ℕ → Trigger

module _ (out : Outside) (go : Runtime) (zones : Zones) (scan : ScanPair) (now : ℕ → ℕ) where
  -- The loop of `runMaintenance` over the tasks; an error is logged.
  pub refresh_tasks : ℕ → List Task → M Desk (Unit {0})
  refresh_tasks at [] = pure tt
  refresh_tasks at (t ∷ ts) = λ w.
      ((if needs_refresh at t.status t.scheduled_ends_at
            then log_error (place_task out go zones (now w.tick) t.id)
            else pure tt)
          >> refresh_tasks at ts)
        w

  pub run_maintenance : M Desk (Unit {0})
  run_maintenance = λ w.
      (do
        ignore (place_all_habits out go zones scan now)
        tasks ← read out (λ v. some (active_tasks v.tasks))
        refresh_tasks (now w.tick) tasks)
        w

  -- The loop of `RecomputeAllSmartBlocks`; an error is logged.
  pub recompute_each : List SmartBlock → M Desk (Unit {0})
  recompute_each [] = pure tt
  recompute_each (b ∷ bs) = λ w.
      ((if not b.enabled then pure tt else ignore (recompute_block out go zones (now w.tick) b.id))
          >> recompute_each bs)
        w

  pub recompute_all_smart_blocks : M Desk (Unit {0})
  recompute_all_smart_blocks = do bs ← read out (λ w. some w.blocks); recompute_each bs

  pub run_trigger : Trigger → M Desk (Unit {0})
  run_trigger maintain = run_maintenance
  run_trigger place_pending = place_all_pending out go zones now
  run_trigger place_habits = place_all_habits out go zones scan now
  run_trigger recompute_blocks = recompute_all_smart_blocks
  run_trigger (place_one id) = λ w. place_task out go zones (now w.tick) id w
  run_trigger (place_one_habit id) = λ w. place_habit out go zones scan (now w.tick) id w
  run_trigger (recompute_one id) = λ w. recompute_block out go zones (now w.tick) id w

  -- A run after another, whatever it ends with; a run that a panic ends leaves the rows to the next.
  pub run_triggers : List Trigger → Desk → Desk
  run_triggers [] w = w
  run_triggers (t ∷ ts) w = run_triggers ts (run_trigger t w).1

  refresh_tasks-Neat : (at : ℕ) (ts : List Task) → Keeps Neat (refresh_tasks at ts)
  unfolding refresh_tasks
  refresh_tasks-Neat at [] = λ w p. p
  refresh_tasks-Neat at (t ∷ ts) = λ w p.
      then-Keeps Neat _ _
        (if-Keeps Neat _ _ _ (log_error-Keeps Neat _ (place_task-Neat out go zones _ _)) (λ v q. q))
        (refresh_tasks-Neat at ts) w p

  run_maintenance-Neat : Keeps Neat run_maintenance
  unfolding run_maintenance
  run_maintenance-Neat w p =
      then-Keeps Neat _ _ (ignore-Keeps Neat _ (place_all_habits-Neat out go zones scan now))
        (bind-Keeps Neat _ _ (read-Neat out _) λ tasks. refresh_tasks-Neat _ tasks) w p

  recompute_each-Neat : (bs : List SmartBlock) → Keeps Neat (recompute_each bs)
  unfolding recompute_each
  recompute_each-Neat [] = λ w p. p
  recompute_each-Neat (b ∷ bs) = λ w p.
      then-Keeps Neat _ _
        (if-Keeps Neat _ _ _ (λ v q. q)
          (ignore-Keeps Neat _ (recompute_block-Neat out go zones _ _)))
        (recompute_each-Neat bs) w p

  run_trigger-Neat : (t : Trigger) → Keeps Neat (run_trigger t)
  unfolding run_trigger recompute_all_smart_blocks
  run_trigger-Neat maintain = run_maintenance-Neat
  run_trigger-Neat place_pending = place_all_pending-Neat out go zones now
  run_trigger-Neat place_habits = place_all_habits-Neat out go zones scan now
  run_trigger-Neat recompute_blocks =
      bind-Keeps Neat _ _ (read-Neat out _) λ bs. recompute_each-Neat bs
  run_trigger-Neat (place_one id) = λ w p. place_task-Neat out go zones _ id w p
  run_trigger-Neat (place_one_habit id) = λ w p. place_habit-Neat out go zones scan _ id w p
  run_trigger-Neat (recompute_one id) = λ w p. recompute_block-Neat out go zones _ id w p

  -- Whatever the database and Google answer and whichever runs of the planning engines are started
  -- in whichever order: every event that is inserted or updated on Google carries the mark of a
  -- managed event, the rows of task blocks and of smart blocks have numbers that differ, a task has
  -- one block at most for a place, and a habit one occurrence at most for a day.
  pub run_triggers-Neat : (ts : List Trigger) (w : Desk) → Neat w → Neat (run_triggers ts w)
  unfolding run_triggers
  run_triggers-Neat [] w p = p
  run_triggers-Neat (t ∷ ts) w p = run_triggers-Neat ts _ (run_trigger-Neat t w p)
