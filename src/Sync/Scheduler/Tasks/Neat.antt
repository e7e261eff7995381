-- ===== src/Sync/Scheduler/Tasks/Neat.antt =====
-- What the placing of tasks keeps whatever the database and Google answer.
use skulid.Base.{
  ℕ, suc, ◌≡◌, refl, true, List, [], ◌∷◌, Option, Text, inl, inr, Bool-cases, text_eq,
}
use skulid.Hours.Window.{Window}
use skulid.Hours.Expand.{WorkingHours, Location}
use skulid.Sync.Outside.{Outside}
use skulid.Sync.Outside.Rules.{
  Keeps, bind-Keeps, then-Keeps, or_fail-Keeps, ignore-Keeps, log_error-Keeps, if-Keeps,
}
use skulid.Sync.Event.{Calendar, is_managed, marked}
use skulid.Sync.Filter.{Runtime}
use skulid.Sync.Placement.{TaskChunk}
use skulid.Sync.Engine.Store.{insert, update}
use skulid.Sync.Desk.{TaskStatus, Task, Desk, Zones}
use skulid.Sync.Desk.Rows.{has_chunk}
use skulid.Sync.Desk.Rows.Keys.{
  cons-AreKeyed, move_chunk-AreKeyed, drop_chunk-AreKeyed, AreNumbered-suc,
}
use skulid.Sync.Desk.Neat.{
  Neat, tick-Neat, ask-Neat, read-Neat, write-Neat, call_google-Neat, delete_google-Neat,
  client_for-Neat, get_calendar-Neat, get_account-Neat, write_audit-Neat,
}
use skulid.Sync.Scheduler.Neat.{busy_everywhere-Neat}
use skulid.Sync.Scheduler.Tasks.{
  task_props, set_scheduled, inserted, insert_chunk, update_chunk, delete_chunk, min_chunk,
  clear_blocks, record_note, unschedule, chunk_event, audit_chunk, write_slots, summarise,
  write_plan, apply_chunks, settle_plan, reconcile_task, place_within, place_on, place_task,
  place_each, place_all_pending,
}

module _ (out : Outside) (go : Runtime) (zones : Zones) where
  set_scheduled-Neat :
      (id : ℕ) (event : Text) (s e : Option ℕ) (status : TaskStatus) (note : Text)
      → Keeps Neat (set_scheduled out go zones id event s e status note)
  unfolding set_scheduled
  set_scheduled-Neat id event s e status note =
      write-Neat out _
        λ w p. record { marked = p.marked; keyed = p.keyed; numbered = p.numbered; daily = p.daily }

  inserted-Neat : (c : TaskChunk) (w : Desk) → Neat w → Neat (inserted out go zones c w).1
  inserted-Neat c w p = elim (Bool-cases (has_chunk c.task_id c.seq w.chunks)) [
    | inl t ↦ rw t p
    | inr t ↦ rw t (record {
      marked = p.marked;
      keyed = cons-AreKeyed c _ _ t p.keyed;
      numbered = AreNumbered-suc _ _ p.numbered;
      daily = p.daily;
    })
  ]

  insert_chunk-Neat : (c : TaskChunk) → Keeps Neat (insert_chunk out go zones c)
  unfolding insert_chunk
  insert_chunk-Neat c = ask-Neat out _ (inserted-Neat c)

  update_chunk-Neat : (id s e : ℕ) → Keeps Neat (update_chunk out go zones id s e)
  unfolding update_chunk
  update_chunk-Neat id s e = write-Neat out _ λ w p. record {
    marked = p.marked;
    keyed = move_chunk-AreKeyed _ id s e _ p.keyed;
    numbered = p.numbered;
    daily = p.daily;
  }

  delete_chunk-Neat : (id : ℕ) → Keeps Neat (delete_chunk out go zones id)
  unfolding delete_chunk
  delete_chunk-Neat id = write-Neat out _ λ w p. record {
    marked = p.marked;
    keyed = drop_chunk-AreKeyed _ id _ p.keyed;
    numbered = p.numbered;
    daily = p.daily;
  }

  min_chunk-Neat : Keeps Neat (min_chunk out go zones)
  unfolding min_chunk
  min_chunk-Neat w p = tick-Neat w p

  clear_blocks-Neat :
      (cal : Calendar) (message : Text) (existing : List TaskChunk)
      → Keeps Neat (clear_blocks out go zones cal message existing)
  unfolding clear_blocks
  clear_blocks-Neat cal message [] = λ w p. p
  clear_blocks-Neat cal message (c ∷ existing) =
      then-Keeps Neat _ _ (ignore-Keeps Neat _ (delete_google-Neat out _ _)) (
        then-Keeps Neat _ _ (ignore-Keeps Neat _ (delete_chunk-Neat _)) (
          then-Keeps Neat _ _ (ignore-Keeps Neat _ (write_audit-Neat out _ _ _ _))
            (clear_blocks-Neat cal message existing)))

  unschedule-Neat :
      (cal : Calendar) (t : Task) (existing : List TaskChunk) (note : Text)
      → Keeps Neat (unschedule out go zones cal t existing note)
  unfolding unschedule record_note
  unschedule-Neat cal t existing note =
      then-Keeps Neat _ _ (clear_blocks-Neat cal _ existing)
        (if-Keeps Neat _ _ _ (λ w p. p) (set_scheduled-Neat _ _ _ _ _ _))

  pub chunk_event-managed :
      (t : Task) (zone : Text) (i total : ℕ) (slot : Window)
      → is_managed (chunk_event out go zones t zone i total slot) ≡ true
  unfolding chunk_event is_managed marked task_props text_eq
  chunk_event-managed t zone i total slot = refl

  audit_chunk-Neat :
      (id : ℕ) (event action : Text) (i total : ℕ) (slot : Window)
      → Keeps Neat (audit_chunk out go zones id event action i total slot)
  unfolding audit_chunk
  audit_chunk-Neat id event action i total slot = write_audit-Neat out _ _ _ _

  write_slots-Neat :
      (cal : Calendar) (t : Task) (zone : Text) (i total : ℕ) (existing : List TaskChunk)
      (slots : List Window) (first : Text)
      → Keeps Neat (write_slots out go zones cal t zone i total existing slots first)
  unfolding write_slots
  write_slots-Neat cal t zone i total existing [] first = λ w p. p
  write_slots-Neat cal t zone i total (c ∷ existing) (slot ∷ slots) first =
      bind-Keeps Neat _ _
        (call_google-Neat out (update _ _ _) (chunk_event-managed t zone i total slot))
        λ saved. then-Keeps Neat _ _ (update_chunk-Neat _ _ _) (
          then-Keeps Neat _ _ (ignore-Keeps Neat _ (audit_chunk-Neat _ _ _ _ _ _))
            (write_slots-Neat cal t zone (suc i) total existing slots _))
  write_slots-Neat cal t zone i total [] (slot ∷ slots) first =
      bind-Keeps Neat _ _
        (call_google-Neat out (insert _ _) (chunk_event-managed t zone i total slot))
        λ saved. bind-Keeps Neat _ _ (insert_chunk-Neat _) λ row.
          then-Keeps Neat _ _ (ignore-Keeps Neat _ (audit_chunk-Neat _ _ _ _ _ _))
            (write_slots-Neat cal t zone (suc i) total [] slots _)

  summarise-Neat :
      (t : Task) (slots : List Window) (first : Text)
      → Keeps Neat (summarise out go zones t slots first)
  unfolding summarise
  summarise-Neat t [] first = λ w p. p
  summarise-Neat t (slot ∷ slots) first = set_scheduled-Neat _ _ _ _ _ _

  apply_chunks-Neat :
      (cal : Calendar) (t : Task) (existing : List TaskChunk) (slots : List Window) (zone : Text)
      → Keeps Neat (apply_chunks out go zones cal t existing slots zone)
  unfolding apply_chunks write_plan
  apply_chunks-Neat cal t existing slots zone =
      if-Keeps Neat _ _ _ (λ w p. p)
        (bind-Keeps Neat _ _ (write_slots-Neat cal t zone _ _ existing slots _)
          λ first. then-Keeps Neat _ _ (clear_blocks-Neat cal _ _) (summarise-Neat t slots first))

  reconcile_task-Neat :
      (now to : ℕ) (cal : Calendar) (t : Task) (wh : WorkingHours) (loc : Location)
      (busy : List Window) (existing : List TaskChunk)
      → Keeps Neat (reconcile_task out go zones now to cal t wh loc busy existing)
  unfolding reconcile_task settle_plan
  reconcile_task-Neat now to cal t wh loc busy existing =
      if-Keeps Neat _ _ _ (λ w p. p)
        (bind-Keeps Neat _ _ min_chunk-Neat λ shortest.
          if-Keeps Neat _ _ _ (unschedule-Neat cal t existing _)
            (apply_chunks-Neat cal t existing _ _))

  place_on-Neat :
      (now : ℕ) (t : Task) (cal : Calendar) → Keeps Neat (place_on out go zones now t cal)
  unfolding place_on place_within
  place_on-Neat now t cal =
      if-Keeps Neat _ _ _ (λ w p. p)
        (then-Keeps Neat _ _ (client_for-Neat out) (
          bind-Keeps Neat _ _ (get_account-Neat out _) λ acct.
            bind-Keeps Neat _ _ (or_fail-Keeps Neat _ _) λ hours.
              if-Keeps Neat _ _ _ (λ w p. p)
                (bind-Keeps Neat _ _ (busy_everywhere-Neat out go _ _) λ busy.
                  bind-Keeps Neat _ _ (read-Neat out _)
                    λ existing. reconcile_task-Neat now _ cal t _ _ busy existing)))

  pub place_task-Neat : (now id : ℕ) → Keeps Neat (place_task out go zones now id)
  unfolding place_task
  place_task-Neat now id = bind-Keeps Neat _ _ (read-Neat out _) λ t.
      if-Keeps Neat _ _ _ (λ w p. p)
        (bind-Keeps Neat _ _ (get_calendar-Neat out _) λ cal. place_on-Neat now t cal)

  place_each-Neat : (now : ℕ → ℕ) (ts : List Task) → Keeps Neat (place_each out go zones now ts)
  unfolding place_each
  place_each-Neat now [] = λ w p. p
  place_each-Neat now (t ∷ ts) = λ w p.
      then-Keeps Neat _ _ (log_error-Keeps Neat _ (place_task-Neat _ _)) (place_each-Neat now ts) w
        p

  pub place_all_pending-Neat : (now : ℕ → ℕ) → Keeps Neat (place_all_pending out go zones now)
  unfolding place_all_pending
  place_all_pending-Neat now =
      bind-Keeps Neat _ _ (read-Neat out _) λ tasks. place_each-Neat now tasks
