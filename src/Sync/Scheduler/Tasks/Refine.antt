-- ===== src/Sync/Scheduler/Tasks/Refine.antt =====
-- The placement of a task, the list of its blocks' windows, becomes the plan.
use skulid.Base.{
  ℕ, suc, ◌≡◌, refl, sym, ap, ◌∙◌, List, [], ◌∷◌, ◌++◌, some, Text, codes, length, length-append,
  map, arith, itoa,
}
use mathlib.Core.Path.{subst}
use mathlib.Core.List.{append_assoc, append-nil, map-append}
use skulid.Hours.Window.{Window}
use skulid.Sync.Outside.{Result, ok, ◌>>=◌, ◌>>◌, or_fail, Outside}
use skulid.Sync.Event.{Calendar}
use skulid.Sync.Filter.{Runtime}
use skulid.Sync.Placement.{TaskChunk, block_of}
use skulid.Sync.Engine.Outcome.{Answers}
use skulid.Sync.Desk.{task_scheduled, Task, Desk, Zones, ask, write}
use skulid.Sync.Desk.Rows.{find_task, chunks_of}
use skulid.Sync.Desk.Rows.Keys.{AreKeyed}
use skulid.Sync.Desk.Rows.View.{AreFrom}
use skulid.Sync.Scheduler.Tasks.Steps.{
  placement_of, Stands, beyond_nil, find_task-update_scheduled, moved, write_slots-moved, created,
  new_row, write_slots-created, moved-Stands, created-Stands, cleared, clear_blocks-cleared,
  clear_blocks_nil, cleared-Stands,
}
use skulid.Sync.Scheduler.Tasks.{
  set_scheduled, clear_blocks, first_of, write_slots, beyond, summarise, write_plan,
}

module _ (out : Outside) (a : Answers out) (go : Runtime) (zones : Zones) where
  module _ (cal : Calendar) (t : Task) (zone : Text) (total : ℕ) where
    -- The loop over the slots ends with a block for each of them, after those that were done.
    record Written (done rest : List TaskChunk) (slots : List Window) (w : Desk)
        (r : Result Text × Desk) : Type 0 where
      placed : List TaskChunk
      event : Text
      succeeds : r.0 ≡ ok event
      stands : Stands t.id placed rest r.1
      windows : map block_of placed ≡ map block_of done ++ slots
      same_tasks : r.1.tasks ≡ w.tasks

    abbrev Writes : ℕ → List TaskChunk → List TaskChunk → List Window → Text → Desk → Type 0
    Writes i done existing slots first w =
        Written done (beyond slots existing) slots w
          (write_slots out go zones cal t zone i total existing slots first w)

    -- A round that takes `w` to `w'` and places a block `c`, before the other rounds.
    round-Written :
        (done rest : List TaskChunk) (c : TaskChunk) (slot : Window) (slots : List Window)
        (w w' : Desk) (r r' : Result Text × Desk)
        → block_of c ≡ slot
        → r ≡ r'
        → w'.tasks ≡ w.tasks
        → Written (done ++ c ∷ []) rest slots w' r'
        → Written done rest (slot ∷ slots) w r
    round-Written done rest c slot slots w w' r r' b e s p = record {
      placed = p.placed;
      event = p.event;
      succeeds = rw e p.succeeds;
      stands = rw e p.stands;
      windows =
          rw (p.windows, map-append block_of done (c ∷ []), b)
            (append_assoc (map block_of done) (slot ∷ []) slots);
      same_tasks = rw (e, p.same_tasks) s;
    }

    write_slots-Written :
        (existing : List TaskChunk) (slots : List Window) (i : ℕ) (done : List TaskChunk)
        (first : Text) (w : Desk)
        → i ≡ length done
        → AreFrom i existing
        → Stands t.id done existing w
        → Writes i done existing slots first w
    unfolding write_slots beyond
    write_slots-Written existing [] i done first w e f p = record {
      placed = done;
      event = first;
      succeeds = refl;
      stands = p;
      windows = sym (append-nil _);
      same_tasks = refl;
    }
    write_slots-Written (c ∷ existing) (slot ∷ slots) i done first w e f p =
        let c' = record c { starts_at = slot.start; ends_at = slot.end } in
        let step =
          write_slots-moved out a go zones cal t zone total i c existing slot slots first w in
        let w' = moved out a go zones cal t zone total i c slot w in
        round-Written done (beyond slots existing) c' slot slots w w' _ _ refl step.0 step.2 (
          write_slots-Written existing slots (suc i) (done ++ c' ∷ []) _ w'
            (omega (arith, e, length-append done (c' ∷ []))) f.1
            (moved-Stands out a go zones cal t zone total i c existing slot done w
              (omega (arith, f.0, e)) p))
    write_slots-Written [] (slot ∷ slots) i done first w e f p =
        let row = new_row out a go zones cal t zone total i slot w in
        let stands = created-Stands out a go zones cal t zone total i slot done w e p in
        let step =
          write_slots-created out a go zones cal t zone total i slot slots first w stands.0 in
        let w' = created out a go zones cal t zone total i slot w in
        let next = first_of out go zones i (a.saves w.tick).id first in
        let after = write_slots out go zones cal t zone (suc i) total [] slots next w' in
        round-Written done [] row slot slots w w' _ _ refl step.0 step.2 (
          subst (λ rest. Written (done ++ row ∷ []) rest slots w' after) (beyond_nil slots)
            (write_slots-Written [] slots (suc i) (done ++ row ∷ []) next w'
              (omega (arith, e, length-append done (row ∷ []))) tt stands.1))

  abbrev pub Clears : Calendar → Text → ℕ → List TaskChunk → List TaskChunk → Desk → Type 0
  Clears cal message task_id done rest w =
      let after = clear_blocks out go zones cal message rest w in
      (after.0 ≡ ok tt) × Stands task_id done [] after.1 × (after.1.tasks ≡ w.tasks)

  pub clear_blocks-Stands :
      (cal : Calendar) (message : Text) (task_id : ℕ) (done rest : List TaskChunk) (w : Desk)
      → Stands task_id done rest w
      → Clears cal message task_id done rest w
  clear_blocks-Stands cal message task_id done [] w p =
      rw (clear_blocks_nil out a go zones cal message w) (refl, p, refl)
  clear_blocks-Stands cal message task_id done (c ∷ rest) w p =
      let step = clear_blocks-cleared out a go zones cal message c rest w in
      let w' = cleared out a go zones cal message c w in
      let rounds =
        clear_blocks-Stands cal message task_id done rest w'
          (cleared-Stands out a go zones cal message task_id done c rest w p) in
      rw step.0 (rounds.0, rounds.1, rounds.2 ∙ step.2)

  -- What the summary of a placement leaves.
  abbrev pub IsSummarised : Task → Window → List Window → Result (Unit {0}) × Desk → Type 0
  IsSummarised t slot slots after =
      (after.0 ≡ ok tt)
      × (placement_of t.id after.1 ≡ slot ∷ slots)
      × AreFrom 0 (chunks_of t.id after.1.chunks)
      × ((event : Text) × (find_task t.id after.1.tasks
            ≡ some (record t {
              scheduled_event_id = event;
              scheduled_starts_at = some slot.start;
              scheduled_ends_at = some slot.end;
              status = task_scheduled;
              schedule_note = [];
            })))

  summarise-IsSummarised :
      (t : Task) (slot : Window) (slots : List Window) (event : Text) (done : List TaskChunk)
      (w : Desk)
      → Stands t.id done [] w
      → map block_of done ≡ slot ∷ slots
      → find_task t.id w.tasks ≡ some t
      → IsSummarised t slot slots (summarise out go zones t (slot ∷ slots) event w)
  unfolding summarise set_scheduled write ask or_fail
  summarise-IsSummarised t slot slots event done w p m h =
      let view : chunks_of t.id w.chunks ≡ done = p.view ∙ append-nil done in
      rw (a.queries w.tick) (
        refl,
        rw view m,
        rw view p.done_from,
        (
          event,
          find_task-update_scheduled t.id event (some slot.start) (some slot.end) [] w.tasks t h,
        ),
      )

  -- When the database and Google answer, the task's blocks are numbered in their order, no two rows
  -- share a number or a place, and the plan has a slot, the reconciliation of a plan with the blocks
  -- that the task holds ends without an error: the placement is then exactly the plan's slots,
  -- numbered in order again, and the task is scheduled from the start to the end of the first slot
  -- with no note, whatever blocks it held before.
  pub write_plan_refines :
      (cal : Calendar) (t : Task) (zone : Text) (slot : Window) (slots : List Window) (w : Desk)
      → AreKeyed w.next_row w.chunks
      → AreFrom 0 (chunks_of t.id w.chunks)
      → find_task t.id w.tasks ≡ some t
      → IsSummarised t slot slots
          (write_plan out go zones cal t (chunks_of t.id w.chunks) (slot ∷ slots) zone w)
  unfolding write_plan ◌>>=◌ ◌>>◌
  write_plan_refines cal t zone slot slots w k f h =
      let existing = chunks_of t.id w.chunks in
      let written =
        write_slots-Written cal t zone (length (slot ∷ slots)) existing (slot ∷ slots) 0 [] [] w
          refl f (record { keyed = k; view = refl; done_from = tt }) in
      let message = codes "task #" ++ itoa t.id ++ codes " no longer needs this block" in
      let rest = beyond (slot ∷ slots) existing in
      let cleared = clear_blocks-Stands cal message t.id written.placed rest _ written.stands in
      rw (written.succeeds, cleared.0)
        (summarise-IsSummarised t slot slots written.event written.placed _ cleared.1
          written.windows (ap (find_task t.id) (cleared.2 ∙ written.same_tasks) ∙ h))
