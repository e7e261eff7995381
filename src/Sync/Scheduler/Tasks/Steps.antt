-- ===== src/Sync/Scheduler/Tasks/Steps.antt =====
-- The rounds of the loops on a task's blocks when the database and Google answer.
use skulid.Base.{
  ℕ, suc, ◌≡◌, refl, sym, ◌∙◌, false, List, [], ◌∷◌, ◌++◌, Option, some, Text, codes, length, map,
  arith,
}
use mathlib.Core.List.{append_assoc, append-nil}
use skulid.Hours.Window.{Window}
use skulid.Sync.Outside.{ok, ◌>>=◌, ◌>>◌, or_fail, ignore, Outside}
use skulid.Sync.Event.{Calendar}
use skulid.Sync.Filter.{Runtime}
use skulid.Sync.Placement.{TaskChunk, block_of}
use skulid.Sync.Engine.Outcome.{Answers}
use skulid.Sync.Engine.Store.{insert, update}
use skulid.Sync.Desk.{
  task_scheduled, Task, Desk, Zones, ask, write, call_google, delete_google, write_audit,
}
use skulid.Sync.Desk.Rows.{
  find_task, update_scheduled, chunks_of, has_chunk, move_chunk, drop_chunk,
}
use skulid.Sync.Desk.Rows.Keys.{AreKeyed, cons-AreKeyed, move_chunk-AreKeyed, drop_chunk-AreKeyed}
use skulid.Sync.Desk.Rows.View.{
  AreFrom, AreDistinct, AreFrom-end, chunks_of-cons, chunks_of-move_chunk, chunks_of-drop_chunk,
  chunks_of-AreDistinct, move_chunk_middle, drop_chunk_middle,
}
use skulid.Sync.Scheduler.Tasks.{
  insert_chunk, update_chunk, delete_chunk, clear_blocks, chunk_event, audit_chunk, chunk_at,
  first_of, write_slots, beyond,
}

-- The windows of a task's blocks, in order.
abbrev pub placement_of : ℕ → Desk → List Window
placement_of task_id w = map block_of (chunks_of task_id w.chunks)

-- The rows of a task: `done` is in place, and `rest` is to come.
pub record Stands (task_id : ℕ) (done rest : List TaskChunk) (w : Desk) : Type 0 where
  pub keyed : AreKeyed w.next_row w.chunks
  pub view : chunks_of task_id w.chunks ≡ done ++ rest
  pub done_from : AreFrom 0 done

pub beyond_nil : (slots : List Window) → beyond slots [] ≡ []
unfolding beyond
beyond_nil [] = refl
beyond_nil (s ∷ slots) = refl

pub find_task-update_scheduled :
    (id : ℕ) (event : Text) (s e : Option ℕ) (note : Text) (ts : List Task) (t : Task)
    → find_task id ts ≡ some t
    → find_task id (update_scheduled id event s e task_scheduled note ts)
      ≡ some (record t {
        scheduled_event_id = event;
        scheduled_starts_at = s;
        scheduled_ends_at = e;
        status = task_scheduled;
        schedule_note = note;
      })
unfolding find_task update_scheduled
find_task-update_scheduled id event s e note [] t h = ground arith
find_task-update_scheduled id event s e note (x ∷ ts) t h =
    ground (arith, find_task-update_scheduled id event s e note ts t)

module _ (out : Outside) (a : Answers out) (go : Runtime) (zones : Zones) where
  module _ (cal : Calendar) (t : Task) (zone : Text) (total : ℕ) where
    -- The state after a block has moved, and after a new one.
    abbrev pub moved : ℕ → TaskChunk → Window → Desk → Desk
    moved i c slot w =
        let saved = a.saves w.tick in
        let called =
          (call_google out
            (update cal.google_calendar_id c.google_event_id
              (chunk_event out go zones t zone i total slot))
            w).1 in
        (audit_chunk out go zones t.id saved.id (codes "rescheduled") i total slot
          (update_chunk out go zones c.id slot.start slot.end called).1).1

    pub write_slots-moved :
        (i : ℕ) (c : TaskChunk) (existing : List TaskChunk) (slot : Window) (slots : List Window)
        (first : Text) (w : Desk)
        → (write_slots out go zones cal t zone i total (c ∷ existing) (slot ∷ slots) first w
            ≡ write_slots out go zones cal t zone
                (suc i)
                total
                existing
                slots
                (first_of out go zones i (a.saves w.tick).id first)
                (moved i c slot w))
          × ((moved i c slot w).chunks ≡ move_chunk c.id slot.start slot.end w.chunks)
          × ((moved i c slot w).tasks ≡ w.tasks)
          × ((moved i c slot w).next_row ≡ w.next_row)
    unfolding write_slots call_google update_chunk audit_chunk write_audit write ask ◌>>=◌ ◌>>◌
        or_fail ignore
    write_slots-moved i c existing slot slots first w =
        ground (arith, a.saved_is w.tick, a.queries (suc w.tick), a.queries (suc (suc w.tick)))

    abbrev pub created : ℕ → Window → Desk → Desk
    created i slot w =
        let saved = a.saves w.tick in
        let called =
          (call_google out
            (insert cal.google_calendar_id (chunk_event out go zones t zone i total slot)) w).1 in
        (audit_chunk out go zones t.id saved.id (codes "scheduled") i total slot
          (insert_chunk out go zones (chunk_at out go zones t i saved.id slot) called).1).1

    abbrev pub new_row : ℕ → Window → Desk → TaskChunk
    new_row i slot w = record (chunk_at out go zones t i (a.saves w.tick).id slot) {
      id = w.next_row;
    }

    pub write_slots-created :
        (i : ℕ) (slot : Window) (slots : List Window) (first : Text) (w : Desk)
        → has_chunk t.id i w.chunks ≡ false
        → (write_slots out go zones cal t zone i total [] (slot ∷ slots) first w
            ≡ write_slots out go zones cal t zone
                (suc i)
                total
                []
                slots
                (first_of out go zones i (a.saves w.tick).id first)
                (created i slot w))
          × ((created i slot w).chunks ≡ new_row i slot w ∷ w.chunks)
          × ((created i slot w).tasks ≡ w.tasks)
          × ((created i slot w).next_row ≡ suc w.next_row)
    unfolding write_slots call_google insert_chunk audit_chunk write_audit write ask ◌>>=◌ ◌>>◌
        or_fail ignore
    write_slots-created i slot slots first w h =
        ground (arith, a.saved_is w.tick, a.queries (suc w.tick), a.queries (suc (suc w.tick)))

    pub moved-Stands :
        (i : ℕ) (c : TaskChunk) (existing : List TaskChunk) (slot : Window) (done : List TaskChunk)
        (w : Desk)
        → c.seq ≡ length done
        → Stands t.id done (c ∷ existing) w
        → Stands t.id
            (done ++ record c { starts_at = slot.start; ends_at = slot.end } ∷ [])
            existing
            (moved i c slot w)
    moved-Stands i c existing slot done w at p =
        let c' = record c { starts_at = slot.start; ends_at = slot.end } in
        let step = write_slots-moved i c existing slot [] [] w in
        let distinct : AreDistinct (done ++ c ∷ existing) =
          rw (sym p.view) (chunks_of-AreDistinct t.id w.next_row w.chunks p.keyed) in
        record {
          keyed =
              rw (step.1, step.3)
                (move_chunk-AreKeyed w.next_row c.id slot.start slot.end w.chunks p.keyed);
          view =
              rw
                (
                  step.1,
                  chunks_of-move_chunk t.id c.id slot.start slot.end w.chunks,
                  p.view,
                  move_chunk_middle done c existing slot.start slot.end distinct,
                )
                (sym (append_assoc done (c' ∷ []) existing));
          done_from = AreFrom-end 0 c' done p.done_from (omega (arith, at));
        }

    pub created-Stands :
        (i : ℕ) (slot : Window) (done : List TaskChunk) (w : Desk)
        → i ≡ length done
        → Stands t.id done [] w
        → (has_chunk t.id i w.chunks ≡ false)
          × Stands t.id (done ++ new_row i slot w ∷ []) [] (created i slot w)
    created-Stands i slot done w e p =
        let row = new_row i slot w in
        let view : chunks_of t.id w.chunks ≡ done = p.view ∙ append-nil done in
        let placed = chunks_of-cons row w.chunks (rw view p.done_from) (rw view e) in
        let step = write_slots-created i slot [] [] w placed.1 in
        let keyed : AreKeyed (suc w.next_row) (row ∷ w.chunks) =
          cons-AreKeyed row w.next_row w.chunks placed.1 p.keyed in
        (
          placed.1,
          record {
            keyed = rw (step.3, step.1) keyed;
            view = rw (step.1, placed.0, view) (sym (append-nil _));
            done_from = AreFrom-end 0 row done p.done_from (omega (arith, e));
          },
        )

  -- The loop over the blocks that the plan does not need.
  pub cleared : Calendar → Text → TaskChunk → Desk → Desk
  cleared cal message c w =
      (write_audit out (codes "task") c.google_event_id (codes "unscheduled") message
        (delete_chunk out go zones c.id
          (delete_google out cal.google_calendar_id c.google_event_id w).1).1).1

  pub clear_blocks-cleared :
      (cal : Calendar) (message : Text) (c : TaskChunk) (rest : List TaskChunk) (w : Desk)
      → (clear_blocks out go zones cal message (c ∷ rest) w
          ≡ clear_blocks out go zones cal message rest (cleared cal message c w))
        × ((cleared cal message c w).chunks ≡ drop_chunk c.id w.chunks)
        × ((cleared cal message c w).tasks ≡ w.tasks)
        × ((cleared cal message c w).next_row ≡ w.next_row)
  unfolding clear_blocks cleared delete_google delete_chunk write_audit write ask ◌>>=◌ ◌>>◌ or_fail
      ignore
  clear_blocks-cleared cal message c rest w =
      ground (arith, a.deletes w.tick, a.queries (suc w.tick), a.queries (suc (suc w.tick)))

  pub clear_blocks_nil :
      (cal : Calendar) (message : Text) (w : Desk)
      → clear_blocks out go zones cal message [] w ≡ (ok tt, w)
  unfolding clear_blocks
  clear_blocks_nil cal message w = refl

  pub cleared-Stands :
      (cal : Calendar) (message : Text) (task_id : ℕ) (done : List TaskChunk) (c : TaskChunk)
      (rest : List TaskChunk) (w : Desk)
      → Stands task_id done (c ∷ rest) w
      → Stands task_id done rest (cleared cal message c w)
  cleared-Stands cal message task_id done c rest w p =
      let step = clear_blocks-cleared cal message c rest w in
      let distinct : AreDistinct (done ++ c ∷ rest) =
        rw (sym p.view) (chunks_of-AreDistinct task_id w.next_row w.chunks p.keyed) in
      record {
        keyed = rw (step.1, step.3) (drop_chunk-AreKeyed w.next_row c.id w.chunks p.keyed);
        view =
            rw
              (
                step.1,
                chunks_of-drop_chunk task_id c.id w.chunks,
                p.view,
                drop_chunk_middle done c rest distinct,
              )
              refl;
        done_from = p.done_from;
      }
