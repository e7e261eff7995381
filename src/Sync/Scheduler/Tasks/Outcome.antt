-- ===== src/Sync/Scheduler/Tasks/Outcome.antt =====
-- What `PlaceTask` makes of a task once the busy time and the task's blocks are read.
use skulid.Base.{
  ℕ, ◌≡◌, ◌<◌, ◌⊎◌, inl, inr, refl, sym, ap, ◌∙◌, true, false, not, ◌&&◌, List, [], ◌∷◌, ◌++◌,
  Option, none, some, Text, codes, is_nil, text_eq, text_eq_iff, itoa, All, map, arith, Bool-cases,
}
use mathlib.Core.Path.{subst}
use skulid.Hours.Window.{Window, clear}
use skulid.Hours.Expand.{WorkingHours, Location, expand}
use skulid.Hours.Chunks.{ChunkPlan, chunked_slots}
use skulid.Hours.Chunks.Pieces.{total_len}
use skulid.Hours.Chunks.Plan.{IsLegal, chunked_slots-IsPlan}
use skulid.Sync.Outside.{ok, ◌>>=◌, ◌>>◌, or_fail, Outside}
use skulid.Sync.Event.{Calendar}
use skulid.Sync.Filter.{Runtime}
use skulid.Sync.Placement.{TaskChunk, block_of, placement_holds, placement_avail}
use skulid.Sync.Placement.Stability.{placement_holds_sound}
use skulid.Sync.Buffers.{minutes_long}
use skulid.Sync.Engine.Outcome.{Answers}
use skulid.Sync.Desk.{task_pending, Task, Desk, Zones, tick, ask, write}
use skulid.Sync.Desk.Rows.{find_task, update_scheduled, chunks_of}
use skulid.Sync.Desk.Rows.Keys.{AreKeyed}
use skulid.Sync.Desk.Rows.View.{AreFrom}
use skulid.Sync.Scheduler.Tasks.Steps.{placement_of}
use skulid.Sync.Scheduler.Tasks.Refine.{clear_blocks-Stands, write_plan_refines}
use skulid.Sync.Scheduler.Tasks.{
  task_min_chunk_minutes, no_fit_note, same_windows, is_settled, exclude_own, max_task_chunks,
  duration_of, set_scheduled, min_chunk, clear_blocks, record_note, unschedule, apply_chunks,
  settle_plan, reconcile_task,
}

same_windows_sound :
    (cs : List TaskChunk) (ws : List Window) → same_windows cs ws ≡ true → map block_of cs ≡ ws
unfolding same_windows
same_windows_sound [] [] h = refl
same_windows_sound [] (w ∷ ws) h = ground arith
same_windows_sound (c ∷ cs) [] h = ground arith
same_windows_sound (c ∷ cs) (w ∷ ws) h = ground (arith, same_windows_sound cs ws)

find_task-noted :
    (id : ℕ) (note : Text) (ts : List Task) (t : Task)
    → find_task id ts ≡ some t
    → find_task id (update_scheduled id [] none none task_pending note ts)
      ≡ some (record t {
        scheduled_event_id = [];
        scheduled_starts_at = none;
        scheduled_ends_at = none;
        status = task_pending;
        schedule_note = note;
      })
unfolding find_task update_scheduled
find_task-noted id note [] t h = ground arith
find_task-noted id note (x ∷ ts) t h = ground (arith, find_task-noted id note ts t)

-- The task is on the calendar at these windows, scheduled and without a note.
abbrev IsPlacedAt : ℕ → List Window → Desk → Type 0
IsPlacedAt id slots w =
    (placement_of id w ≡ slots)
    × ((t : Task) × (find_task id w.tasks ≡ some t) × (is_settled t ≡ true))

-- The task has no block, and its row says why.
abbrev pub IsNoted : ℕ → Text → Desk → Type 0
IsNoted id note w =
    (placement_of id w ≡ [])
    × ((t : Task) × (find_task id w.tasks ≡ some t) × (t.schedule_note ≡ note))

-- The task is on the calendar for as long as it takes and clear of the busy time, scheduled and
-- without a note.
abbrev pub IsPlaced : ℕ → ℕ → List Window → Desk → Type 0
IsPlaced id total busy w =
    (total_len (placement_of id w) ≡ total)
    × All (λ block. clear block busy ≡ true) (placement_of id w)
    × ((t : Task) × (find_task id w.tasks ≡ some t) × (is_settled t ≡ true))

legal-clear :
    (avail busy : List Window) (n : ℕ) (ws : List Window)
    → All (IsLegal avail busy n) ws
    → All (λ block. clear block busy ≡ true) ws
legal-clear avail busy n [] l = tt
legal-clear avail busy n (w ∷ ws) l = (l.0.3, legal-clear avail busy n ws l.1)

module _ (out : Outside) (a : Answers out) (go : Runtime) (zones : Zones) where
  module _ (cal : Calendar) (t : Task) (w : Desk) (k : AreKeyed w.next_row w.chunks)
      (f : AreFrom 0 (chunks_of t.id w.chunks)) (h : find_task t.id w.tasks ≡ some t) where
    apply_chunks-IsPlacedAt :
        (zone : Text) (slot : Window) (slots : List Window)
        → let after =
            apply_chunks out go zones cal t (chunks_of t.id w.chunks) (slot ∷ slots) zone w in
          (after.0 ≡ ok tt) × IsPlacedAt t.id (slot ∷ slots) after.1
    unfolding apply_chunks
    apply_chunks-IsPlacedAt zone slot slots =
        let existing = chunks_of t.id w.chunks in
        elim (Bool-cases
          (not (is_nil existing) && same_windows existing (slot ∷ slots) && is_settled t)) [
            | inl s ↦ rw s (
              refl,
              (same_windows_sound existing (slot ∷ slots) (ground arith), (t, h, ground arith)),
            )
            | inr s ↦
                let (o, p, n, row) =
                  write_plan_refines out a go zones cal t zone slot slots w k f h in
                rw s (o, (p, (_, row.1, refl)))
          ]

    apply_chunks-IsPlaced :
        (zone : Text) (total : ℕ) (busy : List Window) (slots : List Window)
        → 0 < total
        → total_len slots ≡ total
        → All (λ block. clear block busy ≡ true) slots
        → let after = apply_chunks out go zones cal t (chunks_of t.id w.chunks) slots zone w in
          (after.0 ≡ ok tt) × IsPlaced t.id total busy after.1
    apply_chunks-IsPlaced zone total busy [] p e c = absurd (omega (arith, e))
    apply_chunks-IsPlaced zone total busy (slot ∷ slots) p e c =
        let (o, placed) = apply_chunks-IsPlacedAt zone slot slots in
        (
          o,
          (
            ap total_len placed.0 ∙ e,
            subst (All (λ block. clear block busy ≡ true)) (sym placed.0) c,
            placed.1,
          ),
        )

    unschedule-IsNoted :
        (note : Text)
        → let after = unschedule out go zones cal t (chunks_of t.id w.chunks) note w in
          (after.0 ≡ ok tt) × IsNoted t.id note after.1
    unfolding unschedule record_note set_scheduled write ask ◌>>◌ ◌>>=◌ or_fail
    unschedule-IsNoted note =
        let existing = chunks_of t.id w.chunks in
        let message = codes "no fit found for task #" ++ itoa t.id in
        let cleared =
          clear_blocks-Stands out a go zones cal message t.id [] existing w
            (record { keyed = k; view = refl; done_from = tt }) in
        let w' = (clear_blocks out go zones cal message existing w).1 in
        let empty : placement_of t.id w' ≡ [] = ap (map block_of) cleared.1.view in
        let row = ap (find_task t.id) cleared.2 ∙ h in
        elim (Bool-cases
          (is_nil existing && is_nil t.scheduled_event_id && text_eq t.schedule_note note)) [
            | inl s ↦
                rw (cleared.0, s)
                  (refl, (empty, (t, row, (text_eq_iff t.schedule_note note).0 (ground arith))))
            | inr s ↦
                rw (cleared.0, s, a.queries w'.tick)
                  (refl, (empty, (_, find_task-noted t.id note w'.tasks t row, refl)))
          ]

  -- The plan that `PlaceTask` computes.
  abbrev pub plan_for :
      ℕ
      → ℕ
      → Task
      → WorkingHours
      → Location
      → List Window
      → List TaskChunk
      → Option Text
      → ChunkPlan
  plan_for now to t wh loc busy existing setting =
      chunked_slots (expand wh now to loc) (exclude_own busy existing) (duration_of out go zones t)
        (minutes_long (task_min_chunk_minutes setting)) now max_task_chunks

  settle_plan-settles :
      (cal : Calendar) (t : Task) (w : Desk) (wh : WorkingHours) (loc : Location)
      (avail busy : List Window) (m n k : ℕ)
      → AreKeyed w.next_row w.chunks
      → AreFrom 0 (chunks_of t.id w.chunks)
      → find_task t.id w.tasks ≡ some t
      → 0 < duration_of out go zones t
      → let plan = chunked_slots avail busy (duration_of out go zones t) m n k in
        let after = settle_plan out go zones cal t (chunks_of t.id w.chunks) wh loc plan w in
        (after.0 ≡ ok tt)
        × (IsPlaced t.id (duration_of out go zones t) busy after.1
            ⊎ ((plan.fits ≡ false)
                × IsNoted t.id
                    (no_fit_note zones (duration_of out go zones t) plan.placeable t.due_at loc)
                    after.1))
  unfolding settle_plan
  settle_plan-settles cal t w wh loc avail busy m n k keyed f h p =
      let total = duration_of out go zones t in
      let plan = chunked_slots avail busy total m n k in
      let sound = chunked_slots-IsPlan avail busy total m n k in
      elim (Bool-cases plan.fits) [
        | inl fits ↦
            let exact : total_len plan.slots ≡ total = ground (arith, sound.placed, sound.exact) in
            let (o, placed) =
              apply_chunks-IsPlaced cal t w keyed f h wh.time_zone total busy plan.slots p exact
                (legal-clear avail busy n plan.slots sound.legal) in
            rw fits (o, inl placed)
        | inr none_fits ↦
            let (o, noted) =
              unschedule-IsNoted cal t w keyed f h
                (no_fit_note zones total plan.placeable t.due_at loc) in
            rw none_fits (o, inr (refl, noted))
      ]

  -- When the database and Google answer, the task's blocks are numbered in their order, no two rows
  -- share a number or a place and the task takes some time, `PlaceTask` ends without an error once
  -- it has read the busy time and the task's blocks. Either the task's blocks last exactly as long
  -- as the task takes, each clear of the busy time without the task's own blocks, and the task is
  -- scheduled without a note; or the plan does not fit, and the task has no block and its note says
  -- how much would fit.
  pub reconcile_task_settles :
      (now to : ℕ) (cal : Calendar) (t : Task) (wh : WorkingHours) (loc : Location)
      (busy : List Window) (w : Desk)
      → AreKeyed w.next_row w.chunks
      → AreFrom 0 (chunks_of t.id w.chunks)
      → find_task t.id w.tasks ≡ some t
      → 0 < duration_of out go zones t
      → let existing = chunks_of t.id w.chunks in
        let total = duration_of out go zones t in
        let plan = plan_for now to t wh loc busy existing w.min_chunk_setting in
        let after = reconcile_task out go zones now to cal t wh loc busy existing w in
        (after.0 ≡ ok tt)
        × (IsPlaced t.id total (exclude_own busy existing) after.1
            ⊎ ((plan.fits ≡ false)
                × IsNoted t.id (no_fit_note zones total plan.placeable t.due_at loc) after.1))
  unfolding reconcile_task min_chunk ◌>>=◌
  reconcile_task_settles now to cal t wh loc busy w k f h p =
      let existing = chunks_of t.id w.chunks in
      let total = duration_of out go zones t in
      let others = exclude_own busy existing in
      let avail = placement_avail wh loc existing now to in
      elim (Bool-cases (placement_holds existing avail others total now && is_settled t)) [
        | inl held ↦
            let (legal, order, sum, late) =
              placement_holds_sound avail others total now existing (ground arith) in
            rw held (
              refl,
              inl (
                sum,
                legal-clear avail others 0 (map block_of existing) legal,
                (t, h, ground arith),
              ),
            )
        | inr moved ↦
            rw (moved, a.queries w.tick)
              (settle_plan-settles cal t (tick w) wh loc (expand wh now to loc) others
                (minutes_long (task_min_chunk_minutes w.min_chunk_setting)) now max_task_chunks k f
                h p)
      ]
