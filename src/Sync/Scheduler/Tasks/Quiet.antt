-- ===== src/Sync/Scheduler/Tasks/Quiet.antt =====
-- The placings of a task that change nothing, and the one that stops the program.
use mathlib.Core.Path.{subst}
use skulid.Base.{
  ℕ, ◌≡◌, ◌⊎◌, inl, inr, refl, sym, ap, ◌∙◌, true, List, [], ◌∷◌, ◌++◌, Option, none, some, Text,
  All,
}
use skulid.Hours.Window.{Window, after}
use skulid.Hours.Expand.{WorkingHours, Location}
use skulid.Hours.Chunks.{chunked_slots}
use skulid.Sync.Outside.{
  Error, Result, out_of_range, ok, err, ◌>>=◌, ◌>>◌, ignore, or_fail, Outside,
}
use skulid.Sync.Event.{Calendar}
use skulid.Sync.Filter.{Runtime}
use skulid.Sync.Placement.{TaskChunk, placement_holds, placement_avail}
use skulid.Sync.Desk.{Desk, Task, Zones, tick, ask, read}
use skulid.Sync.Desk.Rows.{chunks_of}
use skulid.Sync.Conflicts.{enabled_calendars, group_by_account}
use skulid.Sync.Scheduler.{google_ids, busy_everywhere}
use skulid.Sync.Scheduler.Closed.{Answered, busy_everywhere_complete}
use skulid.Sync.Scheduler.Busy.{IsQuiet, IsQuiet-tick, busy_everywhere-IsQuiet}
use skulid.Sync.Scheduler.Tasks.{
  same_windows, is_settled, exclude_own, beyond, duration_of, min_chunk, clear_blocks, write_slots,
  summarise, write_plan, apply_chunks, settle_plan, reconcile_task, place_within,
}

option_clash : {A : Type 0} {x : A} → Option.some x ≡ none → ⊥
option_clash h = cc

Result-cases : {A : Type 0} (r : Result A) → ((a : A) × (r ≡ ok a)) ⊎ ((x : Error) × (r ≡ err x))
Result-cases (ok a) = inl (a, refl)
Result-cases (err x) = inr (x, refl)

module _ (out : Outside) (go : Runtime) (zones : Zones) where
  place_within-err :
      (now to : ℕ) (cal : Calendar) (t : Task) (hours : WorkingHours × Location) (x : Error)
      (w : Desk)
      → after to now ≡ true
      → (busy_everywhere out go now to w).0 ≡ err x
      → let placed = place_within out go zones now to cal t hours w in
        (placed.0 ≡ err x) × IsQuiet w placed.1
  unfolding place_within ◌>>=◌
  place_within-err now to cal t hours x w late h =
      rw (late, h) (refl, busy_everywhere-IsQuiet out go w now to w refl)

  unanswered :
      (now to : ℕ) (group : ℕ × List Calendar) (before rest : List (ℕ × List Calendar))
      (Busy : ℕ → Type 0)
      → ((n : ℕ) → out.busy n (google_ids group.1) now to ≡ none)
      → All (Answered out go now to Busy) (before ++ group ∷ rest)
      → ⊥
  unanswered now to group [] rest Busy silent ((n, fb, e, c), h) = option_clash (sym e ∙ silent n)
  unanswered now to group (g ∷ before) rest Busy silent (x, h) =
      unanswered now to group before rest Busy silent h

  -- Where Google never answers for the enabled calendars of one of the accounts, whatever it answers
  -- for the others, the placing of a task whose deadline is still to come ends with an error, and
  -- changes neither the calendars nor a row.
  pub place_within_fails_closed :
      (now to : ℕ) (cal : Calendar) (t : Task) (hours : WorkingHours × Location) (w : Desk)
      (group : ℕ × List Calendar) (before rest : List (ℕ × List Calendar))
      → after to now ≡ true
      → group_by_account (enabled_calendars w.calendars) ≡ before ++ group ∷ rest
      → ((n : ℕ) → out.busy n (google_ids group.1) now to ≡ none)
      → let placed = place_within out go zones now to cal t hours w in
        (x : Error) × (placed.0 ≡ err x) × IsQuiet w placed.1
  place_within_fails_closed now to cal t hours w group before rest late here silent =
      elim (Result-cases (busy_everywhere out go now to w).0) [
        | inl (busy, e) ↦
            let answered = busy_everywhere_complete out go now to busy w e in
            absurd (unanswered now to group before rest _ silent (rw here at answered))
        | inr (x, e) ↦
            let (fails, quiet) = place_within-err now to cal t hours x w late e in (x, fails, quiet)
      ]

  -- Whether `PlaceTask` leaves these blocks where they are.
  abbrev pub Holds : ℕ → ℕ → Task → WorkingHours → Location → List Window → List TaskChunk → Type 0
  Holds now to t wh loc busy existing =
      placement_holds existing (placement_avail wh loc existing now to) (exclude_own busy existing)
        (duration_of out go zones t) now
      ≡ true

  read_and_hold :
      (now to : ℕ) (cal : Calendar) (t : Task) (wh : WorkingHours) (loc : Location)
      (busy : List Window) (v : Desk)
      → out.query_ok v.tick ≡ true
      → Holds now to t wh loc busy (chunks_of t.id v.chunks)
      → is_settled t ≡ true
      → (read out (λ u. some (chunks_of t.id u.chunks)) >>= λ existing.
            reconcile_task out go zones now to cal t wh loc busy existing)
          v
        ≡ (ok tt, tick v)
  unfolding reconcile_task read ask or_fail ◌>>=◌
  read_and_hold now to cal t wh loc busy v q holds settled = rw (q, holds, settled) refl

  read_then_hold :
      (now to : ℕ) (cal : Calendar) (t : Task) (wh : WorkingHours) (loc : Location)
      (busy : List Window) (w : Desk)
      → after to now ≡ true
      → (busy_everywhere out go now to w).0 ≡ ok busy
      → place_within out go zones now to cal t (wh, loc) w
        ≡ (read out (λ u. some (chunks_of t.id u.chunks)) >>= λ existing.
              reconcile_task out go zones now to cal t wh loc busy existing)
            (busy_everywhere out go now to w).1
  unfolding place_within ◌>>=◌
  read_then_hold now to cal t wh loc busy w late h = rw (late, h) refl

  -- Where the blocks of a scheduled task without a note hold in the busy time that is read, without
  -- the task's own blocks, the placing of the task succeeds and changes neither the calendars nor a
  -- row.
  pub place_within-Holds :
      (now to : ℕ) (cal : Calendar) (t : Task) (wh : WorkingHours) (loc : Location)
      (busy : List Window) (w : Desk)
      → after to now ≡ true
      → (busy_everywhere out go now to w).0 ≡ ok busy
      → out.query_ok (busy_everywhere out go now to w).1.tick ≡ true
      → Holds now to t wh loc busy (chunks_of t.id w.chunks)
      → is_settled t ≡ true
      → let placed = place_within out go zones now to cal t (wh, loc) w in
        (placed.0 ≡ ok tt) × IsQuiet w placed.1
  place_within-Holds now to cal t wh loc busy w late h q holds settled =
      let v = (busy_everywhere out go now to w).1 in
      let quiet = busy_everywhere-IsQuiet out go w now to w refl in
      let same : v.chunks ≡ w.chunks = ap (λ u. u.chunks) quiet in
      let holds' : Holds now to t wh loc busy (chunks_of t.id v.chunks) =
        subst (λ cs. Holds now to t wh loc busy (chunks_of t.id cs)) (sym same) holds in
      let step = read_then_hold now to cal t wh loc busy w late h in
      let end = read_and_hold now to cal t wh loc busy v q holds' settled in
      rw (step, end) (refl, IsQuiet-tick w v quiet)

  clear_blocks_ok :
      (cal : Calendar) (message : Text) (cs : List TaskChunk) (w : Desk)
      → (clear_blocks out go zones cal message cs w).0 ≡ ok tt
  unfolding clear_blocks ignore ◌>>◌ ◌>>=◌
  clear_blocks_ok cal message [] w = refl
  clear_blocks_ok cal message (c ∷ cs) w = clear_blocks_ok cal message cs _

  apply_chunks-nil :
      (cal : Calendar) (t : Task) (cs : List TaskChunk) (zone : Text) (w : Desk)
      → (apply_chunks out go zones cal t cs [] zone w).0 ≡ err out_of_range
  unfolding apply_chunks write_plan write_slots summarise beyond same_windows ◌>>◌ ◌>>=◌
  apply_chunks-nil cal t [] zone w = rw (clear_blocks_ok cal _ [] w) refl
  apply_chunks-nil cal t (c ∷ cs) zone w = rw (clear_blocks_ok cal _ (c ∷ cs) w) refl

  -- A task whose duration is not positive on 64 bits, as 200000000 minutes are, stops the program:
  -- its plan fits with no slot, and the first slot is read.
  pub reconcile_task_stops :
      (now to : ℕ) (cal : Calendar) (t : Task) (wh : WorkingHours) (loc : Location)
      (busy : List Window) (existing : List TaskChunk) (w : Desk)
      → duration_of out go zones t ≡ 0
      → (reconcile_task out go zones now to cal t wh loc busy existing w).0 ≡ err out_of_range
  unfolding reconcile_task settle_plan min_chunk chunked_slots placement_holds ◌>>=◌
  reconcile_task_stops now to cal t wh loc busy existing w h =
      rw h (apply_chunks-nil cal t existing wh.time_zone _)
