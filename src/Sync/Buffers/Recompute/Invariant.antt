-- ===== src/Sync/Buffers/Recompute/Invariant.antt =====
-- What a recomputation keeps whatever the database and Google answer.
use skulid.Base.{
  ℕ, ◌≡◌, refl, Bool, true, false, List, [], ◌∷◌, Option, none, some, ◌==◌, if◌then◌else◌, Text,
  text_eq, arith, All, inl, inr, Bool-cases,
}
use skulid.Sync.Outside.{Result, Outside}
use skulid.Sync.Outside.Rules.{Keeps, bind-Keeps, then-Keeps, or_fail-Keeps, ignore-Keeps, if-Keeps}
use skulid.Sync.Event.{Event, Calendar, is_managed, buffer_props, marked}
use skulid.Sync.Filter.{Runtime}
use skulid.Sync.Engine.Store.{Call, insert, update, delete}
use skulid.Sync.Buffers.{BufferSettings, BufferKey, PlannedBuffer, is_real_commitment, plan_buffers}
use skulid.Sync.Buffers.Plan.{plan_buffers_none}
use skulid.Sync.Buffers.Recompute.{
  BufferEvent, Shelf, find_key, taken, move_row, drop_row, tick, ask, call_google, delete_google,
  client_for, list_events, load_buffers, effective_buffers, inserted, insert_row, update_window,
  delete_row, audit_buffer, body_of, move_buffer, create_buffer, apply_buffer, place_all, wanted,
  reap, settle, recompute_calendar, recompute,
}

-- A calendar has one row at most for a buffer's key.
abbrev pub IsUnique : List BufferEvent → Type 0
IsUnique [] = Unit {0}
IsUnique (b ∷ bs) = (taken b bs ≡ false) × IsUnique bs

taken-drop_row :
    (new : BufferEvent) (id : ℕ) (bs : List BufferEvent)
    → taken new bs ≡ false
    → taken new (drop_row id bs) ≡ false
unfolding taken drop_row
taken-drop_row new id [] h = refl
taken-drop_row new id (b ∷ bs) h = ground (arith, taken-drop_row new id bs)

drop_row-IsUnique : (id : ℕ) (bs : List BufferEvent) → IsUnique bs → IsUnique (drop_row id bs)
unfolding drop_row
drop_row-IsUnique id [] u = tt
drop_row-IsUnique id (b ∷ bs) u =
    ground (arith, drop_row-IsUnique id bs u.1, taken-drop_row b id bs u.0)

taken-move_row :
    (new : BufferEvent) (id s e : ℕ) (bs : List BufferEvent)
    → taken new (move_row id s e bs) ≡ taken new bs
unfolding taken move_row
taken-move_row new id s e [] = refl
taken-move_row new id s e (b ∷ bs) = ground (arith, taken-move_row new id s e bs)

move_row-IsUnique :
    (id s e : ℕ) (bs : List BufferEvent) → IsUnique bs → IsUnique (move_row id s e bs)
unfolding move_row taken
move_row-IsUnique id s e [] u = tt
move_row-IsUnique id s e (b ∷ bs) u = elim (Bool-cases (b.id == id)) [
  | inl t ↦ rw t (ground (arith, taken-move_row b id s e bs), move_row-IsUnique id s e bs u.1)
  | inr t ↦ rw t (ground (arith, taken-move_row b id s e bs), move_row-IsUnique id s e bs u.1)
]

module _ (go : Runtime) where
  -- What is written to a calendar is managed, and earns no buffer of its own.
  abbrev pub IsInert : Event → Type 0
  IsInert ev = (is_managed ev ≡ true) × ((bufs : BufferSettings) → plan_buffers go bufs ev ≡ [])

  abbrev pub WritesInert : Call → Type 0
  WritesInert (insert cal ev) = IsInert ev
  WritesInert (update cal id ev) = IsInert ev
  WritesInert (delete cal id) = Unit {0}

  pub record Tidy (w : Shelf) : Type 0 where
    pub unique : IsUnique w.rows
    pub inert : All WritesInert w.calls

  managed-IsInert : (ev : Event) → is_managed ev ≡ true → IsInert ev
  unfolding is_real_commitment
  managed-IsInert ev m = (m, λ bufs. plan_buffers_none go bufs ev (ground arith))

  if-answer :
      {A : Type 0} (b : Bool) (m n : Result A × Shelf)
      → Tidy m.1
      → Tidy n.1
      → Tidy (if b then m else n).1
  if-answer true m n h k = h
  if-answer false m n h k = k

  module _ (out : Outside) where
    body_of-managed :
        (cal : Calendar) (want : PlannedBuffer) → is_managed (body_of out go cal want) ≡ true
    unfolding body_of is_managed marked buffer_props text_eq
    body_of-managed cal want = refl

    ask-Tidy :
        {A : Type 0} (run : Shelf → Option A × Shelf)
        → ((w : Shelf) → Tidy w → Tidy (run w).1)
        → Keeps Tidy (ask out go run)
    unfolding ask
    ask-Tidy run h w p =
        if-answer (out.query_ok w.tick) _ _
          (or_fail-Keeps Tidy _ (run w).0 _
            (record { unique = (h w p).unique; inert = (h w p).inert }))
          (record { unique = p.unique; inert = p.inert })

    call_google-Tidy : (call : Call) → WritesInert call → Keeps Tidy (call_google out go call)
    unfolding call_google
    call_google-Tidy call i w p =
        or_fail-Keeps Tidy _ (out.saved w.tick) _
          (record { unique = p.unique; inert = (i, p.inert) })

    delete_google-Tidy : (cal id : Text) → Keeps Tidy (delete_google out go cal id)
    unfolding delete_google
    delete_google-Tidy cal id w p =
        let kept : Tidy (tick (record w { calls = delete cal id ∷ w.calls })) = record {
          unique = p.unique;
          inert = (tt, p.inert);
        } in
        if-answer (out.deleted w.tick) _ _ kept kept

    client_for-Tidy : Keeps Tidy (client_for out go)
    unfolding client_for
    client_for-Tidy w p =
        let kept : Tidy (tick w) = record { unique = p.unique; inert = p.inert } in
        if-answer (out.client_ok w.tick) _ _ kept kept

    list_events-Tidy : Keeps Tidy (list_events out go)
    unfolding list_events
    list_events-Tidy w p =
        or_fail-Keeps Tidy _ (out.listed w.tick) _ (record { unique = p.unique; inert = p.inert })

    load_buffers-Tidy : Keeps Tidy (load_buffers out go)
    unfolding load_buffers
    load_buffers-Tidy w p = record { unique = p.unique; inert = p.inert }

    effective_buffers-Tidy : (cal : Calendar) → Keeps Tidy (effective_buffers out go cal)
    unfolding effective_buffers
    effective_buffers-Tidy cal = if-Keeps Tidy _ _ _ (λ w p. p) load_buffers-Tidy

    inserted-Tidy : (row : BufferEvent) (w : Shelf) → Tidy w → Tidy (inserted out go row w).1
    unfolding taken
    inserted-Tidy row w p = elim (Bool-cases (taken row w.rows)) [
      | inl t ↦ rw t p
      | inr t ↦ rw t (record { unique = (t, p.unique); inert = p.inert })
    ]

    insert_row-Tidy : (row : BufferEvent) → Keeps Tidy (insert_row out go row)
    unfolding insert_row
    insert_row-Tidy row = ask-Tidy _ (inserted-Tidy row)

    update_window-Tidy : (id s e : ℕ) → Keeps Tidy (update_window out go id s e)
    unfolding update_window
    update_window-Tidy id s e =
        ask-Tidy _
          λ w p. record { unique = move_row-IsUnique id s e w.rows p.unique; inert = p.inert }

    delete_row-Tidy : (id : ℕ) → Keeps Tidy (delete_row out go id)
    unfolding delete_row
    delete_row-Tidy id =
        ask-Tidy _ λ w p. record { unique = drop_row-IsUnique id w.rows p.unique; inert = p.inert }

    audit_buffer-Tidy : (t a m : Text) → Keeps Tidy (audit_buffer out go t a m)
    unfolding audit_buffer
    audit_buffer-Tidy t a m = ask-Tidy _ λ w p. record { unique = p.unique; inert = p.inert }

    apply_buffer-Tidy :
        (cal : Calendar) (want : PlannedBuffer) (row : Option BufferEvent)
        (by_key : List BufferEvent)
        → Keeps Tidy (apply_buffer out go cal want row by_key)
    unfolding apply_buffer create_buffer move_buffer
    apply_buffer-Tidy cal want none by_key =
        bind-Keeps Tidy _ _
          (call_google-Tidy (insert _ _) (managed-IsInert _ (body_of-managed cal want)))
          λ saved.
            bind-Keeps Tidy _ _ (insert_row-Tidy _)
              λ id. then-Keeps Tidy _ _ (ignore-Keeps Tidy _ (audit_buffer-Tidy _ _ _)) λ w p. p
    apply_buffer-Tidy cal want (some row) by_key =
        if-Keeps Tidy _ _ _ (λ w p. p)
          (bind-Keeps Tidy _ _
            (call_google-Tidy (update _ _ _) (managed-IsInert _ (body_of-managed cal want)))
            λ updated.
              then-Keeps Tidy _ _ (update_window-Tidy _ _ _)
                (then-Keeps Tidy _ _ (ignore-Keeps Tidy _ (audit_buffer-Tidy _ _ _)) λ w p. p))

    place_all-Tidy :
        (cal : Calendar) (wants : List PlannedBuffer) (by_key : List BufferEvent)
        → Keeps Tidy (place_all out go cal wants by_key)
    unfolding place_all
    place_all-Tidy cal [] by_key w p = p
    place_all-Tidy cal (want ∷ wants) by_key w p =
        place_all-Tidy cal wants _ _
          (apply_buffer-Tidy cal want (find_key want.key by_key) by_key w p)

    reap-Tidy :
        (cal : Calendar) (seen : List BufferKey) (by_key : List BufferEvent)
        → Keeps Tidy (reap out go cal seen by_key)
    unfolding reap
    reap-Tidy cal seen [] w p = p
    reap-Tidy cal seen (row ∷ by_key) w p =
        if-Keeps Tidy _ _ _ (reap-Tidy cal seen by_key)
          (then-Keeps Tidy _ _ (ignore-Keeps Tidy _ (delete_google-Tidy _ _)) (
            then-Keeps Tidy _ _ (ignore-Keeps Tidy _ (delete_row-Tidy _)) (
              then-Keeps Tidy _ _ (ignore-Keeps Tidy _ (audit_buffer-Tidy _ _ _))
                (reap-Tidy cal seen by_key))))
          w p

    recompute_calendar-Tidy :
        (from to : ℕ) (cal : Calendar) → Keeps Tidy (recompute_calendar out go from to cal)
    unfolding recompute_calendar settle
    recompute_calendar-Tidy from to cal = then-Keeps Tidy _ _ client_for-Tidy (
        bind-Keeps Tidy _ _ (effective_buffers-Tidy cal) λ bufs.
          bind-Keeps Tidy _ _ (ask-Tidy _ λ w p. p) λ existing.
            bind-Keeps Tidy _ _ list_events-Tidy λ events.
              bind-Keeps Tidy _ _ (place_all-Tidy cal (wanted out go bufs events) existing)
                λ by_key. reap-Tidy cal _ by_key)

    -- Whatever the database and Google answer, a recomputation of a calendar's buffers leaves at
    -- most one row for a key, and every event that it inserts or updates on Google is managed and
    -- earns no buffer itself, under any settings.
    pub recompute-Tidy :
        (now calendar_id : ℕ) (w : Shelf) → Tidy w → Tidy (recompute out go now calendar_id w).1
    unfolding recompute
    recompute-Tidy now calendar_id =
        bind-Keeps Tidy _ _ (ask-Tidy _ λ w p. p)
          λ cal. if-Keeps Tidy _ _ _ (λ w p. p) (recompute_calendar-Tidy now _ cal)
