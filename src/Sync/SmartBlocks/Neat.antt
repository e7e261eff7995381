-- ===== src/Sync/SmartBlocks/Neat.antt =====
-- What the recomputation of a smart block keeps whatever the database and Google answer.
use skulid.Base.{
  ℕ, ◌≡◌, refl, true, inl, inr, Bool-cases, List, [], ◌∷◌, Option, none, some, Text, text_eq,
}
use skulid.Hours.Window.{Window}
use skulid.Sync.Outside.{Result, ok, err, Outside}
use skulid.Sync.Outside.Rules.{Keeps, bind-Keeps, then-Keeps, or_fail-Keeps, ignore-Keeps, if-Keeps}
use skulid.Sync.Event.{Calendar, is_managed, marked}
use skulid.Sync.Filter.{Runtime}
use skulid.Sync.Engine.Store.{insert, update}
use skulid.Sync.Desk.{SmartBlock, ManagedBlock, Desk, Zones}
use skulid.Sync.Desk.Rows.Keys.{
  AreKeyed-suc, cons-AreNumbered, move_managed-AreNumbered, drop_managed-AreNumbered,
}
use skulid.Sync.Desk.Neat.{
  Neat, ask-Neat, read-Neat, write-Neat, call_google-Neat, delete_google-Neat, client_for-Neat,
  free_busy-Neat, get_calendar-Neat, write_audit-Neat,
}
use skulid.Sync.SmartBlocks.{
  has_event, inserted, smart_block_props, source_busy, add_source, busy_of, smart_event,
  insert_managed, update_managed, delete_managed, take_match, place_window, place_windows,
  drop_left, settle_block, recompute_within, recompute_on, recompute_block,
}

inserted-Neat : (m : ManagedBlock) (w : Desk) → Neat w → Neat (inserted m w).1
inserted-Neat m w p = elim (Bool-cases (has_event m.smart_block_id m.target_event_id w.managed)) [
  | inl t ↦ rw t p
  | inr n ↦ rw n (record {
    marked = p.marked;
    keyed = AreKeyed-suc _ _ p.keyed;
    numbered = cons-AreNumbered m _ _ p.numbered;
    daily = p.daily;
  })
]

module _ (out : Outside) (go : Runtime) (zones : Zones) where
  add_source-Neat : (s e : ℕ) (got : Result Calendar) → Keeps Neat (add_source out go zones s e got)
  unfolding add_source source_busy
  add_source-Neat s e (err x) = λ w p. p
  add_source-Neat s e (ok cal) =
      if-Keeps Neat _ _ _ (λ w p. p)
        (then-Keeps Neat _ _ (client_for-Neat out)
          (bind-Keeps Neat _ _ (free_busy-Neat out _ s e) λ fb w p. p))

  busy_of-Neat : (s e : ℕ) (ids : List ℕ) → Keeps Neat (busy_of out go zones s e ids)
  unfolding busy_of
  busy_of-Neat s e [] = λ w p. p
  busy_of-Neat s e (id ∷ ids) = λ w p.
      bind-Keeps Neat _ _ (add_source-Neat s e _)
        (λ ws. bind-Keeps Neat _ _ (busy_of-Neat s e ids) λ rest w p. p) _
        (get_calendar-Neat out id w p)

  smart_event-managed :
      (b : SmartBlock) (zone : Text) (d : Window)
      → is_managed (smart_event out go zones b zone d) ≡ true
  unfolding smart_event is_managed marked smart_block_props text_eq
  smart_event-managed b zone d = refl

  insert_managed-Neat : (m : ManagedBlock) → Keeps Neat (insert_managed out go zones m)
  unfolding insert_managed
  insert_managed-Neat m = ask-Neat out (inserted m) (inserted-Neat m)

  update_managed-Neat : (id s e : ℕ) → Keeps Neat (update_managed out go zones id s e)
  unfolding update_managed
  update_managed-Neat id s e = write-Neat out _ λ w p. record {
    marked = p.marked;
    keyed = p.keyed;
    numbered = move_managed-AreNumbered _ id s e _ p.numbered;
    daily = p.daily;
  }

  delete_managed-Neat : (id : ℕ) → Keeps Neat (delete_managed out go zones id)
  unfolding delete_managed
  delete_managed-Neat id = write-Neat out _ λ w p. record {
    marked = p.marked;
    keyed = p.keyed;
    numbered = drop_managed-AreNumbered _ id _ p.numbered;
    daily = p.daily;
  }

  place_window-Neat :
      (b : SmartBlock) (cal : Calendar) (zone : Text) (d : Window) (m : Option ManagedBlock)
      → Keeps Neat (place_window out go zones b cal zone d m)
  unfolding place_window
  place_window-Neat b cal zone d none =
      bind-Keeps Neat _ _ (call_google-Neat out (insert _ _) (smart_event-managed b zone d))
        λ saved.
          then-Keeps Neat _ _ (insert_managed-Neat _)
            (ignore-Keeps Neat _ (write_audit-Neat out _ _ _ _))
  place_window-Neat b cal zone d (some m) =
      if-Keeps Neat _ _ _ (λ w p. p)
        (bind-Keeps Neat _ _ (call_google-Neat out (update _ _ _) (smart_event-managed b zone d))
          λ updated.
            then-Keeps Neat _ _ (update_managed-Neat _ _ _)
              (ignore-Keeps Neat _ (write_audit-Neat out _ _ _ _)))

  place_windows-Neat :
      (b : SmartBlock) (cal : Calendar) (zone : Text) (left : List ManagedBlock) (ds : List Window)
      → Keeps Neat (place_windows out go zones b cal zone left ds)
  unfolding place_windows
  place_windows-Neat b cal zone left [] = λ w p. p
  place_windows-Neat b cal zone left (d ∷ ds) =
      then-Keeps Neat _ _ (place_window-Neat b cal zone d _)
        (place_windows-Neat b cal zone (take_match d left).1 ds)

  drop_left-Neat :
      (cal : Calendar) (left : List ManagedBlock) → Keeps Neat (drop_left out go zones cal left)
  unfolding drop_left
  drop_left-Neat cal [] = λ w p. p
  drop_left-Neat cal (m ∷ left) =
      then-Keeps Neat _ _ (ignore-Keeps Neat _ (delete_google-Neat out _ _)) (
        then-Keeps Neat _ _ (ignore-Keeps Neat _ (delete_managed-Neat _)) (
          then-Keeps Neat _ _ (ignore-Keeps Neat _ (write_audit-Neat out _ _ _ _))
            (drop_left-Neat cal left)))

  recompute_on-Neat :
      (now : ℕ) (b : SmartBlock) (cal : Calendar) → Keeps Neat (recompute_on out go zones now b cal)
  unfolding recompute_on recompute_within settle_block
  recompute_on-Neat now b cal =
      if-Keeps Neat _ _ _ (λ w p. p)
        (then-Keeps Neat _ _ (client_for-Neat out) (
          bind-Keeps Neat _ _ (or_fail-Keeps Neat _ _) λ hours.
            bind-Keeps Neat _ _ (busy_of-Neat _ _ _) λ busy.
              bind-Keeps Neat _ _ (read-Neat out _) λ existing.
                bind-Keeps Neat _ _ (place_windows-Neat b cal _ _ _)
                  λ left. drop_left-Neat cal left))

  pub recompute_block-Neat : (now id : ℕ) → Keeps Neat (recompute_block out go zones now id)
  unfolding recompute_block
  recompute_block-Neat now id = bind-Keeps Neat _ _ (read-Neat out _) λ b.
      if-Keeps Neat _ _ _ (λ w p. p)
        (bind-Keeps Neat _ _ (get_calendar-Neat out _) λ cal. recompute_on-Neat now b cal)
