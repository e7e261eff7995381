-- ===== src/Sync/Scheduler/Habits/Neat.antt =====
-- What the placing of habits keeps whatever the database and Google answer.
use skulid.Base.{ℕ, zero, suc, ◌≡◌, refl, true, List, [], ◌∷◌, Option, none, some, Text, text_eq}
use skulid.Hours.Window.{Window}
use skulid.Hours.Ranges.{Clock}
use skulid.Hours.Expand.{WorkingHours, Location}
use skulid.Sync.Outside.{Outside}
use skulid.Sync.Outside.Rules.{Keeps, bind-Keeps, then-Keeps, or_fail-Keeps, ignore-Keeps, if-Keeps}
use skulid.Sync.Event.{Calendar, is_managed, marked}
use skulid.Sync.Filter.{Runtime}
use skulid.Sync.Engine.Store.{insert, update}
use skulid.Sync.Desk.{Habit, HabitOccurrence, Zones}
use skulid.Sync.Desk.Rows.Keys.{
  AreKeyed-suc, AreNumbered-suc, upsert_occurrence-AreDaily, drop_occurrence-AreDaily,
}
use skulid.Sync.Desk.Neat.{
  Neat, read-Neat, write-Neat, call_google-Neat, delete_google-Neat, client_for-Neat,
  get_calendar-Neat, get_account-Neat, write_audit-Neat,
}
use skulid.Sync.Scheduler.Neat.{busy_everywhere-Neat}
use skulid.Sync.Scheduler.Habits.{
  ScanPair, habit_props, habit_event, upsert, delete_by_id, drop_day, record_day, create_day,
  move_day, write_day, settle_day, place_day, place_days, place_habit_within, place_habit_on,
  place_habit, place_each_habit, place_all_habits,
}

module _ (out : Outside) (go : Runtime) (zones : Zones) where
  habit_event-managed :
      (h : Habit) (zone : Text) (slot : Window)
      → is_managed (habit_event out go zones h zone slot) ≡ true
  unfolding habit_event is_managed marked habit_props text_eq
  habit_event-managed h zone slot = refl

  upsert-Neat : (o : HabitOccurrence) → Keeps Neat (upsert out go zones o)
  unfolding upsert
  upsert-Neat o = write-Neat out _ λ w p. record {
    marked = p.marked;
    keyed = AreKeyed-suc _ _ p.keyed;
    numbered = AreNumbered-suc _ _ p.numbered;
    daily = upsert_occurrence-AreDaily _ _ p.daily;
  }

  delete_by_id-Neat : (id : ℕ) → Keeps Neat (delete_by_id out go zones id)
  unfolding delete_by_id
  delete_by_id-Neat id = write-Neat out _ λ w p. record {
    marked = p.marked;
    keyed = p.keyed;
    numbered = p.numbered;
    daily = drop_occurrence-AreDaily id _ p.daily;
  }

  drop_day-Neat :
      (cal : Calendar) (h : Habit) (key : Text) (prev : Option HabitOccurrence)
      → Keeps Neat (drop_day out go zones cal h key prev)
  unfolding drop_day
  drop_day-Neat cal h key none = λ w p. p
  drop_day-Neat cal h key (some prev) =
      then-Keeps Neat _ _ (ignore-Keeps Neat _ (delete_google-Neat out _ _)) (
        then-Keeps Neat _ _ (ignore-Keeps Neat _ (delete_by_id-Neat _))
          (ignore-Keeps Neat _ (write_audit-Neat out _ _ _ _)))

  record_day-Neat :
      (h : Habit) (clock key event : Text) (slot : Window) (action : Text)
      → Keeps Neat (record_day out go zones h clock key event slot action)
  unfolding record_day
  record_day-Neat h clock key event slot action =
      then-Keeps Neat _ _ (upsert-Neat _) (ignore-Keeps Neat _ (write_audit-Neat out _ _ _ _))

  create_day-Neat :
      (cal : Calendar) (h : Habit) (zone clock key : Text) (slot : Window)
      → Keeps Neat (create_day out go zones cal h zone clock key slot)
  unfolding create_day
  create_day-Neat cal h zone clock key slot =
      bind-Keeps Neat _ _ (call_google-Neat out (insert _ _) (habit_event-managed h zone slot))
        λ saved. record_day-Neat h _ key _ slot _

  move_day-Neat :
      (cal : Calendar) (h : Habit) (zone clock key : Text) (slot : Window) (target : Text)
      → Keeps Neat (move_day out go zones cal h zone clock key slot target)
  unfolding move_day
  move_day-Neat cal h zone clock key slot target =
      bind-Keeps Neat _ _ (call_google-Neat out (update _ _ _) (habit_event-managed h zone slot))
        λ saved. record_day-Neat h _ key _ slot _

  write_day-Neat :
      (cal : Calendar) (h : Habit) (zone clock key : Text) (slot : Window)
      (prev : Option HabitOccurrence)
      → Keeps Neat (write_day out go zones cal h zone clock key slot prev)
  unfolding write_day
  write_day-Neat cal h zone clock key slot none = create_day-Neat cal h zone _ key slot
  write_day-Neat cal h zone clock key slot (some prev) =
      if-Keeps Neat _ _ _ (create_day-Neat cal h zone _ key slot)
        (move_day-Neat cal h zone _ key slot _)

  settle_day-Neat :
      (cal : Calendar) (h : Habit) (zone : Text) (clock : Window → Text) (key : Text)
      (prev : Option HabitOccurrence) (slot : Option Window)
      → Keeps Neat (settle_day out go zones cal h zone clock key prev slot)
  unfolding settle_day
  settle_day-Neat cal h zone clock key prev none = drop_day-Neat cal h key prev
  settle_day-Neat cal h zone clock key prev (some slot) =
      if-Keeps Neat _ _ _ (λ w p. p) (write_day-Neat cal h zone _ key slot prev)

  place_days-Neat :
      (left i : ℕ) (cal : Calendar) (h : Habit) (wh : WorkingHours) (loc : Location) (ideal : Clock)
      (existing : List HabitOccurrence) (start : ℕ)
      → Keeps Neat (place_days out go zones left i cal h wh loc ideal existing start)
  unfolding place_days place_day
  place_days-Neat zero i cal h wh loc ideal existing start = λ w p. p
  place_days-Neat (suc left) i cal h wh loc ideal existing start =
      let rest = place_days-Neat left (suc i) cal h wh loc ideal existing start in
      if-Keeps Neat _ _ _ rest (
        then-Keeps Neat _ _
          (ignore-Keeps Neat _ (
            bind-Keeps Neat _ _ (busy_everywhere-Neat out go _ _)
              λ busy. settle_day-Neat cal h _ _ _ _ _))
          rest)

  module _ (scan : ScanPair) where
    place_habit_on-Neat :
        (now : ℕ) (h : Habit) (cal : Calendar)
        → Keeps Neat (place_habit_on out go zones scan now h cal)
    unfolding place_habit_on place_habit_within
    place_habit_on-Neat now h cal =
        if-Keeps Neat _ _ _ (λ w p. p)
          (then-Keeps Neat _ _ (client_for-Neat out) (
            bind-Keeps Neat _ _ (get_account-Neat out _) λ acct.
              bind-Keeps Neat _ _ (or_fail-Keeps Neat _ _) λ hours.
                bind-Keeps Neat _ _ (or_fail-Keeps Neat _ _) λ ideal.
                  if-Keeps Neat _ _ _ (λ w p. p)
                    (bind-Keeps Neat _ _ (read-Neat out _)
                      λ existing. place_days-Neat _ 0 cal h _ _ ideal existing _)))

    pub place_habit-Neat : (now id : ℕ) → Keeps Neat (place_habit out go zones scan now id)
    unfolding place_habit
    place_habit-Neat now id = bind-Keeps Neat _ _ (read-Neat out _) λ h.
        if-Keeps Neat _ _ _ (λ w p. p)
          (bind-Keeps Neat _ _ (get_calendar-Neat out _) λ cal. place_habit_on-Neat now h cal)

    place_each_habit-Neat :
        (now : ℕ → ℕ) (hs : List Habit) → Keeps Neat (place_each_habit out go zones scan now hs)
    unfolding place_each_habit
    place_each_habit-Neat now [] = λ w p. p
    place_each_habit-Neat now (h ∷ hs) = λ w p.
        then-Keeps Neat _ _ (ignore-Keeps Neat _ (place_habit-Neat _ _))
          (place_each_habit-Neat now hs) w p

    pub place_all_habits-Neat : (now : ℕ → ℕ) → Keeps Neat (place_all_habits out go zones scan now)
    unfolding place_all_habits
    place_all_habits-Neat now =
        bind-Keeps Neat _ _ (read-Neat out _) λ hs. place_each_habit-Neat now hs
