-- ===== src/Sync/Desk/Neat.antt =====
-- The state of the planning engines that is well formed, and the steps that keep it so.
use skulid.Base.{ℕ, ◌≡◌, Bool, true, false, List, ◌∷◌, Option, if◌then◌else◌, Text, All}
use skulid.Sync.Outside.{Result, Outside}
use skulid.Sync.Outside.Rules.{Keeps, or_fail-Keeps, if-Keeps}
use skulid.Sync.Event.{Calendar, is_managed}
use skulid.Sync.Engine.Store.{Call, insert, update, delete}
use skulid.Sync.Desk.{
  Desk, tick, ask, read, write, call_google, delete_google, client_for, free_busy, load_buffers,
  effective_buffers, get_calendar, get_account, write_audit,
}
use skulid.Sync.Desk.Rows.Keys.{AreKeyed, AreNumbered, AreDaily}

-- What is written to a calendar carries the mark of a managed event.
abbrev pub IsMarked : Call → Type 0
IsMarked (insert cal ev) = is_managed ev ≡ true
IsMarked (update cal id ev) = is_managed ev ≡ true
IsMarked (delete cal id) = Unit {0}

pub record Neat (w : Desk) : Type 0 where
  pub marked : All IsMarked w.calls
  pub keyed : AreKeyed w.next_row w.chunks
  pub numbered : AreNumbered w.next_row w.managed
  pub daily : AreDaily w.occurrences

if-answer :
    {A : Type 0} (b : Bool) (m n : Result A × Desk)
    → Neat m.1
    → Neat n.1
    → Neat (if b then m else n).1
if-answer true m n h k = h
if-answer false m n h k = k

pub tick-Neat : (w : Desk) → Neat w → Neat (tick w)
tick-Neat w p = record {
  marked = p.marked;
  keyed = p.keyed;
  numbered = p.numbered;
  daily = p.daily;
}

module _ (out : Outside) where
  pub ask-Neat :
      {A : Type 0} (run : Desk → Option A × Desk)
      → ((w : Desk) → Neat w → Neat (run w).1)
      → Keeps Neat (ask out run)
  unfolding ask
  ask-Neat run h w p =
      if-answer (out.query_ok w.tick) _ _ (or_fail-Keeps Neat _ (run w).0 _ (tick-Neat _ (h w p)))
        (tick-Neat w p)

  pub read-Neat : {A : Type 0} (run : Desk → Option A) → Keeps Neat (read out run)
  unfolding read
  read-Neat run = ask-Neat _ λ w p. p

  pub write-Neat :
      (run : Desk → Desk) → ((w : Desk) → Neat w → Neat (run w)) → Keeps Neat (write out run)
  unfolding write
  write-Neat run h = ask-Neat _ h

  pub call_google-Neat : (call : Call) → IsMarked call → Keeps Neat (call_google out call)
  unfolding call_google
  call_google-Neat call m w p =
      or_fail-Keeps Neat _ (out.saved w.tick) _
        (record { marked = (m, p.marked); keyed = p.keyed; numbered = p.numbered; daily = p.daily })

  pub delete_google-Neat : (cal id : Text) → Keeps Neat (delete_google out cal id)
  unfolding delete_google
  delete_google-Neat cal id w p =
      let kept : Neat (tick (record w { calls = delete cal id ∷ w.calls })) = record {
        marked = (tt, p.marked);
        keyed = p.keyed;
        numbered = p.numbered;
        daily = p.daily;
      } in
      if-answer (out.deleted w.tick) _ _ kept kept

  pub client_for-Neat : Keeps Neat (client_for out)
  unfolding client_for
  client_for-Neat w p = if-answer (out.client_ok w.tick) _ _ (tick-Neat w p) (tick-Neat w p)

  pub free_busy-Neat : (ids : List Text) (from to : ℕ) → Keeps Neat (free_busy out ids from to)
  unfolding free_busy
  free_busy-Neat ids from to w p =
      or_fail-Keeps Neat _ (out.busy w.tick ids from to) _ (tick-Neat w p)

  pub effective_buffers-Neat : (cal : Calendar) → Keeps Neat (effective_buffers out cal)
  unfolding effective_buffers load_buffers
  effective_buffers-Neat cal = if-Keeps Neat _ _ _ (λ w p. p) (λ w p. tick-Neat w p)

  pub get_calendar-Neat : (id : ℕ) → Keeps Neat (get_calendar out id)
  unfolding get_calendar
  get_calendar-Neat id = read-Neat _

  pub get_account-Neat : (id : ℕ) → Keeps Neat (get_account out id)
  unfolding get_account
  get_account-Neat id = read-Neat _

  pub write_audit-Neat : (k t a m : Text) → Keeps Neat (write_audit out k t a m)
  unfolding write_audit
  write_audit-Neat k t a m =
      write-Neat _
        λ w p. record { marked = p.marked; keyed = p.keyed; numbered = p.numbered; daily = p.daily }
