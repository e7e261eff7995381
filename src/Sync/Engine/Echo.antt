-- ===== src/Sync/Engine/Echo.antt =====
-- The loop guard: what the engine writes does not come back as a change of its own.
use mathlib.Core.Path.{subst, sym}
use skulid.Base.{◌≡◌, Bool, true, ℕ, [], All, List, ◌∷◌, arith}
use skulid.Sync.Outside.{ok, Outside}
use skulid.Sync.Event.{Event, is_managed}
use skulid.Sync.Filter.{Runtime}
use skulid.Sync.Engine.Store.{World, SyncRule, Call, insert, update, delete}
use skulid.Sync.Engine.{HoursOf, apply_rule, process_change}
use skulid.Sync.Engine.Steps.{IsMarked, Stable, process_change-Keeps}

module _ (out : Outside) (go : Runtime) (hours_of : HoursOf) where
  -- No rule does anything with an event that has the private properties of this one.
  abbrev pub IsIgnored : Event → Type 0
  IsIgnored written =
      (ev : Event) (rule : SyncRule) (reverse : Bool) (w : World)
      → ev.props ≡ written.props
      → apply_rule out go hours_of rule ev reverse w ≡ (ok tt, w)

  abbrev pub IsQuiet : Call → Type 0
  IsQuiet (insert cal ev) = IsIgnored ev
  IsQuiet (update cal id ev) = IsIgnored ev
  IsQuiet (delete cal id) = Unit {0}

  managed-IsIgnored : (written : Event) → is_managed written ≡ true → IsIgnored written
  unfolding apply_rule is_managed
  managed-IsIgnored written m ev rule reverse w e = ground arith

  marked-IsQuiet : (call : Call) → IsMarked call → IsQuiet call
  marked-IsQuiet (insert cal ev) m = managed-IsIgnored ev m
  marked-IsQuiet (update cal id ev) m = managed-IsIgnored ev m
  marked-IsQuiet (delete cal id) m = tt

  All-IsQuiet : (calls : List Call) → All IsMarked calls → All IsQuiet calls
  All-IsQuiet [] ms = tt
  All-IsQuiet (call ∷ calls) ms = (marked-IsQuiet call ms.0, All-IsQuiet calls ms.1)

  marks-Stable : Stable (λ w. All IsMarked w.calls)
  marks-Stable = record {
    ticks = λ w m. m;
    audits = λ a w m. m;
    drops = λ id w m. m;
    puts = λ l w m. m;
    rewrites = λ rs w h. h;
    makes = λ call w h m. (h, m);
  }

  -- Every event that a change makes the engine insert or update is ignored by every rule, in
  -- either direction and in any state, when it comes back from Google with the private properties
  -- that were written.
  pub process_change-IsQuiet :
      (calendar_id : ℕ) (ev : Event) (w : World)
      → w.calls ≡ []
      → All IsQuiet (process_change out go hours_of calendar_id ev w).1.calls
  process_change-IsQuiet calendar_id ev w h = All-IsQuiet _ (
      process_change-Keeps (λ w'. All IsMarked w'.calls) marks-Stable out go hours_of calendar_id ev
        w (subst (All IsMarked) (sym h) tt))
