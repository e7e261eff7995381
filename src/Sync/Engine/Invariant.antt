-- ===== src/Sync/Engine/Invariant.antt =====
-- What holds of the tables and of the calls to Google whatever the database and Google answer.
use skulid.Base.{ℕ, All}
use skulid.Sync.Outside.{Outside}
use skulid.Sync.Event.{Event}
use skulid.Sync.Filter.{Runtime}
use skulid.Sync.Engine.Store.{World}
use skulid.Sync.Engine.Store.Links.{IsKeyed, remove_link-IsKeyed, put_link-IsKeyed}
use skulid.Sync.Engine.{HoursOf, process_change, backfill}
use skulid.Sync.Engine.Steps.{IsMarked, Stable, process_change-Keeps, backfill-Keeps}

-- Every rule has one mirror at most for a source event, and every event written is marked.
pub record Inv (w : World) : Type 0 where
  pub keyed : IsKeyed w.links
  pub marks : All IsMarked w.calls

Inv-Stable : Stable Inv
Inv-Stable = record {
  ticks = λ w i. record { keyed = i.keyed; marks = i.marks };
  audits = λ a w i. record { keyed = i.keyed; marks = i.marks };
  drops = λ id w i. record { keyed = remove_link-IsKeyed id w.links i.keyed; marks = i.marks };
  puts = λ l w i. record {
    keyed = put_link-IsKeyed (record l { id = w.next_link }) w.links i.keyed;
    marks = i.marks;
  };
  rewrites = λ rs w i. record { keyed = i.keyed; marks = i.marks };
  makes = λ call w m i. record { keyed = i.keyed; marks = (m, i.marks) };
}

module _ (out : Outside) (go : Runtime) (hours_of : HoursOf) where
  -- Whatever the database and Google answer, a change that is processed keeps the invariant: every
  -- rule has at most one mirror for a source event, and every event that was inserted or updated
  -- on Google carries the mark that the loop guard looks for.
  pub process_change-Inv :
      (calendar_id : ℕ) (ev : Event) (w : World)
      → Inv w
      → Inv (process_change out go hours_of calendar_id ev w).1
  process_change-Inv = process_change-Keeps Inv Inv-Stable out go hours_of

  -- Whatever the database and Google answer, a backfill keeps the invariant.
  pub backfill-Inv : (rule_id : ℕ) (w : World) → Inv w → Inv (backfill out go hours_of rule_id w).1
  backfill-Inv = backfill-Keeps Inv Inv-Stable out go hours_of
