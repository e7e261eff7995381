-- ===== src/Sync/SmartBlocks/Settle.antt =====
-- The loops of `Recompute` over the windows and over the blocks left.
use skulid.Base.{suc, ◌+◌, ◌≡◌, refl, List, [], ◌∷◌, Text, codes, arith, Bool, true, ◌&&◌}
use skulid.Hours.Window.{Window}
use skulid.Sync.Outside.{ok, ◌>>=◌, ◌>>◌, or_fail, ignore, Outside}
use skulid.Sync.Event.{Calendar}
use skulid.Sync.Filter.{Runtime}
use skulid.Sync.Engine.Outcome.{Answers}
use skulid.Sync.Desk.{SmartBlock, ManagedBlock, Desk, Zones, ask, write, delete_google, write_audit}
use skulid.Sync.Desk.Rows.{drop_managed}
use skulid.Sync.Desk.Rows.Keys.{drop_managed-AreNumbered}
use skulid.Sync.SmartBlocks.{
  take_match, delete_managed, place_window, place_windows, drop_left, settle_block,
}
use skulid.Sync.SmartBlocks.Bags.{times, rows_at, rows_at-drop_managed, IsIn-drop_managed}
use skulid.Sync.SmartBlocks.Refine.{Left, round, found_at_own, is_new}

and_true : (b c : Bool) → (b && c) ≡ true → (b ≡ true) × (c ≡ true)
and_true b c h = (ground arith, ground arith)

module _ (out : Outside) (a : Answers out) (go : Runtime) (zones : Zones) where
  module _ (b : SmartBlock) (cal : Calendar) (zone : Text) where
    -- Whether each event that the loop inserts gets an id that no row of the block has by then.
    abbrev pub are_new : List ManagedBlock → List Window → Desk → Bool
    are_new left [] w = true
    are_new left (d ∷ ds) w =
        is_new out a go zones b cal zone (take_match d left).0 w
        && are_new (take_match d left).1 ds
            (place_window out go zones b cal zone d (take_match d left).0 w).1

    -- The loop over the windows ends with `rest` left.
    record Placed (ds : List Window) (left : List ManagedBlock) (w : Desk) : Type 0 where
      rest : List ManagedBlock
      succeeds : (place_windows out go zones b cal zone left ds w).0 ≡ ok rest
      stands : Left b.id rest (place_windows out go zones b cal zone left ds w).1
      bag :
          (x : Window)
          → rows_at b.id x (place_windows out go zones b cal zone left ds w).1.managed
              + rows_at b.id x left
            ≡ rows_at b.id x w.managed + (times x ds + rows_at b.id x rest)

    placed :
        (ds : List Window) (left : List ManagedBlock) (w : Desk)
        → are_new left ds w ≡ true
        → Left b.id left w
        → Placed ds left w
    unfolding place_windows ◌>>=◌ ◌>>◌
    placed [] left w new p = record {
      rest = left;
      succeeds = refl;
      stands = p;
      bag = λ x. omega arith;
    }
    placed (d ∷ ds) left w new p =
        let both = and_true _ _ new in
        let step = round out a go zones b cal zone d left w both.0 p in
        let after = (place_window out go zones b cal zone d (take_match d left).0 w).1 in
        let further = placed ds (take_match d left).1 after both.1 step.stands in
        record {
          rest = further.rest;
          succeeds = rw (step.succeeds) further.succeeds;
          stands = rw (step.succeeds) further.stands;
          bag = λ x. rw (step.succeeds) (omega (arith, step.bag x, further.bag x));
        }

    abbrev without : ManagedBlock → Desk → Desk
    without m w =
        (write_audit out (codes "smart_block") m.target_event_id (codes "delete") []
          (delete_managed out go zones m.id
            (delete_google out cal.google_calendar_id m.target_event_id w).1).1).1

    dropped_row :
        (m : ManagedBlock) (left : List ManagedBlock) (w : Desk)
        → (drop_left out go zones cal (m ∷ left) w ≡ drop_left out go zones cal left (without m w))
          × ((without m w).managed ≡ drop_managed m.id w.managed)
          × ((without m w).next_row ≡ w.next_row)
    unfolding drop_left delete_google delete_managed write_audit write ask ◌>>=◌ ◌>>◌ or_fail ignore
    dropped_row m left w =
        ground (arith, a.deletes w.tick, a.queries (suc w.tick), a.queries (suc (suc w.tick)))

    dropped_at :
        (x : Window) (m : ManagedBlock) (left : List ManagedBlock) (w : Desk)
        → Left b.id (m ∷ left) w
        → rows_at b.id x (drop_left out go zones cal left (without m w)).1.managed
            + rows_at b.id x left
          ≡ rows_at b.id x (without m w).managed
        → rows_at b.id x (drop_left out go zones cal (m ∷ left) w).1.managed
            + rows_at b.id x (m ∷ left)
          ≡ rows_at b.id x w.managed
    dropped_at x m left w p h =
        let step = dropped_row m left w in
        let i = p.members.0 in
        let drops = rows_at-drop_managed b.id x w.next_row m w.managed p.numbered i.1 i.0 in
        let h' = rw (step.1) at h in
        rw (step.0) (omega (arith, h', drops, found_at_own b.id x m i.0))

    record Dropped (left : List ManagedBlock) (w : Desk) : Type 0 where
      succeeds : (drop_left out go zones cal left w).0 ≡ ok tt
      bag :
          (x : Window)
          → rows_at b.id x (drop_left out go zones cal left w).1.managed + rows_at b.id x left
            ≡ rows_at b.id x w.managed

    dropped : (left : List ManagedBlock) (w : Desk) → Left b.id left w → Dropped left w
    unfolding drop_left
    dropped [] left p = record { succeeds = refl; bag = λ x. omega arith }
    dropped (m ∷ left) w p =
        let step = dropped_row m left w in
        let members = IsIn-drop_managed b.id m.id w.managed left p.apart.0 p.members.1 in
        let numbered = drop_managed-AreNumbered w.next_row m.id w.managed p.numbered in
        let further = dropped left (without m w) (record {
          numbered = rw (step.1, step.2) numbered;
          members = rw (step.1) members;
          apart = p.apart.1;
        }) in
        record {
          succeeds = rw (step.0) further.succeeds;
          bag = λ x. dropped_at x m left w p (further.bag x);
        }

    pub record Settled (ds : List Window) (existing : List ManagedBlock) (w : Desk) : Type 0 where
      pub succeeds : (settle_block out go zones b cal zone existing ds w).0 ≡ ok tt
      pub bag :
          (x : Window)
          → rows_at b.id x (settle_block out go zones b cal zone existing ds w).1.managed
              + rows_at b.id x existing
            ≡ rows_at b.id x w.managed + times x ds

    pub settled :
        (ds : List Window) (existing : List ManagedBlock) (w : Desk)
        → are_new existing ds w ≡ true
        → Left b.id existing w
        → Settled ds existing w
    unfolding settle_block ◌>>=◌
    settled ds existing w new p =
        let first = placed ds existing w new p in
        let after = (place_windows out go zones b cal zone existing ds w).1 in
        let second = dropped first.rest after first.stands in
        record {
          succeeds = rw (first.succeeds) second.succeeds;
          bag = λ x. rw (first.succeeds) (omega (arith, first.bag x, second.bag x));
        }
