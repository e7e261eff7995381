-- ===== src/Sync/SmartBlocks/Refine.antt =====
-- The blocks of a smart block become the windows that it should stand at.
use mathlib.Core.Path.{subst}
use skulid.Base.{
  Bool, not, true, false, ℕ, suc, ◌+◌, ◌≡◌, refl, sym, ◌&&◌, List, ◌∷◌, Option, none, some, ◌==◌,
  Text, All, arith, inl, inr, Bool-cases, Option-cases,
}
use skulid.Hours.Window.{Window}
use skulid.Sync.Outside.{ok, ◌>>=◌, ◌>>◌, or_fail, ignore, Outside}
use skulid.Sync.Event.{Calendar}
use skulid.Sync.Filter.{Runtime}
use skulid.Sync.Engine.Outcome.{Answers}
use skulid.Sync.Desk.{SmartBlock, ManagedBlock, Desk, Zones, ask, write, call_google, write_audit}
use skulid.Sync.Desk.Rows.{move_managed}
use skulid.Sync.Desk.Rows.Keys.{
  has_managed, AreNumbered, cons-AreNumbered, move_managed-AreNumbered,
}
use skulid.Sync.SmartBlocks.{
  has_event, window_of, take_match, managed_at, insert_managed, update_managed, place_window,
}
use skulid.Sync.SmartBlocks.Bags.{
  same, one, rows_at, rows_at-move_managed, IsIn, AreApart, IsIn-move_managed, IsIn-cons,
}
use skulid.Sync.SmartBlocks.Match.{
  found_at, rows_at-take_match, take_match-AreApart, take_match-All, take_match_found,
}

-- The rows of a smart block in a table, of which `left` are yet to be matched.
pub record Left (id : ℕ) (left : List ManagedBlock) (w : Desk) : Type 0 where
  pub numbered : AreNumbered w.next_row w.managed
  pub members : All (IsIn id w.managed) left
  pub apart : AreApart left

negated : (b : Bool) → not b ≡ true → b ≡ false
negated true h = cc
negated false h = refl

pub found_at_own :
    (id : ℕ) (x : Window) (m : ManagedBlock)
    → m.smart_block_id ≡ id
    → found_at id x (some m) ≡ one (same x (window_of m))
found_at_own id x m e = ground arith

same_at :
    (x d : Window) (m : ManagedBlock)
    → (m.starts_at == d.start && m.ends_at == d.end) ≡ true
    → one (same x (window_of m)) ≡ one (same x d)
same_at x d m t = ground arith

module _ (out : Outside) (a : Answers out) (go : Runtime) (zones : Zones) where
  module _ (b : SmartBlock) (cal : Calendar) (zone : Text) where
    abbrev new_row : Window → Desk → ManagedBlock
    new_row d w = record (managed_at out go zones b cal (a.saves w.tick).id d) { id = w.next_row }

    place_window-none :
        (d : Window) (w : Desk)
        → has_event b.id (a.saves w.tick).id w.managed ≡ false
        → let after = place_window out go zones b cal zone d none w in
          (after.0 ≡ ok tt)
          × (after.1.managed ≡ new_row d w ∷ w.managed)
          × (after.1.next_row ≡ suc w.next_row)
    unfolding place_window call_google insert_managed write_audit write ask ◌>>=◌ ◌>>◌ or_fail
        ignore
    place_window-none d w new =
        ground (arith, new, a.saved_is w.tick, a.queries (suc w.tick), a.queries (suc (suc w.tick)))

    place_window-same :
        (d : Window) (m : ManagedBlock) (w : Desk)
        → (m.starts_at == d.start && m.ends_at == d.end) ≡ true
        → place_window out go zones b cal zone d (some m) w ≡ (ok tt, w)
    unfolding place_window
    place_window-same d m w t = rw t refl

    place_window-moved :
        (d : Window) (m : ManagedBlock) (w : Desk)
        → (m.starts_at == d.start && m.ends_at == d.end) ≡ false
        → let after = place_window out go zones b cal zone d (some m) w in
          (after.0 ≡ ok tt)
          × (after.1.managed ≡ move_managed m.id d.start d.end w.managed)
          × (after.1.next_row ≡ w.next_row)
    unfolding place_window call_google update_managed write_audit write ask ◌>>=◌ ◌>>◌ or_fail
        ignore
    place_window-moved d m w n =
        ground (arith, a.saved_is w.tick, a.queries (suc w.tick), a.queries (suc (suc w.tick)))

    -- A round: the window is placed with what it matched, and `rest` is left.
    pub record Round (d : Window) (left rest : List ManagedBlock) (o : Option ManagedBlock)
        (w : Desk) : Type 0 where
      pub succeeds : (place_window out go zones b cal zone d o w).0 ≡ ok tt
      pub stands : Left b.id rest (place_window out go zones b cal zone d o w).1
      pub bag :
          (x : Window)
          → rows_at b.id x (place_window out go zones b cal zone d o w).1.managed
              + rows_at b.id x left
            ≡ rows_at b.id x w.managed + (one (same x d) + rows_at b.id x rest)

    abbrev Splits : List ManagedBlock → List ManagedBlock → Option ManagedBlock → Type 0
    Splits left rest o =
        (x : Window) → rows_at b.id x left ≡ found_at b.id x o + rows_at b.id x rest

    new_row-Round :
        (d : Window) (left rest : List ManagedBlock) (w : Desk)
        → has_event b.id (a.saves w.tick).id w.managed ≡ false
        → Left b.id rest w
        → Splits left rest none
        → Round d left rest none w
    new_row-Round d left rest w new p splits =
        let step = place_window-none d w new in
        let row = new_row d w in
        let numbered : AreNumbered (suc w.next_row) (row ∷ w.managed) =
          cons-AreNumbered row w.next_row w.managed p.numbered in
        let members = IsIn-cons b.id w.next_row row w.managed rest refl p.numbered p.members in
        record {
          succeeds = step.0;
          stands = record {
            numbered = rw (step.2, step.1) numbered;
            members = rw (step.1) members;
            apart = p.apart;
          };
          bag = λ x. rw (step.1) (ground (arith, splits x));
        }

    move_managed-Round :
        (d : Window) (left rest : List ManagedBlock) (m : ManagedBlock) (w : Desk)
        → Left b.id rest w
        → IsIn b.id w.managed m
        → has_managed m.id rest ≡ false
        → Splits left rest (some m)
        → Round d left rest (some m) w
    move_managed-Round d left rest m w p i gone splits =
        elim (Bool-cases (m.starts_at == d.start && m.ends_at == d.end)) [
          | inl t ↦
              let step = place_window-same d m w t in
              record {
                succeeds = rw step refl;
                stands = rw step p;
                bag = λ x.
                    rw step (omega (arith, splits x, found_at_own b.id x m i.0, same_at x d m t));
              }
          | inr n ↦
              let step = place_window-moved d m w n in
              let members =
                IsIn-move_managed b.id m.id d.start d.end w.managed rest gone p.members in
              let numbered =
                move_managed-AreNumbered w.next_row m.id d.start d.end w.managed p.numbered in
              record {
                succeeds = step.0;
                stands = record {
                  numbered = rw (step.1, step.2) numbered;
                  members = rw (step.1) members;
                  apart = p.apart;
                };
                bag = λ x.
                    let moves =
                      rows_at-move_managed b.id x d w.next_row m w.managed p.numbered i.1 i.0 in
                    rw (step.1) (omega (arith, moves, splits x, found_at_own b.id x m i.0));
              }
        ]

    -- An event that is to be inserted gets an id that no row of the block has.
    abbrev pub is_new : Option ManagedBlock → Desk → Bool
    is_new none w = not (has_event b.id (a.saves w.tick).id w.managed)
    is_new (some m) w = true

    pub round :
        (d : Window) (left : List ManagedBlock) (w : Desk)
        → is_new (take_match d left).0 w ≡ true
        → Left b.id left w
        → Round d left (take_match d left).1 (take_match d left).0 w
    round d left w new p =
        let rest = (take_match d left).1 in
        let splits : Splits left rest (take_match d left).0 =
          λ x. rows_at-take_match b.id x d left in
        let p' : Left b.id rest w = record {
          numbered = p.numbered;
          members = take_match-All (IsIn b.id w.managed) d left p.members;
          apart = take_match-AreApart d left p.apart;
        } in
        elim (Option-cases (take_match d left).0) [
          | inl e ↦
              subst (λ o. Round d left rest o w) (sym e)
                (new_row-Round d left rest w (negated _ (rw e at new)) p'
                  (subst (Splits left rest) e splits))
          | inr (m, e) ↦
              let found = take_match_found (IsIn b.id w.managed) d left m p.members p.apart e in
              subst (λ o. Round d left rest o w) (sym e)
                (move_managed-Round d left rest m w p' found.0 found.1
                  (subst (Splits left rest) e splits))
        ]
