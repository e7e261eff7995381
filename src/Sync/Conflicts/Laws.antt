-- ===== src/Sync/Conflicts/Laws.antt =====
-- The groups of calendars, and what is busy without the program's own blocks.
use mathlib.Core.List.{append_assoc, append-nil}
use skulid.Base.{
  Bool-cases, inl, inr, ℕ, ◌≡◌, refl, not, ◌&&◌, List, [], ◌∷◌, ◌++◌, ◌==◌, if◌then◌else◌, arith,
  sym,
}
use skulid.Hours.Window.{Window, covers}
use skulid.Hours.Subtract.Coverage.{covers-subtract_busy}
use skulid.Sync.Event.{Calendar}
use skulid.Sync.Conflicts.{append_to, group_on, group_by_account, subtract_managed}

-- A read of the map; a missing account has no calendars.
abbrev pub group_of : ℕ → List (ℕ × List Calendar) → List Calendar
group_of id [] = []
group_of id ((account_id, cs) ∷ groups) = if account_id == id then cs else group_of id groups

abbrev pub of_account : ℕ → List Calendar → List Calendar
of_account id [] = []
of_account id (c ∷ cs) = if c.account_id == id then c ∷ of_account id cs else of_account id cs

group_of-append_to :
    (id : ℕ) (c : Calendar) (groups : List (ℕ × List Calendar))
    → group_of id (append_to c groups)
      ≡ (if c.account_id == id then group_of id groups ++ c ∷ [] else group_of id groups)
unfolding append_to
group_of-append_to id c [] = ground arith
group_of-append_to id c ((account_id, cs) ∷ groups) = ground (arith, group_of-append_to id c groups)

group_of-group_on :
    (id : ℕ) (groups : List (ℕ × List Calendar)) (cs : List Calendar)
    → group_of id (group_on groups cs) ≡ group_of id groups ++ of_account id cs
unfolding group_on
group_of-group_on id groups [] = sym (append-nil _)
group_of-group_on id groups (c ∷ cs) = elim (Bool-cases (c.account_id == id)) [
  | inl t ↦
      rw (group_of-group_on id (append_to c groups) cs, group_of-append_to id c groups, t)
        (append_assoc (group_of id groups) (c ∷ []) (of_account id cs))
  | inr t ↦
      rw (group_of-group_on id (append_to c groups) cs, group_of-append_to id c groups, t) refl
]

-- The group of an account is its calendars, in their order.
pub group_of-group_by_account :
    (id : ℕ) (cs : List Calendar) → group_of id (group_by_account cs) ≡ of_account id cs
unfolding group_by_account
group_of-group_by_account id cs = group_of-group_on id [] cs

-- What is busy besides the program's own blocks: the busy instants that no managed window covers.
pub covers-subtract_managed :
    (t : ℕ) (busy managed : List Window)
    → covers t (subtract_managed busy managed) ≡ (covers t busy && not (covers t managed))
unfolding subtract_managed
covers-subtract_managed t busy [] = ground arith
covers-subtract_managed t busy (m ∷ managed) = covers-subtract_busy t busy (m ∷ managed)
