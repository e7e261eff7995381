-- ===== src/Sync/Scheduler/Closed.antt =====
-- The busy time is complete, and a placement fails closed where it is not.
use mathlib.Core.Path.{subst}
use skulid.Base.{
  ℕ, ◌≡◌, refl, sym, ap, ◌∙◌, Bool, true, false, ◌||◌, List, [], ◌∷◌, ◌++◌, Option, none, some,
  if◌then◌else◌, is_nil, Text, All, arith, inl, inr, Bool-cases,
}
use skulid.Hours.Window.{Window, covers}
use skulid.Hours.Merge.{merge}
use skulid.Hours.Merge.Coverage.{covers-merge}
use skulid.Hours.Subtract.Coverage.{covers-append}
use skulid.Sync.Outside.{
  Error, google_failed, query_failed, no_row, Result, ok, err, M, pure, FreeBusy, Outside,
}
use skulid.Sync.Outside.Rules.{bind_ok, then_ok, or_fail_ok}
use skulid.Sync.Event.{Calendar}
use skulid.Sync.Filter.{Runtime}
use skulid.Sync.Conflicts.{
  enabled_calendars, group_by_account, periods_to_windows, subtract_managed,
}
use skulid.Sync.Conflicts.Laws.{covers-subtract_managed}
use skulid.Sync.SmartBlocks.{all_windows}
use skulid.Sync.Desk.{Desk, ask, read, client_for, free_busy, effective_buffers}
use skulid.Sync.Desk.Rows.{managed_in_range}
use skulid.Sync.Scheduler.{
  google_ids, by_google_id, apply_buffer_padding, pad_known, collect, gather, busy_everywhere,
}
use skulid.Sync.Scheduler.Busy.{IsQuiet, covers-padded, gather-IsQuiet, read-IsQuiet}

ok_inj : {A : Type 0} (x y : A) → Result.ok x ≡ ok y → x ≡ y
ok_inj x y h = cc

some_inj : {A : Type 0} (x y : A) → Option.some x ≡ some y → x ≡ y
some_inj x y h = cc

abbrev Covered : ℕ → List Window → Type 0
Covered t ws = covers t ws ≡ true

ok-Covered : (t : ℕ) (ws got : List Window) → Result.ok ws ≡ ok got → Covered t ws → Covered t got
ok-Covered t ws got h c = subst (Covered t) (ok_inj ws got h) c

if-Covered :
    (t : ℕ) (b : Bool) (ws got : List Window) (m : M Desk (List Window)) (w : Desk)
    → ((m w).0 ≡ ok got → Covered t got)
    → ((if b then pure ws else m) w).0 ≡ ok got
    → Covered t ws
    → Covered t got
if-Covered t true ws got m w f h c = ok-Covered t ws got h c
if-Covered t false ws got m w f h c = f h

either-Covered :
    (t : ℕ) (xs ys : List Window) → (covers t xs || covers t ys) ≡ true → Covered t (xs ++ ys)
either-Covered t xs ys c = covers-append t xs ys ∙ c

module _ (out : Outside) (go : Runtime) where
  pad_known-Covered :
      (t : ℕ) (cal : Option Calendar) (ws got : List Window) (w : Desk)
      → (pad_known out go cal ws w).0 ≡ ok got
      → Covered t ws
      → Covered t got
  unfolding pad_known apply_buffer_padding
  pad_known-Covered t none ws got w h c = ok-Covered t ws got h c
  pad_known-Covered t (some cal) ws got w h c =
      if-Covered t (is_nil ws) ws got _ w
        (λ e.
          let (bufs, read, end) = bind_ok (effective_buffers out cal) _ w got e in
          ok-Covered t _ got end (covers-padded t _ ws c))
        h c

  collect-Covered :
      (t : ℕ) (cals : List Calendar) (fb : FreeBusy) (got : List Window) (w : Desk)
      → (collect out go cals fb w).0 ≡ ok got
      → Covered t (all_windows go fb)
      → Covered t got
  unfolding collect all_windows
  collect-Covered t cals [] got w h c = absurd (ground arith)
  collect-Covered t cals ((id, periods) ∷ fb) got w h c =
      let (windows, e, h') = bind_ok (pad_known out go (by_google_id id cals) _) _ w got h in
      let (rest, e', h'') = bind_ok (collect out go cals fb) _ _ got h' in
      let first = periods_to_windows go periods in
      let either : (covers t first || covers t (all_windows go fb)) ≡ true =
        sym (covers-append t first (all_windows go fb)) ∙ c in
      ok-Covered t _ got h'' (
        either-Covered t windows rest (elim (Bool-cases (covers t first)) [
          | inl y ↦ rw (pad_known-Covered t _ first windows w e y) refl
          | inr n ↦ let c' = collect-Covered t cals fb rest _ e' (ground arith) in ground arith
        ]))

  -- Google answered for an account, and what it answered is covered.
  abbrev pub Answered : ℕ → ℕ → (ℕ → Type 0) → ℕ × List Calendar → Type 0
  Answered from to Busy group =
      (n : ℕ) × (fb : FreeBusy) × (out.busy n (google_ids group.1) from to ≡ some fb)
      × ((t : ℕ) → Covered t (all_windows go fb) → Busy t)

  weaken-Answered :
      (from to : ℕ) (P Q : ℕ → Type 0) (groups : List (ℕ × List Calendar))
      → ((t : ℕ) → P t → Q t)
      → All (Answered from to P) groups
      → All (Answered from to Q) groups
  weaken-Answered from to P Q [] f h = tt
  weaken-Answered from to P Q (g ∷ groups) f ((n, fb, e, c), h) =
      ((n, fb, e, λ t y. f t (c t y)), weaken-Answered from to P Q groups f h)

  free_busy_ok :
      (ids : List Text) (from to : ℕ) (fb : FreeBusy) (w : Desk)
      → (free_busy out ids from to w).0 ≡ ok fb
      → out.busy w.tick ids from to ≡ some fb
  unfolding free_busy
  free_busy_ok ids from to fb w h = or_fail_ok google_failed (out.busy w.tick ids from to) _ fb h

  gather-Answered :
      (from to : ℕ) (groups : List (ℕ × List Calendar)) (got : List Window) (w : Desk)
      → (gather out go from to groups w).0 ≡ ok got
      → All (Answered from to (λ t. Covered t got)) groups
  unfolding gather
  gather-Answered from to [] got w h = tt
  gather-Answered from to ((id, cals) ∷ groups) got w h =
      let (e0, h0) = then_ok (client_for out) _ w got h in
      let (fb, e1, h1) = bind_ok (free_busy out (google_ids cals) from to) _ _ got h0 in
      let (windows, e2, h2) = bind_ok (collect out go cals fb) _ _ got h1 in
      let (rest, e3, h3) = bind_ok (gather out go from to groups) _ _ got h2 in
      (
        (
          _,
          fb,
          free_busy_ok _ from to fb _ e1,
          λ t c.
              ok-Covered t _ got h3 (
                either-Covered t windows rest (rw (collect-Covered t cals fb windows _ e2 c) refl)),
        ),
        weaken-Answered from to _ _ groups
            (λ t c. ok-Covered t _ got h3 (either-Covered t windows rest (ground arith)))
            (gather-Answered from to groups rest _ e3),
      )

  answer_ok :
      {A : Type 0} (b : Bool) (m : Result A × Desk) (x : Error) (w : Desk) (a : A)
      → (if b then m else (err x, w)).0 ≡ ok a
      → m.0 ≡ ok a
  answer_ok true m x w a h = h
  answer_ok false m x w a h = cc

  read_ok :
      {A : Type 0} (run : Desk → Option A) (w : Desk) (x : A)
      → (read out run w).0 ≡ ok x
      → run w ≡ some x
  unfolding read ask
  read_ok run w x h =
      or_fail_ok no_row (run w) _ x (answer_ok (out.query_ok w.tick) _ query_failed _ x h)

  managed_in_range-quiet :
      (from to : ℕ) (w w' : Desk)
      → IsQuiet w w'
      → managed_in_range from to w' ≡ managed_in_range from to w
  unfolding managed_in_range
  managed_in_range-quiet from to w w' q = ap (managed_in_range from to) q

  covers-left :
      (t : ℕ) (gathered managed range busy : List Window)
      → subtract_managed (merge gathered) managed ≡ busy
      → managed ≡ range
      → Covered t gathered
      → covers t range ≡ false
      → Covered t busy
  covers-left t gathered managed range busy e m c f =
      let same = covers-subtract_managed t (merge gathered) managed in
      let merged = covers-merge t gathered in subst (Covered t) e (same ∙ rw (merged, c, m, f) refl)

  -- Where the read of the busy time succeeds, Google answered for every account that has an enabled
  -- calendar, on all of them, and each instant of a period it gave is busy unless a window that
  -- skulid wrote covers it.
  pub busy_everywhere_complete :
      (from to : ℕ) (busy : List Window) (w : Desk)
      → (busy_everywhere out go from to w).0 ≡ ok busy
      → All
          (Answered from to
            (λ t. covers t (managed_in_range from to w) ≡ false → covers t busy ≡ true))
          (group_by_account (enabled_calendars w.calendars))
  unfolding busy_everywhere
  busy_everywhere_complete from to busy w h =
      let (all, e, h1) = bind_ok (read out (λ v. some v.calendars)) _ w busy h in
      let w1 = (read out (λ v. some v.calendars) w).1 in
      let groups = group_by_account (enabled_calendars all) in
      let (gathered, e1, h2) = bind_ok (gather out go from to groups) _ w1 busy h1 in
      let w2 = (gather out go from to groups w1).1 in
      let (managed, e2, h3) =
        bind_ok (read out (λ v. some (managed_in_range from to v))) _ w2 busy h2 in
      let quiet : IsQuiet w w2 =
        gather-IsQuiet out go w from to groups w1
          (read-IsQuiet out go w (λ v. some v.calendars) w refl) in
      let range : managed ≡ managed_in_range from to w =
        sym (some_inj _ _ (read_ok (λ v. some (managed_in_range from to v)) w2 managed e2))
        ∙ managed_in_range-quiet from to w w2 quiet in
      subst
        (λ cs.
          All
            (Answered from to
              (λ t. covers t (managed_in_range from to w) ≡ false → covers t busy ≡ true))
            (group_by_account (enabled_calendars cs)))
        (sym (some_inj _ _ (read_ok (λ v. some v.calendars) w all e)))
        (weaken-Answered from to _ _ groups
          (λ t c f. covers-left t gathered managed _ busy (ok_inj _ busy h3) range c f)
          (gather-Answered from to groups gathered w1 e1))
