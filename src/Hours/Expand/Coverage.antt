-- ===== src/Hours/Expand/Coverage.antt =====
-- What `parse_range` and `expand` return.
use skulid.Base.{
  ℕ, zero, suc, ◌≡◌, ◌<◌, ◌≤◌, ◌+◌, ◌-◌, refl, ◌&&◌, List, [], ◌∷◌, ◌++◌, Option, none, some, inl,
  inr, Option-cases, Bool-cases, sym, ◌∙◌, Bool, true, false, ◌||◌, ◌↔◌, leb, ltb, arith, Text,
}
use skulid.Hours.Window.{Window, before, covers}
use skulid.Hours.Subtract.Coverage.{covers-append}
use skulid.Hours.Ranges.{Clock, read_range, normalize_range}
use skulid.Hours.Ranges.Canonical.{read_range_sound, cut_at-show_range, parse_hm-show_clock}
use skulid.Hours.Expand.{
  WorkingHours, Location, ranges_on, day_key, parse_range, clip, expand_ranges, expand_days, expand,
}

abbrev pub on_day : Location → ℕ → Option (Clock × Clock) → Option Window
on_day loc day none = none
on_day loc day (some (a, b)) = some (record { start = loc.date_at day a; end = loc.date_at day b })

-- `ParseRange` accepts exactly what `NormalizeRange` accepts, and gives the same two clock times,
-- placed on the day.
pub parse_range-read_range :
    (r : Text) (day : ℕ) (loc : Location) → parse_range r day loc ≡ on_day loc day (read_range r)
unfolding parse_range normalize_range
parse_range-read_range r day loc = elim (Option-cases (read_range r)) [
  | inl e ↦ ground arith
  | inr ((a, b), e) ↦
      let (ha, hb, lt) = read_range_sound r a b e in
      ground (arith, cut_at-show_range a b ha, parse_hm-show_clock a ha, parse_hm-show_clock b hb)
]

-- The next day begins later.
abbrev pub IsForward : Location → Type 0
IsForward loc = (day : ℕ) → day < loc.next_day day

expand_days_fuel :
    (f g : ℕ) (wh : WorkingHours) (loc : Location) (from to day : ℕ)
    → IsForward loc
    → to - day ≤ f
    → to - day ≤ g
    → expand_days f wh loc from to day ≡ expand_days g wh loc from to day
unfolding expand_days
expand_days_fuel zero zero wh loc from to day h p q = refl
expand_days_fuel zero (suc g) wh loc from to day h p q = ground arith
expand_days_fuel (suc f) zero wh loc from to day h p q = ground arith
expand_days_fuel (suc f) (suc g) wh loc from to day h p q =
    ground (arith, h day, expand_days_fuel f g wh loc from to (loc.next_day day) h)

-- Whether a clock range of a day is open at `t`, and whether one of a list of ranges is.
abbrev is_between : Location → ℕ → ℕ → Option (Clock × Clock) → Bool
is_between loc day t none = false
is_between loc day t (some (a, b)) = leb (loc.date_at day a) t && ltb t (loc.date_at day b)

abbrev is_open_on : Location → ℕ → ℕ → List Text → Bool
is_open_on loc day t [] = false
is_open_on loc day t (r ∷ rs) = is_between loc day t (read_range r) || is_open_on loc day t rs

-- Whether the ranges that the working hours list for an instant's weekday are open at `t`.
abbrev pub is_open : WorkingHours → Location → ℕ → ℕ → Bool
is_open wh loc t day = is_open_on loc day t (ranges_on (day_key (loc.weekday day)) wh.days)

-- The instant `n` days after another.
abbrev pub days_after : Location → ℕ → ℕ → ℕ
days_after loc zero day = day
days_after loc (suc n) day = days_after loc n (loc.next_day day)

-- `t` lies between `from` and `to`, and is open on a day that begins, at the clock time of `day`,
-- before `to`.
abbrev pub IsOpenFrom : WorkingHours → Location → ℕ → ℕ → ℕ → ℕ → Type 0
IsOpenFrom wh loc from to t day =
    (from ≤ t)
    × (t < to)
    × ((n : ℕ) × (days_after loc n day < to) × (is_open wh loc t (days_after loc n day) ≡ true))

covers-clip :
    (t from to day : ℕ) (loc : Location) (r : Text)
    → from < to
    → covers t (clip from to (parse_range r day loc))
      ≡ (is_between loc day t (read_range r) && (leb from t && ltb t to))
unfolding clip
covers-clip t from to day loc r h = elim (Option-cases (read_range r)) [
  | inl e ↦ ground (arith, parse_range-read_range r day loc)
  | inr (ab, e) ↦ ground (arith, parse_range-read_range r day loc)
]

covers-expand_ranges :
    (t from to day : ℕ) (loc : Location) (rs : List Text)
    → from < to
    → covers t (expand_ranges loc from to day rs)
      ≡ (is_open_on loc day t rs && (leb from t && ltb t to))
unfolding expand_ranges
covers-expand_ranges t from to day loc [] h = refl
covers-expand_ranges t from to day loc (r ∷ rs) h = ground (
  arith,
  covers-append t (clip from to (parse_range r day loc)) (expand_ranges loc from to day rs),
  covers-clip t from to day loc r h,
  covers-expand_ranges t from to day loc rs h,
)

bool_clash : false ≡ true → ⊥
bool_clash h = ground arith

covers-expand_days :
    (t fuel from to day : ℕ) (wh : WorkingHours) (loc : Location)
    → from < to
    → covers t (expand_days fuel wh loc from to day) ≡ true
    → IsOpenFrom wh loc from to t day
unfolding expand_days
covers-expand_days t zero from to day wh loc h c = absurd (ground arith)
covers-expand_days t (suc fuel) from to day wh loc h c =
    let rs = ranges_on (day_key (loc.weekday day)) wh.days in
    let here = expand_ranges loc from to day rs in
    let next = loc.next_day day in
    let rest = expand_days fuel wh loc from to next in
    elim (Bool-cases (before day to)) [
      | inr n ↦ absurd (bool_clash (rw n at c))
      | inl y ↦
          let both : covers t (here ++ rest) ≡ true = rw y at c in
          elim (Bool-cases (covers t here)) [
            | inl o ↦
                let open_here = sym (covers-expand_ranges t from to day loc rs h) ∙ o in
                (ground arith, ground arith, (0, ground arith, ground arith))
            | inr o ↦
                let later = sym (covers-append t here rest) ∙ both in
                let (lo, hi, (n, late, there)) =
                  covers-expand_days t fuel from to next wh loc h (rw o at later) in
                (lo, hi, (suc n, late, there))
          ]
    ]

days_after-later : (n day : ℕ) (loc : Location) → IsForward loc → day + n ≤ days_after loc n day
days_after-later zero day loc f = omega arith
days_after-later (suc n) day loc f =
    omega (arith, f day, days_after-later n (loc.next_day day) loc f)

expand_days-covers :
    (t fuel from to day n : ℕ) (wh : WorkingHours) (loc : Location)
    → IsForward loc
    → from < to
    → to - day ≤ fuel
    → (leb from t && ltb t to) ≡ true
    → days_after loc n day < to
    → is_open wh loc t (days_after loc n day) ≡ true
    → covers t (expand_days fuel wh loc from to day) ≡ true
unfolding expand_days
expand_days-covers t zero from to day n wh loc f h enough range late here =
    absurd (omega (arith, days_after-later n day loc f))
expand_days-covers t (suc fuel) from to day zero wh loc f h enough range late here =
    let rs = ranges_on (day_key (loc.weekday day)) wh.days in
    let rest = expand_days fuel wh loc from to (loc.next_day day) in
    let begun : before day to ≡ true = ground (arith, days_after-later zero day loc f) in
    let split = covers-append t (expand_ranges loc from to day rs) rest in
    rw (begun, split, covers-expand_ranges t from to day loc rs h, range) (ground arith)
expand_days-covers t (suc fuel) from to day (suc n) wh loc f h enough range late here =
    let rs = ranges_on (day_key (loc.weekday day)) wh.days in
    let rest = expand_days fuel wh loc from to (loc.next_day day) in
    let begun : before day to ≡ true = ground (arith, days_after-later (suc n) day loc f) in
    let split = covers-append t (expand_ranges loc from to day rs) rest in
    rw (begun, split, covers-expand_ranges t from to day loc rs h, range)
      (ground (
        arith,
        f day,
        expand_days-covers t fuel from to (loc.next_day day) n wh loc f h (omega (arith, f day))
            range late here,
      ))

-- Where the next day of an instant is later than the instant and `from` is before `to`, an instant
-- lies in what `Expand` returns exactly when it lies between them, `to` excluded, and is open by the
-- working hours on one of the days that are some number of whole days after `from`, counted from the
-- clock time of `from`, and still before `to` at that clock time. The day of `to` is thus not among
-- them where the clock time of `from` is not before that of `to`.
pub covers-expand :
    (t : ℕ) (wh : WorkingHours) (loc : Location) (from to : ℕ)
    → IsForward loc
    → from < to
    → (covers t (expand wh from to loc) ≡ true) ↔ IsOpenFrom wh loc from to t from
unfolding expand
covers-expand t wh loc from to f h = (
  covers-expand_days t (to - from) from to from wh loc h,
  λ (lo, hi, (n, late, here)).
      expand_days-covers t (to - from) from to from n wh loc f h (omega arith) (ground arith) late
        here,
)

-- Where the next day of an instant is later than the instant, the loop over the days ends within
-- `to - from` rounds: with any more rounds `Expand` returns the same windows.
pub expand_enough :
    (k : ℕ) (wh : WorkingHours) (loc : Location) (from to : ℕ)
    → IsForward loc
    → expand_days (to - from + k) wh loc from to from ≡ expand wh from to loc
unfolding expand
expand_enough k wh loc from to h =
    expand_days_fuel (to - from + k) (to - from) wh loc from to from h (omega arith) (omega arith)
