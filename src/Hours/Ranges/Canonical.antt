-- ===== src/Hours/Ranges/Canonical.antt =====
-- The canonical spelling of a range is read back as it is.
use mathlib.Core.List.{append_assoc}
use skulid.Base.{
  ℕ, ◌≡◌, ◌<◌, ◌≤◌, refl, Bool, true, false, ◌&&◌, [], ◌∷◌, ◌++◌, some, none, arith, All,
  All-append, Text, is_space, trim_left, trim_right, trim_space, replace_char, cut_at, atoi, digits,
  scan, itoa, leb, ◌==◌, Option, passes_to, passes_to_sound, Option-cases, inl, inr,
}
use skulid.Hours.Ranges.{
  Clock, parse_hm, pad, minutes, plain_dashes, show_range, read_range, normalize_range,
}

-- A digit or a colon, and one of these or a hyphen.
abbrev IsClockChar : ℕ → Type 0
IsClockChar c = (48 ≤ c) × (c ≤ 58)

abbrev IsPlain : ℕ → Type 0
IsPlain c = (45 ≤ c) × (c ≤ 58)

is_space-IsPlain : (c : ℕ) → IsPlain c → is_space c ≡ false
unfolding is_space
is_space-IsPlain c h = ground arith

trim_left-IsPlain : (t : Text) → All IsPlain t → trim_left t ≡ t
unfolding trim_left
trim_left-IsPlain [] h = refl
trim_left-IsPlain (c ∷ t) h = ground (arith, is_space-IsPlain c h.0)

trim_right-IsPlain : (t : Text) → All IsPlain t → trim_right t ≡ t
unfolding trim_right
trim_right-IsPlain [] h = refl
trim_right-IsPlain (c ∷ t) h = ground (arith, is_space-IsPlain c h.0, trim_right-IsPlain t h.1)

trim_space-IsPlain : (t : Text) → All IsPlain t → trim_space t ≡ t
unfolding trim_space
trim_space-IsPlain t h = rw (trim_left-IsPlain t h) (trim_right-IsPlain t h)

replace_char-IsPlain : (d : ℕ) (t : Text) → 58 < d → All IsPlain t → replace_char d 45 t ≡ t
unfolding replace_char
replace_char-IsPlain d [] p h = refl
replace_char-IsPlain d (c ∷ t) p h = ground (arith, replace_char-IsPlain d t p h.1)

plain_dashes-IsPlain : (t : Text) → All IsPlain t → plain_dashes t ≡ t
unfolding plain_dashes
plain_dashes-IsPlain t h = rw (
  replace_char-IsPlain 8211 t (omega arith) h,
  replace_char-IsPlain 8212 t (omega arith) h,
  replace_char-IsPlain 8722 t (omega arith) h,
)

cut_at-IsClockChar : (t u : Text) → All IsClockChar t → cut_at 45 (t ++ 45 ∷ u) ≡ some (t, u)
unfolding cut_at
cut_at-IsClockChar [] u h = refl
cut_at-IsClockChar (c ∷ t) u h = ground (arith, cut_at-IsClockChar t u h.1)

IsClockChar-IsPlain : (t : Text) → All IsClockChar t → All IsPlain t
IsClockChar-IsPlain [] h = tt
IsClockChar-IsPlain (c ∷ t) h = (omega arith, IsClockChar-IsPlain t h.1)

pub show_clock : Clock → Text
show_clock c = pad c.hour ++ 58 ∷ pad c.minute

clock_chars : Text → Bool
clock_chars [] = true
clock_chars (c ∷ t) = leb 48 c && leb c 58 && clock_chars t

clock_chars_sound : (t : Text) → clock_chars t ≡ true → All IsClockChar t
unfolding clock_chars
clock_chars_sound [] h = tt
clock_chars_sound (c ∷ t) h = ground (arith, clock_chars_sound t)

is_clock : Option Clock → ℕ → ℕ → Bool
is_clock none h m = false
is_clock (some c) h m = c.hour == h && c.minute == m

reads_back : ℕ → ℕ → Bool
unfolding show_clock clock_chars is_clock
reads_back h m =
    let t = show_clock (record { hour = h; minute = m }) in
    clock_chars t && is_clock (parse_hm t) h m

-- Every time of the day, checked by evaluation.
all_times : passes_to (λ h. passes_to (reads_back h) 60) 24 ≡ true
unfolding passes_to reads_back trim_space trim_left trim_right is_space cut_at parse_hm atoi digits
    scan pad itoa
all_times = refl

abbrev pub IsTime : Clock → Type 0
IsTime c = (c.hour < 24) × (c.minute < 60)

time_reads_back : (c : Clock) → IsTime c → reads_back c.hour c.minute ≡ true
time_reads_back c h =
    passes_to_sound (reads_back c.hour) 60 c.minute h.1
      (passes_to_sound (λ h. passes_to (reads_back h) 60) 24 c.hour h.0 all_times)

show_clock-IsClockChar : (c : Clock) → IsTime c → All IsClockChar (show_clock c)
unfolding reads_back
show_clock-IsClockChar c h = clock_chars_sound (show_clock c) (ground (arith, time_reads_back c h))

pub parse_hm-show_clock : (c : Clock) → IsTime c → parse_hm (show_clock c) ≡ some c
unfolding reads_back
parse_hm-show_clock c h = elim (Option-cases (parse_hm (show_clock c))) [
  | inl e ↦ ground (arith, time_reads_back c h)
  | inr (d, e) ↦ ground (arith, time_reads_back c h)
]

show_range-clocks : (a b : Clock) → show_range a b ≡ show_clock a ++ 45 ∷ show_clock b
unfolding show_range show_clock
show_range-clocks a b = simp append_assoc

pub cut_at-show_range :
    (a b : Clock) → IsTime a → cut_at 45 (show_range a b) ≡ some (show_clock a, show_clock b)
cut_at-show_range a b h = rw (
  show_range-clocks a b,
  cut_at-IsClockChar (show_clock a) (show_clock b) (show_clock-IsClockChar a h),
)

-- Two times of the day in order are read back from their canonical spelling.
pub read_range-show_range :
    (a b : Clock)
    → IsTime a
    → IsTime b
    → minutes a < minutes b
    → read_range (show_range a b) ≡ some (a, b)
unfolding read_range
read_range-show_range a b ha hb lt =
    let ca = show_clock-IsClockChar a ha in
    let cb = show_clock-IsClockChar b hb in
    let plain : All IsPlain (show_clock a ++ 45 ∷ show_clock b) =
      All-append IsPlain (show_clock a) (45 ∷ show_clock b) (IsClockChar-IsPlain (show_clock a) ca)
        ((omega arith), IsClockChar-IsPlain (show_clock b) cb) in
    rw
      (
        show_range-clocks a b,
        trim_space-IsPlain _ plain,
        plain_dashes-IsPlain _ plain,
        cut_at-IsClockChar (show_clock a) (show_clock b) ca,
      )
      (ground (arith, parse_hm-show_clock a ha, parse_hm-show_clock b hb))

parse_hm-IsTime : (t : Text) (c : Clock) → parse_hm t ≡ some c → IsTime c
unfolding parse_hm
parse_hm-IsTime t c h = ground arith

-- A range that is accepted has two times of the day, in order.
pub read_range_sound :
    (s : Text) (a b : Clock)
    → read_range s ≡ some (a, b)
    → IsTime a × IsTime b × (minutes a < minutes b)
unfolding read_range
read_range_sound s a b h = elim (Option-cases (cut_at 45 (plain_dashes (trim_space s)))) [
  | inl e ↦ ground arith
  | inr ((x, y), e) ↦ ground (arith, parse_hm-IsTime x a, parse_hm-IsTime y b)
]

-- What `NormalizeRange` returns is the canonical spelling of two times of the day in order, and
-- normalizing it again changes nothing.
pub normalize_range_canonical :
    (s t : Text)
    → normalize_range s ≡ some t
    → (a : Clock) × (b : Clock) × IsTime a
      × IsTime b
      × (minutes a < minutes b)
      × (t ≡ show_range a b)
      × (normalize_range t ≡ some t)
unfolding normalize_range
normalize_range_canonical s t h = elim (Option-cases (read_range s)) [
  | inl e ↦ absurd (ground arith)
  | inr ((a, b), e) ↦
      let (ha, hb, lt) = read_range_sound s a b e in
      let same : t ≡ show_range a b = ground arith in
      (a, b, ha, hb, lt, same, rw same (rw (read_range-show_range a b ha hb lt)))
]
