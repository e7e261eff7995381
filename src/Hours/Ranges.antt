-- ===== src/Hours/Ranges.antt =====
-- internal/hours/ranges.go: the spelling of a range of clock times. 45 is "-", 58 is ":".
pub mod Canonical
mod Examples
use skulid.Base.{
  ℕ, ◌+◌, ◌*◌, Bool, ◌&&◌, ◌||◌, List, [], ◌∷◌, ◌++◌, Option, none, some, ltb, leb, if◌then◌else◌,
  Text, Signed, is_nil, trim_space, replace_char, cut_at, split_at, atoi, itoa,
}

infixl 5 ◌>>=◌
abbrev ◌>>=◌ {ℓ κ} : {A : Type ℓ} {B : Type κ} → Option A → (A → Option B) → Option B
none >>= f = none
some a >>= f = f a

-- `err != nil || v < 0 || v > most` refuses.
abbrev up_to : ℕ → Signed → Option ℕ
up_to most v =
    if v.negative && ltb 0 v.magnitude || ltb most v.magnitude then none else some v.magnitude

-- Hours and minutes.
pub record Clock : Type 0 where
  pub hour : ℕ
  pub minute : ℕ

unfoldable pub parse_hm : Text → Option Clock
parse_hm s = do
  (hh, mm) ← cut_at 58 (trim_space s)
  h ← up_to 23 (← atoi (trim_space hh))
  m ← up_to 59 (← atoi (trim_space mm))
  some (record { hour = h; minute = m })

unfoldable pub pad : ℕ → Text
pad v = if ltb v 10 then 48 ∷ itoa v else itoa v

abbrev pub minutes : Clock → ℕ
minutes c = c.hour * 60 + c.minute

-- The en dash, the em dash and the minus sign become hyphens.
unfoldable pub plain_dashes : Text → Text
plain_dashes s = replace_char 8722 45 (replace_char 8212 45 (replace_char 8211 45 s))

unfoldable pub show_range : Clock → Clock → Text
show_range start end =
    pad start.hour ++ 58 ∷ (pad start.minute ++ 45 ∷ (pad end.hour ++ 58 ∷ pad end.minute))

-- The two times of a range that `NormalizeRange` accepts.
unfoldable pub read_range : Text → Option (Clock × Clock)
read_range s = do
  (a, b) ← cut_at 45 (plain_dashes (trim_space s))
  start ← parse_hm a
  end ← parse_hm b
  if leb (minutes end) (minutes start) then none else some (start, end)

unfoldable pub normalize_range : Text → Option Text
normalize_range s = do (start, end) ← read_range s; some (show_range start end)

-- The loop of `NormalizeRanges`, on `out`: the ranges, or the first part that is none.
pub data Ranges : Type 0 where
  accepted : List Text → Ranges
  rejected : Text → Ranges

abbrev refuse : Text → Option Text → (Text → Ranges) → Ranges
refuse part none k = rejected (trim_space part)
refuse part (some norm) k = k norm

unfoldable pub normalize_parts : List Text → List Text → Ranges
normalize_parts [] out = accepted out
normalize_parts (part ∷ parts) out =
    let skip = normalize_parts parts out in
    if is_nil (trim_space part)
    then skip
    else refuse part (normalize_range part) (λ norm. normalize_parts parts (out ++ norm ∷ []))

unfoldable pub normalize_ranges : Text → Ranges
normalize_ranges csv = normalize_parts (split_at 44 csv) []
