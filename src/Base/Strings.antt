-- ===== src/Base/Strings.antt =====
-- Text as a list of code points, and the functions of Go's `strings` and `strconv` that are used.
use Prim.Native.Nat.{ℕ, zero, suc, ◌+◌, ◌-◌, ◌*◌, ◌/◌, ◌%◌, ◌^◌}
use Prim.Native.Char.{code}
use Prim.Native.String.{String}
use mathlib.Core.Bool.{Bool, true, false, ◌&&◌, ◌||◌}
use mathlib.Core.List.{List, [], ◌∷◌, ◌++◌}
use mathlib.Core.Option.{Option, none, some}
use mathlib.Core.Path.{◌≡◌, refl}
use mathlib.Core.Logic.{◌↔◌}
use native.Mathlib.Omega.{arith}
use skulid.Base.Lists.{length}
use skulid.Base.Tests.{ltb, leb, ◌==◌, if◌then◌else◌}

abbrev pub Text : Type 0
Text = List ℕ

abbrev pub codes : String → Text
codes String.[] = []
codes (String.◌∷◌ c s) = code c ∷ codes s

abbrev pub is_nil {ℓ} : {A : Type ℓ} → List A → Bool
is_nil [] = true
is_nil (x ∷ xs) = false

abbrev between : ℕ → ℕ → ℕ → Bool
between lo hi c = leb lo c && leb c hi

-- `unicode.IsSpace`.
unfoldable pub is_space : ℕ → Bool
is_space c =
    between 9 13 c
    || c == 32
    || c == 133
    || c == 160
    || c == 5760
    || between 8192 8202 c
    || between 8232 8233 c
    || c == 8239
    || c == 8287
    || c == 12288

unfoldable pub trim_left : Text → Text
trim_left [] = []
trim_left (c ∷ s) = if is_space c then trim_left s else c ∷ s

unfoldable pub trim_right : Text → Text
trim_right [] = []
trim_right (c ∷ s) = let rest = trim_right s in if is_space c && is_nil rest then [] else c ∷ rest

-- `strings.TrimSpace`.
unfoldable pub trim_space : Text → Text
trim_space s = trim_right (trim_left s)

-- `strings.ReplaceAll` of one character by another.
unfoldable pub replace_char : ℕ → ℕ → Text → Text
replace_char old new [] = []
replace_char old new (c ∷ s) = (if c == old then new else c) ∷ replace_char old new s

abbrev keep {ℓ} : {A : Type ℓ} → A → Option (List A × List A) → Option (List A × List A)
keep c none = none
keep c (some (a, b)) = some (c ∷ a, b)

-- `strings.Cut` at one character.
unfoldable pub cut_at : ℕ → Text → Option (Text × Text)
cut_at sep [] = none
cut_at sep (c ∷ s) = let rest = keep c (cut_at sep s) in if c == sep then some ([], s) else rest

-- `strings.Split` at one character.
abbrev glue : ℕ → List Text → List Text
glue c [] = (c ∷ []) ∷ []
glue c (p ∷ ps) = (c ∷ p) ∷ ps

unfoldable pub split_at : ℕ → Text → List Text
split_at sep [] = [] ∷ []
split_at sep (c ∷ s) = let rest = split_at sep s in if c == sep then [] ∷ rest else glue c rest

unfoldable pub scan : Text → ℕ → Option ℕ
scan [] n = some n
scan (c ∷ s) n = let rest = scan s (n * 10 + (c - 48)) in if between 48 57 c then rest else none

unfoldable pub digits : Text → Option ℕ
digits [] = none
digits (c ∷ s) = scan (c ∷ s) 0

-- A signed number: whether it has a minus sign, and its magnitude.
pub record Signed : Type 0 where
  pub negative : Bool
  pub magnitude : ℕ

abbrev in_range : Bool → Option ℕ → Option Signed
in_range negative none = none
in_range negative (some n) =
    if ltb (if negative then 2 ^ 63 else 2 ^ 63 - 1) n
    then none
    else some (record { negative = negative; magnitude = n })

-- `strconv.Atoi`, on 64 bits.
unfoldable pub atoi : Text → Option Signed
atoi [] = none
atoi (c ∷ s) =
    if c == 45
    then in_range true (digits s)
    else if c == 43
    then in_range false (digits s)
    else in_range false (digits (c ∷ s))

emit : ℕ → ℕ → Text → Text
emit zero n out = out
emit (suc fuel) n out =
    let rest = emit fuel (n / 10) ((48 + n % 10) ∷ out) in if ltb n 10 then (48 + n) ∷ out else rest

-- `strconv.Itoa` of a number that is not negative.
unfoldable pub itoa : ℕ → Text
unfolding emit
itoa n = emit (suc n) n []

unfoldable pub text_eq : Text → Text → Bool
text_eq [] [] = true
text_eq [] (d ∷ t) = false
text_eq (c ∷ s) [] = false
text_eq (c ∷ s) (d ∷ t) = c == d && text_eq s t

text_eq_sound : (s t : Text) → text_eq s t ≡ true → s ≡ t
unfolding text_eq
text_eq_sound [] [] h = refl
text_eq_sound [] (d ∷ t) h = cc
text_eq_sound (c ∷ s) [] h = cc
text_eq_sound (c ∷ s) (d ∷ t) h = ground (arith, text_eq_sound s t)

pub text_eq_refl : (s : Text) → text_eq s s ≡ true
unfolding text_eq
text_eq_refl [] = refl
text_eq_refl (c ∷ s) = ground (arith, text_eq_refl s)

pub text_eq_iff : (s t : Text) → (text_eq s t ≡ true) ↔ (s ≡ t)
text_eq_iff s t = (text_eq_sound s t, λ e. rw e (text_eq_refl t))

abbrev starts_with : Text → Text → Bool
starts_with [] s = true
starts_with (c ∷ p) [] = false
starts_with (c ∷ p) (d ∷ s) = c == d && starts_with p s

-- The text from a place where `skip` more characters belong to the match before it.
replace_from : Text → Text → ℕ → Text → Text
replace_from old new skip [] = []
replace_from old new (suc skip) (c ∷ s) = replace_from old new skip s
replace_from old new zero (c ∷ s) =
    let hit = replace_from old new (length old - 1) s in
    let miss = replace_from old new 0 s in if starts_with old (c ∷ s) then new ++ hit else c ∷ miss

-- `strings.ReplaceAll` for a text to replace that is not empty.
unfoldable pub replace_all : Text → Text → Text → Text
unfolding replace_from
replace_all old new s = replace_from old new 0 s

-- `strings.Contains`.
unfoldable pub contains : Text → Text → Bool
contains [] part = is_nil part
contains (c ∷ s) part = starts_with part (c ∷ s) || contains s part
