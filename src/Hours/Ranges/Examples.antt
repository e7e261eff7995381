-- ===== src/Hours/Ranges/Examples.antt =====
-- The theorems on ranges at ranges as people type them.
use skulid.Base.{
  ◌≡◌, ◌<◌, refl, some, arith, codes, is_space, trim_left, trim_right, trim_space, replace_char,
  cut_at, atoi, digits, scan, itoa,
}
use skulid.Hours.Ranges.{
  Clock, rejected, parse_hm, pad, minutes, plain_dashes, show_range, read_range, normalize_range,
  normalize_ranges, normalize_parts,
}
use skulid.Hours.Ranges.Canonical.{IsTime, normalize_range_canonical, read_range-show_range}
use skulid.Base.{split_at}

typed : normalize_range (codes " 9:00 – 17:5 ") ≡ some (codes "09:00-17:05")
unfolding normalize_range read_range plain_dashes replace_char trim_space trim_left trim_right
    is_space cut_at parse_hm atoi digits scan show_range pad itoa
typed = refl

bare_hour : normalize_ranges (codes "9:00-12:00, ,13-17:00 ") ≡ rejected (codes "13-17:00")
unfolding normalize_ranges normalize_parts split_at normalize_range read_range plain_dashes
    replace_char trim_space trim_left trim_right is_space cut_at parse_hm atoi digits scan
    show_range pad itoa
bare_hour = refl

normalize_range_canonical_example :
    (a : Clock) × (b : Clock) × IsTime a
    × IsTime b
    × (minutes a < minutes b)
    × (codes "09:00-17:05" ≡ show_range a b)
    × (normalize_range (codes "09:00-17:05") ≡ some (codes "09:00-17:05"))
normalize_range_canonical_example =
    normalize_range_canonical (codes " 9:00 – 17:5 ") (codes "09:00-17:05") typed

abbrev nine : Clock
nine = record { hour = 9; minute = 0 }

abbrev five : Clock
five = record { hour = 17; minute = 5 }

read_range-show_range_example : read_range (show_range nine five) ≡ some (nine, five)
read_range-show_range_example =
    read_range-show_range nine five (omega arith) (omega arith) (omega arith)
