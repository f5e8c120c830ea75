-- ===== src/Text.antt =====
-- What the program uses of the standard library on texts, which are lists of code points: trimming,
-- and reading an unsigned number in some radix.
use open_boot.Base.{
  ℕ, ◌+◌, ◌-◌, ◌*◌, Bool, ◌&&◌, ◌||◌, List, [], ◌∷◌, Option, none, some, ltb, leb, ◌==◌,
  if◌then◌else◌,
}
use mathlib.Core.List.{reverse}

abbrev pub Text : Type 0
Text = List ℕ

-- `char::is_whitespace`: the code points with the property White_Space.
unfoldable pub is_whitespace : ℕ → Bool
is_whitespace c =
    (leb 9 c && leb c 13)
    || c == 0x20
    || c == 0x85
    || c == 0xa0
    || c == 0x1680
    || (leb 0x2000 c && leb c 0x200a)
    || c == 0x2028
    || c == 0x2029
    || c == 0x202f
    || c == 0x205f
    || c == 0x3000

unfoldable pub trim_start : Text → Text
unfolding is_whitespace
trim_start [] = []
trim_start (c ∷ cs) = if is_whitespace c then trim_start cs else c ∷ cs

unfoldable pub trim : Text → Text
unfolding trim_start
trim line = reverse (trim_start (reverse (trim_start line)))

-- `char::to_digit(radix)`
unfoldable pub to_digit : ℕ → ℕ → Option ℕ
to_digit radix c =
    let v =
      if leb b'0' c && leb c b'9'
      then c - 48
      else if leb b'a' c && leb c b'z'
      then c - 87
      else if leb b'A' c && leb c b'Z'
      then c - 55
      else radix in
    if ltb v radix then some v else none

-- Every digit, from the left, as long as the number is below the bound of the type.
unfoldable pub digits : ℕ → ℕ → ℕ → Text → Option ℕ
unfolding to_digit
digits bound radix acc [] = some acc
digits bound radix acc (c ∷ cs) = elim (to_digit radix c) [
  | none ↦ none
  | some v ↦
      let rest = digits bound radix (acc * radix + v) cs in
      if ltb (acc * radix + v) bound then rest else none
]

-- `from_str_radix` of an unsigned type whose numbers are below the bound: a leading plus sign is
-- accepted if a digit follows.
unfoldable pub from_str_radix : ℕ → ℕ → Text → Option ℕ
unfolding digits
from_str_radix bound radix [] = none
from_str_radix bound radix (c ∷ []) = digits bound radix 0 (c ∷ [])
from_str_radix bound radix (c ∷ d ∷ cs) =
    if c == b'+' then digits bound radix 0 (d ∷ cs) else digits bound radix 0 (c ∷ d ∷ cs)
