-- ===== src/Text/Number.antt =====
-- `parse::<u32>`, `parse::<i64>`, `u32::from_str_radix`, `to_string` and `count_ones`.
use nm_openvpn.Base.{
  Option, Str, [], if◌then◌else◌, leb, ltb, none, some, suc, within, zero, ℕ, ◌%◌, ◌*◌, ◌++◌, ◌+◌,
  ◌-◌, ◌/◌, ◌==◌, ◌^◌, ◌∷◌,
}

-- `negsuc n` is -(n + 1).
pub data ℤ : Type 0 where
  pos : ℕ → ℤ
  negsuc : ℕ → ℤ

char_value : ℕ → ℕ
char_value c =
    if within b'0' b'9' c
    then c - b'0'
    else if within b'a' b'z' c
    then c - b'a' + 10
    else if within b'A' b'Z' c
    then c - b'A' + 10
    else 36

-- `char::to_digit(radix)`
unfoldable pub to_digit : ℕ → ℕ → Option ℕ
unfolding char_value
to_digit radix c = if ltb (char_value c) radix then some (char_value c) else none

-- The loop of `from_str_radix`: a checked multiplication and addition for each digit.
unfoldable pub read_digits : ℕ → ℕ → ℕ → Str → Option ℕ
unfolding to_digit
read_digits radix top acc [] = some acc
read_digits radix top acc (c ∷ s) = elim (to_digit radix c) [
  | none ↦ none
  | some d ↦
      let acc' = acc * radix + d in
      let rest = read_digits radix top acc' s in if leb acc' top then rest else none
]

-- at least one digit
unfoldable pub read_some : ℕ → ℕ → Str → Option ℕ
read_some radix top [] = none
read_some radix top (c ∷ s) = read_digits radix top 0 (c ∷ s)

unfoldable pub from_str_radix : ℕ → ℕ → Str → Option ℕ
unfolding read_digits read_some
from_str_radix radix top [] = none
from_str_radix radix top (c ∷ s) =
    if c == b'+' then read_some radix top s else read_some radix top (c ∷ s)

abbrev pub u32_max : ℕ
u32_max = 2 ^ 32 - 1

unfoldable pub parse_u32 : Str → Option ℕ
unfolding from_str_radix
parse_u32 s = from_str_radix 10 u32_max s

negate : ℕ → ℤ
negate zero = pos 0
negate (suc n) = negsuc n

unfoldable pub parse_i64 : Str → Option ℤ
unfolding from_str_radix negate
parse_i64 [] = none
parse_i64 (c ∷ s) =
    if c == b'-'
    then elim (read_some 10 (2 ^ 63) s) [ none ↦ none | some n ↦ some (negate n) ]
    else elim (from_str_radix 10 (2 ^ 63 - 1) (c ∷ s)) [ none ↦ none | some n ↦ some (pos n) ]

-- The decimal digits of `n`, if it has at most `fuel` of them.
unfoldable pub digits : ℕ → ℕ → Str
digits zero n = []
digits (suc fuel) n =
    let rest = digits fuel (n / 10) in
    if ltb n 10 then (b'0' + n) ∷ [] else rest ++ (b'0' + n % 10) ∷ []

-- `to_string` of an `i64`, which has at most nineteen digits.
unfoldable pub to_string : ℤ → Str
unfolding digits
to_string (pos n) = digits 20 n
to_string (negsuc n) = b'-' ∷ digits 20 (suc n)

-- the ones among the last `bits` binary digits
unfoldable pub ones : ℕ → ℕ → ℕ
ones zero n = 0
ones (suc bits) n = n % 2 + ones bits (n / 2)

unfoldable pub count_ones : ℕ → ℕ
unfolding ones
count_ones n = ones 32 n
