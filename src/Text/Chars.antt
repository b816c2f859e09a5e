-- ===== src/Text/Chars.antt =====
-- `char` tests, trimming, prefixes and suffixes.
use nm_openvpn.Base.{
  Bool, List, Option, Str, [], false, if◌then◌else◌, ltb, none, some, str_eq, true, within, ℕ, ◌&&◌,
  ◌+◌, ◌==◌, ◌||◌, ◌∷◌,
}

-- `char::is_whitespace`: the Unicode property White_Space.
unfoldable pub is_whitespace : ℕ → Bool
is_whitespace c =
    within 9 13 c
    || c == 32
    || c == 0x85
    || c == 0xa0
    || c == 0x1680
    || within 0x2000 0x200a c
    || within 0x2028 0x2029 c
    || c == 0x202f
    || c == 0x205f
    || c == 0x3000

-- `char::is_ascii_whitespace`, which leaves out the vertical tab.
unfoldable pub is_ascii_whitespace : ℕ → Bool
is_ascii_whitespace c = c == 32 || c == 9 || c == 10 || c == 12 || c == 13

-- `char::is_control`: the Unicode category Cc.
unfoldable pub is_control : ℕ → Bool
is_control c = ltb c 32 || within 127 159 c

unfoldable pub is_ascii_alphanumeric : ℕ → Bool
is_ascii_alphanumeric c = within b'0' b'9' c || within b'A' b'Z' c || within b'a' b'z' c

-- `to_ascii_lowercase`, for one character.
unfoldable pub lower_char : ℕ → ℕ
lower_char c = if within b'A' b'Z' c then c + 32 else c

unfoldable pub all_chars : (ℕ → Bool) → Str → Bool
all_chars p [] = true
all_chars p (c ∷ s) = p c && all_chars p s

unfoldable pub any_char : (ℕ → Bool) → Str → Bool
any_char p [] = false
any_char p (c ∷ s) = p c || any_char p s

unfoldable pub is_empty {ℓ} : {A : Type ℓ} → List A → Bool
is_empty [] = true
is_empty (c ∷ s) = false

unfoldable pub trim_start : Str → Str
unfolding is_whitespace
trim_start [] = []
trim_start (c ∷ s) = if is_whitespace c then trim_start s else c ∷ s

unfoldable pub trim_end : Str → Str
unfolding is_whitespace is_empty
trim_end [] = []
trim_end (c ∷ s) = let r = trim_end s in if is_whitespace c && is_empty r then [] else c ∷ r

unfoldable pub trim : Str → Str
unfolding trim_start trim_end
trim s = trim_end (trim_start s)

-- `s.strip_prefix(p)`
unfoldable pub strip_prefix : Str → Str → Option Str
strip_prefix [] s = some s
strip_prefix (a ∷ p) [] = none
strip_prefix (a ∷ p) (c ∷ s) = let r = strip_prefix p s in if c == a then r else none

unfoldable pub starts_with : Str → Str → Bool
starts_with [] s = true
starts_with (a ∷ p) [] = false
starts_with (a ∷ p) (c ∷ s) = c == a && starts_with p s

-- `s.strip_suffix(p)`: what stands before the `p` at the end.
unfoldable pub strip_suffix : Str → Str → Option Str
unfolding str_eq
strip_suffix p [] = if str_eq [] p then some [] else none
strip_suffix p (c ∷ s) =
    let r : Option Str = elim (strip_suffix p s) [ none ↦ none | some t ↦ some (c ∷ t) ] in
    if str_eq (c ∷ s) p then some [] else r

unfoldable pub ends_with : Str → Str → Bool
unfolding str_eq
ends_with p [] = str_eq [] p
ends_with p (c ∷ s) = str_eq (c ∷ s) p || ends_with p s

-- `s.contains(p)`
unfoldable pub contains_str : Str → Str → Bool
unfolding starts_with
contains_str p [] = starts_with p []
contains_str p (c ∷ s) = starts_with p (c ∷ s) || contains_str p s
