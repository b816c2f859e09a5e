-- ===== src/Profile/Values.antt =====
-- The helpers of `build_profile_string`: settings, remotes, paths and the gate for route lines.
use nm_openvpn.Base.{
  Bool, List, Option, Str, [], false, if◌then◌else◌, map, none, not, one_of, some, str, true, ℕ,
  ◌&&◌, ◌==◌, ◌||◌, ◌∷◌,
}
use nm_openvpn.Text.{
  all_chars, any_char, ends_with, is_ascii_alphanumeric, is_control, is_empty, lower_char,
  parse_i64, split_once, split_whitespace, splitn, strip_prefix,
}
use nm_openvpn.Profile.Writer.{line}

-- A `HashMap<String, String>` that is only read.
abbrev pub Data : Type 0
Data = Str → Option Str

unfoldable pub arg_is_set : Option Str → Option Str
arg_is_set none = none
arg_is_set (some []) = none
arg_is_set (some (c ∷ s)) = some (c ∷ s)

unfoldable pub get : Data → Str → Option Str
get data' k = arg_is_set (data' k)

-- `matches!(o, Some(a | b | …))`
unfoldable pub some_in : List Str → Option Str → Bool
some_in ts none = false
some_in ts (some s) = one_of ts s

-- The directives that may stand in a preserved route line.
unfoldable pub allowed_routes : List Str
allowed_routes =
    str "route"
    ∷ str "route-ipv6"
    ∷ str "route-gateway"
    ∷ str "route-metric"
    ∷ str "route-delay"
    ∷ []

unfoldable pub is_route_char : ℕ → Bool
is_route_char c =
    is_ascii_alphanumeric c || c == b'.' || c == b':' || c == b'/' || c == b'_' || c == b'-'

unfoldable pub are_route_args : List Str → Bool
are_route_args [] = true
are_route_args (t ∷ ts) = (not (is_empty t) && all_chars is_route_char t) && are_route_args ts

unfoldable pub are_safe_words : List Str → Bool
are_safe_words [] = false
are_safe_words (directive ∷ tokens) =
    if not (one_of allowed_routes directive) then false else are_route_args tokens

unfoldable pub is_safe_route_line : Str → Bool
is_safe_route_line text =
    if any_char is_control text then false else are_safe_words (split_whitespace text)

unfoldable pub is_pkcs12_path : Str → Bool
is_pkcs12_path path =
    let lower = map lower_char path in ends_with (str ".p12") lower || ends_with (str ".pfx") lower

abbrev pub Remote : Type 0
Remote = Str × Option Str × Option Str

-- `it.next().filter(|s| !s.is_empty())`, for the first and the second piece that is left
unfoldable pub first_set : List Str → Option Str
first_set [] = none
first_set (s ∷ ss) = arg_is_set (some s)

unfoldable pub second_set : List Str → Option Str
second_set [] = none
second_set (s ∷ ss) = first_set ss

unfoldable pub host_of : List Str → Str
host_of [] = []
host_of (h ∷ ss) = h

unfoldable pub rest_of : List Str → List Str
rest_of [] = []
rest_of (h ∷ ss) = ss

-- `host[:port[:proto]]`
unfoldable pub parse_bare : Str → Remote
parse_bare input =
    let it = splitn 3 b':' input in (host_of it, first_set (rest_of it), second_set (rest_of it))

-- `[host]:port[:proto]`, from what stands behind the `[`
unfoldable pub parse_tail : Str × Str → Remote
parse_tail (host, tail) =
    let it : List Str =
      splitn 2 b':' (elim (strip_prefix (b':' ∷ []) tail) [ none ↦ tail | some t ↦ t ]) in
    (host, first_set it, second_set it)

unfoldable pub parse_bracketed : Str → Option (Str × Str) → Remote
parse_bracketed input none = parse_bare input
parse_bracketed input (some parts) = parse_tail parts

unfoldable pub parse_remote : Str → Remote
parse_remote input = elim (strip_prefix (b'[' ∷ []) input) [
  | none ↦ parse_bare input
  | some rest ↦ parse_bracketed input (split_once b']' rest)
]

-- `if b { … }` and `if let Some(v) = o { … }`, over the buffer
unfoldable pub when : Bool → (Str → Str) → Str → Str
when b f w = if b then f w else w

unfoldable pub given : Option Str → (Str → Str → Str) → Str → Str
given none f w = w
given (some v) f w = f v w

unfoldable pub line_str : Str → Option Str → Str → Str
line_str tag value = given value (λ v. line (tag ∷ v ∷ []))

unfoldable pub is_i64 : Str → Bool
is_i64 v = elim (parse_i64 v) [ none ↦ false | some n ↦ true ]

unfoldable pub line_int : Str → Option Str → Str → Str
line_int tag value = given value (λ v. when (is_i64 v) (line (tag ∷ v ∷ [])))
