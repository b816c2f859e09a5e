-- ===== src/Profile/Writer.antt =====
-- `Writer` and the service's own `push_escaped`. The buffer is passed along; an operation takes its
-- arguments first, so that operations are put in a row.
use nm_openvpn.Base.{
  Bool, List, Option, Str, [], false, if◌then◌else◌, none, not, some, true, ℕ, ◌++◌, ◌==◌, ◌||◌,
  ◌∷◌,
}
use nm_openvpn.Quote.{is_benign}

-- The scan, with the flags `needs_quote` and `needs_double`.
unfoldable pub scan_char : Bool × Bool → ℕ → Bool × Bool
scan_char (quote, double) c =
    if is_benign c
    then (quote, double)
    else (true, if c == b'\'' || c == b'\n' then true else double)

unfoldable pub scan : Bool × Bool → Str → Bool × Bool
scan flags [] = flags
scan flags (c ∷ s) = scan (scan_char flags c) s

unfoldable pub push_double_char : Str → ℕ → Str
push_double_char buf c =
    if c == b'\n'
    then (buf ++ b'\\' ∷ []) ++ b'n' ∷ []
    else if c == b'\\' || c == b'"'
    then (buf ++ b'\\' ∷ []) ++ c ∷ []
    else buf ++ c ∷ []

unfoldable pub push_double : Str → Str → Str
push_double buf [] = buf
push_double buf (c ∷ s) = push_double (push_double_char buf c) s

unfoldable pub quoted_by : Bool × Bool → Str → Str → Str
quoted_by (false, _) buf s = buf ++ s
quoted_by (true, false) buf s = ((buf ++ b'\'' ∷ []) ++ s) ++ b'\'' ∷ []
quoted_by (true, true) buf s = push_double (buf ++ b'"' ∷ []) s ++ b'"' ∷ []

unfoldable pub push_escaped : Str → Str → Str
push_escaped buf [] = buf ++ b'\'' ∷ b'\'' ∷ []
push_escaped buf (c ∷ s) = quoted_by (scan (false, false) (c ∷ s)) buf (c ∷ s)

-- The loop of `line` and `line_opt`; the flag is `first`.
unfoldable pub push_words : Bool → Str → List Str → Str
push_words first buf [] = buf
push_words first buf (a ∷ args) =
    push_words false (push_escaped (if not first then buf ++ b' ' ∷ [] else buf) a) args

unfoldable pub line : List Str → Str → Str
line args buf = push_words true buf args ++ b'\n' ∷ []

-- `args.iter().flatten()`
unfoldable pub present : List (Option Str) → List Str
present [] = []
present (none ∷ os) = present os
present (some a ∷ os) = a ∷ present os

-- no line at all where every argument is missing
unfoldable pub line_present : List Str → Str → Str
line_present [] buf = buf
line_present (a ∷ args) buf = line (a ∷ args) buf

unfoldable pub line_opt : List (Option Str) → Str → Str
line_opt os buf = line_present (present os) buf

unfoldable pub raw_line : Str → Str → Str
raw_line text buf = (buf ++ text) ++ b'\n' ∷ []
