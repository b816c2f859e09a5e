-- ===== src/Quote.antt =====
-- nm-openvpn3-properties/src/import_export.rs: `push_escaped` and `tokenize`, how an argument is
-- written into an .ovpn line and how a line is taken apart again.
pub mod Forms
pub mod RoundTrip
pub mod Shape
use nm_openvpn.Base.{
  Bool, List, Str, [], false, if◌then◌else◌, true, within, ℕ, ◌&&◌, ◌++◌, ◌==◌, ◌||◌, ◌∷◌,
}
use nm_openvpn.Text.{is_ascii_whitespace}

-- The characters that stand in a line with no quotes.
unfoldable pub is_benign : ℕ → Bool
is_benign c =
    within b'A' b'Z' c
    || within b'a' b'z' c
    || within b'0' b'9' c
    || c == b'_'
    || c == b'-'
    || c == b':'
    || c == b'/'

-- The two flags of the scan, `needs_quote` and `needs_double`, after one more character.
unfoldable pub scan_char : Bool × Bool → ℕ → Bool × Bool
scan_char (quote, double) c =
    if is_benign c
    then (quote, double)
    else (true, if c == b'\'' || c == b'\n' then true else double)

unfoldable pub scan : Bool × Bool → Str → Bool × Bool
scan flags [] = flags
scan flags (c ∷ s) = scan (scan_char flags c) s

-- The body of a double-quoted value, one character and all of them.
unfoldable pub push_double_char : Str → ℕ → Str
push_double_char buf c =
    if c == b'\n'
    then (buf ++ b'\\' ∷ []) ++ b'n' ∷ []
    else if c == b'\\' || c == b'"'
    then (buf ++ b'\\' ∷ []) ++ c ∷ []
    else buf ++ c ∷ []

unfoldable pub push_double : Str → Str → Str
push_double buf [] = buf
push_double buf (c ∷ s) = push_double (push_double_char buf c) s

unfoldable pub quoted_by : Bool × Bool → Str → Str → Str
quoted_by (false, _) buf s = buf ++ s
quoted_by (true, false) buf s = ((buf ++ b'\'' ∷ []) ++ s) ++ b'\'' ∷ []
quoted_by (true, true) buf s = push_double (buf ++ b'"' ∷ []) s ++ b'"' ∷ []

-- `push_escaped(buf, value)`, with the buffer that it leaves.
unfoldable pub push_escaped : Str → Str → Str
unfolding is_benign scan_char scan push_double_char push_double quoted_by
push_escaped buf [] = buf ++ b'\'' ∷ b'\'' ∷ []
push_escaped buf (c ∷ s) = quoted_by (scan (false, false) (c ∷ s)) buf (c ∷ s)

-- The arguments of a directive, a space before each: the inner loop of `emit`.
unfoldable pub push_args : Str → List Str → Str
push_args buf [] = buf
push_args buf (a ∷ args) = push_args (push_escaped (buf ++ b' ' ∷ []) a) args

pub data TokenError : Type 0 where
  unterminated_double unterminated_single : TokenError
  trailing_escape_quoted trailing_escape : TokenError

pub data Tokens : Type 0 where
  ok : List Str → Tokens
  err : TokenError → Tokens

-- Which loop of `tokenize` reads the next character, with the token so far: the loop over the
-- line, the loop inside quotes, the one of an unquoted word (each also behind a backslash), or
-- none after a comment.
pub data Place : Type 0 where
  between : Place
  in_quote : (quote : ℕ) (token : Str) → Place
  in_quote_escape : (token : Str) → Place
  in_word : (token : Str) → Place
  in_word_escape : (token : Str) → Place
  ended : Place

-- The character that `\` and `esc` stand for inside double quotes.
unfoldable pub mapped : ℕ → ℕ
mapped esc = if esc == b'n' then b'\n' else if esc == b't' then b'\t' else esc

-- A character of an unquoted word.
unfoldable pub word_char : Str → ℕ → Place
word_char token c = if c == b'\\' then in_word_escape token else in_word (token ++ c ∷ [])

-- One character, at a place and with the tokens so far.
unfoldable pub next : Place → List Str → ℕ → Place × List Str
next between ts c =
    if is_ascii_whitespace c
    then (between, ts)
    else if c == b';' || c == b'#'
    then (ended, ts)
    else if c == b'"' || c == b'\''
    then (in_quote c [], ts)
    else (word_char [] c, ts)
next (in_quote quote token) ts c =
    if c == quote
    then (between, ts ++ token ∷ [])
    else if quote == b'"' && c == b'\\'
    then (in_quote_escape token, ts)
    else (in_quote quote (token ++ c ∷ []), ts)
next (in_quote_escape token) ts c = (in_quote b'"' (token ++ mapped c ∷ []), ts)
next (in_word token) ts c =
    if is_ascii_whitespace c then (between, ts ++ token ∷ []) else (word_char token c, ts)
next (in_word_escape token) ts c = (in_word (token ++ c ∷ []), ts)
next ended ts c = (ended, ts)

-- What the loops do at the end of the line.
unfoldable pub finish : Place → List Str → Tokens
finish between ts = ok ts
finish (in_quote quote token) ts =
    err (if quote == b'"' then unterminated_double else unterminated_single)
finish (in_quote_escape token) ts = err trailing_escape_quoted
finish (in_word token) ts = ok (ts ++ token ∷ [])
finish (in_word_escape token) ts = err trailing_escape
finish ended ts = ok ts

unfoldable pub run : Place → List Str → Str → Tokens
run place ts [] = finish place ts
run place ts (c ∷ s) = let (place', ts') = next place ts c in run place' ts' s

unfoldable pub tokenize : Str → Tokens
unfolding mapped word_char is_ascii_whitespace next finish run
tokenize line = run between [] line
