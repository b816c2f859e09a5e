-- ===== src/Ovpn/Parse.antt =====
-- `OvpnConfig::parse`: the lines of a file, one after the other.
use nm_openvpn.Base.{
  Bool, List, Str, [], if◌then◌else◌, none, one_of, some, str, str_eq, ℕ, ◌&&◌, ◌++◌, ◌+◌, ◌==◌,
  ◌||◌, ◌∷◌,
}
use nm_openvpn.Text.{ends_with, lines, starts_with, strip_prefix, trim, trim_start}
use nm_openvpn.Ovpn.Defs.{
  ◌>>=◌, ◌>>◌, Directive, option, blob, OvpnConfig, inline_blob_names, bad_line, unterminated_blob,
  unsupported_blob, Result, ok, err,
}
use nm_openvpn.Ovpn.Validate.{validate}
use nm_openvpn.Quote.{Tokens, tokenize}

-- Which loop takes the next line: the one over the file, or the one over the body of a blob that
-- was opened at line `opened`.
pub data Place : Type 0 where
  top : Place
  inside : (inner : Str) (opened : ℕ) (body : Str) → Place

pub record Reader : Type 0 where
  pub place : Place
  pub directives : List Directive

-- `s.strip_prefix(p).unwrap_or(s)`
unfoldable pub without_prefix : Str → Str → Str
without_prefix p s = elim (strip_prefix p s) [ none ↦ s | some t ↦ t ]

-- `first[1..first.len() - 1]`
unfoldable pub drop_last : Str → Str
drop_last [] = []
drop_last (c ∷ []) = []
drop_last (c ∷ d ∷ s) = c ∷ drop_last (d ∷ s)

unfoldable pub drop_ends : Str → Str
drop_ends [] = []
drop_ends (c ∷ s) = drop_last s

unfoldable pub is_tag : Str → Bool
is_tag w = starts_with (b'<' ∷ []) w && ends_with (b'>' ∷ []) w

-- `</inner>`
unfoldable pub close_tag : Str → Str
close_tag inner = b'<' ∷ b'/' ∷ (inner ++ b'>' ∷ [])

unfoldable pub add : Reader → Directive → Reader
add r d = record { place = top; directives = r.directives ++ d ∷ [] }

-- The words of a line that is neither blank nor a comment.
unfoldable pub read_words : ℕ → Reader → List Str → Reader
read_words lineno r [] = r
read_words lineno r (w ∷ ws) =
    let first = without_prefix (str "--") w in
    if is_tag first
    then record r { place = inside (drop_ends first) lineno [] }
    else add r (option first ws)

unfoldable pub read_tokens : ℕ → Reader → Tokens → Result Reader
read_tokens lineno r (Tokens.err e) = err (bad_line lineno e)
read_tokens lineno r (Tokens.ok ws) = ok (read_words lineno r ws)

unfoldable pub read_top : ℕ → Reader → Str → Result Reader
read_top lineno r [] = ok r
read_top lineno r (c ∷ s) =
    if c == b';' || c == b'#' then ok r else read_tokens lineno r (tokenize (c ∷ s))

unfoldable pub read_inside : Str → ℕ → Str → Reader → Str → Result Reader
read_inside inner opened body r line =
    if str_eq (trim line) (close_tag inner)
    then if one_of inline_blob_names inner
      then ok (add r (blob inner body))
      else err (unsupported_blob opened inner)
    else ok (record r { place = inside inner opened ((body ++ line) ++ b'\n' ∷ []) })

unfoldable pub read_line : Place → ℕ → Reader → Str → Result Reader
read_line top lineno r line = read_top lineno r (trim_start line)
read_line (inside inner opened body) lineno r line = read_inside inner opened body r line

-- What is left when the lines have run out.
unfoldable pub finish : Place → Reader → Result (List Directive)
finish top r = ok r.directives
finish (inside inner opened body) r = err (unterminated_blob opened inner)

-- The lines from number `lineno` on.
unfoldable pub read_lines : ℕ → Reader → List Str → Result (List Directive)
read_lines lineno r [] = finish r.place r
read_lines lineno r (l ∷ ls) = do r' ← read_line r.place lineno r l; read_lines (lineno + 1) r' ls

unfoldable pub start : Reader
start = record { place = top; directives = [] }

unfoldable pub parse : Str → Result OvpnConfig
parse input = do
  ds ← read_lines 1 start (lines (without_prefix (0xfeff ∷ []) input))
  validate ds
  ok (record { directives = ds })
