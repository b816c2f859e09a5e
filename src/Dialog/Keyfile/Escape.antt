-- ===== src/Dialog/Keyfile/Escape.antt =====
-- An escaped value stands on one line, and the reader of a key file gets the value back.
use nm_openvpn.Base.{
  Bool, Str, [], ap, arith, false, if◌then◌else◌, refl, true, ℕ, ◌++◌, ◌==◌, ◌||◌, ◌∙◌, ◌∷◌, ◌≡◌,
}
use nm_openvpn.Text.{any_char}
use nm_openvpn.Text.Laws.{any_char-append}
use nm_openvpn.Dialog.Keyfile.{escape_char, escape}

-- What GKeyFile makes of the character behind a backslash, among those that are written.
unfoldable pub unescaped : ℕ → ℕ
unescaped c =
    if c == b'n' then b'\n' else if c == b'r' then b'\r' else if c == b't' then b'\t' else c

-- GKeyFile's reading of a value; `true` stands behind a backslash.
unfoldable pub unescape : Bool → Str → Str
unescape b [] = []
unescape true (c ∷ s) = unescaped c ∷ unescape false s
unescape false (c ∷ s) =
    let rest = unescape true s in
    let more = unescape false s in if c == b'\\' then rest else c ∷ more

unescape-escape_char :
    (c : ℕ) (s : Str) → unescape false (escape_char c ++ s) ≡ c ∷ unescape false s
unfolding unescape unescaped escape_char
unescape-escape_char c s = ground arith

-- GKeyFile reads every value back from its escaped form.
pub unescape-escape : (s : Str) → unescape false (escape s) ≡ s
unfolding escape
unescape-escape [] = unfold unescape in refl
unescape-escape (c ∷ s) = unescape-escape_char c (escape s) ∙ ap (◌∷◌ c) (unescape-escape s)

-- The characters that end a line, or are dropped at its end.
abbrev pub is_break : ℕ → Bool
is_break c = c == b'\n' || c == b'\r'

escape_char_break : (c : ℕ) → any_char is_break (escape_char c) ≡ false
unfolding escape_char any_char
escape_char_break c = ground arith

pub escape_break : (s : Str) → any_char is_break (escape s) ≡ false
unfolding escape any_char
escape_break [] = refl
escape_break (c ∷ s) =
    any_char-append is_break (escape_char c) (escape s)
    ∙ rw (escape_char_break c, escape_break s) refl
