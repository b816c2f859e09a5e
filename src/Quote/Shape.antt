-- ===== src/Quote/Shape.antt =====
-- A written line has no newline, does not end in `\r`, and begins with a character that opens a
-- word.
use nm_openvpn.Base.{
  Bool, List, Str, [], ap, append_assoc, arith, false, not, refl, true, ℕ, ◌++◌, ◌==◌, ◌||◌, ◌∙◌,
  ◌∷◌, ◌≡◌,
}
use nm_openvpn.Text.{any_char, strip_cr}
use nm_openvpn.Quote.{is_benign}
use nm_openvpn.Quote.Forms.{
  is_special, double_char, double_body, escaped, Form, bare, single, double, escaped-Form, spaced,
}
use nm_openvpn.Text.Laws.{
  any_char-append, or-false, false-or, not-false, has_newline, strip_cr-append,
}

benign_char : (c : ℕ) → is_benign c ≡ true → ((c == b'\n') ≡ false) × ((c == b'\r') ≡ false)
unfolding is_benign
benign_char c h = ground arith

benign_newline : (v : Str) → any_char (λ c. not (is_benign c)) v ≡ false → has_newline v ≡ false
unfolding any_char
benign_newline [] h = refl
benign_newline (c ∷ v) h =
    let (here, there) = or-false (not (is_benign c)) _ h in
    false-or (c == b'\n') _ (benign_char c (not-false _ here)).0 (benign_newline v there)

special_newline : (v : Str) → any_char is_special v ≡ false → has_newline v ≡ false
unfolding any_char
special_newline [] h = refl
special_newline (c ∷ v) h =
    let (here, there) = or-false (is_special c) _ h in
    false-or (c == b'\n') _ (or-false (c == b'\'') _ here).1 (special_newline v there)

double_char_newline : (c : ℕ) → has_newline (double_char c) ≡ false
unfolding double_char any_char
double_char_newline c = ground arith

double_newline : (v : Str) → has_newline (double_body v) ≡ false
unfolding any_char double_body
double_newline [] = refl
double_newline (c ∷ v) =
    any_char-append _ (double_char c) _ ∙ false-or _ _ (double_char_newline c) (double_newline v)

Form-newline : {v e : Str} → Form v e → has_newline e ≡ false
unfolding any_char
Form-newline (bare c s h) = benign_newline (c ∷ s) h
Form-newline (single v h) = any_char-append _ v _ ∙ false-or _ _ (special_newline v h) refl
Form-newline (double v) = any_char-append _ (double_body v) _ ∙ false-or _ _ (double_newline v) refl

pub spaced-newline : (args : List Str) → has_newline (spaced args) ≡ false
unfolding any_char spaced
spaced-newline [] = refl
spaced-newline (a ∷ args) =
    any_char-append _ (escaped a) _
    ∙ false-or _ _ (Form-newline (escaped-Form a)) (spaced-newline args)

pub line-newline :
    (name : Str) (args : List Str) → has_newline (escaped name ++ spaced args) ≡ false
line-newline name args =
    any_char-append _ (escaped name) _
    ∙ false-or _ _ (Form-newline (escaped-Form name)) (spaced-newline args)

-- The `\r` that `lines` drops is never the end of such a line.
abbrev Whole : Str → Type 0
Whole s = strip_cr s ≡ s

bare-Whole :
    (v rest : Str) → any_char (λ c. not (is_benign c)) v ≡ false → Whole rest → Whole (v ++ rest)
unfolding any_char strip_cr
bare-Whole [] rest h w = w
bare-Whole (c ∷ v) rest h w =
    let (here, there) = or-false (not (is_benign c)) _ h in
    rw ((benign_char c (not-false _ here)).1, strip_cr) (ap (◌∷◌ c) (bare-Whole v rest there w))

closed-Whole : (c : ℕ) (rest : Str) → (c == b'\r') ≡ false → Whole rest → Whole (c ∷ rest)
unfolding strip_cr
closed-Whole c rest h w = rw h (ap (◌∷◌ c) w)

Form-Whole : {v e : Str} → Form v e → (rest : Str) → Whole rest → Whole (e ++ rest)
Form-Whole (bare c s h) rest w = bare-Whole (c ∷ s) rest h w
Form-Whole (single v h) rest w = rw append_assoc (
    strip_cr-append (b'\'' ∷ v) rest b'\''
    ∙ ap (λ t. b'\'' ∷ (v ++ t)) (closed-Whole b'\'' rest refl w))
Form-Whole (double v) rest w = rw append_assoc (
    strip_cr-append (b'"' ∷ double_body v) rest b'"'
    ∙ ap (λ t. b'"' ∷ (double_body v ++ t)) (closed-Whole b'"' rest refl w))

spaced-Whole : (args : List Str) → Whole (spaced args)
unfolding spaced
spaced-Whole [] = unfold strip_cr in refl
spaced-Whole (a ∷ args) =
    closed-Whole b' ' _ refl (Form-Whole (escaped-Form a) (spaced args) (spaced-Whole args))

pub line-Whole :
    (name : Str) (args : List Str)
    → strip_cr (escaped name ++ spaced args) ≡ escaped name ++ spaced args
line-Whole name args = Form-Whole (escaped-Form name) (spaced args) (spaced-Whole args)

-- A character that opens a word, bare or quoted.
unfoldable pub opens : ℕ → Bool
opens c = is_benign c || c == b'\'' || c == b'"'

pub data Opens : Str → Type 0 where
  opened : {c : ℕ} {s : Str} → opens c ≡ true → Opens (c ∷ s)

bare_opens : (c : ℕ) → is_benign c ≡ true → opens c ≡ true
unfolding opens
bare_opens c h = rw h

Form-Opens : {v e : Str} → Form v e → (rest : Str) → Opens (e ++ rest)
unfolding any_char opens is_benign
Form-Opens (bare c s h) rest =
    opened (bare_opens c (not-false _ (or-false (not (is_benign c)) _ h).0))
Form-Opens (single v h) rest = opened refl
Form-Opens (double v) rest = opened refl

pub line-Opens : (name : Str) (args : List Str) → Opens (escaped name ++ spaced args)
line-Opens name args = Form-Opens (escaped-Form name) (spaced args)
