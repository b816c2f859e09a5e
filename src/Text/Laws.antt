-- ===== src/Text/Laws.antt =====
-- Laws of the text functions: `any_char` and `lines` over an append, membership in a list.
use nm_openvpn.Base.{
  Bool, Bool-cases, List, Option, Str, [], ap, append-nil, append_assoc, arith, false, inl, inr,
  none, not, one_of, refl, some, str_eq, str_eq_iff, sym, true, ℕ, ◌++◌, ◌==◌, ◌||◌, ◌∙◌, ◌∷◌, ◌≡◌,
}
use nm_openvpn.Base.Lists.{All}
use mathlib.Core.Bool.{false≢true}
use nm_openvpn.Text.Chars.{any_char, is_empty, is_whitespace}
use nm_openvpn.Text.Split.{drop_empty, cut, split, split_whitespace}
use nm_openvpn.Text.Lines.{strip_cr, lines_from, lines}

pub any_char-append :
    (p : ℕ → Bool) (s t : Str) → any_char p (s ++ t) ≡ (any_char p s || any_char p t)
unfolding any_char
any_char-append p [] t = refl
any_char-append p (c ∷ s) t = ground (arith, any_char-append p s t)

pub or-false : (a b : Bool) → (a || b) ≡ false → (a ≡ false) × (b ≡ false)
or-false true b h = (cc, cc)
or-false false b h = (refl, h)

pub false-or : (a b : Bool) → a ≡ false → b ≡ false → (a || b) ≡ false
false-or a b h k = rw (h, k)

pub not-false : (a : Bool) → not a ≡ false → a ≡ true
not-false true h = refl
not-false false h = cc

abbrev pub has_newline : Str → Bool
has_newline s = any_char (λ c. c == b'\n') s

-- Every predicate of the listed texts holds of a member.
pub one_of-elim {ℓ} :
    (P : Str → Type ℓ) (ts : List Str) (s : Str) → All P ts → one_of ts s ≡ true → P s
unfolding one_of
one_of-elim P [] s hs h = absurd (false≢true h)
one_of-elim P (t ∷ ts) s (ht, hs) h = elim (Bool-cases (str_eq s t)) [
  | inl e ↦ rw ((str_eq_iff s t).0 e) ht
  | inr e ↦ one_of-elim P ts s hs (rw (e, one_of) at h)
]

is_empty-append : (s t : Str) (c : ℕ) → is_empty (s ++ c ∷ t) ≡ false
unfolding is_empty
is_empty-append [] t c = refl
is_empty-append (x ∷ s) t c = refl

-- A `\r` is dropped only at the very end.
pub strip_cr-append : (s t : Str) (c : ℕ) → strip_cr (s ++ c ∷ t) ≡ s ++ strip_cr (c ∷ t)
unfolding strip_cr
strip_cr-append [] t c = refl
strip_cr-append (x ∷ s) t c = ground (arith, is_empty-append s t c, strip_cr-append s t c)

lines_from_line :
    (l cur rest : Str)
    → has_newline l ≡ false
    → lines_from cur (l ++ b'\n' ∷ rest) ≡ strip_cr (cur ++ l) ∷ lines rest
unfolding lines lines_from any_char
lines_from_line [] cur rest h = rw append-nil
lines_from_line (c ∷ l) cur rest h =
    let (here, there) = or-false (c == b'\n') _ h in
    rw (here, lines_from) (lines_from_line l (cur ++ c ∷ []) rest there ∙ rw append_assoc)

-- The first line of a text, and the others.
pub lines_line :
    (l rest : Str)
    → has_newline l ≡ false
    → strip_cr l ≡ l
    → lines (l ++ b'\n' ∷ rest) ≡ l ∷ lines rest
unfolding lines
lines_line l rest h e = lines_from_line l [] rest h ∙ ap (λ x. x ∷ lines rest) e

pub lines_nil : lines [] ≡ []
unfolding lines
lines_nil = refl

-- The lines of a text, each with its `\n`.
abbrev pub unlines : List Str → Str
unlines [] = []
unlines (l ∷ ls) = l ++ b'\n' ∷ unlines ls

-- `lines` undoes `unlines`, where no line holds a newline or ends in `\r`.
pub record IsLine (l : Str) : Type 0 where
  pub one_line : has_newline l ≡ false
  pub whole : strip_cr l ≡ l

pub lines-unlines : (ls : List Str) → All IsLine ls → lines (unlines ls) ≡ ls
lines-unlines [] h = lines_nil
lines-unlines (l ∷ ls) (h, hs) =
    lines_line l (unlines ls) h.one_line h.whole ∙ ap (◌∷◌ l) (lines-unlines ls hs)

pub unlines-append : (ks ls : List Str) → unlines (ks ++ ls) ≡ unlines ks ++ unlines ls
unlines-append [] ls = refl
unlines-append (k ∷ ks) ls = simp (unlines-append ks, append_assoc)

pub cut-append :
    (p : ℕ → Bool) (w rest cur : Str)
    → any_char p w ≡ false
    → cut p (w ++ rest) cur ≡ cut p rest (cur ++ w)
unfolding cut any_char
cut-append p [] rest cur h = rw append-nil
cut-append p (c ∷ w) rest cur h =
    let (here, there) = or-false (p c) _ h in
    rw (here, cut) (cut-append p w rest (cur ++ c ∷ []) there ∙ rw append_assoc)

pub cut_at_sep :
    (p : ℕ → Bool) (d : ℕ) (rest cur : Str)
    → p d ≡ true
    → cut p (d ∷ rest) cur ≡ cur ∷ cut p rest []
unfolding cut
cut_at_sep p d rest cur k = rw (k, cut)

unfoldable pub first_of : List Str → Option Str
first_of [] = none
first_of (w ∷ ws) = some w

-- `split_whitespace().next()`
unfoldable pub first_word : Str → Option Str
first_word s = first_of (split_whitespace s)

pub first_word_end :
    (c : ℕ) (w : Str) → any_char is_whitespace (c ∷ w) ≡ false → first_word (c ∷ w) ≡ some (c ∷ w)
unfolding first_word split_whitespace split first_of drop_empty cut
first_word_end c w h =
    ap (λ t. first_of (drop_empty (cut is_whitespace t []))) (sym (append-nil (c ∷ w)))
    ∙ ap (λ ws. first_of (drop_empty ws)) (cut-append is_whitespace (c ∷ w) [] [] h)

-- A word at the start of a text is its first word, before white space or the end.
pub first_word_space :
    (c : ℕ) (w rest : Str) (d : ℕ)
    → any_char is_whitespace (c ∷ w) ≡ false
    → is_whitespace d ≡ true
    → first_word ((c ∷ w) ++ d ∷ rest) ≡ some (c ∷ w)
unfolding first_word split_whitespace split first_of drop_empty
first_word_space c w rest d h k =
    ap (λ ws. first_of (drop_empty ws))
      (cut-append is_whitespace (c ∷ w) (d ∷ rest) [] h ∙ cut_at_sep is_whitespace d rest (c ∷ w) k)
