-- ===== src/Ovpn/RoundTrip/Blob.antt =====
-- An inline blob is read back: its tag lines and its body.
use nm_openvpn.Base.{
  Bool, List, Str, [], ap, append-nil, append_assoc, false, one_of, refl, str, str_eq, str_eq_refl,
  true, ℕ, ◌++◌, ◌+◌, ◌||◌, ◌∙◌, ◌∷◌, ◌≡◌,
}
use nm_openvpn.Base.Lists.{All}
use nm_openvpn.Text.{
  any_char, ends_with, is_whitespace, lines, starts_with, strip_cr, strip_prefix, trim, trim_start,
}
use nm_openvpn.Ovpn.RoundTrip.Writable.{IsBodyLine, Reads, within_blob}
use nm_openvpn.Ovpn.Defs.{Directive, blob, inline_blob_names, ok}
use nm_openvpn.Text.Laws.{unlines, lines_line, one_of-elim, has_newline}
use nm_openvpn.Ovpn.Parse.{
  read_inside, read_lines, drop_ends, drop_last, top, inside, Reader, without_prefix, is_tag,
  close_tag, add, read_words, read_tokens, read_top, read_line,
}
use nm_openvpn.Quote.{Tokens, tokenize}
use nm_openvpn.Ovpn.RoundTrip.Writable.{IsBodyLine, missing, text, at, within_blob, Reads}

abbrev tag_line : Str → Str
tag_line name = b'<' ∷ (name ++ b'>' ∷ [])

-- What the reader finds out about the two tag lines of a blob.
abbrev TagFacts : Str → Type 0
TagFacts name =
    (tokenize (tag_line name) ≡ Tokens.ok (tag_line name ∷ []))
    × (has_newline (tag_line name) ≡ false)
    × (strip_cr (tag_line name) ≡ tag_line name)
    × (is_tag (tag_line name) ≡ true)
    × (drop_ends (tag_line name) ≡ name)
    × (has_newline (close_tag name) ≡ false)
    × (strip_cr (close_tag name) ≡ close_tag name)
    × (trim (close_tag name) ≡ close_tag name)

pub tag_facts : (name : Str) → one_of inline_blob_names name ≡ true → TagFacts name
unfolding inline_blob_names tokenize any_char strip_cr is_tag starts_with ends_with drop_last
    drop_ends close_tag trim str_eq
tag_facts name h = one_of-elim TagFacts inline_blob_names name (assumption refl) h

read_words_tag :
    (name : Str) (lineno : ℕ) (r : Reader)
    → TagFacts name
    → read_words lineno r (tag_line name ∷ []) ≡ record r { place = inside name lineno [] }
unfolding read_words without_prefix strip_prefix str
read_words_tag name lineno r (_, _, _, tag, inner, _, _, _) = rw tag (rw inner)

read_tag :
    (name : Str) (lineno : ℕ) (ds : List Directive)
    → TagFacts name
    → read_line top lineno (at ds) (tag_line name) ≡ ok (within_blob ds name lineno [])
unfolding read_line trim_start is_whitespace read_top
read_tag name lineno ds f =
    rw f.0 (unfold read_tokens in ap ok (read_words_tag name lineno (at ds) f))

-- The lines of the body, up to the closing tag.
read_body :
    (name : Str) (ls : List Str) (ds : List Directive) (o lineno : ℕ) (body rest : Str)
    → All (IsBodyLine name) ls
    → (n : ℕ) × (read_lines lineno (within_blob ds name o body) (lines (unlines ls ++ rest))
        ≡ read_lines n (within_blob ds name o (body ++ unlines ls)) (lines rest))
unfolding read_lines read_line lines read_inside
read_body name [] ds o lineno body rest h = (lineno, rw append-nil)
read_body name (l ∷ ls) ds o lineno body rest (h, hs) =
    let (n, e) = read_body name ls ds o (lineno + 1) ((body ++ l) ++ b'\n' ∷ []) rest hs in
    (
      n,
      rw
          (
            append_assoc l,
            lines_line l _ h.one_line h.whole,
            read_lines,
            read_line,
            read_inside,
            h.not_close,
          )
          (e ∙ simp append_assoc),
    )

or-true : (a b : Bool) → b ≡ true → (a || b) ≡ true
or-true true b h = refl
or-true false b h = h

ends_with-append : (p s t : Str) → ends_with p t ≡ true → ends_with p (s ++ t) ≡ true
unfolding ends_with
ends_with-append p [] t h = h
ends_with-append p (c ∷ s) t h = or-true _ _ (ends_with-append p s t h)

ends_with-unlines : (l : Str) (ls : List Str) → ends_with (b'\n' ∷ []) (unlines (l ∷ ls)) ≡ true
ends_with-unlines l [] = ends_with-append _ l _ (unfold ends_with str_eq in refl)
ends_with-unlines l (m ∷ ls) =
    ends_with-append _ l _ (ends_with-append _ (b'\n' ∷ []) _ (ends_with-unlines m ls))

missing-unlines : (l : Str) (ls : List Str) → missing (unlines (l ∷ ls)) ≡ []
unfolding missing
missing-unlines l ls = rw (ends_with-unlines l ls)

read_close :
    (name body : Str) (ds : List Directive) (o lineno : ℕ)
    → one_of inline_blob_names name ≡ true
    → TagFacts name
    → read_line (inside name o body) lineno (within_blob ds name o body) (close_tag name)
      ≡ ok (at (ds ++ blob name body ∷ []))
unfolding read_line read_inside add
read_close name body ds o lineno h f = rw (f.7, str_eq_refl (close_tag name)) (rw h)

pub read_blob :
    (name : Str) (l : Str) (ls : List Str)
    → one_of inline_blob_names name ≡ true
    → All (IsBodyLine name) (l ∷ ls)
    → TagFacts name
    → Reads (blob name (unlines (l ∷ ls)))
unfolding text
read_blob name l ls known hs f ds lineno rest =
    let body = unlines (l ∷ ls) in
    let after = close_tag name ++ b'\n' ∷ rest in
    let (n, e) = read_body name (l ∷ ls) ds lineno (lineno + 1) [] after hs in
    (
      n + 1,
      rw (missing-unlines l ls, append-nil)
          (lines_tag (unlines (l ∷ ls) ++ after) ∙ e ∙ lines_close n (unlines (l ∷ ls))),
    )
  where
    lines_tag :
        (t : Str)
        → read_lines lineno (at ds) (lines (tag_line name ++ b'\n' ∷ t))
          ≡ read_lines (lineno + 1) (within_blob ds name lineno []) (lines t)
    lines_tag t =
        rw (lines_line (tag_line name) t f.1 f.2)
          (unfold read_lines in rw (read_tag name lineno ds f))

    lines_close :
        (n : ℕ) (body : Str)
        → read_lines n (within_blob ds name lineno body) (lines (close_tag name ++ b'\n' ∷ rest))
          ≡ read_lines (n + 1) (at (ds ++ blob name body ∷ [])) (lines rest)
    lines_close n body =
        rw (lines_line (close_tag name) rest f.5 f.6)
          (unfold read_lines in rw (read_close name body ds lineno n known f))
