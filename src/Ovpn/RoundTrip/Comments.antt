-- ===== src/Ovpn/RoundTrip/Comments.antt =====
-- Comment lines in front of a text: `parse` goes on behind them.
use nm_openvpn.Base.{[], append_assoc, ap, ◌∙◌, List, Str, false, refl, ℕ, ◌++◌, ◌+◌, ◌∷◌, ◌≡◌}
use nm_openvpn.Base.Lists.{All}
use nm_openvpn.Text.{is_whitespace, lines, strip_cr, trim_start}
use nm_openvpn.Text.Laws.{has_newline, lines_line, unlines}
use nm_openvpn.Ovpn.Defs.{Directive, ok}
use nm_openvpn.Ovpn.Parse.{read_line, read_lines, read_top, top}
use nm_openvpn.Ovpn.RoundTrip.Writable.{at}

read_hash :
    (s : Str) (lineno : ℕ) (ds : List Directive)
    → read_line top lineno (at ds) (b'#' ∷ s) ≡ ok (at ds)
unfolding read_line read_top trim_start is_whitespace
read_hash s lineno ds = refl

read_comment :
    (s rest : Str) (lineno : ℕ) (ds : List Directive)
    → has_newline (b'#' ∷ s) ≡ false
    → strip_cr (b'#' ∷ s) ≡ b'#' ∷ s
    → read_lines lineno (at ds) (lines ((b'#' ∷ s) ++ b'\n' ∷ rest))
      ≡ read_lines (lineno + 1) (at ds) (lines rest)
unfolding read_lines
read_comment s rest lineno ds line whole =
    rw (lines_line (b'#' ∷ s) rest line whole) (rw (read_hash s lineno ds) refl)

pub data IsComment : Str → Type 0 where
  comment :
      {s : Str}
      → has_newline (b'#' ∷ s) ≡ false
      → strip_cr (b'#' ∷ s) ≡ b'#' ∷ s
      → IsComment (b'#' ∷ s)

pub read_comments :
    (ls : List Str) (rest : Str) (lineno : ℕ) (ds : List Directive)
    → All IsComment ls
    → (n : ℕ) × (read_lines lineno (at ds) (lines (unlines ls ++ rest))
        ≡ read_lines n (at ds) (lines rest))
read_comments [] rest lineno ds hs = (lineno, refl)
read_comments (l ∷ ls) rest lineno ds (comment {s} line whole, hs) =
    let (n, e) = read_comments ls rest (lineno + 1) ds hs in
    (
      n,
      ap (λ t. read_lines lineno (at ds) (lines (b'#' ∷ t)))
            (append_assoc s (b'\n' ∷ unlines ls) rest)
          ∙ read_comment s (unlines ls ++ rest) lineno ds line whole
          ∙ e,
    )
