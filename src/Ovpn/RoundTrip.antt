-- ===== src/Ovpn/RoundTrip.antt =====
-- `parse` reads back what `emit` writes.
pub mod Writable
pub mod Blob
pub mod Comments
use nm_openvpn.Base.{
  List, Str, [], ap, append-nil, append_assoc, arith, false, none, refl, str, true, ℕ, ◌++◌, ◌+◌,
  ◌==◌, ◌||◌, ◌∙◌, ◌∷◌, ◌≡◌,
}
use nm_openvpn.Base.Lists.{All}
use nm_openvpn.Text.{is_whitespace, lines, strip_prefix, trim_start}
use nm_openvpn.Ovpn.RoundTrip.Writable.{
  IsWritable, Reads, emit_from_lem, writable_blob, writable_option, text, texts, at,
}
use nm_openvpn.Ovpn.RoundTrip.Blob.{read_blob, tag_facts}
use nm_openvpn.Ovpn.Defs.{◌>>◌, OvpnConfig, Directive, option, blob, ok}
use nm_openvpn.Quote.Shape.{line-Whole, line-newline, opens, Opens, opened, line-Opens}
use nm_openvpn.Text.Laws.{lines_nil, lines_line}
use nm_openvpn.Ovpn.Validate.{validate}
use nm_openvpn.Ovpn.Parse.{
  start, parse, finish, read_lines, top, Reader, without_prefix, is_tag, add, read_words,
  read_tokens, read_top, read_line,
}
use nm_openvpn.Quote.RoundTrip.{tokenize-line}
use nm_openvpn.Ovpn.Emit.{emit}
use nm_openvpn.Quote.{is_benign, tokenize}
use nm_openvpn.Quote.Forms.{escaped, spaced}

-- A line that opens a word is neither blank nor a comment.
opens_lem :
    (c : ℕ)
    → opens c ≡ true
    → (is_whitespace c ≡ false) × ((c == b';' || c == b'#') ≡ false) × ((c == 0xfeff) ≡ false)
unfolding opens is_benign is_whitespace
opens_lem c h = ground arith

read_opened :
    {s : Str} (lineno : ℕ) (r : Reader)
    → Opens s
    → read_line top lineno r s ≡ read_tokens lineno r (tokenize s)
unfolding read_line read_top trim_start
read_opened lineno r (opened {c} {s} h) =
    let (blank, comment, bom) = opens_lem c h in rw blank (rw comment)

without_prefix_lem : (p s : Str) → strip_prefix p s ≡ none → without_prefix p s ≡ s
unfolding without_prefix
without_prefix_lem p s h = rw (h, without_prefix)

read_words_option :
    (name : Str) (args : List Str) (lineno : ℕ) (r : Reader)
    → strip_prefix (str "--") name ≡ none
    → is_tag name ≡ false
    → read_words lineno r (name ∷ args) ≡ add r (option name args)
unfolding read_words
read_words_option name args lineno r dashes tag =
    rw (without_prefix_lem (str "--") name dashes) (rw tag)

read_option :
    (name : Str) (args : List Str) (lineno : ℕ) (ds : List Directive)
    → strip_prefix (str "--") name ≡ none
    → is_tag name ≡ false
    → read_line top lineno (at ds) (escaped name ++ spaced args)
      ≡ ok (at (ds ++ option name args ∷ []))
read_option name args lineno ds dashes tag =
    read_opened lineno (at ds) (line-Opens name args)
    ∙ rw tokenize-line (
        unfold read_tokens in
        ap ok (read_words_option name args lineno (at ds) dashes tag ∙ unfold add in refl))

read_directive : {d : Directive} → IsWritable d → Reads d
unfolding text read_lines
read_directive (writable_option {name} {args} dashes tag) = λ ds lineno rest. (
  lineno + 1,
  rw (lines_line (escaped name ++ spaced args) rest (line-newline name args) (line-Whole name args))
      (rw (read_option name args lineno ds dashes tag)),
)
read_directive (writable_blob {name} l ls known hs e) =
    rw e (read_blob name l ls known hs (tag_facts name known))

pub read_texts :
    (ds before : List Directive) (lineno : ℕ)
    → All IsWritable ds
    → read_lines lineno (at before) (lines (texts ds)) ≡ ok (before ++ ds)
unfolding texts
read_texts [] before lineno h = rw (lines_nil, append-nil) (unfold read_lines finish in refl)
read_texts (d ∷ ds) before lineno (h, hs) =
    let (n, e) = read_directive h before lineno (texts ds) in
    e ∙ read_texts ds (before ++ d ∷ []) n hs ∙ rw append_assoc

Opens-no_bom : {s : Str} → Opens s → (t : Str) → strip_prefix (0xfeff ∷ []) (s ++ t) ≡ none
unfolding strip_prefix
Opens-no_bom (opened {c} h) t = rw (opens_lem c h).2

no_bom : (ds : List Directive) → strip_prefix (0xfeff ∷ []) (texts ds) ≡ none
unfolding texts text
no_bom [] = unfold strip_prefix in refl
no_bom (option name args ∷ ds) = Opens-no_bom (line-Opens name args) _
no_bom (blob name body ∷ ds) = unfold strip_prefix in refl

-- A config whose directives can be written is read back from its text exactly if it passes
-- `validate`; otherwise `parse` gives the error of `validate`.
pub parse-emit :
    (cfg : OvpnConfig)
    → All IsWritable cfg.directives
    → parse (emit cfg) ≡ (validate cfg.directives >> ok cfg)
unfolding parse emit start
parse-emit cfg h =
    rw
      (
        emit_from_lem cfg.directives [],
        without_prefix_lem (0xfeff ∷ []) (texts cfg.directives) (no_bom cfg.directives),
        read_texts cfg.directives [] 1 h,
      )
      refl
