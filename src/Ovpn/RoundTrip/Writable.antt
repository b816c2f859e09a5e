-- ===== src/Ovpn/RoundTrip/Writable.antt =====
-- The directives that are read back, and the text of each in front of what follows it.
use nm_openvpn.Base.{
  Bool-cases, List, Str, [], append-nil, append_assoc, false, if◌then◌else◌, inl, inr, none, not,
  one_of, str, str_eq, sym, true, ℕ, ◌++◌, ◌∙◌, ◌∷◌, ◌≡◌,
}
use nm_openvpn.Base.Lists.{All}
use nm_openvpn.Text.{ends_with, lines, strip_cr, strip_prefix, trim}
use nm_openvpn.Ovpn.Defs.{Directive, option, blob, inline_blob_names}
use nm_openvpn.Text.Laws.{unlines, has_newline}
use nm_openvpn.Ovpn.Parse.{read_lines, top, inside, Reader, is_tag, close_tag}
use nm_openvpn.Ovpn.Emit.{close_body, emit_directive, emit_from}
use nm_openvpn.Quote.Forms.{escaped, spaced, push_escaped_lem, push_args_lem}

-- A line that `lines` gives back as it is, and that does not close the blob.
pub record IsBodyLine (name line : Str) : Type 0 where
  pub one_line : has_newline line ≡ false
  pub whole : strip_cr line ≡ line
  pub not_close : str_eq (trim line) (close_tag name) ≡ false

-- A directive that is read back as it is. The name of an option has no `--` to lose and is not
-- taken for a tag; a blob is a known one, and its body has at least one line.
pub data IsWritable : Directive → Type 0 where
  writable_option :
      {name : Str} {args : List Str}
      → strip_prefix (str "--") name ≡ none
      → is_tag name ≡ false
      → IsWritable (option name args)
  writable_blob :
      {name body : Str} (l : Str) (ls : List Str)
      → one_of inline_blob_names name ≡ true
      → All (IsBodyLine name) (l ∷ ls)
      → body ≡ unlines (l ∷ ls)
      → IsWritable (blob name body)

-- the `\n` that the body lacks
unfoldable pub missing : Str → Str
missing body = if not (ends_with (b'\n' ∷ []) body) then b'\n' ∷ [] else []

-- The text of one directive, in front of what follows it.
unfoldable pub text : Directive → Str → Str
text (option name args) rest = (escaped name ++ spaced args) ++ b'\n' ∷ rest
text (blob name body) rest =
    (b'<' ∷ (name ++ b'>' ∷ []))
    ++ b'\n' ∷ ((body ++ missing body) ++ (close_tag name ++ b'\n' ∷ rest))

unfoldable pub texts : List Directive → Str
texts [] = []
texts (d ∷ ds) = text d (texts ds)

close_body_lem : (body out : Str) → close_body body out ≡ out ++ missing body
unfolding close_body missing
close_body_lem body out = elim (Bool-cases (ends_with (b'\n' ∷ []) body)) [
  | inl h ↦ rw (h, append-nil)
  | inr h ↦ rw h
]

emit_directive_lem :
    (d : Directive) (out rest : Str) → emit_directive out d ++ rest ≡ out ++ text d rest
unfolding emit_directive text close_tag
emit_directive_lem (option name args) out rest =
    simp (push_args_lem, push_escaped_lem, append_assoc)
emit_directive_lem (blob name body) out rest = simp (close_body_lem, append_assoc)

pub emit_from_lem : (ds : List Directive) (out : Str) → emit_from out ds ≡ out ++ texts ds
unfolding emit_from texts
emit_from_lem [] out = sym (append-nil out)
emit_from_lem (d ∷ ds) out =
    emit_from_lem ds (emit_directive out d) ∙ emit_directive_lem d out (texts ds)

abbrev pub at : List Directive → Reader
at ds = record { place = top; directives = ds }

abbrev pub within_blob : List Directive → Str → ℕ → Str → Reader
within_blob ds name lineno body = record { place = inside name lineno body; directives = ds }

abbrev pub Reads : Directive → Type 0
Reads d =
    (ds : List Directive) (lineno : ℕ) (rest : Str)
    → (n : ℕ) × (read_lines lineno (at ds) (lines (text d rest))
        ≡ read_lines n (at (ds ++ d ∷ [])) (lines rest))
