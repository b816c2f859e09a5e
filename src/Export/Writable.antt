-- ===== src/Export/Writable.antt =====
-- Every directive that `from_nm_data` pushes can be written and read back.
use nm_openvpn.Base.{
  Bool-cases, List, Option, Str, [], arith, false, inl, inr, none, one_of, refl, some, str, true,
  ◌∷◌, ◌≡◌,
}
use nm_openvpn.Base.Lists.{All, All-append}
use nm_openvpn.Text.{starts_with, strip_prefix}
use nm_openvpn.Text.Laws.{one_of-elim}
use nm_openvpn.Export.Blocks.{pairs_str, push_opt, given, push_pairs}
use nm_openvpn.Export.Build.{from_nm_data}
use nm_openvpn.Export.Words.{other_words, IsOther, IsNamed}
use nm_openvpn.Export.Names.{before_pairs-IsNamed, after_pairs-IsNamed, from_nm_data-split}
use mathlib.Core.Bool.{false≢true}
use nm_openvpn.Export.RouteWords.{leads}
use nm_openvpn.Profile.Values.{Data, get}
use nm_openvpn.Ovpn.Defs.{Directive, option, blob}
use nm_openvpn.Ovpn.Parse.{is_tag}
use nm_openvpn.Ovpn.RoundTrip.Writable.{IsWritable, writable_option}

-- A name that is not taken for a tag, and has no `--` to lose.
record IsPlain (name : Str) : Type 0 where
  dashes : strip_prefix (str "--") name ≡ none
  tag : is_tag name ≡ false

-- A word that begins with `r` is a plain name.
leads-IsPlain : (name : Str) → leads name ≡ true → IsPlain name
unfolding leads str strip_prefix is_tag starts_with
leads-IsPlain [] h = absurd (false≢true h)
leads-IsPlain (c ∷ s) h = record { dashes = ground arith; tag = ground arith }

words-plain : All (λ w. (strip_prefix (str "--") w ≡ none) × (is_tag w ≡ false)) other_words
unfolding other_words str strip_prefix is_tag starts_with
words-plain = assumption refl

name-IsPlain : (name : Str) → IsOther name → IsPlain name
name-IsPlain name h = elim (Bool-cases (one_of other_words name)) [
  | inl e ↦
      let (dashes, tag) =
        one_of-elim (λ w. (strip_prefix (str "--") w ≡ none) × (is_tag w ≡ false)) other_words name
          words-plain e in
      record { dashes = dashes; tag = tag }
  | inr e ↦ leads-IsPlain name (rw e at h)
]

named-IsWritable : (ds : List Directive) → All IsNamed ds → All IsWritable ds
named-IsWritable [] h = tt
named-IsWritable (option name args ∷ ds) (h, hs) =
    let plain = name-IsPlain name h in
    (writable_option plain.dashes plain.tag, named-IsWritable ds hs)
named-IsWritable (blob name body ∷ ds) (h, hs) = absurd h

pairs-IsWritable :
    (data' : Data) (ps : List (Str × Str))
    → All (λ kn. (strip_prefix (str "--") kn.1 ≡ none) × (is_tag kn.1 ≡ false)) ps
    → All IsWritable (push_pairs data' ps)
unfolding push_pairs given push_opt
pairs-IsWritable data' [] h = tt
pairs-IsWritable data' ((k, n) ∷ ps) ((dashes, tag), hs) =
    All-append IsWritable _ _ (one (get data' k)) (pairs-IsWritable data' ps hs)
  where
    one : (o : Option Str) → All IsWritable (given o (λ v. push_opt n (v ∷ [])))
    one none = tt
    one (some v) = (writable_option dashes tag, tt)

pairs_str-plain :
    All (λ kn. (strip_prefix (str "--") kn.1 ≡ none) × (is_tag kn.1 ≡ false)) pairs_str
unfolding pairs_str str strip_prefix is_tag starts_with
pairs_str-plain = assumption refl

pub from_nm_data-IsWritable : (data' : Data) → All IsWritable (from_nm_data data').directives
from_nm_data-IsWritable data' = rw (from_nm_data-split data') (
    All-append IsWritable _ _ (named-IsWritable _ (before_pairs-IsNamed data')) (
      All-append IsWritable _ _ (pairs-IsWritable data' pairs_str pairs_str-plain)
        (named-IsWritable _ (after_pairs-IsNamed data'))))
