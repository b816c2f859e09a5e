-- ===== src/Profile/Rules.antt =====
-- One rule for each way in which `build_profile_string` extends the buffer.
use nm_openvpn.Base.{
  Bool, List, Option, Str, [], append-nil, false, if◌then◌else◌, none, one_of, refl, some, str, sym,
  true, ◌++◌, ◌∷◌, ◌≡◌,
}
use nm_openvpn.Base.Lists.{All, All-append}
use nm_openvpn.Text.{any_char, is_empty, is_whitespace}
use nm_openvpn.Profile.Writer.{line, line_opt, line_present, present}
use nm_openvpn.Profile.Clean.{plain_tags, IsSafeLine, plain, security, Clean, line_lem}
use nm_openvpn.Text.Laws.{
  unlines-append, first_word, first_word_end, first_word_space, IsLine, one_of-elim,
}
use mathlib.Core.Bool.{false≢true}
use nm_openvpn.Quote as Q
use nm_openvpn.Quote.Forms.{escaped, spaced}
use nm_openvpn.Quote.Shape.{line-newline, line-Whole}
use nm_openvpn.Profile.Values.{Data, when, given, line_str, line_int, is_i64}
use nm_openvpn.Profile.Blocks.{steps, yes_flag}

-- A statement that leaves a clean buffer clean.
pub record Keeps (f : Str → Str) : Type 0 where
  pub keeps : (w : Str) → Clean w → Clean (f w)

pub append-Clean :
    (buf l : Str) → Clean buf → IsLine l → IsSafeLine l → Clean (buf ++ (l ++ b'\n' ∷ []))
append-Clean buf l c n s = record {
  parts = c.parts ++ l ∷ [];
  spells = rw c.spells (sym (unlines-append c.parts (l ∷ [])));
  are_lines = All-append IsLine c.parts (l ∷ []) c.are_lines (n, tt);
  are_safe = All-append IsSafeLine c.parts (l ∷ []) c.are_safe (s, tt);
}

-- A plain directive is one word, and is written with no quotes.
abbrev IsWord : Str → Type 0
IsWord tag = (escaped tag ≡ tag) × (any_char is_whitespace tag ≡ false) × (is_empty tag ≡ false)

tag_facts : (tag : Str) → one_of plain_tags tag ≡ true → IsWord tag
unfolding plain_tags escaped any_char is_whitespace is_empty str
tag_facts tag h = one_of-elim IsWord plain_tags tag (unfold Q.push_escaped in assumption refl) h

first_word_tag :
    (tag : Str) (args : List Str) → IsWord tag → first_word (escaped tag ++ spaced args) ≡ some tag
unfolding spaced is_whitespace is_empty
first_word_tag [] args (_, _, h) = absurd (false≢true (sym h))
first_word_tag (c ∷ s) [] (e, h, _) = rw (e, append-nil) (first_word_end c s h)
first_word_tag (c ∷ s) (a ∷ args) (e, h, _) =
    rw e (first_word_space c s (escaped a ++ spaced args) b' ' h refl)

pub line-Keeps :
    (tag : Str) (args : List Str) → one_of plain_tags tag ≡ true → Keeps (line (tag ∷ args))
line-Keeps tag args h = record {
  keeps = λ w c. rw line_lem (
      append-Clean w _ c (record { one_line = line-newline tag args; whole = line-Whole tag args })
        (plain tag (first_word_tag tag args (tag_facts tag h)) h));
}

pub line_opt-Keeps :
    (tag : Str) (os : List (Option Str))
    → one_of plain_tags tag ≡ true
    → Keeps (line_opt (some tag ∷ os))
unfolding line_opt present line_present
line_opt-Keeps tag os h = record { keeps = (line-Keeps tag (present os) h).keeps }

pub steps-Keeps : (fs : List (Str → Str)) → All Keeps fs → Keeps (steps fs)
unfolding steps
steps-Keeps [] h = record { keeps = λ w c. c }
steps-Keeps (f ∷ fs) (h, hs) = record {
  keeps = λ w c. (steps-Keeps fs hs).keeps (f w) (h.keeps w c);
}

pub when-Keeps : (b : Bool) (f : Str → Str) → Keeps f → Keeps (when b f)
unfolding when
when-Keeps true f h = record { keeps = h.keeps }
when-Keeps false f h = record { keeps = λ w c. c }

pub given-Keeps :
    (o : Option Str) (f : Str → Str → Str) → ((v : Str) → Keeps (f v)) → Keeps (given o f)
unfolding given
given-Keeps none f h = record { keeps = λ w c. c }
given-Keeps (some v) f h = record { keeps = (h v).keeps }

pub if-Keeps : (b : Bool) (f g : Str → Str) → Keeps f → Keeps g → Keeps (if b then f else g)
if-Keeps true f g h k = h
if-Keeps false f g h k = k

pub line_str-Keeps :
    (tag : Str) (o : Option Str) → one_of plain_tags tag ≡ true → Keeps (line_str tag o)
unfolding line_str
line_str-Keeps tag o h = given-Keeps o _ (λ v. line-Keeps tag (v ∷ []) h)

pub line_int-Keeps :
    (tag : Str) (o : Option Str) → one_of plain_tags tag ≡ true → Keeps (line_int tag o)
unfolding line_int
line_int-Keeps tag o h = given-Keeps o _ (λ v. when-Keeps (is_i64 v) _ (line-Keeps tag (v ∷ []) h))

pub yes_flag-Keeps :
    (data' : Data) (key tag : Str) → one_of plain_tags tag ≡ true → Keeps (yes_flag data' key tag)
unfolding yes_flag
yes_flag-Keeps data' key tag h = when-Keeps _ _ (line-Keeps tag [] h)

-- The fixed security level.
pub security-Keeps : Keeps (line (str "script-security" ∷ str "2" ∷ []))
security-Keeps = record {
  keeps = λ w c. rw line_lem (
      append-Clean w _ c
        (record {
          one_line = line-newline (str "script-security") (str "2" ∷ []);
          whole = line-Whole (str "script-security") (str "2" ∷ []);
        })
        (security (unfold escaped spaced str Q.push_escaped in refl)));
}
