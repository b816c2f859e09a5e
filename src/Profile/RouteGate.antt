-- ===== src/Profile/RouteGate.antt =====
-- The gate for preserved route lines: what it lets through is one line and begins with a route
-- directive.
use nm_openvpn.Base.{
  Bool-cases, List, Str, [], ap, append_assoc, arith, false, inl, inr, one_of, refl, some, str,
  str_eq, true, ℕ, ◌==◌, ◌∷◌, ◌≡◌,
}
use nm_openvpn.Text.{any_char, is_control, is_empty, lines, split_whitespace, strip_cr, trim}
use mathlib.Core.Bool.{false≢true}
use nm_openvpn.Profile.Writer.{raw_line}
use nm_openvpn.Profile.Values.{Data, allowed_routes, are_safe_words, is_safe_route_line}
use nm_openvpn.Profile.Build.{route_line, route_lines, route_block}
use nm_openvpn.Profile.Clean.{plain_tags, IsSafeLine, plain, Clean}
use nm_openvpn.Profile.Rules.{Keeps, append-Clean, given-Keeps}
use nm_openvpn.Text.Laws.{first_word, first_of, IsLine, one_of-elim, or-false}

-- A line that passes the gate has no control character and begins with a route directive.
control_char : (c : ℕ) → is_control c ≡ false → ((c == b'\n') ≡ false) × ((c == b'\r') ≡ false)
unfolding is_control
control_char c h = ground arith

no_control-IsLine : (l : Str) → any_char is_control l ≡ false → IsLine l
unfolding any_char strip_cr
no_control-IsLine [] h = record { one_line = refl; whole = refl }
no_control-IsLine (c ∷ l) h =
    let (here, there) = or-false (is_control c) _ h in
    let rest = no_control-IsLine l there in
    let (newline, return) = control_char c here in
    record {
      one_line = rw newline rest.one_line;
      whole = rw (return, strip_cr) (ap (◌∷◌ c) rest.whole);
    }

routes_plain : (d : Str) → one_of allowed_routes d ≡ true → one_of plain_tags d ≡ true
unfolding allowed_routes plain_tags str str_eq
routes_plain d h =
    one_of-elim (λ t. one_of plain_tags t ≡ true) allowed_routes d
      (unfold one_of in assumption refl) h

pub safe_words :
    (ws : List Str)
    → are_safe_words ws ≡ true
    → (d : Str) × (first_of ws ≡ some d) × (one_of allowed_routes d ≡ true)
unfolding are_safe_words first_of
safe_words [] h = absurd (false≢true h)
safe_words (d ∷ ts) h = elim (Bool-cases (one_of allowed_routes d)) [
  | inl e ↦ (d, refl, e)
  | inr e ↦ absurd (false≢true (rw e at h))
]

pub safe_route :
    (l : Str)
    → is_safe_route_line l ≡ true
    → (any_char is_control l ≡ false) × (are_safe_words (split_whitespace l) ≡ true)
unfolding is_safe_route_line
safe_route l h = elim (Bool-cases (any_char is_control l)) [
  | inl e ↦ absurd (false≢true (rw e at h))
  | inr e ↦ (e, rw e at h)
]

safe_route-IsSafeLine : (l : Str) → is_safe_route_line l ≡ true → IsSafeLine l
unfolding first_word
safe_route-IsSafeLine l h =
    let (d, first, allowed) = safe_words (split_whitespace l) (safe_route l h).1 in
    plain d first (routes_plain d allowed)

raw_line-Clean : (l w : Str) → is_safe_route_line l ≡ true → Clean w → Clean (raw_line l w)
unfolding raw_line
raw_line-Clean l w h c =
    rw append_assoc
      (append-Clean w l c (no_control-IsLine l (safe_route l h).0) (safe_route-IsSafeLine l h))

route_line-Keeps : (l : Str) → Keeps (route_line l)
unfolding route_line
route_line-Keeps l = record { keeps = λ w c. branch w c }
  where
    branch : (w : Str) → Clean w → Clean (route_line l w)
    branch w c = elim (Bool-cases (is_empty l)) [
      | inl e ↦ rw e c
      | inr e ↦ rw e (elim (Bool-cases (is_safe_route_line l)) [
        | inl h ↦ rw h (raw_line-Clean l w h c)
        | inr h ↦ rw h c
      ])
    ]

route_lines-Keeps : (ls : List Str) → Keeps (route_lines ls)
unfolding route_lines
route_lines-Keeps [] = record { keeps = λ w c. c }
route_lines-Keeps (l ∷ ls) = record {
  keeps = λ w c. (route_lines-Keeps ls).keeps _ ((route_line-Keeps (trim l)).keeps w c);
}

pub route_block-Keeps : (data' : Data) → Keeps (route_block data')
unfolding route_block
route_block-Keeps data' = given-Keeps _ _ (λ routes. route_lines-Keeps (lines routes))
