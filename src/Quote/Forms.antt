-- ===== src/Quote/Forms.antt =====
-- What `push_escaped` appends to its buffer: one of three forms of the value.
use nm_openvpn.Base.{
  Bool, List, Str, [], ap, append-nil, append_assoc, arith, false, if◌then◌else◌, not, refl, sym,
  true, ℕ, ◌++◌, ◌==◌, ◌||◌, ◌∷◌, ◌≡◌,
}
use nm_openvpn.Text.{any_char}
use nm_openvpn.Quote.{
  is_benign, scan_char, scan, push_double_char, push_double, quoted_by, push_escaped, push_args,
}

abbrev pub is_special : ℕ → Bool
is_special c = c == b'\'' || c == b'\n'

special-benign : (c : ℕ) → is_benign c ≡ true → is_special c ≡ false
unfolding is_benign
special-benign c h = ground arith

scan_char_lem :
    (q d : Bool) (c : ℕ) → scan_char (q, d) c ≡ (q || not (is_benign c), d || is_special c)
unfolding scan_char
scan_char_lem true true c = ground (arith, special-benign c)
scan_char_lem true false c = ground (arith, special-benign c)
scan_char_lem false true c = ground (arith, special-benign c)
scan_char_lem false false c = ground (arith, special-benign c)

or_assoc : (a b c : Bool) → ((a || b) || c) ≡ (a || (b || c))
or_assoc true b c = refl
or_assoc false b c = refl

scan_lem :
    (s : Str) (q d : Bool)
    → scan (q, d) s ≡ (q || any_char (λ c. not (is_benign c)) s, d || any_char is_special s)
unfolding scan any_char
scan_lem [] true true = refl
scan_lem [] true false = refl
scan_lem [] false true = refl
scan_lem [] false false = refl
scan_lem (c ∷ s) q d = rw (scan_char_lem, scan_lem s) (rw (or_assoc q, or_assoc d))

-- one character of a double-quoted value
unfoldable pub double_char : ℕ → Str
double_char c =
    if c == b'\n'
    then b'\\' ∷ b'n' ∷ []
    else if c == b'\\' || c == b'"'
    then b'\\' ∷ c ∷ []
    else c ∷ []

unfoldable pub double_body : Str → Str
double_body [] = []
double_body (c ∷ s) = double_char c ++ double_body s

push_double_char_lem : (buf : Str) (c : ℕ) → push_double_char buf c ≡ buf ++ double_char c
unfolding push_double_char double_char
push_double_char_lem buf c =
    ground
      (arith, append_assoc buf (b'\\' ∷ []) (b'n' ∷ []), append_assoc buf (b'\\' ∷ []) (c ∷ []))

push_double_lem : (s buf : Str) → push_double buf s ≡ buf ++ double_body s
unfolding push_double double_body
push_double_lem [] buf = sym (append-nil buf)
push_double_lem (c ∷ s) buf = simp (push_double_char_lem, push_double_lem s, append_assoc)

-- What `push_escaped` appends.
unfoldable pub escaped : Str → Str
escaped v = push_escaped [] v

quoted_by_lem : (f : Bool × Bool) (buf s : Str) → quoted_by f buf s ≡ buf ++ quoted_by f [] s
unfolding quoted_by
quoted_by_lem (false, _) buf s = refl
quoted_by_lem (true, false) buf s = simp append_assoc
quoted_by_lem (true, true) buf s = simp (push_double_lem, append_assoc)

pub push_escaped_lem : (buf v : Str) → push_escaped buf v ≡ buf ++ escaped v
unfolding push_escaped escaped
push_escaped_lem buf [] = refl
push_escaped_lem buf (c ∷ s) = quoted_by_lem (scan (false, false) (c ∷ s)) buf (c ∷ s)

-- The value as it is, in single quotes, or in double quotes with escapes.
pub data Form : Str → Str → Type 0 where
  bare :
      (c : ℕ) (s : Str) → any_char (λ x. not (is_benign x)) (c ∷ s) ≡ false → Form (c ∷ s) (c ∷ s)
  single : (v : Str) → any_char is_special v ≡ false → Form v (b'\'' ∷ (v ++ b'\'' ∷ []))
  double : (v : Str) → Form v (b'"' ∷ (double_body v ++ b'"' ∷ []))

quoted_by-Form :
    (f : Bool × Bool) (c : ℕ) (s : Str)
    → f ≡ (any_char (λ x. not (is_benign x)) (c ∷ s), any_char is_special (c ∷ s))
    → Form (c ∷ s) (quoted_by f [] (c ∷ s))
unfolding quoted_by
quoted_by-Form (false, d) c s h = bare c s (sym (ap (λ p. p.0) h))
quoted_by-Form (true, false) c s h = single (c ∷ s) (sym (ap (λ p. p.1) h))
quoted_by-Form (true, true) c s h = rw push_double_lem (double (c ∷ s))

pub escaped-Form : (v : Str) → Form v (escaped v)
unfolding escaped push_escaped
escaped-Form [] = single [] (unfold any_char in refl)
escaped-Form (c ∷ s) = quoted_by-Form _ c s (scan_lem (c ∷ s) false false)

-- What `push_args` appends.
unfoldable pub spaced : List Str → Str
spaced [] = []
spaced (a ∷ args) = b' ' ∷ (escaped a ++ spaced args)

pub push_args_lem : (args : List Str) (buf : Str) → push_args buf args ≡ buf ++ spaced args
unfolding push_args spaced
push_args_lem [] buf = sym (append-nil buf)
push_args_lem (a ∷ args) buf = simp (push_args_lem args, push_escaped_lem, append_assoc)
