-- ===== src/Dialog/Needs/Hints.antt =====
-- What a list of hints asks for, whatever their order.
use nm_openvpn.Base.{
  Bool, Bool-cases, List, Option, Str, [], arith, false, inl, inr, none, one_of, refl, some, str,
  str_eq, true, ◌||◌, ◌∙◌, ◌∷◌, ◌≡◌,
}
use nm_openvpn.Text.{strip_prefix}
use nm_openvpn.Base.Maps.{Map}
use nm_openvpn.Dialog.Needs.{
  Files, nothing_needed, needs, first_prompt, need_hint, read_hints, Needed, read_hint, vpn_msg_tag,
}
use mathlib.Core.Bool.{true≢false}
use nm_openvpn.Text.Laws.{one_of-elim}

-- One of the hints is one of these words.
unfoldable pub any_in : List Str → List Str → Bool
any_in words [] = false
any_in words (h ∷ hs) = one_of words h || any_in words hs

abbrev or_else : Option Str → Option Str → Option Str
or_else none o = o
or_else (some s) o = some s

-- The text of the first message.
unfoldable pub first_message : List Str → Option Str
first_message [] = none
first_message (h ∷ hs) = or_else (strip_prefix vpn_msg_tag h) (first_message hs)

abbrev pub challenge_words : List Str
challenge_words =
    str "challenge-response"
    ∷ str "x-dynamic-challenge:challenge-response"
    ∷ str "x-dynamic-challenge-echo:challenge-response"
    ∷ []

abbrev pub echo_words : List Str
echo_words = str "x-dynamic-challenge-echo:challenge-response" ∷ []

abbrev known : List Str
known = str "password" ∷ str "cert-pass" ∷ str "http-proxy-password" ∷ challenge_words

-- What one hint adds to what was needed before.
abbrev Adds : Needed → Str → Needed → Type 0
Adds out h out' =
    (out'.password ≡ (one_of (str "password" ∷ []) h || out.password))
    × (out'.certpass ≡ (one_of (str "cert-pass" ∷ []) h || out.certpass))
    × (out'.proxypass ≡ (one_of (str "http-proxy-password" ∷ []) h || out.proxypass))
    × (out'.challenge_response ≡ (one_of challenge_words h || out.challenge_response))
    × (out'.challenge_response_echo ≡ (one_of echo_words h || out.challenge_response_echo))

abbrev next : Needed → Str → Needed
next out h = read_hint out h (strip_prefix vpn_msg_tag h)

known_Adds : (h : Str) → one_of known h ≡ true → (out : Needed) → Adds out h (next out h)
unfolding one_of str_eq str strip_prefix vpn_msg_tag read_hint need_hint
known_Adds h k out = one_of-elim (λ w. Adds out w (next out w)) known h (assumption refl) k

one_of-false :
    (t : Str) (ts : List Str) (s : Str)
    → one_of (t ∷ ts) s ≡ false
    → (str_eq s t ≡ false) × (one_of ts s ≡ false)
unfolding one_of
one_of-false t ts s h = elim (Bool-cases (str_eq s t)) [
  | inl e ↦ absurd (true≢false (rw (e, one_of) at h))
  | inr e ↦ (e, rw (e, one_of) at h)
]

-- A hint that is no word of ours.
record IsOther (h : Str) : Type 0 where
  q1 : str_eq h (str "password") ≡ false
  q2 : str_eq h (str "cert-pass") ≡ false
  q3 : str_eq h (str "http-proxy-password") ≡ false
  q4 : str_eq h (str "challenge-response") ≡ false
  q5 : str_eq h (str "x-dynamic-challenge:challenge-response") ≡ false
  q6 : str_eq h (str "x-dynamic-challenge-echo:challenge-response") ≡ false

other : (h : Str) → one_of known h ≡ false → IsOther h
other h k =
    let (a, k) = one_of-false _ _ h k in
    let (b, k) = one_of-false _ _ h k in
    let (c, k) = one_of-false _ _ h k in
    let (d, k) = one_of-false _ _ h k in
    let (e, k) = one_of-false _ _ h k in
    let (f, k) = one_of-false _ _ h k in record { q1 = a; q2 = b; q3 = c; q4 = d; q5 = e; q6 = f }

other_Adds :
    (h : Str) (r : Option Str) → IsOther h → (out : Needed) → Adds out h (read_hint out h r)
unfolding read_hint need_hint one_of
other_Adds h none (o) out =
    rw (o.q1, o.q2, o.q3, o.q4, o.q5, o.q6, one_of) (refl, refl, refl, refl, refl)
other_Adds h (some msg) o out =
    rw (o.q1, o.q2, o.q3, o.q4, o.q5, o.q6, one_of) (refl, refl, refl, refl, refl)

next-Adds : (h : Str) (out : Needed) → Adds out h (next out h)
next-Adds h out = elim (Bool-cases (one_of known h)) [
  | inl k ↦ known_Adds h k out
  | inr k ↦ other_Adds h (strip_prefix vpn_msg_tag h) (other h k) out
]

or_mid : (a b c : Bool) → (a || (b || c)) ≡ ((b || a) || c)
or_mid a b c = ground arith

-- One field of what is needed, and the words that ask for it.
module _ (field : Needed → Bool) (words : List Str)
    (adds : (h : Str) (out : Needed) → field (next out h) ≡ (one_of words h || field out)) where
  read_hints_lem :
      (hs : List Str) (out : Needed) → field (read_hints out hs) ≡ (any_in words hs || field out)
  unfolding read_hints any_in
  read_hints_lem [] out = refl
  read_hints_lem (h ∷ hs) out =
      read_hints_lem hs (next out h) ∙ rw (adds h out) (or_mid (any_in words hs) _ _)

  needed_if :
      (hs : List Str) (out : Needed)
      → field out ≡ false
      → field (read_hints out hs) ≡ any_in words hs
  needed_if hs out h = read_hints_lem hs out ∙ rw h (or_nothing (any_in words hs))
    where
      or_nothing : (a : Bool) → (a || false) ≡ a
      or_nothing true = refl
      or_nothing false = refl

or_else_assoc : (a b c : Option Str) → or_else (or_else a b) c ≡ or_else a (or_else b c)
or_else_assoc none b c = refl
or_else_assoc (some s) b c = refl

or_else-none : (o : Option Str) → o ≡ or_else o none
or_else-none none = refl
or_else-none (some s) = refl

need_hint_prompt : (h : Str) (out : Needed) → (need_hint out h).prompt ≡ out.prompt
unfolding need_hint
need_hint_prompt h out = ground arith

read_hint_prompt :
    (h : Str) (r : Option Str) (out : Needed) → (read_hint out h r).prompt ≡ or_else out.prompt r
unfolding read_hint first_prompt
read_hint_prompt h none out = need_hint_prompt h out ∙ or_else-none out.prompt
read_hint_prompt h (some msg) out = ground arith

read_hints_prompt :
    (hs : List Str) (out : Needed)
    → (read_hints out hs).prompt ≡ or_else out.prompt (first_message hs)
unfolding read_hints first_message
read_hints_prompt [] out = or_else-none out.prompt
read_hints_prompt (h ∷ hs) out =
    read_hints_prompt hs (next out h)
    ∙ rw (read_hint_prompt h (strip_prefix vpn_msg_tag h) out)
        (or_else_assoc out.prompt (strip_prefix vpn_msg_tag h) (first_message hs))

-- What a set of needed secrets says of a list of hints.
abbrev pub Asks : List Str → Needed → Type 0
Asks hs out =
    (out.password ≡ any_in (str "password" ∷ []) hs)
    × (out.certpass ≡ any_in (str "cert-pass" ∷ []) hs)
    × (out.proxypass ≡ any_in (str "http-proxy-password" ∷ []) hs)
    × (out.challenge_response ≡ any_in challenge_words hs)
    × (out.challenge_response_echo ≡ any_in echo_words hs)
    × (out.prompt ≡ first_message hs)

-- With hints given, the settings and the files do not matter: each secret is asked for exactly if
-- one of its words is among the hints, in any order, and the prompt is the first message.
pub needs-hints :
    (fs : Files) (data' : Map Str) (h : Str) (hs : List Str)
    → Asks (h ∷ hs) (needs fs data' (h ∷ hs))
unfolding needs nothing_needed
needs-hints fs data' h hs = (
  needed_if (λ n. n.password) _ (λ h out. (next-Adds h out).0) (h ∷ hs) _ refl,
  needed_if (λ n. n.certpass) _ (λ h out. (next-Adds h out).1) (h ∷ hs) _ refl,
  needed_if (λ n. n.proxypass) _ (λ h out. (next-Adds h out).2) (h ∷ hs) _ refl,
  needed_if (λ n. n.challenge_response) _ (λ h out. (next-Adds h out).3) (h ∷ hs) _ refl,
  needed_if (λ n. n.challenge_response_echo) _ (λ h out. (next-Adds h out).4) (h ∷ hs) _ refl,
  read_hints_prompt (h ∷ hs) _,
)
