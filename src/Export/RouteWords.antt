-- ===== src/Export/RouteWords.antt =====
-- The words of a route line that passes the gate: the first one begins with `r`.
use nm_openvpn.Base.{
  Bool, Bool-cases, List, Str, [], ap, arith, false, inl, inr, one_of, refl, some, str, sym, true,
  ℕ, ◌++◌, ◌==◌, ◌∙◌, ◌∷◌, ◌≡◌,
}
use nm_openvpn.Text.{
  any_char, cut, drop_empty, is_ascii_whitespace, is_whitespace, split, split_whitespace, trim,
  trim_end, trim_start,
}
use nm_openvpn.Profile.RouteGate.{safe_route, safe_words}
use nm_openvpn.Quote.{
  Tokens, Place, between, in_quote, in_quote_escape, in_word, in_word_escape, ended, next,
  word_char, run, finish, tokenize,
}
use nm_openvpn.Profile.Values.{are_safe_words, is_safe_route_line, allowed_routes}
use mathlib.Core.Bool.{false≢true}
use nm_openvpn.Text.Laws.{cut_at_sep, first_of, one_of-elim}

unfoldable pub leads : Str → Bool
leads [] = false
leads (c ∷ s) = c == b'r'

unfoldable pub begins : List Str → Bool
begins [] = false
begins (s ∷ ss) = leads s

begins-append : (ts us : List Str) → begins ts ≡ true → begins (ts ++ us) ≡ true
unfolding begins
begins-append [] us h = absurd (false≢true h)
begins-append (t ∷ ts) us h = h

leads-append : (s t : Str) → leads s ≡ true → leads (s ++ t) ≡ true
unfolding leads
leads-append [] t h = absurd (false≢true h)
leads-append (c ∷ s) t h = h

begins-grow :
    (ts : List Str) (t x : Str) → begins (ts ++ t ∷ []) ≡ true → begins (ts ++ (t ++ x) ∷ []) ≡ true
unfolding begins
begins-grow [] t x h = leads-append t x h
begins-grow (s ∷ ts) t x h = h

-- The words so far, with the unquoted word that is being read.
unfoldable words_at : Place → List Str → List Str
words_at between ts = ts
words_at (in_quote q t) ts = ts
words_at (in_quote_escape t) ts = ts
words_at (in_word t) ts = ts ++ t ∷ []
words_at (in_word_escape t) ts = ts ++ t ∷ []
words_at ended ts = ts

next-begins :
    (p : Place) (ts : List Str) (c : ℕ)
    → begins (words_at p ts) ≡ true
    → begins (words_at (next p ts c).0 (next p ts c).1) ≡ true
unfolding next word_char words_at
next-begins between ts c h =
    ground (arith, begins-append ts ((c ∷ []) ∷ []), begins-append ts ([] ∷ []))
next-begins (in_quote q t) ts c h = ground (arith, begins-append ts (t ∷ []))
next-begins (in_quote_escape t) ts c h = h
next-begins (in_word t) ts c h = ground (arith, begins-grow ts t (c ∷ []))
next-begins (in_word_escape t) ts c h = begins-grow ts t _ h
next-begins ended ts c h = h

run-begins :
    (s : Str) (p : Place) (ts us : List Str)
    → begins (words_at p ts) ≡ true
    → run p ts s ≡ Tokens.ok us
    → begins us ≡ true
unfolding run finish words_at
run-begins [] between ts us h e = ground arith
run-begins [] (in_quote q t) ts us h e = ground arith
run-begins [] (in_quote_escape t) ts us h e = ground arith
run-begins [] (in_word t) ts us h e = ground arith
run-begins [] (in_word_escape t) ts us h e = ground arith
run-begins [] ended ts us h e = ground arith
run-begins (c ∷ s) p ts us h e = run-begins s _ _ us (next-begins p ts c h) e

first_step :
    (c : ℕ) (s : Str) → (c == b'r') ≡ true → run between [] (c ∷ s) ≡ run (in_word (c ∷ [])) [] s
unfolding run next word_char is_ascii_whitespace
first_step c s h = ground arith

tokenize-begins :
    (c : ℕ) (s : Str) (us : List Str)
    → (c == b'r') ≡ true
    → tokenize (c ∷ s) ≡ Tokens.ok us
    → begins us ≡ true
unfolding tokenize begins words_at leads
tokenize-begins c s us h e = run-begins s (in_word (c ∷ [])) [] us h (sym (first_step c s h) ∙ e)

trim_solid : (x : ℕ) (s : Str) → is_whitespace x ≡ false → trim (x ∷ s) ≡ x ∷ trim_end s
unfolding trim trim_start trim_end
trim_solid x s e = rw (e, trim_end, e)

cons_head : {x c : ℕ} {s t : Str} → x ∷ s ≡ c ∷ t → c ≡ x
cons_head h = cc

trim_head : (s t : Str) (c : ℕ) → trim s ≡ c ∷ t → is_whitespace c ≡ false
unfolding trim trim_start trim_end
trim_head [] t c h = ground arith
trim_head (x ∷ s) t c h = elim (Bool-cases (is_whitespace x)) [
  | inl e ↦ trim_head s t c (rw e at h)
  | inr e ↦ let k = (sym (trim_solid x s e) ∙ h) in rw (cons_head k) e
]

cut_in_word :
    (sep : ℕ → Bool) (x : ℕ) (s cur : Str)
    → sep x ≡ false
    → cut sep (x ∷ s) cur ≡ cut sep s (cur ++ x ∷ [])
unfolding cut
cut_in_word sep x s cur e = rw (cut, e)

cut_head :
    (s cur : Str) (c : ℕ)
    → (w : Str) × (first_of (drop_empty (cut is_whitespace s (c ∷ cur))) ≡ some (c ∷ w))
unfolding cut drop_empty first_of
cut_head [] cur c = (cur, refl)
cut_head (x ∷ s) cur c = elim (Bool-cases (is_whitespace x)) [
  | inl e ↦ (cur, ap (λ ws. first_of (drop_empty ws)) (cut_at_sep is_whitespace x s (c ∷ cur) e))
  | inr e ↦
      let (w, k) = cut_head s (cur ++ x ∷ []) c in
      (w, ap (λ ws. first_of (drop_empty ws)) (cut_in_word is_whitespace x s (c ∷ cur) e) ∙ k)
]

routes_lead : (d : Str) → one_of allowed_routes d ≡ true → leads d ≡ true
unfolding allowed_routes leads str
routes_lead d h = one_of-elim (λ t. leads t ≡ true) allowed_routes d (assumption refl) h

some_word : {c : ℕ} {w d : Str} → some d ≡ some (c ∷ w) → leads d ≡ true → (c == b'r') ≡ true
unfolding leads
some_word {c} {w} {d} h k = let e : d ≡ c ∷ w = cc in rw e at k

solid_words :
    (text : Str) (vs : List Str)
    → ((c : ℕ) (t : Str) → text ≡ c ∷ t → is_whitespace c ≡ false)
    → is_safe_route_line text ≡ true
    → tokenize text ≡ Tokens.ok vs
    → begins vs ≡ true
unfolding split_whitespace split is_safe_route_line are_safe_words cut drop_empty any_char
solid_words [] vs solid h e = absurd (false≢true h)
solid_words (c ∷ t) vs solid h e =
    let (d, first, allowed) = safe_words (split_whitespace (c ∷ t)) (safe_route (c ∷ t) h).1 in
    let (w, k) = cut_head t [] c in
    let j =
      ap (λ ws. first_of (drop_empty ws)) (cut_in_word is_whitespace c t [] (solid c t refl)) in
    tokenize-begins c t vs (some_word (sym first ∙ j ∙ k) (routes_lead d allowed)) e

-- A trimmed line that passes the gate gives words the first of which begins with `r`.
pub route_words :
    (s : Str) (us : List Str)
    → is_safe_route_line (trim s) ≡ true
    → tokenize (trim s) ≡ Tokens.ok us
    → begins us ≡ true
route_words s us h e = solid_words (trim s) us (λ c t k. trim_head s t c k) h e
