-- ===== src/Quote/RoundTrip.antt =====
-- `tokenize` reads back what `push_escaped` writes, whatever the arguments hold.
use nm_openvpn.Base.{
  List, Str, [], append-nil, append_assoc, arith, false, not, refl, true, ℕ, ◌++◌, ◌∙◌, ◌∷◌, ◌≡◌,
}
use nm_openvpn.Text.{any_char, is_ascii_whitespace}
use nm_openvpn.Quote.Forms.{
  push_escaped_lem, is_special, double_char, double_body, escaped, Form, bare, single, double,
  escaped-Form, spaced, push_args_lem,
}
use nm_openvpn.Text.Laws.{or-false, not-false}
use nm_openvpn.Quote.{
  is_benign, push_escaped, Tokens, ok, between, in_quote, in_word, next, mapped, word_char, finish,
  push_args, run, tokenize,
}

-- What `next` does with the characters of the three forms.
next_in_word :
    (c : ℕ) (token : Str) (ts : List Str)
    → is_benign c ≡ true
    → next (in_word token) ts c ≡ (in_word (token ++ c ∷ []), ts)
unfolding next word_char is_ascii_whitespace is_benign
next_in_word c token ts h = ground arith

next_between :
    (c : ℕ) (ts : List Str) → is_benign c ≡ true → next between ts c ≡ (in_word (c ∷ []), ts)
unfolding next word_char is_ascii_whitespace is_benign
next_between c ts h = ground arith

next_in_single :
    (c : ℕ) (token : Str) (ts : List Str)
    → is_special c ≡ false
    → next (in_quote b'\'' token) ts c ≡ (in_quote b'\'' (token ++ c ∷ []), ts)
unfolding next
next_in_single c token ts h = ground arith

-- Reading the three forms. Each lemma has any `rest` behind the value.
run-benign :
    (v token rest : Str) (ts : List Str)
    → any_char (λ c. not (is_benign c)) v ≡ false
    → run (in_word token) ts (v ++ rest) ≡ run (in_word (token ++ v)) ts rest
unfolding run any_char
run-benign [] token rest ts h = rw append-nil
run-benign (c ∷ v) token rest ts h =
    let (here, there) = or-false (not (is_benign c)) _ h in
    rw (next_in_word c token ts (not-false _ here), run)
      (run-benign v (token ++ c ∷ []) rest ts there ∙ rw append_assoc)

run-single :
    (v token rest : Str) (ts : List Str)
    → any_char is_special v ≡ false
    → run (in_quote b'\'' token) ts (v ++ b'\'' ∷ rest) ≡ run between (ts ++ (token ++ v) ∷ []) rest
unfolding run any_char
run-single [] token rest ts h = rw (append-nil token) (unfold next in refl)
run-single (c ∷ v) token rest ts h =
    let (here, there) = or-false (is_special c) _ h in
    rw (next_in_single c token ts here, run)
      (run-single v (token ++ c ∷ []) rest ts there ∙ rw append_assoc)

run-double_char :
    (c : ℕ) (token rest : Str) (ts : List Str)
    → run (in_quote b'"' token) ts (double_char c ++ rest)
      ≡ run (in_quote b'"' (token ++ c ∷ [])) ts rest
unfolding run next mapped double_char
run-double_char c token rest ts = ground arith

run-double :
    (v token rest : Str) (ts : List Str)
    → run (in_quote b'"' token) ts (double_body v ++ b'"' ∷ rest)
      ≡ run between (ts ++ (token ++ v) ∷ []) rest
unfolding double_body
run-double [] token rest ts = rw (append-nil token) (unfold run next in refl)
run-double (c ∷ v) token rest ts =
    simp append_assoc (run-double_char c token _ ts ∙ run-double v _ rest ts ∙ rw append_assoc)

-- What may stand behind a value: nothing, or white space.
pub data Ends : Str → Type 0 where
  stop : Ends []
  space : {c : ℕ} {s : Str} → is_ascii_whitespace c ≡ true → Ends (c ∷ s)

run-word_end :
    {rest : Str} (token : Str) (ts : List Str)
    → Ends rest
    → run (in_word token) ts rest ≡ run between (ts ++ token ∷ []) rest
unfolding run next finish
run-word_end token ts stop = refl
run-word_end token ts (space {c} h) = rw h

run-Form :
    {v e : Str} (f : Form v e) (rest : Str) (ts : List Str)
    → Ends rest
    → run between ts (e ++ rest) ≡ run between (ts ++ v ∷ []) rest
unfolding run any_char
run-Form (bare c s h) rest ts e =
    let (here, there) = or-false (not (is_benign c)) _ h in
    rw (next_between c ts (not-false _ here), run)
      (run-benign s (c ∷ []) rest ts there ∙ run-word_end (c ∷ s) ts e)
run-Form (single v h) rest ts e =
    rw append_assoc (unfold next is_ascii_whitespace in run-single v [] rest ts h)
run-Form (double v) rest ts e =
    rw append_assoc (unfold next is_ascii_whitespace in run-double v [] rest ts)

Ends-spaced : (args : List Str) → Ends (spaced args)
unfolding spaced is_ascii_whitespace
Ends-spaced [] = stop
Ends-spaced (a ∷ args) = space refl

run-space : (s : Str) (ts : List Str) → run between ts (b' ' ∷ s) ≡ run between ts s
unfolding run next is_ascii_whitespace
run-space s ts = refl

run-spaced : (args ts : List Str) → run between ts (spaced args) ≡ Tokens.ok (ts ++ args)
unfolding spaced
run-spaced [] ts = rw append-nil (unfold run finish in refl)
run-spaced (a ∷ args) ts =
    run-space _ ts
    ∙ run-Form (escaped-Form a) (spaced args) ts (Ends-spaced args)
    ∙ run-spaced args (ts ++ a ∷ [])
    ∙ rw append_assoc

pub tokenize-line :
    (name : Str) (args : List Str) → tokenize (escaped name ++ spaced args) ≡ ok (name ∷ args)
unfolding tokenize
tokenize-line name args =
    run-Form (escaped-Form name) (spaced args) [] (Ends-spaced args) ∙ run-spaced args (name ∷ [])

-- A line that is written from any list of words, empty ones and ones with quotes, blanks,
-- backslashes or newlines among them, is read back as these words.
pub tokenize-push_args :
    (name : Str) (args : List Str)
    → tokenize (push_args (push_escaped [] name) args) ≡ ok (name ∷ args)
tokenize-push_args name args = rw (push_args_lem, push_escaped_lem) (tokenize-line name args)
