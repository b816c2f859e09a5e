-- ===== src/Dialog/Keyfile/Answers.antt =====
-- What a reader of the key file finds in it.
use nm_openvpn.Base.{
  Bool, List, Option, Str, [], false, if◌then◌else◌, none, refl, some, str, str_eq, ◌&&◌, ◌++◌, ◌∷◌,
  ◌≡◌,
}
use nm_openvpn.Text.{lines, starts_with, strip_prefix}
use nm_openvpn.Dialog.Needs.{Needed}
use nm_openvpn.Dialog.Keyfile.{print_bool, write_eui_keyfile, escape}
use nm_openvpn.Dialog.Keyfile.Lines.{
  entry_lines, head_lines, keyfile_lines, lines-write_eui_keyfile,
}

-- A reader of a key file: the value of `key=` in the group `[group]`; `inside` says whether the
-- lines stand in that group.
unfoldable pub value_in_group : Str → Str → Bool → List Str → Option Str
value_in_group group key inside [] = none
value_in_group group key inside (l ∷ ls) =
    let next_group = value_in_group group key (str_eq l (b'[' ∷ (group ++ b']' ∷ []))) ls in
    let rest = value_in_group group key inside ls in
    if starts_with (b'[' ∷ []) l
    then next_group
    else if inside
    then elim (strip_prefix (key ++ b'=' ∷ []) l) [ none ↦ rest | some v ↦ some v ]
    else rest

abbrev pub answer : Str → Str → Str → Option Str
answer text group key = value_in_group group key false (lines text)

-- A group of the key file: it has no value, and whether the dialog asks for one and shows the input.
abbrev pub Asks : Str → Str → Bool → Bool → Type 0
Asks text group asked echo =
    (answer text group (str "ShouldAsk") ≡ some (print_bool asked))
    × (answer text group (str "ForceEcho") ≡ some (print_bool echo))
    × (answer text group (str "Value") ≡ some [])
    × (answer text group (str "IsSecret") ≡ some (str "true"))

-- The groups of the key file ask for exactly the secrets that are needed, where NetworkManager
-- allows it, whatever the prompt and the translations hold; each of the four has an empty value and
-- is marked a secret, and the input is hidden in all of them but for a challenge that wants it
-- shown.
pub answer-write_eui_keyfile :
    (tr : Str → Str) (prompt : Str) (needed : Needed) (allow : Bool)
    → let text = write_eui_keyfile tr [] prompt needed allow in
      Asks text (str "password") (needed.password && allow) false
      × Asks text (str "cert-pass") (needed.certpass && allow) false
      × Asks text (str "http-proxy-password") (needed.proxypass && allow) false
      × Asks text
          (str "challenge-response")
          (needed.challenge_response && allow)
          needed.challenge_response_echo
unfolding value_in_group str starts_with strip_prefix str_eq escape entry_lines head_lines
    keyfile_lines
answer-write_eui_keyfile tr prompt needed allow =
    rw (lines-write_eui_keyfile tr prompt needed allow) (
      (refl, refl, refl, refl),
      (refl, refl, refl, refl),
      (refl, refl, refl, refl),
      (refl, refl, refl, refl),
    )
