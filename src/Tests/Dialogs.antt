-- ===== src/Tests/Dialogs.antt =====
-- Applications of the results on the auth dialog.
use nm_openvpn.Base.{List, Str, [], false, none, refl, some, str, true, ◌∷◌, ◌≡◌}
use nm_openvpn.Base.Lists.{All}
use nm_openvpn.Text.{any_char, is_empty, lines, strip_cr}
use nm_openvpn.Base.Maps.{empty, insert_all}
use nm_openvpn.Dialog.Details.{read_vpn_details}
use nm_openvpn.Dialog.Details.RoundTrip.{IsPair, written, at, read_vpn_details-written}
use nm_openvpn.Dialog.Needs.{Files, Needed}
use nm_openvpn.Dialog.Keyfile.{write_eui_keyfile}
use nm_openvpn.Dialog.Keyfile.Lines.{keyfile_lines, lines-write_eui_keyfile}
use nm_openvpn.Dialog.Keyfile.Answers.{Asks, answer-write_eui_keyfile}

abbrev some_data : List (Str × Str)
some_data = (str "remote", str "vpn=a b") ∷ (str "remote", []) ∷ []

abbrev some_secrets : List (Str × Str)
some_secrets = (str "password", str "DONE") ∷ []

data-IsPair : All IsPair some_data
unfolding str is_empty any_char strip_cr
data-IsPair = (
  record {
    has_key = refl;
    key_line = record { one_line = refl; whole = refl };
    value_line = record { one_line = refl; whole = refl };
  },
  (
    record {
      has_key = refl;
      key_line = record { one_line = refl; whole = refl };
      value_line = record { one_line = refl; whole = refl };
    },
    tt,
  ),
)

secrets-IsPair : All IsPair some_secrets
unfolding str is_empty any_char strip_cr
secrets-IsPair = (
  record {
    has_key = refl;
    key_line = record { one_line = refl; whole = refl };
    value_line = record { one_line = refl; whole = refl };
  },
  tt,
)

read_vpn_details-written_example :
    read_vpn_details (record { text = written some_data some_secrets (str "x"); broken = true })
    ≡ some (at (insert_all some_data empty) (insert_all some_secrets empty))
read_vpn_details-written_example =
    read_vpn_details-written some_data some_secrets (str "x") true data-IsPair secrets-IsPair

abbrev no_files : Files
no_files path = none

abbrev burst : List Str
burst = str "password" ∷ str "x-vpn-message:Hello" ∷ []

abbrev same : Str → Str
same s = s

abbrev password_needed : Needed
password_needed = record {
  password = true;
  certpass = false;
  proxypass = false;
  challenge_response = true;
  challenge_response_echo = true;
  prompt = none;
}

lines-write_eui_keyfile_example :
    lines (write_eui_keyfile same [] (str "A\n[password]\nShouldAsk=false") password_needed true)
    ≡ keyfile_lines same (str "A\n[password]\nShouldAsk=false") password_needed true
lines-write_eui_keyfile_example =
    lines-write_eui_keyfile same (str "A\n[password]\nShouldAsk=false") password_needed true

abbrev asked : Str
asked = write_eui_keyfile same [] (str "A\nB") password_needed true

answer-write_eui_keyfile_example :
    Asks asked (str "password") true false
    × Asks asked (str "cert-pass") false false
    × Asks asked (str "http-proxy-password") false false
    × Asks asked (str "challenge-response") true true
answer-write_eui_keyfile_example = answer-write_eui_keyfile same (str "A\nB") password_needed true
