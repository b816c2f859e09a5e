-- ===== src/Dialog/Keyfile.antt =====
-- `write_no_secret`, `write_eui_keyfile` and `write_entry`: the key file on standard output, as the
-- text that is appended to it. A write that fails is not modelled. `tr` is gettext.
pub mod Escape
pub mod Lines
pub mod Answers
use nm_openvpn.Base.{Bool, List, Str, [], false, if◌then◌else◌, str, true, ℕ, ◌&&◌, ◌++◌, ◌==◌, ◌∷◌}
use nm_openvpn.Dialog.Needs.{Needed}

-- One character of an escaped value.
unfoldable pub escape_char : ℕ → Str
escape_char c =
    if c == b'\\'
    then b'\\' ∷ b'\\' ∷ []
    else if c == b'\n'
    then b'\\' ∷ b'n' ∷ []
    else if c == b'\r'
    then b'\\' ∷ b'r' ∷ []
    else if c == b'\t'
    then b'\\' ∷ b't' ∷ []
    else c ∷ []

unfoldable pub escape : Str → Str
escape [] = []
escape (c ∷ s) = escape_char c ++ escape s

-- `writeln!(out, …)`
unfoldable pub writeln : Str → Str → Str
writeln out text = out ++ (text ++ b'\n' ∷ [])

unfoldable pub print_bool : Bool → Str
print_bool true = str "true"
print_bool false = str "false"

-- Some lines, one after the other.
unfoldable pub write_all : Str → List Str → Str
write_all out [] = out
write_all out (l ∷ ls) = write_all (writeln out l) ls

unfoldable pub write_entry : Str → Str → Str → Str → Bool → Bool → Str
write_entry out key value label force_echo should_ask = write_all out (
    []
    ∷ (b'[' ∷ (key ++ b']' ∷ []))
    ∷ (str "Value=" ++ escape value)
    ∷ (str "Label=" ++ escape label)
    ∷ str "IsSecret=true"
    ∷ (str "ShouldAsk=" ++ print_bool should_ask)
    ∷ (str "ForceEcho=" ++ print_bool force_echo)
    ∷ [])

unfoldable pub write_no_secret : Str → Str
write_no_secret out = write_all out (
    str "[VPN Plugin UI]"
    ∷ str "Version=2"
    ∷ []
    ∷ str "[no-secret]"
    ∷ str "Value=true"
    ∷ str "Label="
    ∷ str "IsSecret=true"
    ∷ str "ShouldAsk=false"
    ∷ str "ForceEcho=false"
    ∷ [])

unfoldable pub write_eui_keyfile : (Str → Str) → Str → Str → Needed → Bool → Str
write_eui_keyfile tr out prompt needed allow_interaction =
    let out = write_all out (
      str "[VPN Plugin UI]"
      ∷ str "Version=2"
      ∷ (str "Description=" ++ escape prompt)
      ∷ (str "Title=" ++ escape (tr (str "Authentication required")))
      ∷ []) in
    let out =
      write_entry out (str "password") [] (tr (str "Password")) false
        (needed.password && allow_interaction) in
    let out =
      write_entry out (str "cert-pass") [] (tr (str "Certificate password")) false
        (needed.certpass && allow_interaction) in
    let out =
      write_entry out (str "http-proxy-password") [] (tr (str "HTTP proxy password")) false
        (needed.proxypass && allow_interaction) in
    write_entry out (str "challenge-response") [] (tr (str "Challenge response"))
      needed.challenge_response_echo (needed.challenge_response && allow_interaction)
