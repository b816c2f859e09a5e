-- ===== src/Dialog/Run.antt =====
-- `run`, on the arguments and standard input.
use nm_openvpn.Base.{
  Bool, List, Option, Str, [], false, if◌then◌else◌, is_some_str, none, not, some, str, suc, true,
  zero, ℕ, ◌++◌, ◌||◌, ◌∷◌,
}
use nm_openvpn.Text.{strip_prefix}
use nm_openvpn.Dialog.Details.{Details, Input, read_vpn_details}
use nm_openvpn.Dialog.Needs.{Needed, Files, needs}
use nm_openvpn.Dialog.Keyfile.{write_no_secret, write_eui_keyfile}

pub record Args : Type 0 where
  pub uuid : Option Str
  pub name : Option Str
  pub service : Option Str
  pub allow_interaction : Bool
  pub external_ui_mode : Bool
  pub hints : List Str

-- Why the helper fails, and else what it writes.
pub data Exit : Type 0 where
  missing_argument other_service no_external_ui bad_input : Exit
  wrote : Str → Exit

unfoldable pub is_some {ℓ} : {A : Type ℓ} → Option A → Bool
is_some none = false
is_some (some a) = true

-- `s.replace("{name}", name)`
unfoldable pub replace_name : ℕ → Str → Str → Str
replace_name skip name [] = []
replace_name zero name (c ∷ s) = elim (strip_prefix (str "{name}") (c ∷ s)) [
  | none ↦ c ∷ replace_name zero name s
  | some t ↦ name ++ replace_name 5 name s
]
replace_name (suc skip) name (c ∷ s) = replace_name skip name s

unfoldable pub name_or_empty : Option Str → Str
name_or_empty none = []
name_or_empty (some n) = n

unfoldable pub prompt_for : (Str → Str) → Option Str → Option Str → Str
prompt_for tr name (some prompt) = prompt
prompt_for tr name none =
    replace_name 0 (name_or_empty name)
      (tr (str "You need to authenticate to access the Virtual Private Network “{name}”."))

unfoldable pub needs_any : Needed → Bool
needs_any needed =
    needed.password || needed.certpass || needed.proxypass || needed.challenge_response

-- What is written for the secrets that are needed.
unfoldable pub write_needed : (Str → Str) → Args → Needed → Str
write_needed tr args needed =
    if not (needs_any needed)
    then write_no_secret []
    else write_eui_keyfile tr [] (prompt_for tr args.name needed.prompt) needed
        args.allow_interaction

unfoldable pub answer_details : (Str → Str) → Files → Args → Option Details → Exit
answer_details tr fs args none = bad_input
answer_details tr fs args (some d) = wrote (write_needed tr args (needs fs d.data' args.hints))

unfoldable pub run : (Str → Str) → Files → Args → Input → Exit
run tr fs args stdin =
    if not (is_some args.uuid) || not (is_some args.name) || not (is_some args.service)
    then missing_argument
    else if not (is_some_str args.service (str "org.freedesktop.NetworkManager.openvpn3"))
    then other_service
    else if not args.external_ui_mode
    then no_external_ui
    else answer_details tr fs args (read_vpn_details stdin)
