-- ===== src/Secrets/Slots.antt =====
-- `InputSlot`, `slot_to_vpn_key` and `lookup_value`: the value that a slot asks for.
use nm_openvpn.Base.{Bool, Option, Str, if◌then◌else◌, none, some, str, str_eq, ℕ, ◌||◌}
use nm_openvpn.Text.{contains_str, is_empty}
use nm_openvpn.Base.Maps.{Map}

pub record InputSlot : Type 0 where
  pub slot_type : ℕ
  pub group : ℕ
  pub id : ℕ
  pub name : Str
  pub description : Str
  pub mask_input : Bool

unfoldable pub key_username : Str
key_username = str "username"

unfoldable pub key_password : Str
key_password = str "password"

unfoldable pub key_certpass : Str
key_certpass = str "cert-pass"

unfoldable pub key_http_proxy_username : Str
key_http_proxy_username = str "http-proxy-username"

unfoldable pub key_http_proxy_password : Str
key_http_proxy_password = str "http-proxy-password"

unfoldable pub key_challenge_response : Str
key_challenge_response = str "challenge-response"

unfoldable pub name_to_vpn_key : Str → Str
name_to_vpn_key n =
    if str_eq n (str "username")
    then key_username
    else if str_eq n (str "password")
    then key_password
    else if contains_str (str "challenge") n || contains_str (str "response") n
    then key_challenge_response
    else if contains_str (str "private_key") n || contains_str (str "key_pass") n
    then key_certpass
    else if contains_str (str "http_proxy_user") n
    then key_http_proxy_username
    else if contains_str (str "http_proxy_pass") n
    then key_http_proxy_password
    else key_password

abbrev pub slot_to_vpn_key : InputSlot → Str
slot_to_vpn_key slot = name_to_vpn_key slot.name

unfoldable pub lookup_value : Str → Map Str → Map Str → Option Str
lookup_value vkey data' secrets =
    if str_eq vkey key_username || str_eq vkey key_http_proxy_username
    then data' vkey
    else secrets vkey

-- `Some(value) if !value.is_empty()`
unfoldable pub filled : Option Str → Option Str
filled none = none
filled (some value) = if is_empty value then none else some value

-- The value on hand for a slot.
unfoldable pub value_on_hand : Map Str → Map Str → InputSlot → Option Str
value_on_hand data' secrets slot = filled (lookup_value (slot_to_vpn_key slot) data' secrets)
