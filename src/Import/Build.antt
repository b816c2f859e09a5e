-- ===== src/Import/Build.antt =====
-- The loop of `as_nm_data`, and what follows it.
use nm_openvpn.Base.{
  Bool, List, Option, Str, [], false, if◌then◌else◌, is_some_str, none, some, str, str_eq, true,
  ◌&&◌, ◌||◌, ◌∷◌,
}
use nm_openvpn.Base.Maps.{Map, empty, insert}
use nm_openvpn.Ovpn.Defs.{first, second, Directive, OvpnConfig, option, blob}
use nm_openvpn.Import.Arms.{
  Arm, arm_of, insert_some, remote_entry, third, append_entry, join_words, x509_value, lzo_value,
  text_or, insert_proto, insert_both, insert_proxy, value, flag, value_or, ca_file, cert_file,
  key_file, pkcs12, auth_user_pass, proto, remote, comp_lzo, x509, version_min, static_secret,
  tls_auth, key_direction, crl_verify, http_proxy, socks_proxy, ifconfig, route, keepalive, dropped,
}

-- The variables of the loop; `data'` is the map.
pub record Import : Type 0 where
  pub data' : Map Str
  pub have_auth_user_pass : Bool
  pub have_cert : Bool
  pub have_key : Bool
  pub have_secret : Bool
  pub have_ca : Bool
  pub have_tls_auth : Bool
  pub direction : Option Str

unfoldable pub is_given : Option Str → Bool
is_given none = false
is_given (some v) = true

-- `if let Some(_) = a0 { have = true }`
abbrev pub or_given : Option Str → Bool → Bool
or_given o have = is_given o || have

-- The option, or else what there was: `if let Some(dir) = a0 { key_direction = Some(dir) }`.
unfoldable pub later : Option Str → Option Str → Option Str
later none dir = dir
later (some v) dir = some v

-- What an arm puts into the map.
unfoldable pub put : Arm → List Str → Map Str → Map Str
put (value key) args d = insert_some key (first args) d
put (flag key) args d = insert key (str "yes") d
put (value_or key default) args d = insert key (text_or default (first args)) d
put ca_file args d = insert_some (str "ca") (first args) d
put cert_file args d = insert_some (str "cert") (first args) d
put key_file args d = insert_some (str "key") (first args) d
put pkcs12 args d =
    insert_some (str "key") (first args)
      (insert_some (str "cert") (first args) (insert_some (str "ca") (first args) d))
put auth_user_pass args d = d
put proto args d = insert_proto (first args) d
put remote args d = append_entry (str "remote") b',' (remote_entry args) d
put comp_lzo args d = insert (str "comp-lzo") (lzo_value (text_or (str "yes") (first args))) d
put x509 args d = insert (str "verify-x509-name") (x509_value args) d
put version_min args d =
    let d = insert_some (str "tls-version-min") (first args) d in
    if is_some_str (second args) (str "or-highest")
    then insert (str "tls-version-min-or-highest") (str "yes") d
    else d
put static_secret args d =
    insert_some (str "static-key-direction") (second args)
      (insert_some (str "static-key") (first args) d)
put tls_auth args d =
    insert_some (str "ta-dir") (second args) (insert_some (str "ta") (first args) d)
put key_direction args d = d
put crl_verify args d =
    insert_some
      (if is_some_str (second args) (str "dir")
        then str "crl-verify-dir"
        else str "crl-verify-file")
      (first args) d
put http_proxy args d = insert_proxy (str "http") (first args) (second args) (third args) d
put socks_proxy args d = insert_proxy (str "socks") (first args) (second args) none d
put ifconfig args d = insert_both (str "local-ip") (first args) (str "remote-ip") (second args) d
put route args d =
    append_entry (str "nm-openvpn3-extra-routes") b'\n' (join_words args (str "route")) d
put keepalive args d = insert_both (str "ping") (first args) (str "ping-restart") (second args) d
put dropped args d = d

-- What an arm notes besides.
unfoldable pub note_arm : Arm → List Str → Import → Import
note_arm auth_user_pass args s = record s { have_auth_user_pass = true }
note_arm ca_file args s = record s { have_ca = or_given (first args) s.have_ca }
note_arm cert_file args s = record s { have_cert = or_given (first args) s.have_cert }
note_arm key_file args s = record s { have_key = or_given (first args) s.have_key }
note_arm pkcs12 args s = record s {
  have_ca = or_given (first args) s.have_ca;
  have_cert = or_given (first args) s.have_cert;
  have_key = or_given (first args) s.have_key;
}
note_arm static_secret args s = record s { have_secret = or_given (first args) s.have_secret }
note_arm tls_auth args s = record s { have_tls_auth = true }
note_arm key_direction args s = record s { direction = later (first args) s.direction }
note_arm _ args s = s

unfoldable pub import_option : Str → List Str → Import → Import
import_option n args s =
    let noted = note_arm (arm_of n) args s in record noted { data' = put (arm_of n) args s.data' }

unfoldable pub import_blob : Str → Import → Import
import_blob n s =
    if str_eq n (str "ca")
    then record s { have_ca = true }
    else if str_eq n (str "cert")
    then record s { have_cert = true }
    else if str_eq n (str "key")
    then record s { have_key = true }
    else if str_eq n (str "secret")
    then record s { have_secret = true }
    else s

unfoldable pub import_directive : Directive → Import → Import
import_directive (option name args) s = import_option name args s
import_directive (blob name body) s = import_blob name s

unfoldable pub import_all : List Directive → Import → Import
import_all [] s = s
import_all (d ∷ ds) s = import_all ds (import_directive d s)

unfoldable pub nothing_read : Import
nothing_read = record {
  data' = empty;
  have_auth_user_pass = false;
  have_cert = false;
  have_key = false;
  have_secret = false;
  have_ca = false;
  have_tls_auth = false;
  direction = none;
}

-- `data.entry(key).or_insert(v)`
unfoldable pub or_insert : Str → Str → Map Str → Map Str
or_insert key v d = elim (d key) [ none ↦ insert key v d | some w ↦ d ]

unfoldable pub resolve_direction : Option Str → Import → Map Str
resolve_direction none s = s.data'
resolve_direction (some dir) s =
    if s.have_tls_auth
    then or_insert (str "ta-dir") dir s.data'
    else if s.have_secret
    then or_insert (str "static-key-direction") dir s.data'
    else s.data'

unfoldable pub contype_of : Import → Str
contype_of s =
    if s.have_secret
    then str "static-key"
    else if s.have_cert && s.have_key && s.have_auth_user_pass
    then str "password-tls"
    else if s.have_cert && s.have_key
    then str "tls"
    else if s.have_auth_user_pass
    then str "password"
    else if s.have_ca
    then str "tls"
    else str "tls"

unfoldable pub as_nm_data : OvpnConfig → Map Str
as_nm_data config =
    let s = import_all config.directives nothing_read in
    insert (str "connection-type") (contype_of s) (resolve_direction s.direction s)
