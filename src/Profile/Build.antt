-- ===== src/Profile/Build.antt =====
-- The later blocks of `build_profile_string` (preserved routes, TLS, proxy, the fixed tail), and the
-- function as a whole. Log messages are left out.
use nm_openvpn.Base.{
  List, Option, Str, [], if◌then◌else◌, is_some_str, none, one_of, some, str, str_eq, ◌∷◌,
}
use nm_openvpn.Text.{is_empty, lines, split_once, trim}
use nm_openvpn.Profile.Blocks.{
  cert_block, cipher_block, compression_block, device_block, is_tls_like, mtu_block, remote_block,
  yes_flag, steps,
}
use nm_openvpn.Profile.Values.{is_safe_route_line, Data, get, given, when, line_str}
use nm_openvpn.Profile.Writer.{line, line_opt, raw_line}

-- One preserved line, trimmed: a blank or unsafe one is dropped.
unfoldable pub route_line : Str → Str → Str
route_line text w =
    if is_empty text then w else if is_safe_route_line text then raw_line text w else w

unfoldable pub route_lines : List Str → Str → Str
route_lines [] w = w
route_lines (l ∷ ls) w = route_lines ls (route_line (trim l) w)

unfoldable pub route_block : Data → Str → Str
route_block data' =
    given (get data' (str "nm-openvpn3-extra-routes")) (λ routes. route_lines (lines routes))

-- The name, and its type where the prefix is one of openvpn's keywords.
unfoldable pub x509_args : Str → Option (Str × Str) → List Str
x509_args whole none = whole ∷ []
x509_args whole (some (ty, name)) =
    if one_of (str "subject" ∷ str "name" ∷ str "name-prefix" ∷ []) ty
    then name ∷ ty ∷ []
    else whole ∷ []

unfoldable pub x509_line : Str → Str → Str
x509_line v = line (str "verify-x509-name" ∷ x509_args v (split_once b':' v))

unfoldable pub tls_block : Data → Option Str → Str → Str
tls_block data' contype = when (is_tls_like contype) (
    steps (
      line_str (str "remote-cert-tls") (get data' (str "remote-cert-tls"))
      ∷ line_str (str "ns-cert-type") (get data' (str "ns-cert-type"))
      ∷ line_str (str "tls-remote") (get data' (str "tls-remote"))
      ∷ given (get data' (str "verify-x509-name")) x509_line
      ∷ given (get data' (str "ta"))
          (λ ta. line_opt (some (str "tls-auth") ∷ some ta ∷ get data' (str "ta-dir") ∷ []))
      ∷ line_str (str "tls-crypt") (get data' (str "tls-crypt"))
      ∷ line_str (str "tls-crypt-v2") (get data' (str "tls-crypt-v2"))
      ∷ given (get data' (str "tls-version-min")) (λ v. line_opt (
          some (str "tls-version-min")
          ∷ some v
          ∷ (if is_some_str (get data' (str "tls-version-min-or-highest")) (str "yes")
              then some (str "or-highest")
              else none)
          ∷ []))
      ∷ line_str (str "tls-version-max") (get data' (str "tls-version-max"))
      ∷ line_str (str "extra-certs") (get data' (str "extra-certs"))
      ∷ []))

-- `o.unwrap_or(d)`
unfoldable pub or_default : Str → Option Str → Str
or_default d none = d
or_default d (some v) = v

unfoldable pub proxy_lines : Data → Str → Str → Str → Str
proxy_lines data' proxy_type server =
    if str_eq proxy_type (str "http")
    then steps (
        line
          (str "http-proxy" ∷ server ∷ or_default (str "8080") (get data' (str "proxy-port")) ∷ [])
        ∷ yes_flag data' (str "proxy-retry") (str "http-proxy-retry")
        ∷ [])
    else if str_eq proxy_type (str "socks")
    then steps (
        line
          (str "socks-proxy" ∷ server ∷ or_default (str "1080") (get data' (str "proxy-port")) ∷ [])
        ∷ yes_flag data' (str "proxy-retry") (str "socks-proxy-retry")
        ∷ [])
    else steps []

unfoldable pub proxy_block : Data → Str → Str
proxy_block data' =
    given (get data' (str "proxy-type"))
      (λ proxy_type. given (get data' (str "proxy-server")) (proxy_lines data' proxy_type))

unfoldable pub tail_block : Str → Str
tail_block = steps (
    line (str "nobind" ∷ [])
    ∷ line (str "auth-nocache" ∷ [])
    ∷ line (str "script-security" ∷ str "2" ∷ [])
    ∷ line (str "persist-key" ∷ [])
    ∷ line (str "persist-tun" ∷ [])
    ∷ line (str "user" ∷ str "nm-openvpn3" ∷ [])
    ∷ line (str "group" ∷ str "nm-openvpn3" ∷ [])
    ∷ [])

unfoldable pub build_from : Data → Str → Str
build_from data' gateways =
    let contype = get data' (str "connection-type") in
    steps
      (when (is_tls_like contype) (line (str "client" ∷ []))
        ∷ remote_block data' gateways
        ∷ cert_block data' contype
        ∷ cipher_block data'
        ∷ compression_block data'
        ∷ mtu_block data' contype
        ∷ device_block data'
        ∷ route_block data'
        ∷ tls_block data' contype
        ∷ proxy_block data'
        ∷ tail_block
        ∷ [])
      []

-- `none` is the error for a connection with no `remote`.
unfoldable pub build_for : Data → Option Str → Option Str
build_for data' none = none
build_for data' (some gateways) = some (build_from data' gateways)

-- The secrets are not read.
unfoldable pub build_profile_string : Data → Data → Option Str
build_profile_string data' secrets = build_for data' (get data' (str "remote"))
