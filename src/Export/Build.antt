-- ===== src/Export/Build.antt =====
-- The other blocks of `from_nm_data`, and the whole.
use nm_openvpn.Base.{
  List, Option, Str, [], if◌then◌else◌, is_some_str, none, not, some, str, str_eq, ◌++◌, ◌∷◌,
}
use nm_openvpn.Text.{is_empty, lines, split_once, trim}
use nm_openvpn.Ovpn.Defs.{Directive, OvpnConfig}
use nm_openvpn.Quote.{Tokens, tokenize}
use nm_openvpn.Profile.Values.{Data, get, is_safe_route_line}
use nm_openvpn.Profile.Build.{x509_args}
use nm_openvpn.Profile.Blocks.{is_tls_like, chosen_dev}
use nm_openvpn.Export.Blocks.{
  push_opt, push_flag, flatten, when, given, and_then, yes_flag, push_pairs, remote_block,
  cert_block, pairs_str,
}

unfoldable pub compress_line : Str → List Directive
compress_line v =
    if str_eq v (str "yes") then push_flag (str "compress") else push_opt (str "compress") (v ∷ [])

unfoldable pub compression_block : Data → List Directive
compression_block data' =
    when (not (is_some_str (get data' (str "allow-compression")) (str "no"))) (
      flatten (
        given (get data' (str "comp-lzo")) (λ lzo.
          push_opt (str "comp-lzo")
            ((if str_eq lzo (str "no-by-default") then str "no" else lzo) ∷ []))
        ∷ given (get data' (str "compress")) compress_line
        ∷ []))

unfoldable pub mssfix_line : Str → List Directive
mssfix_line v =
    if str_eq v (str "yes") then push_flag (str "mssfix") else push_opt (str "mssfix") (v ∷ [])

unfoldable pub ifconfig_line : Option Str → Option Str → List Directive
ifconfig_line (some local) (some remote) = push_opt (str "ifconfig") (local ∷ remote ∷ [])
ifconfig_line (some local) none = []
ifconfig_line none remote = []

unfoldable pub mtu_block : Data → List Directive
mtu_block data' = flatten (
    yes_flag data' (str "float") (str "float")
    ∷ given (get data' (str "mssfix")) mssfix_line
    ∷ ifconfig_line (get data' (str "local-ip")) (get data' (str "remote-ip"))
    ∷ [])

-- A line that cannot be taken apart, or that holds no word, is skipped.
unfoldable pub push_words : Tokens → List Directive
push_words (Tokens.ok []) = []
push_words (Tokens.ok (name ∷ rest)) = push_opt name rest
push_words (Tokens.err e) = []

-- One trimmed line of the preserved routes.
unfoldable pub route_line : Str → List Directive
route_line text =
    if is_empty text
    then []
    else if not (is_safe_route_line text)
    then []
    else push_words (tokenize text)

unfoldable pub route_lines : List Str → List Directive
route_lines [] = []
route_lines (l ∷ ls) = route_line (trim l) ++ route_lines ls

unfoldable pub route_block : Data → List Directive
route_block data' =
    given (get data' (str "nm-openvpn3-extra-routes")) (λ routes. route_lines (lines routes))

unfoldable pub tls_pairs : List (Str × Str)
tls_pairs =
    (str "remote-cert-tls", str "remote-cert-tls")
    ∷ (str "ns-cert-type", str "ns-cert-type")
    ∷ (str "tls-remote", str "tls-remote")
    ∷ (str "tls-version-max", str "tls-version-max")
    ∷ (str "extra-certs", str "extra-certs")
    ∷ []

unfoldable pub version_args : Data → Str → List Str
version_args data' v =
    if is_some_str (get data' (str "tls-version-min-or-highest")) (str "yes")
    then v ∷ str "or-highest" ∷ []
    else v ∷ []

unfoldable pub crl_lines : Option Str → Option Str → List Directive
crl_lines (some file) dir = push_opt (str "crl-verify") (file ∷ [])
crl_lines none dir = given dir (λ d. push_opt (str "crl-verify") (d ∷ str "dir" ∷ []))

unfoldable pub tls_block : Data → List Directive
tls_block data' = flatten (
    given (get data' (str "verify-x509-name"))
      (λ x509. push_opt (str "verify-x509-name") (x509_args x509 (split_once b':' x509)))
    ∷ given (get data' (str "ta"))
        (λ ta. push_opt (str "tls-auth") (and_then ta (get data' (str "ta-dir"))))
    ∷ given (get data' (str "tls-crypt")) (λ k. push_opt (str "tls-crypt") (k ∷ []))
    ∷ given (get data' (str "tls-crypt-v2")) (λ k. push_opt (str "tls-crypt-v2") (k ∷ []))
    ∷ given (get data' (str "tls-version-min"))
        (λ v. push_opt (str "tls-version-min") (version_args data' v))
    ∷ push_pairs data' tls_pairs
    ∷ crl_lines (get data' (str "crl-verify-file")) (get data' (str "crl-verify-dir"))
    ∷ [])

unfoldable pub device_block : Data → List Directive
device_block data' =
    let default =
      if is_some_str (get data' (str "tap-dev")) (str "yes") then str "tap" else str "tun" in
    let dev = chosen_dev (get data' (str "dev")) (get data' (str "dev-type")) default in
    flatten (
      push_opt (str "dev") (dev ∷ [])
      ∷ given (get data' (str "dev-type")) (λ dt. push_opt (str "dev-type") (dt ∷ []))
      ∷ push_opt (str "proto") (
          (if is_some_str (get data' (str "proto-tcp")) (str "yes") then str "tcp" else str "udp")
          ∷ [])
      ∷ [])

unfoldable pub or_default : Str → Option Str → Str
or_default d none = d
or_default d (some v) = v

unfoldable pub proxy_lines : Data → Str → Str → List Directive
proxy_lines data' pt server =
    let port = get data' (str "proxy-port") in
    if str_eq pt (str "http")
    then push_opt (str "http-proxy") (server ∷ or_default (str "8080") port ∷ [])
      ++ yes_flag data' (str "proxy-retry") (str "http-proxy-retry")
    else if str_eq pt (str "socks")
    then push_opt (str "socks-proxy") (server ∷ or_default (str "1080") port ∷ [])
      ++ yes_flag data' (str "proxy-retry") (str "socks-proxy-retry")
    else []

unfoldable pub proxy_block : Data → List Directive
proxy_block data' =
    given (get data' (str "proxy-type"))
      (λ pt. given (get data' (str "proxy-server")) (proxy_lines data' pt))

unfoldable pub tail_block : List Directive
tail_block = flatten (
    push_flag (str "nobind")
    ∷ push_flag (str "auth-nocache")
    ∷ push_opt (str "script-security") (str "2" ∷ [])
    ∷ push_flag (str "persist-key")
    ∷ push_flag (str "persist-tun")
    ∷ push_opt (str "user") (str "nm-openvpn3" ∷ [])
    ∷ push_opt (str "group") (str "nm-openvpn3" ∷ [])
    ∷ [])

unfoldable pub from_nm_data : Data → OvpnConfig
from_nm_data data' =
    let contype = get data' (str "connection-type") in
    record {
      directives = flatten (
          when (is_tls_like contype) (push_flag (str "client"))
          ∷ remote_block data'
          ∷ cert_block data' contype
          ∷ push_pairs data' pairs_str
          ∷ compression_block data'
          ∷ mtu_block data'
          ∷ route_block data'
          ∷ when (is_tls_like contype) (tls_block data')
          ∷ device_block data'
          ∷ proxy_block data'
          ∷ tail_block
          ∷ []);
    }
