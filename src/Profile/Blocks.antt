-- ===== src/Profile/Blocks.antt =====
-- The blocks of `build_profile_string` up to the device and timer lines, in order. Each block maps
-- the buffer to the buffer.
use nm_openvpn.Base.{
  Bool, List, Option, Str, [], false, if◌then◌else◌, is_some_str, none, not, some, str, str_eq, ℕ,
  ◌&&◌, ◌==◌, ◌||◌, ◌∷◌,
}
use nm_openvpn.Text.{is_empty, parse_i64, split, to_string, trim, ℤ}
use nm_openvpn.Profile.Values.{
  Remote, is_pkcs12_path, parse_remote, Data, get, given, when, line_str, line_int, some_in,
}
use nm_openvpn.Profile.Writer.{line, line_opt}

-- Statements one after the other.
unfoldable pub steps : List (Str → Str) → Str → Str
steps [] w = w
steps (f ∷ fs) w = steps fs (f w)

unfoldable pub is_tls_like : Option Str → Bool
is_tls_like = some_in (str "tls" ∷ str "password" ∷ str "password-tls" ∷ [])

unfoldable pub is_password_like : Option Str → Bool
is_password_like = some_in (str "password" ∷ str "password-tls" ∷ [])

unfoldable pub needs_user_cert : Option Str → Bool
needs_user_cert = some_in (str "tls" ∷ str "password-tls" ∷ [])

unfoldable pub port_or_default : Option Str → Option Str → Option Str
port_or_default (some p) proto = some p
port_or_default none (some t) = some (str "1194")
port_or_default none none = none

unfoldable pub remote_line : Remote → Str → Str
remote_line (host, port, proto) =
    line_opt (some (str "remote") ∷ some host ∷ port_or_default port proto ∷ proto ∷ [])

unfoldable pub is_remote_separator : ℕ → Bool
is_remote_separator c = c == b' ' || c == b'\t' || c == b','

-- the loop over the gateways
unfoldable pub remote_lines : List Str → Str → Str
remote_lines [] w = w
remote_lines (gw ∷ gws) w =
    remote_lines gws (when (not (is_empty (trim gw))) (remote_line (parse_remote (trim gw))) w)

unfoldable pub yes_flag : Data → Str → Str → Str → Str
yes_flag data' key tag = when (is_some_str (get data' key) (str "yes")) (line (tag ∷ []))

unfoldable pub remote_block : Data → Str → Str → Str
remote_block data' gateways = steps (
    remote_lines (split is_remote_separator gateways)
    ∷ yes_flag data' (str "remote-random") (str "remote-random")
    ∷ yes_flag data' (str "remote-random-hostname") (str "remote-random-hostname")
    ∷ yes_flag data' (str "allow-pull-fqdn") (str "allow-pull-fqdn")
    ∷ yes_flag data' (str "tun-ipv6") (str "tun-ipv6")
    ∷ yes_flag data' (str "push-peer-info") (str "push-peer-info")
    ∷ [])

-- `matches!((cert_v, key_v), (Some(c), Some(k)) if c == k && is_pkcs12_path(c))`
unfoldable pub collapses : Option Str → Option Str → Bool
collapses (some c) (some k) = str_eq c k && is_pkcs12_path c
collapses (some c) none = false
collapses none k = false

unfoldable pub cert_block : Data → Option Str → Str → Str
cert_block data' contype =
    let cert_v = if needs_user_cert contype then get data' (str "cert") else none in
    let key_v = if needs_user_cert contype then get data' (str "key") else none in
    steps (
      (if collapses cert_v key_v
        then line_str (str "pkcs12") cert_v
        else steps (
            when (is_tls_like contype) (line_str (str "ca") (get data' (str "ca")))
            ∷ when (needs_user_cert contype)
                (steps (line_str (str "cert") cert_v ∷ line_str (str "key") key_v ∷ []))
            ∷ []))
      ∷ when (is_password_like contype) (line (str "auth-user-pass" ∷ []))
      ∷ when (is_some_str contype (str "static-key")) (
          given (get data' (str "static-key")) (λ secret.
            line_opt
              (some (str "secret") ∷ some secret ∷ get data' (str "static-key-direction") ∷ [])))
      ∷ [])

unfoldable pub cipher_block : Data → Str → Str
cipher_block data' = steps (
    line_int (str "reneg-sec") (get data' (str "reneg-seconds"))
    ∷ line_int (str "max-routes") (get data' (str "max-routes"))
    ∷ line_str (str "cipher") (get data' (str "cipher"))
    ∷ line_str (str "data-ciphers") (get data' (str "data-ciphers"))
    ∷ line_str (str "data-ciphers-fallback") (get data' (str "data-ciphers-fallback"))
    ∷ line_str (str "tls-cipher") (get data' (str "tls-cipher"))
    ∷ line_str (str "auth") (get data' (str "auth"))
    ∷ line_int (str "keysize") (get data' (str "keysize"))
    ∷ line_str (str "allow-compression") (get data' (str "allow-compression"))
    ∷ [])

unfoldable pub compress_line : Str → Str → Str
compress_line v =
    if str_eq v (str "yes") then line (str "compress" ∷ []) else line (str "compress" ∷ v ∷ [])

unfoldable pub compression_block : Data → Str → Str
compression_block data' =
    when (not (is_some_str (get data' (str "allow-compression")) (str "no"))) (
      steps (
        given (get data' (str "comp-lzo")) (λ lzo.
          line (str "comp-lzo" ∷ (if str_eq lzo (str "no-by-default") then str "no" else lzo) ∷ []))
        ∷ given (get data' (str "compress")) compress_line
        ∷ []))

-- `mssfix` alone, or with the number written anew
unfoldable pub mssfix_number : Option ℤ → Str → Str
mssfix_number none w = w
mssfix_number (some n) w = line (str "mssfix" ∷ to_string n ∷ []) w

unfoldable pub mssfix_line : Str → Str → Str
mssfix_line v =
    if str_eq v (str "yes") then line (str "mssfix" ∷ []) else mssfix_number (parse_i64 v)

unfoldable pub crl_lines : Option Str → Option Str → Str → Str
crl_lines (some file) dir = line (str "crl-verify" ∷ file ∷ [])
crl_lines none dir = given dir (λ d. line (str "crl-verify" ∷ d ∷ str "dir" ∷ []))

unfoldable pub mtu_block : Data → Option Str → Str → Str
mtu_block data' contype = steps (
    yes_flag data' (str "float") (str "float")
    ∷ given (get data' (str "mssfix")) mssfix_line
    ∷ line_str (str "mtu-disc") (get data' (str "mtu-disc"))
    ∷ line_int (str "tun-mtu") (get data' (str "tunnel-mtu"))
    ∷ line_int (str "connect-timeout") (get data' (str "connect-timeout"))
    ∷ line_int (str "fragment") (get data' (str "fragment-size"))
    ∷ when (is_tls_like contype)
        (crl_lines (get data' (str "crl-verify-file")) (get data' (str "crl-verify-dir")))
    ∷ [])

-- `dev.or(dev_type).unwrap_or(default)`
unfoldable pub chosen_dev : Option Str → Option Str → Str → Str
chosen_dev (some d) dev_type default = d
chosen_dev none (some t) default = t
chosen_dev none none default = default

unfoldable pub ifconfig_line : Option Str → Option Str → Str → Str
ifconfig_line (some l) (some r) w = line (str "ifconfig" ∷ l ∷ r ∷ []) w
ifconfig_line (some l) none w = w
ifconfig_line none r w = w

unfoldable pub device_block : Data → Str → Str
device_block data' =
    let dev_type = get data' (str "dev-type") in
    let default =
      if is_some_str (get data' (str "tap-dev")) (str "yes") then str "tap" else str "tun" in
    steps (
      line (str "dev" ∷ chosen_dev (get data' (str "dev")) dev_type default ∷ [])
      ∷ line_str (str "dev-type") dev_type
      ∷ line (
          str "proto"
          ∷ (if is_some_str (get data' (str "proto-tcp")) (str "yes") then str "tcp" else str "udp")
          ∷ [])
      ∷ line_int (str "port") (get data' (str "port"))
      ∷ line_int (str "ping") (get data' (str "ping"))
      ∷ line_int (str "ping-exit") (get data' (str "ping-exit"))
      ∷ line_int (str "ping-restart") (get data' (str "ping-restart"))
      ∷ ifconfig_line (get data' (str "local-ip")) (get data' (str "remote-ip"))
      ∷ [])
