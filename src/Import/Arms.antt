-- ===== src/Import/Arms.antt =====
-- The arms of the `match` on the name of an option, and what each does. The map of the settings is
-- its lookup function.
use nm_openvpn.Base.{
  List, Option, Str, [], false, if◌then◌else◌, none, not, some, str, str_eq, true, ℕ, ◌&&◌, ◌++◌,
  ◌==◌, ◌∷◌,
}
use nm_openvpn.Text.{any_char, is_empty, starts_with}
use nm_openvpn.Base.Maps.{Map, insert}
use nm_openvpn.Ovpn.Defs.{first, second}

pub data Arm : Type 0 where
  -- `if let Some(v) = a0 { data.insert(key, v) }`, and `data.insert(key, "yes")`
  value flag : Str → Arm
  -- a value with a default, where there is no argument
  value_or : Str → Str → Arm
  -- the same, and the first argument fills `ca`, `cert` or `key`
  ca_file cert_file key_file pkcs12 : Arm
  auth_user_pass proto remote comp_lzo x509 version_min static_secret tls_auth key_direction : Arm
  crl_verify http_proxy socks_proxy ifconfig route keepalive : Arm
  -- no arm, or an arm that does nothing
  dropped : Arm

-- The names of the arms, in order; an arm `"a" | "b"` stands twice.
unfoldable pub arms : List (Str × Arm)
arms =
    (str "auth-user-pass", auth_user_pass)
    ∷ (str "dev", value (str "dev"))
    ∷ (str "dev-type", value (str "dev-type"))
    ∷ (str "proto", proto)
    ∷ (str "remote", remote)
    ∷ (str "port", value (str "port"))
    ∷ (str "cipher", value (str "cipher"))
    ∷ (str "data-ciphers", value (str "data-ciphers"))
    ∷ (str "data-ciphers-fallback", value (str "data-ciphers-fallback"))
    ∷ (str "auth", value (str "auth"))
    ∷ (str "keysize", value (str "keysize"))
    ∷ (str "tls-cipher", value (str "tls-cipher"))
    ∷ (str "tun-mtu", value (str "tunnel-mtu"))
    ∷ (str "fragment", value (str "fragment-size"))
    ∷ (str "mssfix", value_or (str "mssfix") (str "yes"))
    ∷ (str "ping", value (str "ping"))
    ∷ (str "ping-exit", value (str "ping-exit"))
    ∷ (str "ping-restart", value (str "ping-restart"))
    ∷ (str "reneg-sec", value (str "reneg-seconds"))
    ∷ (str "connect-timeout", value (str "connect-timeout"))
    ∷ (str "server-poll-timeout", value (str "connect-timeout"))
    ∷ (str "comp-lzo", comp_lzo)
    ∷ (str "compress", value_or (str "compress") (str "yes"))
    ∷ (str "allow-compression", value (str "allow-compression"))
    ∷ (str "float", flag (str "float"))
    ∷ (str "remote-random", flag (str "remote-random"))
    ∷ (str "remote-random-hostname", flag (str "remote-random-hostname"))
    ∷ (str "push-peer-info", flag (str "push-peer-info"))
    ∷ (str "tun-ipv6", flag (str "tun-ipv6"))
    ∷ (str "allow-pull-fqdn", flag (str "allow-pull-fqdn"))
    ∷ (str "ns-cert-type", value (str "ns-cert-type"))
    ∷ (str "remote-cert-tls", value (str "remote-cert-tls"))
    ∷ (str "tls-remote", value (str "tls-remote"))
    ∷ (str "verify-x509-name", x509)
    ∷ (str "tls-version-min", version_min)
    ∷ (str "tls-version-max", value (str "tls-version-max"))
    ∷ (str "ca", ca_file)
    ∷ (str "cert", cert_file)
    ∷ (str "key", key_file)
    ∷ (str "pkcs12", pkcs12)
    ∷ (str "secret", static_secret)
    ∷ (str "tls-auth", tls_auth)
    ∷ (str "key-direction", key_direction)
    ∷ (str "tls-crypt", value (str "tls-crypt"))
    ∷ (str "tls-crypt-v2", value (str "tls-crypt-v2"))
    ∷ (str "extra-certs", value (str "extra-certs"))
    ∷ (str "crl-verify", crl_verify)
    ∷ (str "http-proxy", http_proxy)
    ∷ (str "socks-proxy", socks_proxy)
    ∷ (str "ifconfig", ifconfig)
    ∷ (str "route", route)
    ∷ (str "keepalive", keepalive)
    ∷ []

unfoldable pub arm_among : List (Str × Arm) → Str → Arm
arm_among [] n = dropped
arm_among ((name, arm) ∷ rest) n = elim (str_eq n name) [ true ↦ arm | false ↦ arm_among rest n ]

unfoldable pub arm_of : Str → Arm
arm_of n = arm_among arms n

-- `if let Some(v) = o { data.insert(key, v) }`
unfoldable pub insert_some : Str → Option Str → Map Str → Map Str
insert_some key none data' = data'
insert_some key (some v) data' = insert key v data'

-- The entry of a remote: an IPv6 literal in brackets, then port and protocol.
unfoldable pub remote_host : Str → Str
remote_host host =
    if any_char (λ c. c == b':') host && not (starts_with (b'[' ∷ []) host)
    then b'[' ∷ (host ++ b']' ∷ [])
    else host

unfoldable pub remote_tail : Option Str → Option Str → Str
remote_tail none none = []
remote_tail (some port) none = b':' ∷ port
remote_tail none (some transport) = b':' ∷ b':' ∷ transport
remote_tail (some port) (some transport) = b':' ∷ (port ++ b':' ∷ transport)

unfoldable pub third : List Str → Option Str
third (a ∷ b ∷ c ∷ args) = some c
third (a ∷ b ∷ []) = none
third (a ∷ []) = none
third [] = none

unfoldable pub text_or : Str → Option Str → Str
text_or d none = d
text_or d (some v) = v

unfoldable pub remote_entry : List Str → Str
remote_entry args = remote_host (text_or [] (first args)) ++ remote_tail (second args) (third args)

-- `data.entry(key).or_default()`, with the separator pushed unless the entry is empty.
unfoldable pub append_entry : Str → ℕ → Str → Map Str → Map Str
append_entry key sep text data' =
    let entry = text_or [] (data' key) in
    insert key (if is_empty entry then text else entry ++ sep ∷ text) data'

-- `.join(" ")`, behind a first word
unfoldable pub join_words : List Str → Str → Str
join_words [] a = a
join_words (b ∷ args) a = a ++ b' ' ∷ join_words args b

unfoldable pub x509_value : List Str → Str
x509_value args = elim (second args) [
  | none ↦ text_or [] (first args)
  | some ty ↦ ty ++ b':' ∷ text_or [] (first args)
]

unfoldable pub lzo_value : Str → Str
lzo_value v = if str_eq v (str "no") then str "no-by-default" else v

-- What is put into the map, apart from the flags that the loop keeps.
unfoldable pub insert_proto : Option Str → Map Str → Map Str
insert_proto none data' = data'
insert_proto (some p) data' =
    if starts_with (str "udp") p then data' else insert (str "proto-tcp") (str "yes") data'

unfoldable pub insert_both : Str → Option Str → Str → Option Str → Map Str → Map Str
insert_both k (some a) l (some b) data' = insert l b (insert k a data')
insert_both k (some a) l none data' = data'
insert_both k none l b data' = data'

unfoldable pub insert_proxy : Str → Option Str → Option Str → Option Str → Map Str → Map Str
insert_proxy kind none port authfile data' = data'
insert_proxy kind (some server) port authfile data' =
    insert_some (str "http-proxy-auth-file") authfile (
      insert_some (str "proxy-port") port
        (insert (str "proxy-server") server (insert (str "proxy-type") kind data')))
