-- ===== src/Export/Blocks.antt =====
-- The blocks of `from_nm_data` up to the static key and the key-value pairs. Each block gives the
-- directives that it pushes.
use nm_openvpn.Base.{
  Bool, List, Option, Str, [], false, if◌then◌else◌, is_some_str, none, not, some, str, str_eq,
  ◌&&◌, ◌++◌, ◌∷◌,
}
use nm_openvpn.Text.{is_empty, split, split_once, strip_prefix, trim}
use nm_openvpn.Ovpn.Defs.{Directive, option}
use nm_openvpn.Profile.Values.{Data, get, Remote, is_pkcs12_path, parse_bare, parse_bracketed}
use nm_openvpn.Profile.Blocks.{is_tls_like, is_password_like, needs_user_cert, is_remote_separator}

unfoldable pub push_opt : Str → List Str → List Directive
push_opt name args = option name args ∷ []

unfoldable pub push_flag : Str → List Directive
push_flag name = option name [] ∷ []

-- Statements one after the other.
unfoldable pub flatten : List (List Directive) → List Directive
flatten [] = []
flatten (ds ∷ rest) = ds ++ flatten rest

-- `if b { … }` and `if let Some(v) = o { … }`
unfoldable pub when : Bool → List Directive → List Directive
when b ds = if b then ds else []

unfoldable pub given : Option Str → (Str → List Directive) → List Directive
given none f = []
given (some v) f = f v

-- `if b { o } else { None }`
unfoldable pub only_if : Bool → Option Str → Option Str
only_if b o = if b then o else none

-- `vec![v.into()]`, and `args.push(o)` where `o` is there
unfoldable pub and_then : Str → Option Str → List Str
and_then v none = v ∷ []
and_then v (some w) = v ∷ w ∷ []

unfoldable pub yes_flag : Data → Str → Str → List Directive
yes_flag data' key tag = when (is_some_str (get data' key) (str "yes")) (push_flag tag)

-- The loop over `pairs_str` and `tls_pairs`: NM key and option name.
unfoldable pub push_pairs : Data → List (Str × Str) → List Directive
push_pairs data' [] = []
push_pairs data' ((nm_key, ovpn_key) ∷ pairs) =
    given (get data' nm_key) (λ v. push_opt ovpn_key (v ∷ [])) ++ push_pairs data' pairs

unfoldable pub split_remote : Str → Remote
split_remote gw = elim (strip_prefix (b'[' ∷ []) gw) [
  | none ↦ parse_bare gw
  | some rest ↦ parse_bracketed gw (split_once b']' rest)
]

unfoldable pub remote_args : Remote → List Str
remote_args (host, some p, none) = host ∷ p ∷ []
remote_args (host, some p, some t) = host ∷ p ∷ t ∷ []
remote_args (host, none, some t) = host ∷ str "1194" ∷ t ∷ []
remote_args (host, none, none) = host ∷ []

unfoldable pub push_remotes : List Str → List Directive
push_remotes [] = []
push_remotes (gw ∷ gws) =
    when (not (is_empty (trim gw))) (push_opt (str "remote") (remote_args (split_remote (trim gw))))
    ++ push_remotes gws

unfoldable pub remote_block : Data → List Directive
remote_block data' = flatten (
    given (get data' (str "remote")) (λ remotes. push_remotes (split is_remote_separator remotes))
    ∷ yes_flag data' (str "remote-random") (str "remote-random")
    ∷ yes_flag data' (str "remote-random-hostname") (str "remote-random-hostname")
    ∷ yes_flag data' (str "allow-pull-fqdn") (str "allow-pull-fqdn")
    ∷ yes_flag data' (str "tun-ipv6") (str "tun-ipv6")
    ∷ yes_flag data' (str "push-peer-info") (str "push-peer-info")
    ∷ [])

-- `matches!((ca, cert, key), (Some(a), Some(c), Some(k)) if a == c && c == k && is_pkcs12_path(c))`
unfoldable pub pkcs12_collapse : Option Str → Option Str → Option Str → Bool
pkcs12_collapse (some a) (some c) (some k) = str_eq a c && str_eq c k && is_pkcs12_path c
pkcs12_collapse (some a) (some c) none = false
pkcs12_collapse (some a) none key = false
pkcs12_collapse none cert key = false

unfoldable pub unwrap_or_default : Option Str → Str
unwrap_or_default none = []
unwrap_or_default (some v) = v

unfoldable pub cert_lines : Option Str → Option Str → Option Str → List Directive
cert_lines ca cert key =
    if pkcs12_collapse ca cert key
    then push_opt (str "pkcs12") (unwrap_or_default cert ∷ [])
    else flatten (
        given ca (λ v. push_opt (str "ca") (v ∷ []))
        ∷ given cert (λ v. push_opt (str "cert") (v ∷ []))
        ∷ given key (λ v. push_opt (str "key") (v ∷ []))
        ∷ [])

unfoldable pub cert_block : Data → Option Str → List Directive
cert_block data' contype = flatten (
    cert_lines (only_if (is_tls_like contype) (get data' (str "ca")))
      (only_if (needs_user_cert contype) (get data' (str "cert")))
      (only_if (needs_user_cert contype) (get data' (str "key")))
    ∷ when (is_password_like contype) (push_flag (str "auth-user-pass"))
    ∷ when (is_some_str contype (str "static-key")) (
        given (get data' (str "static-key")) (λ secret.
          push_opt (str "secret") (and_then secret (get data' (str "static-key-direction")))))
    ∷ [])

unfoldable pub pairs_str : List (Str × Str)
pairs_str =
    (str "reneg-seconds", str "reneg-sec")
    ∷ (str "max-routes", str "max-routes")
    ∷ (str "cipher", str "cipher")
    ∷ (str "data-ciphers", str "data-ciphers")
    ∷ (str "data-ciphers-fallback", str "data-ciphers-fallback")
    ∷ (str "tls-cipher", str "tls-cipher")
    ∷ (str "keysize", str "keysize")
    ∷ (str "allow-compression", str "allow-compression")
    ∷ (str "auth", str "auth")
    ∷ (str "mtu-disc", str "mtu-disc")
    ∷ (str "tunnel-mtu", str "tun-mtu")
    ∷ (str "connect-timeout", str "connect-timeout")
    ∷ (str "fragment-size", str "fragment")
    ∷ (str "port", str "port")
    ∷ (str "ping", str "ping")
    ∷ (str "ping-exit", str "ping-exit")
    ∷ (str "ping-restart", str "ping-restart")
    ∷ []
