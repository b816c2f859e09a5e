-- ===== src/Ovpn/Validate.antt =====
-- `OvpnConfig::validate`: the sanity checks of single options.
use nm_openvpn.Base.{
  List, Option, Str, [], if◌then◌else◌, leb, none, one_of, some, str, str_eq, ℕ, ◌&&◌, ◌∷◌,
}
use nm_openvpn.Text.{parse_u32, strip_suffix}
use nm_openvpn.Ovpn.Defs.{
  ◌>>=◌, ◌>>◌, Directive, option, blob, requires_value, not_numeric, out_of_range, bad_value,
  requires_two_integers, bad_keepalive, Result, ok, err,
}

-- `args.first().ok_or_else(…)?`
value_of : Str → List Str → Result Str
value_of name [] = err (requires_value name)
value_of name (v ∷ args) = ok v

-- `matches!(v, "a" | "b" | …)`, or the error
value_in : List Str → Str → Str → Result (Unit {0})
unfolding one_of
value_in allowed name v = if one_of allowed v then ok tt else err (bad_value name)

port_range : Str → Option ℕ → Result (Unit {0})
port_range name none = err (not_numeric name)
port_range name (some n) = if leb 1 n && leb n 65535 then ok tt else err (out_of_range name)

protocols : List Str
unfolding str
protocols =
    str "udp"
    ∷ str "tcp"
    ∷ str "udp4"
    ∷ str "udp6"
    ∷ str "tcp4"
    ∷ str "tcp6"
    ∷ str "tcp-client"
    ∷ str "tcp-server"
    ∷ str "udp-client"
    ∷ str "udp-server"
    ∷ str "tcp4-client"
    ∷ str "tcp6-client"
    ∷ str "udp4-client"
    ∷ str "udp6-client"
    ∷ []

tls_versions : List Str
unfolding str
tls_versions = str "1.0" ∷ str "1.1" ∷ str "1.2" ∷ str "1.3" ∷ []

-- `v.strip_suffix(" or-highest").unwrap_or(v)`
tls_base : Str → Str
unfolding strip_suffix str
tls_base v = elim (strip_suffix (str " or-highest") v) [ none ↦ v | some base ↦ base ]

keepalive_arg : Str → Result (Unit {0})
unfolding parse_u32
keepalive_arg arg = elim (parse_u32 arg) [ none ↦ err bad_keepalive | some n ↦ ok tt ]

keepalive : List Str → Result (Unit {0})
unfolding keepalive_arg
keepalive [] = err requires_two_integers
keepalive (a ∷ []) = err requires_two_integers
keepalive (a ∷ b ∷ args) = do keepalive_arg a; keepalive_arg b

comp_lzo : Str → List Str → Result (Unit {0})
unfolding value_in str
comp_lzo name [] = ok tt
comp_lzo name (v ∷ args) = value_in (str "yes" ∷ str "no" ∷ str "adaptive" ∷ []) name v

-- One option, by its name.
unfoldable pub check_option : Str → List Str → Result (Unit {0})
unfolding str one_of value_of value_in port_range protocols tls_versions tls_base keepalive comp_lzo
    parse_u32 str_eq
check_option name args =
    if one_of (str "port" ∷ str "proxy-port" ∷ []) name
    then (do v ← value_of name args; port_range name (parse_u32 v))
    else if one_of (str "key-direction" ∷ str "static-key-direction" ∷ []) name
    then (do v ← value_of name args; value_in (str "0" ∷ str "1" ∷ []) name v)
    else if one_of (str "remote-cert-tls" ∷ str "ns-cert-type" ∷ []) name
    then (do v ← value_of name args; value_in (str "client" ∷ str "server" ∷ []) name v)
    else if str_eq name (str "mtu-disc")
    then (do v ← value_of name args; value_in (str "no" ∷ str "maybe" ∷ str "yes" ∷ []) name v)
    else if str_eq name (str "comp-lzo")
    then comp_lzo name args
    else if str_eq name (str "proto")
    then (do v ← value_of name args; value_in protocols name v)
    else if one_of (str "tls-version-min" ∷ str "tls-version-max" ∷ []) name
    then (do v ← value_of name args; value_in tls_versions name (tls_base v))
    else if str_eq name (str "keepalive")
    then keepalive args
    else ok tt

unfoldable pub validate : List Directive → Result (Unit {0})
unfolding check_option
validate [] = ok tt
validate (option name args ∷ ds) = do check_option name args; validate ds
validate (blob name body ∷ ds) = validate ds
