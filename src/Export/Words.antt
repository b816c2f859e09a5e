-- ===== src/Export/Words.antt =====
-- Statements that push directives of known names.
use nm_openvpn.Base.{
  Bool, List, Option, Str, [], false, if◌then◌else◌, none, one_of, refl, some, str, true, ◌++◌,
  ◌||◌, ◌∷◌, ◌≡◌,
}
use nm_openvpn.Base.Lists.{All, All-append}
use nm_openvpn.Export.Blocks.{flatten, given, push_flag, push_opt, push_pairs, when, yes_flag}
use nm_openvpn.Export.RouteWords.{leads}
use nm_openvpn.Profile.Values.{Data}
use nm_openvpn.Ovpn.Defs.{Directive, blob, option}

-- The names of the options that are pushed outside the loop over `pairs_str`, but for the routes.
unfoldable pub other_words : List Str
other_words =
    str "client"
    ∷ str "remote"
    ∷ str "remote-random"
    ∷ str "remote-random-hostname"
    ∷ str "allow-pull-fqdn"
    ∷ str "tun-ipv6"
    ∷ str "push-peer-info"
    ∷ str "pkcs12"
    ∷ str "ca"
    ∷ str "cert"
    ∷ str "key"
    ∷ str "auth-user-pass"
    ∷ str "secret"
    ∷ str "comp-lzo"
    ∷ str "compress"
    ∷ str "float"
    ∷ str "mssfix"
    ∷ str "ifconfig"
    ∷ str "verify-x509-name"
    ∷ str "tls-auth"
    ∷ str "tls-crypt"
    ∷ str "tls-crypt-v2"
    ∷ str "tls-version-min"
    ∷ str "remote-cert-tls"
    ∷ str "ns-cert-type"
    ∷ str "tls-remote"
    ∷ str "tls-version-max"
    ∷ str "extra-certs"
    ∷ str "crl-verify"
    ∷ str "dev"
    ∷ str "dev-type"
    ∷ str "proto"
    ∷ str "http-proxy"
    ∷ str "http-proxy-retry"
    ∷ str "socks-proxy"
    ∷ str "socks-proxy-retry"
    ∷ str "nobind"
    ∷ str "auth-nocache"
    ∷ str "script-security"
    ∷ str "persist-key"
    ∷ str "persist-tun"
    ∷ str "user"
    ∷ str "group"
    ∷ []

-- One of these names, or one that begins as the routes do.
abbrev pub IsOther : Str → Type 0
IsOther name = (one_of other_words name || leads name) ≡ true

abbrev pub IsNamed : Directive → Type 0
IsNamed (option name args) = IsOther name
IsNamed (blob name body) = ⊥

pub record AreNamed (ds : List Directive) : Type 0 where
  pub each : All IsNamed ds

pub nothing : AreNamed []
nothing = record { each = tt }

one : (name : Str) (args : List Str) → IsOther name → AreNamed (option name args ∷ [])
one name args p = record { each = (p, tt) }

pub opt : (name : Str) (args : List Str) → IsOther name → AreNamed (push_opt name args)
unfolding push_opt
opt = one

pub flag : (name : Str) → IsOther name → AreNamed (push_flag name)
unfolding push_flag
flag name = one name []

pub append : (ds es : List Directive) → AreNamed ds → AreNamed es → AreNamed (ds ++ es)
append ds es p q = record { each = All-append IsNamed ds es p.each q.each }

pub if_both :
    (b : Bool) (ds es : List Directive)
    → AreNamed ds
    → AreNamed es
    → AreNamed (if b then ds else es)
if_both true ds es p q = p
if_both false ds es p q = q

pub when_only : (b : Bool) (ds : List Directive) → AreNamed ds → AreNamed (when b ds)
unfolding when
when_only b ds p = if_both b ds [] p nothing

pub given_each :
    (o : Option Str) (f : Str → List Directive)
    → ((v : Str) → AreNamed (f v))
    → AreNamed (given o f)
unfolding given
given_each none f h = nothing
given_each (some v) f h = h v

pub flag_yes : (data' : Data) (key tag : Str) → IsOther tag → AreNamed (yes_flag data' key tag)
unfolding yes_flag
flag_yes data' key tag p = when_only _ _ (flag tag p)

pub flatten_nil : AreNamed (flatten [])
unfolding flatten
flatten_nil = nothing

pub flatten_cons :
    (ds : List Directive) (rest : List (List Directive))
    → AreNamed ds
    → AreNamed (flatten rest)
    → AreNamed (flatten (ds ∷ rest))
unfolding flatten
flatten_cons ds rest p q = append ds (flatten rest) p q

pub pairs_nil : (data' : Data) → AreNamed (push_pairs data' [])
unfolding push_pairs
pairs_nil data' = nothing

pub pairs_cons :
    (data' : Data) (k n : Str) (ps : List (Str × Str))
    → IsOther n
    → AreNamed (push_pairs data' ps)
    → AreNamed (push_pairs data' ((k, n) ∷ ps))
unfolding push_pairs
pairs_cons data' k n ps p q = append _ _ (given_each _ _ (λ v. opt n (v ∷ []) p)) q

pub ruleset statements = (
  opt, flag, append, if_both, when_only, given_each, flag_yes, flatten_nil, flatten_cons, pairs_nil,
  pairs_cons, nothing, refl,
)
