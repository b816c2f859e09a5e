-- ===== src/Import/Writes.antt =====
-- Which settings an option may change.
use nm_openvpn.Base.{
  Bool, Bool-cases, List, Option, Str, [], false, if◌then◌else◌, inl, inr, is_some_str, none,
  one_of, refl, some, str, str_eq, true, ◌∙◌, ◌∷◌, ◌≡◌,
}
use nm_openvpn.Text.{starts_with}
use mathlib.Core.Bool.{true≢false}
use nm_openvpn.Base.Maps.{Map, insert, insert_ne}
use nm_openvpn.Ovpn.Defs.{first, second}
use nm_openvpn.Import.Arms.{
  value, flag, value_or, ca_file, cert_file, key_file, pkcs12, auth_user_pass, proto, remote,
  comp_lzo, x509, version_min, static_secret, tls_auth, key_direction, crl_verify, http_proxy,
  socks_proxy, ifconfig, route, keepalive, dropped, Arm, insert_some, append_entry, insert_proto,
  insert_both, insert_proxy,
}
use nm_openvpn.Import.Build.{put}

-- The keys that an arm may write.
unfoldable pub writes : Arm → List Str
writes (value key) = key ∷ []
writes (flag key) = key ∷ []
writes (value_or key default) = key ∷ []
writes ca_file = str "ca" ∷ []
writes cert_file = str "cert" ∷ []
writes key_file = str "key" ∷ []
writes pkcs12 = str "key" ∷ str "cert" ∷ str "ca" ∷ []
writes auth_user_pass = []
writes proto = str "proto-tcp" ∷ []
writes remote = str "remote" ∷ []
writes comp_lzo = str "comp-lzo" ∷ []
writes x509 = str "verify-x509-name" ∷ []
writes version_min = str "tls-version-min-or-highest" ∷ str "tls-version-min" ∷ []
writes static_secret = str "static-key-direction" ∷ str "static-key" ∷ []
writes tls_auth = str "ta-dir" ∷ str "ta" ∷ []
writes key_direction = []
writes crl_verify = str "crl-verify-dir" ∷ str "crl-verify-file" ∷ []
writes http_proxy =
    str "http-proxy-auth-file" ∷ str "proxy-port" ∷ str "proxy-server" ∷ str "proxy-type" ∷ []
writes socks_proxy =
    str "http-proxy-auth-file" ∷ str "proxy-port" ∷ str "proxy-server" ∷ str "proxy-type" ∷ []
writes ifconfig = str "remote-ip" ∷ str "local-ip" ∷ []
writes route = str "nm-openvpn3-extra-routes" ∷ []
writes keepalive = str "ping-restart" ∷ str "ping" ∷ []
writes dropped = []

-- Two maps agree on the keys that are none of these.
abbrev pub Same : List Str → Map Str → Map Str → Type 0
Same keys d d' = (j : Str) → one_of keys j ≡ false → d' j ≡ d j

insert-Same :
    (k v : Str) (ks : List Str) (d d' : Map Str) → Same ks d d' → Same (k ∷ ks) d (insert k v d')
unfolding one_of
insert-Same k v ks d d' same j h = elim (Bool-cases (str_eq j k)) [
  | inl e ↦ absurd (true≢false (rw (e, one_of) at h))
  | inr e ↦ insert_ne k j v d' e ∙ same j (rw (e, one_of) at h)
]

skip-Same : (k : Str) (ks : List Str) (d d' : Map Str) → Same ks d d' → Same (k ∷ ks) d d'
unfolding one_of
skip-Same k ks d d' same j h = elim (Bool-cases (str_eq j k)) [
  | inl e ↦ absurd (true≢false (rw (e, one_of) at h))
  | inr e ↦ same j (rw (e, one_of) at h)
]

insert_some-Same :
    (k : Str) (o : Option Str) (ks : List Str) (d d' : Map Str)
    → Same ks d d'
    → Same (k ∷ ks) d (insert_some k o d')
unfolding insert_some
insert_some-Same k none ks d d' same = skip-Same k ks d d' same
insert_some-Same k (some v) ks d d' same = insert-Same k v ks d d' same

all-Same : (d : Map Str) → Same [] d d
all-Same d j h = refl

if-Same :
    (b : Bool) (ks : List Str) (d e e' : Map Str)
    → Same ks d e
    → Same ks d e'
    → Same ks d (if b then e else e')
if-Same true ks d e e' p q = p
if-Same false ks d e e' p q = q

proto-Same : (o : Option Str) (d : Map Str) → Same (str "proto-tcp" ∷ []) d (insert_proto o d)
unfolding insert_proto
proto-Same none d = skip-Same _ [] d d (all-Same d)
proto-Same (some p) d =
    if-Same (starts_with (str "udp") p) _ d _ _ (skip-Same _ [] d d (all-Same d))
      (insert-Same _ _ [] d d (all-Same d))

both-Same :
    (k l : Str) (a b : Option Str) (d : Map Str) → Same (l ∷ k ∷ []) d (insert_both k a l b d)
unfolding insert_both
both-Same k l (some a) (some b) d = insert-Same l b _ d _ (insert-Same k a [] d d (all-Same d))
both-Same k l (some a) none d = skip-Same l _ d d (skip-Same k [] d d (all-Same d))
both-Same k l none b d = skip-Same l _ d d (skip-Same k [] d d (all-Same d))

proxy-Same :
    (kind : Str) (server port authfile : Option Str) (d : Map Str)
    → Same
        (str "http-proxy-auth-file" ∷ str "proxy-port" ∷ str "proxy-server" ∷ str "proxy-type" ∷ [])
        d
        (insert_proxy kind server port authfile d)
unfolding insert_proxy
proxy-Same kind none port authfile d =
    skip-Same _ _ d d (skip-Same _ _ d d (skip-Same _ _ d d (skip-Same _ [] d d (all-Same d))))
proxy-Same kind (some server) port authfile d = insert_some-Same _ authfile _ d _ (
    insert_some-Same _ port _ d _
      (insert-Same _ server _ d _ (insert-Same _ kind [] d d (all-Same d))))

pub put-Same : (a : Arm) (args : List Str) (d : Map Str) → Same (writes a) d (put a args d)
unfolding put writes append_entry
put-Same (value key) args d = insert_some-Same key _ [] d d (all-Same d)
put-Same (flag key) args d = insert-Same key _ [] d d (all-Same d)
put-Same (value_or key default) args d = insert-Same key _ [] d d (all-Same d)
put-Same ca_file args d = insert_some-Same _ _ [] d d (all-Same d)
put-Same cert_file args d = insert_some-Same _ _ [] d d (all-Same d)
put-Same key_file args d = insert_some-Same _ _ [] d d (all-Same d)
put-Same pkcs12 args d =
    insert_some-Same _ _ _ d _
      (insert_some-Same _ _ _ d _ (insert_some-Same _ _ [] d d (all-Same d)))
put-Same auth_user_pass args d = all-Same d
put-Same proto args d = proto-Same _ d
put-Same remote args d = insert-Same _ _ [] d d (all-Same d)
put-Same comp_lzo args d = insert-Same _ _ [] d d (all-Same d)
put-Same x509 args d = insert-Same _ _ [] d d (all-Same d)
put-Same version_min args d =
    let min = insert_some-Same (str "tls-version-min") (first args) [] d d (all-Same d) in
    if-Same _ _ d _ _ (insert-Same _ _ _ d _ min) (skip-Same _ _ d _ min)
put-Same static_secret args d =
    insert_some-Same _ _ _ d _ (insert_some-Same _ _ [] d d (all-Same d))
put-Same tls_auth args d = insert_some-Same _ _ _ d _ (insert_some-Same _ _ [] d d (all-Same d))
put-Same key_direction args d = all-Same d
put-Same crl_verify args d = crl-Same (is_some_str (second args) (str "dir")) (first args)
  where
    crl-Same :
        (b : Bool) (o : Option Str)
        → Same
            (str "crl-verify-dir" ∷ str "crl-verify-file" ∷ [])
            d
            (insert_some (if b then str "crl-verify-dir" else str "crl-verify-file") o d)
    crl-Same true o = insert_some-Same _ o _ d d (skip-Same _ [] d d (all-Same d))
    crl-Same false o = skip-Same _ _ d _ (insert_some-Same _ o [] d d (all-Same d))
put-Same http_proxy args d = proxy-Same _ _ _ _ d
put-Same socks_proxy args d = proxy-Same _ _ _ _ d
put-Same ifconfig args d = both-Same _ _ _ _ d
put-Same route args d = insert-Same _ _ [] d d (all-Same d)
put-Same keepalive args d = both-Same _ _ _ _ d
put-Same dropped args d = all-Same d
