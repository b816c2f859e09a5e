-- ===== src/Profile/Clean.antt =====
-- What a profile may hold: physical lines that begin with a known, harmless directive. Each
-- operation of the writer adds such a line.
use nm_openvpn.Base.{
  Bool, List, Str, [], append-nil, append_assoc, false, one_of, refl, some, str, sym, true, ◌++◌,
  ◌∷◌, ◌≡◌,
}
use nm_openvpn.Base.Lists.{All}
use nm_openvpn.Quote as Q
use nm_openvpn.Quote.Forms.{escaped, spaced, push_escaped_lem}
use nm_openvpn.Profile.Writer.{
  scan_char, scan, push_double_char, push_double, quoted_by, push_escaped, push_words, line,
}
use nm_openvpn.Text.Laws.{unlines, first_word, IsLine}

-- The directives that `build_profile_string` writes, but for `script-security`. None of them names
-- a program to run.
unfoldable pub plain_tags : List Str
plain_tags =
    str "client"
    ∷ str "remote"
    ∷ str "remote-random"
    ∷ str "remote-random-hostname"
    ∷ str "allow-pull-fqdn"
    ∷ str "tun-ipv6"
    ∷ str "push-peer-info"
    ∷ str "pkcs12"
    ∷ str "ca"
    ∷ str "cert"
    ∷ str "key"
    ∷ str "auth-user-pass"
    ∷ str "secret"
    ∷ str "reneg-sec"
    ∷ str "max-routes"
    ∷ str "cipher"
    ∷ str "data-ciphers"
    ∷ str "data-ciphers-fallback"
    ∷ str "tls-cipher"
    ∷ str "auth"
    ∷ str "keysize"
    ∷ str "allow-compression"
    ∷ str "comp-lzo"
    ∷ str "compress"
    ∷ str "float"
    ∷ str "mssfix"
    ∷ str "mtu-disc"
    ∷ str "tun-mtu"
    ∷ str "connect-timeout"
    ∷ str "fragment"
    ∷ str "crl-verify"
    ∷ str "dev"
    ∷ str "dev-type"
    ∷ str "proto"
    ∷ str "port"
    ∷ str "ping"
    ∷ str "ping-exit"
    ∷ str "ping-restart"
    ∷ str "ifconfig"
    ∷ str "route"
    ∷ str "route-ipv6"
    ∷ str "route-gateway"
    ∷ str "route-metric"
    ∷ str "route-delay"
    ∷ str "remote-cert-tls"
    ∷ str "ns-cert-type"
    ∷ str "tls-remote"
    ∷ str "verify-x509-name"
    ∷ str "tls-auth"
    ∷ str "tls-crypt"
    ∷ str "tls-crypt-v2"
    ∷ str "tls-version-min"
    ∷ str "tls-version-max"
    ∷ str "extra-certs"
    ∷ str "http-proxy"
    ∷ str "http-proxy-retry"
    ∷ str "socks-proxy"
    ∷ str "socks-proxy-retry"
    ∷ str "nobind"
    ∷ str "auth-nocache"
    ∷ str "persist-key"
    ∷ str "persist-tun"
    ∷ str "user"
    ∷ str "group"
    ∷ []

-- A line is harmless: its first word is a plain directive, or it is the fixed security level.
pub data IsSafeLine (l : Str) : Type 0 where
  plain : (w : Str) → first_word l ≡ some w → one_of plain_tags w ≡ true → IsSafeLine l
  security : l ≡ str "script-security 2" → IsSafeLine l

pub record Clean (buf : Str) : Type 0 where
  pub parts : List Str
  pub spells : buf ≡ unlines parts
  pub are_lines : All IsLine parts
  pub are_safe : All IsSafeLine parts

-- The two crates have the same `push_escaped`.
scan_lem : (s : Str) (f : Bool × Bool) → scan f s ≡ Q.scan f s
unfolding scan Q.scan scan_char Q.scan_char
scan_lem [] f = refl
scan_lem (c ∷ s) (q, d) = scan_lem s _

push_double_lem : (s buf : Str) → push_double buf s ≡ Q.push_double buf s
unfolding push_double Q.push_double push_double_char Q.push_double_char
push_double_lem [] buf = refl
push_double_lem (c ∷ s) buf = push_double_lem s _

quoted_by_lem : (f : Bool × Bool) (buf s : Str) → quoted_by f buf s ≡ Q.quoted_by f buf s
unfolding quoted_by Q.quoted_by
quoted_by_lem (false, d) buf s = refl
quoted_by_lem (true, false) buf s = refl
quoted_by_lem (true, true) buf s = rw push_double_lem

-- The copies of `push_escaped` in the two crates leave the same buffer, whatever the value.
pub push_escaped-push_escaped : (buf v : Str) → push_escaped buf v ≡ Q.push_escaped buf v
unfolding push_escaped Q.push_escaped
push_escaped-push_escaped buf [] = refl
push_escaped-push_escaped buf (c ∷ s) = rw (scan_lem, quoted_by_lem)

push_words_lem : (args : List Str) (buf : Str) → push_words false buf args ≡ buf ++ spaced args
unfolding push_words spaced
push_words_lem [] buf = sym (append-nil buf)
push_words_lem (a ∷ args) buf =
    simp (push_escaped-push_escaped, push_escaped_lem, push_words_lem args, append_assoc)

pub line_lem :
    (tag : Str) (args : List Str) (buf : Str)
    → line (tag ∷ args) buf ≡ buf ++ ((escaped tag ++ spaced args) ++ b'\n' ∷ [])
unfolding line push_words
line_lem tag args buf =
    simp (push_escaped-push_escaped, push_escaped_lem, push_words_lem args, append_assoc)
