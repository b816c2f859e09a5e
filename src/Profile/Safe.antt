-- ===== src/Profile/Safe.antt =====
-- Every block of `build_profile_string` keeps the buffer clean, so the profile is safe.
use nm_openvpn.Base.{List, Option, Str, [], none, one_of, refl, some, str, str_eq, ◌∷◌, ◌≡◌}
use nm_openvpn.Base.Lists.{All}
use nm_openvpn.Text.{lines, to_string, trim, ℤ}
use nm_openvpn.Text.Laws.{lines-unlines}
use nm_openvpn.Profile.Build.{
  build_for, build_from, build_profile_string, proxy_block, proxy_lines, tail_block, tls_block,
  x509_line,
}
use nm_openvpn.Profile.RouteGate.{route_block-Keeps}
use nm_openvpn.Profile.Rules.{
  security-Keeps, Keeps, line-Keeps, line_opt-Keeps, steps-Keeps, when-Keeps, given-Keeps, if-Keeps,
  line_str-Keeps, line_int-Keeps, yes_flag-Keeps,
}
use nm_openvpn.Profile.Clean.{Clean, IsSafeLine, plain_tags}
use nm_openvpn.Profile.Values.{get, Remote, parse_remote, Data}
use nm_openvpn.Profile.Blocks.{
  cert_block, compress_line, compression_block, crl_lines, device_block, ifconfig_line, mssfix_line,
  mssfix_number, mtu_block, remote_block, remote_line, remote_lines, cipher_block,
}

ruleset statements = (
  line-Keeps, line_opt-Keeps, steps-Keeps, when-Keeps, given-Keeps, if-Keeps, line_str-Keeps,
  line_int-Keeps, yes_flag-Keeps, refl,
)

cipher_block-Keeps : (data' : Data) → Keeps (cipher_block data')
unfolding cipher_block plain_tags one_of str str_eq
cipher_block-Keeps data' = steps-Keeps _ (search statements)

remote_line-Keeps : (r : Remote) → Keeps (remote_line r)
unfolding remote_line plain_tags one_of str str_eq
remote_line-Keeps (host, port, proto) = search statements

remote_lines-Keeps : (gws : List Str) → Keeps (remote_lines gws)
unfolding remote_lines
remote_lines-Keeps [] = record { keeps = λ w c. c }
remote_lines-Keeps (gw ∷ gws) = record {
  keeps = λ w c.
      (remote_lines-Keeps gws).keeps _
        ((when-Keeps _ _ (remote_line-Keeps (parse_remote (trim gw)))).keeps w c);
}

remote_block-Keeps : (data' : Data) (gws : Str) → Keeps (remote_block data' gws)
unfolding remote_block plain_tags one_of str str_eq
remote_block-Keeps data' gws = steps-Keeps _ (search (statements, remote_lines-Keeps))

cert_block-Keeps : (data' : Data) (contype : Option Str) → Keeps (cert_block data' contype)
unfolding cert_block plain_tags one_of str str_eq
cert_block-Keeps data' contype = steps-Keeps _ (search statements depth 12)

compress_line-Keeps : (v : Str) → Keeps (compress_line v)
unfolding compress_line plain_tags one_of str str_eq
compress_line-Keeps v = search statements

compression_block-Keeps : (data' : Data) → Keeps (compression_block data')
unfolding compression_block plain_tags one_of str str_eq
compression_block-Keeps data' = search (statements, compress_line-Keeps) depth 8

mssfix_number-Keeps : (n : Option ℤ) → Keeps (mssfix_number n)
unfolding mssfix_number plain_tags one_of str str_eq
mssfix_number-Keeps none = record { keeps = λ w c. c }
mssfix_number-Keeps (some n) = record {
  keeps = (line-Keeps (str "mssfix") (to_string n ∷ []) refl).keeps;
}

mssfix_line-Keeps : (v : Str) → Keeps (mssfix_line v)
unfolding mssfix_line plain_tags one_of str str_eq
mssfix_line-Keeps v = search (statements, mssfix_number-Keeps)

crl_lines-Keeps : (file dir : Option Str) → Keeps (crl_lines file dir)
unfolding crl_lines plain_tags one_of str str_eq
crl_lines-Keeps (some f) dir = search statements
crl_lines-Keeps none dir = search statements

mtu_block-Keeps : (data' : Data) (contype : Option Str) → Keeps (mtu_block data' contype)
unfolding mtu_block plain_tags one_of str str_eq
mtu_block-Keeps data' contype =
    steps-Keeps _ (search (statements, mssfix_line-Keeps, crl_lines-Keeps))

ifconfig_line-Keeps : (l r : Option Str) → Keeps (ifconfig_line l r)
unfolding ifconfig_line plain_tags one_of str str_eq
ifconfig_line-Keeps (some l) (some r) = record {
  keeps = (line-Keeps (str "ifconfig") (l ∷ r ∷ []) refl).keeps;
}
ifconfig_line-Keeps (some l) none = record { keeps = λ w c. c }
ifconfig_line-Keeps none r = record { keeps = λ w c. c }

device_block-Keeps : (data' : Data) → Keeps (device_block data')
unfolding device_block plain_tags one_of str str_eq
device_block-Keeps data' = steps-Keeps _ (search (statements, ifconfig_line-Keeps))

x509_line-Keeps : (v : Str) → Keeps (x509_line v)
unfolding x509_line plain_tags one_of str str_eq
x509_line-Keeps v = search statements

tls_block-Keeps : (data' : Data) (contype : Option Str) → Keeps (tls_block data' contype)
unfolding tls_block plain_tags one_of str str_eq
tls_block-Keeps data' contype =
    when-Keeps _ _ (steps-Keeps _ (search (statements, x509_line-Keeps)))

proxy_lines-Keeps : (data' : Data) (ty server : Str) → Keeps (proxy_lines data' ty server)
unfolding proxy_lines plain_tags one_of str str_eq
proxy_lines-Keeps data' ty server = search statements depth 10

proxy_block-Keeps : (data' : Data) → Keeps (proxy_block data')
unfolding proxy_block
proxy_block-Keeps data' = given-Keeps _ _ (λ ty. given-Keeps _ _ (proxy_lines-Keeps data' ty))

tail_block-Keeps : Keeps tail_block
unfolding tail_block plain_tags one_of str str_eq
tail_block-Keeps = steps-Keeps _ (search (statements, security-Keeps))

build_from-Clean : (data' : Data) (gateways : Str) → Clean (build_from data' gateways)
unfolding build_from plain_tags one_of str str_eq
build_from-Clean data' gateways =
    (steps-Keeps _ (
        search (
          statements, remote_block-Keeps, cert_block-Keeps, cipher_block-Keeps,
          compression_block-Keeps, mtu_block-Keeps, device_block-Keeps, route_block-Keeps,
          tls_block-Keeps, proxy_block-Keeps, tail_block-Keeps,
        ))).keeps
      [] (record { parts = []; spells = refl; are_lines = tt; are_safe = tt })

Clean-lines : {buf : Str} → Clean buf → All IsSafeLine (lines buf)
Clean-lines c = rw (c.spells, lines-unlines c.parts c.are_lines) c.are_safe

-- For settings with a `remote` the profile is built, whatever the other settings and the secrets
-- hold, and each of its physical lines begins with one of the listed directives, none of which
-- runs a program, or is exactly `script-security 2`.
pub build_profile_string-IsSafeLine :
    (data' secrets : Data) (gateways : Str)
    → get data' (str "remote") ≡ some gateways
    → (out : Str) × (build_profile_string data' secrets ≡ some out) × All IsSafeLine (lines out)
unfolding build_profile_string build_for
build_profile_string-IsSafeLine data' secrets gateways h =
    (build_from data' gateways, rw h, Clean-lines (build_from-Clean data' gateways))
