-- ===== src/Export/Names.antt =====
-- The names of the directives that `from_nm_data` pushes.
use nm_openvpn.Base.{
  Bool, List, Option, Str, [], append-nil, append_assoc, arith, false, if◌then◌else◌, none, not,
  one_of, refl, some, str, str_eq, true, ◌++◌, ◌||◌, ◌∷◌, ◌≡◌,
}
use nm_openvpn.Base.Lists.{All}
use nm_openvpn.Text.{is_empty, lines, trim}
use nm_openvpn.Export.Words.{
  AreNamed, IsNamed, append, given_each, if_both, nothing, opt, other_words, statements,
}
use nm_openvpn.Profile.Blocks.{is_tls_like}
use nm_openvpn.Quote.{Tokens, tokenize}
use nm_openvpn.Export.Blocks.{
  cert_block, cert_lines, flatten, pairs_str, push_flag, push_pairs, push_remotes, remote_block,
  when,
}
use nm_openvpn.Export.Build.{
  push_words, tls_block, tls_pairs, compression_block, mssfix_line, ifconfig_line, mtu_block,
  route_block, device_block, proxy_lines, proxy_block, tail_block, compress_line, from_nm_data,
  route_line, route_lines, crl_lines,
}
use nm_openvpn.Export.RouteWords.{leads, begins, route_words}
use nm_openvpn.Profile.Values.{Data, get, is_safe_route_line}
use nm_openvpn.Ovpn.Defs.{Directive}

push_remotes_each : (gws : List Str) → AreNamed (push_remotes gws)
unfolding push_remotes str str_eq one_of other_words leads
push_remotes_each [] = nothing
push_remotes_each (gw ∷ gws) = append _ _ (search statements) (push_remotes_each gws)

remote_block_each : (data' : Data) → AreNamed (remote_block data')
unfolding remote_block str str_eq one_of other_words leads
remote_block_each data' = search (statements, push_remotes_each) depth 20

cert_lines_each : (ca cert key : Option Str) → AreNamed (cert_lines ca cert key)
unfolding cert_lines str str_eq one_of other_words leads
cert_lines_each ca cert key = search statements depth 20

cert_block_each : (data' : Data) (contype : Option Str) → AreNamed (cert_block data' contype)
unfolding cert_block str str_eq one_of other_words leads
cert_block_each data' contype = search (statements, cert_lines_each) depth 20

tls_pairs_each : (data' : Data) → AreNamed (push_pairs data' tls_pairs)
unfolding tls_pairs str str_eq one_of other_words leads
tls_pairs_each data' = search statements depth 40

compress_line_each : (v : Str) → AreNamed (compress_line v)
unfolding compress_line str str_eq one_of other_words leads
compress_line_each v = search statements

compression_block_each : (data' : Data) → AreNamed (compression_block data')
unfolding compression_block str str_eq one_of other_words leads
compression_block_each data' = search (statements, compress_line_each) depth 20

mssfix_line_each : (v : Str) → AreNamed (mssfix_line v)
unfolding mssfix_line str str_eq one_of other_words leads
mssfix_line_each v = search statements

ifconfig_line_each : (l r : Option Str) → AreNamed (ifconfig_line l r)
unfolding ifconfig_line str str_eq one_of other_words leads
ifconfig_line_each (some l) (some r) = search statements
ifconfig_line_each (some l) none = nothing
ifconfig_line_each none r = nothing

mtu_block_each : (data' : Data) → AreNamed (mtu_block data')
unfolding mtu_block str str_eq one_of other_words leads
mtu_block_each data' = search (statements, mssfix_line_each, ifconfig_line_each) depth 20

crl_lines_each : (file dir : Option Str) → AreNamed (crl_lines file dir)
unfolding crl_lines str str_eq one_of other_words leads
crl_lines_each (some f) dir = search statements
crl_lines_each none dir = search statements

tls_block_each : (data' : Data) → AreNamed (tls_block data')
unfolding tls_block str str_eq one_of other_words leads
tls_block_each data' = search (statements, tls_pairs_each, crl_lines_each) depth 30

device_block_each : (data' : Data) → AreNamed (device_block data')
unfolding device_block str str_eq one_of other_words leads
device_block_each data' = search statements depth 20

proxy_lines_each : (data' : Data) (pt server : Str) → AreNamed (proxy_lines data' pt server)
unfolding proxy_lines str str_eq one_of other_words leads
proxy_lines_each data' pt server = search statements depth 20

proxy_block_each : (data' : Data) → AreNamed (proxy_block data')
unfolding proxy_block
proxy_block_each data' = given_each _ _ (λ ty. given_each _ _ (proxy_lines_each data' ty))

tail_block_each : AreNamed tail_block
unfolding tail_block str str_eq one_of other_words leads
tail_block_each = search statements depth 30

or_right : (a b : Bool) → b ≡ true → (a || b) ≡ true
or_right a b h = ground arith

push_words_each :
    (t : Tokens) → ((us : List Str) → t ≡ Tokens.ok us → begins us ≡ true) → AreNamed (push_words t)
unfolding push_words begins
push_words_each (Tokens.ok []) h = nothing
push_words_each (Tokens.ok (name ∷ rest)) h =
    opt name rest (or_right (one_of other_words name) (leads name) (h (name ∷ rest) refl))
push_words_each (Tokens.err e) h = nothing

route_line_each : (s : Str) → AreNamed (route_line (trim s))
unfolding route_line
route_line_each s =
    if_both (is_empty (trim s)) _ _ nothing (safe (is_safe_route_line (trim s)) refl)
  where
    safe :
        (b : Bool)
        → is_safe_route_line (trim s) ≡ b
        → AreNamed (if not b then [] else push_words (tokenize (trim s)))
    safe true h = push_words_each (tokenize (trim s)) (λ us e. route_words s us h e)
    safe false h = nothing

route_lines_each : (ls : List Str) → AreNamed (route_lines ls)
unfolding route_lines
route_lines_each [] = nothing
route_lines_each (l ∷ ls) = append _ _ (route_line_each l) (route_lines_each ls)

route_block_each : (data' : Data) → AreNamed (route_block data')
unfolding route_block
route_block_each data' = given_each _ _ (λ routes. route_lines_each (lines routes))

-- What stands before and after the loop over `pairs_str`.
abbrev pub before_pairs : Data → List Directive
before_pairs data' =
    let contype = get data' (str "connection-type") in
    flatten (
      when (is_tls_like contype) (push_flag (str "client"))
      ∷ remote_block data'
      ∷ cert_block data' contype
      ∷ [])

abbrev pub after_pairs : Data → List Directive
after_pairs data' =
    let contype = get data' (str "connection-type") in
    flatten (
      compression_block data'
      ∷ mtu_block data'
      ∷ route_block data'
      ∷ when (is_tls_like contype) (tls_block data')
      ∷ device_block data'
      ∷ proxy_block data'
      ∷ tail_block
      ∷ [])

before_each : (data' : Data) → AreNamed (before_pairs data')
unfolding str str_eq one_of other_words leads
before_each data' = search (statements, remote_block_each, cert_block_each) depth 30

after_each : (data' : Data) → AreNamed (after_pairs data')
unfolding str str_eq one_of other_words leads
after_each data' =
    search
      (
        statements, compression_block_each, mtu_block_each, route_block_each, tls_block_each,
        device_block_each, proxy_block_each, tail_block_each,
      )
      depth 30

pub before_pairs-IsNamed : (data' : Data) → All IsNamed (before_pairs data')
before_pairs-IsNamed data' = (before_each data').each

pub after_pairs-IsNamed : (data' : Data) → All IsNamed (after_pairs data')
after_pairs-IsNamed data' = (after_each data').each

pub from_nm_data-split :
    (data' : Data)
    → (from_nm_data data').directives
      ≡ before_pairs data' ++ (push_pairs data' pairs_str ++ after_pairs data')
unfolding from_nm_data flatten
from_nm_data-split data' = simp (append_assoc, append-nil)
