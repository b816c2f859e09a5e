-- ===== src/Ip4/RoundTrip.antt =====
-- A printed address is parsed back.
use nm_openvpn.Base.{
  Bool, Bool-cases, List, Option, Str, [], and-true, ap, append-nil, arith, false, inl, inr, map,
  none, not, refl, some, suc, sym, true, zero, ℕ, ◌&&◌, ◌++◌, ◌<◌, ◌==◌, ◌∙◌, ◌∷◌, ◌≡◌,
}
use nm_openvpn.Base.Lists.{All}
use nm_openvpn.Text.{any_char, cut, digits, is_empty, split, to_digit}
use nm_openvpn.Ip4.Address.{
  Ipv4, be, classify_gateway_host, dns_strings_to_array, few_digits, from_octets, from_parts,
  is_some_eq, octet, parse_ipv4, push_dns, v4,
}
use nm_openvpn.Text.Laws.{cut-append, cut_at_sep}
use mathlib.Core.Bool.{true≢false}

abbrev is_dot : ℕ → Bool
is_dot c = c == b'.'

-- `to_string` of an address
unfoldable pub show_ipv4 : Ipv4 → Str
show_ipv4 ip =
    digits 3 ip.first_octet
    ++ b'.'
      ∷ (digits 3 ip.second_octet
          ++ b'.' ∷ (digits 3 ip.third_octet ++ b'.' ∷ digits 3 ip.last_octet))

-- All numbers below 256 are tried: each is printed without a dot, and read back.
unfoldable reads_back : ℕ → Bool
reads_back n = is_some_eq (octet (digits 3 n)) n && not (any_char is_dot (digits 3 n))

unfoldable below : ℕ → Bool
below zero = true
below (suc n) = reads_back n && below n

all_read_back : below 256 ≡ true
unfolding below reads_back octet digits few_digits is_some_eq any_char to_digit is_empty
all_read_back = refl

below-lt : (k n : ℕ) → below k ≡ true → n < k → reads_back n ≡ true
unfolding below
below-lt zero n h l = absurd (omega arith)
below-lt (suc k) n h l =
    let (here, rest) = and-true (reads_back k) (below k) h in
    elim (Bool-cases (n == k)) [ inl e ↦ rw (equal e) here | inr e ↦ below-lt k n rest (smaller e) ]
  where
    equal : (n == k) ≡ true → n ≡ k
    equal e = ground arith

    smaller : (n == k) ≡ false → n < k
    smaller e = ground arith

octet-digits :
    (n : ℕ) → n < 256 → (octet (digits 3 n) ≡ some n) × (any_char is_dot (digits 3 n) ≡ false)
unfolding reads_back
octet-digits n h =
    let (back, dots) =
      and-true (is_some_eq (octet (digits 3 n)) n) _ (below-lt 256 n all_read_back h) in
    (is_some_eq-some (octet (digits 3 n)) back, not-false-true _ dots)
  where
    is_some_eq-some : (o : Option ℕ) → is_some_eq o n ≡ true → o ≡ some n
    is_some_eq-some none e = absurd (true≢false (sym (unfold is_some_eq in e)))
    is_some_eq-some (some m) e = ap some (same m (unfold is_some_eq in e))
      where
        same : (m : ℕ) → (m == n) ≡ true → m ≡ n
        same m e = ground arith

    not-false-true : (b : Bool) → not b ≡ true → b ≡ false
    not-false-true b e = ground arith

-- The octets of an address.
pub record IsAddress (ip : Ipv4) : Type 0 where
  pub first_byte : ip.first_octet < 256
  pub second_byte : ip.second_octet < 256
  pub third_byte : ip.third_octet < 256
  pub last_byte : ip.last_octet < 256

cut_part :
    (w rest : Str)
    → any_char is_dot w ≡ false
    → cut is_dot (w ++ b'.' ∷ rest) [] ≡ w ∷ cut is_dot rest []
cut_part w rest h = cut-append is_dot w (b'.' ∷ rest) [] h ∙ cut_at_sep is_dot b'.' rest w refl

cut_last : (w : Str) → any_char is_dot w ≡ false → cut is_dot w [] ≡ w ∷ []
unfolding cut
cut_last w h = ap (λ s. cut is_dot s []) (sym (append-nil w)) ∙ cut-append is_dot w [] [] h

parse_ipv4-show : (ip : Ipv4) → IsAddress ip → parse_ipv4 (show_ipv4 ip) ≡ some ip
unfolding parse_ipv4 split show_ipv4 from_parts from_octets
parse_ipv4-show ip h =
    let (a, a') = octet-digits ip.first_octet h.first_byte in
    let (b, b') = octet-digits ip.second_octet h.second_byte in
    let (c, c') = octet-digits ip.third_octet h.third_byte in
    let (d, d') = octet-digits ip.last_octet h.last_byte in
    rw
      (
        cut_part (digits 3 ip.first_octet)
            (digits 3 ip.second_octet
              ++ b'.' ∷ (digits 3 ip.third_octet ++ b'.' ∷ digits 3 ip.last_octet))
            a',
        cut_part (digits 3 ip.second_octet)
            (digits 3 ip.third_octet ++ b'.' ∷ digits 3 ip.last_octet) b',
        cut_part (digits 3 ip.third_octet) (digits 3 ip.last_octet) c',
        cut_last (digits 3 ip.last_octet) d',
        from_parts,
        a,
        b,
        c,
        d,
      )
      refl

dns-show :
    (ips : List Ipv4) → All IsAddress ips → dns_strings_to_array (map show_ipv4 ips) ≡ map be ips
unfolding dns_strings_to_array push_dns
dns-show [] h = refl
dns-show (ip ∷ ips) (h, hs) = rw (parse_ipv4-show ip h, dns-show ips hs) refl

-- A printed IPv4 address is taken as it is for the gateway, without a lookup; and from a list of
-- printed addresses each name server reaches NetworkManager, in order.
pub classify_gateway_host-show :
    (ip : Ipv4) (ips : List Ipv4)
    → All IsAddress (ip ∷ ips)
    → (classify_gateway_host (show_ipv4 ip) ≡ v4 (be ip))
      × (dns_strings_to_array (map show_ipv4 (ip ∷ ips)) ≡ map be (ip ∷ ips))
unfolding classify_gateway_host
classify_gateway_host-show ip ips (h, hs) =
    (rw (parse_ipv4-show ip h, classify_gateway_host) refl, dns-show (ip ∷ ips) (h, hs))
