-- ===== src/Ip4/Address.antt =====
-- Addresses as the standard library parses them, and what `ip4.rs` makes of them. `to_be` of an
-- address on a little-endian host is the number whose lowest octet is the first one.
use nm_openvpn.Base.{
  Bool, List, Option, Str, [], false, if◌then◌else◌, leb, ltb, none, not, some, str, suc, true,
  zero, ℕ, ◌&&◌, ◌*◌, ◌++◌, ◌+◌, ◌==◌, ◌||◌, ◌∷◌,
}
use nm_openvpn.Text.{count_ones, is_empty, split, strip_prefix, to_digit}

pub record Ipv4 : Type 0 where
  pub first_octet : ℕ
  pub second_octet : ℕ
  pub third_octet : ℕ
  pub last_octet : ℕ

unfoldable pub be : Ipv4 → ℕ
be ip = ip.first_octet + 256 * ip.second_octet + 65536 * ip.third_octet + 16777216 * ip.last_octet

-- At most `max` digits of this radix, as a number.
unfoldable pub few_digits : ℕ → ℕ → ℕ → Str → Option ℕ
few_digits radix max acc [] = some acc
few_digits radix zero acc (c ∷ s) = none
few_digits radix (suc max) acc (c ∷ s) = elim (to_digit radix c) [
  | none ↦ none
  | some d ↦ few_digits radix max (acc * radix + d) s
]

-- A part of an IPv4 literal: up to three digits, no leading zero, no more than 255.
unfoldable pub octet : Str → Option ℕ
octet [] = none
octet (c ∷ s) = elim (few_digits 10 3 0 (c ∷ s)) [
  | none ↦ none
  | some n ↦ if c == b'0' && not (is_empty s) || ltb 255 n then none else some n
]

unfoldable pub from_octets : Option ℕ → Option ℕ → Option ℕ → Option ℕ → Option Ipv4
from_octets (some a) (some b) (some c) (some d) =
    some (record { first_octet = a; second_octet = b; third_octet = c; last_octet = d })
from_octets _ _ _ _ = none

unfoldable pub from_parts : List Str → Option Ipv4
from_parts (a ∷ b ∷ c ∷ d ∷ []) = from_octets (octet a) (octet b) (octet c) (octet d)
from_parts _ = none

-- `parse::<Ipv4Addr>`
unfoldable pub parse_ipv4 : Str → Option Ipv4
parse_ipv4 s = from_parts (split (λ c. c == b'.') s)

-- A group of an IPv6 literal: one to four hexadecimal digits.
unfoldable pub is_group : Str → Bool
is_group [] = false
is_group (c ∷ s) = elim (few_digits 16 4 0 (c ∷ s)) [ none ↦ false | some n ↦ true ]

-- The number of groups that some parts stand for; the last one may be an IPv4 literal, where that
-- is allowed, and stands for two.
unfoldable pub count_groups : Bool → List Str → Option ℕ
count_groups v4 [] = some 0
count_groups v4 (p ∷ []) =
    if is_group p
    then some 1
    else elim (parse_ipv4 p) [ none ↦ none | some ip ↦ if v4 then some 2 else none ]
count_groups v4 (p ∷ q ∷ ps) =
    let rest = count_groups v4 (q ∷ ps) in
    if is_group p then elim rest [ none ↦ none | some n ↦ some (suc n) ] else none

unfoldable pub groups_of : Bool → Str → Option ℕ
groups_of v4 s = if is_empty s then some 0 else count_groups v4 (split (λ c. c == b':') s)

unfoldable pub is_some_eq : Option ℕ → ℕ → Bool
is_some_eq none m = false
is_some_eq (some n) m = n == m

unfoldable pub at_most : ℕ → Option ℕ → Option ℕ → Bool
at_most max (some m) (some n) = leb (m + n) max
at_most max (some m) none = false
at_most max none n = false

-- The text in front of the first `::`, and behind it.
unfoldable pub split_double : Str → Str → Option (Str × Str)
split_double cur [] = none
split_double cur (c ∷ s) = elim (strip_prefix (str "::") (c ∷ s)) [
  | none ↦ split_double (cur ++ c ∷ []) s
  | some rest ↦ some (cur, rest)
]

-- Whether `parse::<Ipv6Addr>` succeeds.
unfoldable pub is_ipv6 : Str → Bool
is_ipv6 s = elim (split_double [] s) [
  | none ↦ is_some_eq (groups_of true s) 8
  | some (front, back) ↦ at_most 7 (groups_of false front) (groups_of true back)
]

pub data GatewayHost : Type 0 where
  v4 : ℕ → GatewayHost
  v6 name : GatewayHost

unfoldable pub classify_gateway_host : Str → GatewayHost
classify_gateway_host host = elim (parse_ipv4 host) [
  | some ip ↦ v4 (be ip)
  | none ↦ if is_ipv6 host then v6 else name
]

unfoldable pub ifv4_to_addr_prefix : Ipv4 → Ipv4 → ℕ × ℕ
ifv4_to_addr_prefix ip netmask = (be ip, count_ones (be netmask))

-- The entries that are IPv4 literals, in order.
unfoldable pub push_dns : Option Ipv4 → List ℕ → List ℕ
push_dns none arr = arr
push_dns (some a) arr = be a ∷ arr

unfoldable pub dns_strings_to_array : List Str → List ℕ
dns_strings_to_array [] = []
dns_strings_to_array (s ∷ servers) = push_dns (parse_ipv4 s) (dns_strings_to_array servers)
