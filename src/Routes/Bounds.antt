-- ===== src/Routes/Bounds.antt =====
-- The columns of a parsed row are 32-bit numbers, and its prefix is at most 32.
use nm_openvpn.Base.{
  Bool-cases, List, Option, Str, [], arith, inl, inr, none, refl, some, str_eq, suc, zero, ℕ, ◌*◌,
  ◌+◌, ◌/◌, ◌∷◌, ◌≡◌, ◌≤◌,
}
use nm_openvpn.Base.Lists.{All}
use nm_openvpn.Text.{
  count_ones, from_str_radix, lines, ones, parse_u32, read_digits, read_some, split_whitespace,
  to_digit, u32_max,
}
use nm_openvpn.Routes.{
  Route, route_of, read_cols, push_route, read_rows, parse_proc_routes, after_header,
}

read_digits_le :
    (radix top acc : ℕ) (s : Str) (n : ℕ)
    → acc ≤ top
    → read_digits radix top acc s ≡ some n
    → n ≤ top
unfolding read_digits
read_digits_le radix top acc [] n h e = ground arith
read_digits_le radix top acc (c ∷ s) n h e =
    by_digit (to_digit radix c) refl (λ d. read_digits_le radix top (acc * radix + d) s n)
  where
    by_digit :
        (o : Option ℕ)
        → to_digit radix c ≡ o
        → ((d : ℕ)
            → acc * radix + d ≤ top
            → read_digits radix top (acc * radix + d) s ≡ some n
            → n ≤ top)
        → n ≤ top
    by_digit none q f = let k = (rw (q, read_digits) at e) in cc
    by_digit (some d) q f = let k = (rw (q, read_digits) at e) in ground (arith, f d)

read_some_le : (radix top : ℕ) (s : Str) (n : ℕ) → read_some radix top s ≡ some n → n ≤ top
unfolding read_some
read_some_le radix top [] n e = cc
read_some_le radix top (c ∷ s) n e = read_digits_le radix top 0 (c ∷ s) n (omega arith) e

from_str_radix_le :
    (radix top : ℕ) (s : Str) (n : ℕ) → from_str_radix radix top s ≡ some n → n ≤ top
unfolding from_str_radix
from_str_radix_le radix top [] n e = cc
from_str_radix_le radix top (c ∷ s) n e =
    ground (arith, read_some_le radix top s n, read_some_le radix top (c ∷ s) n)

ones_le : (k n : ℕ) → ones k n ≤ k
unfolding ones
ones_le zero n = omega arith
ones_le (suc k) n = let h = ones_le k (n / 2) in omega arith

-- What the source's types promise of a route.
pub record IsBounded (r : Route) : Type 0 where
  pub dest : r.dest_be ≤ u32_max
  pub hop : r.next_hop_be ≤ u32_max
  pub cost : r.metric ≤ u32_max
  pub length : r.prefix ≤ 32

route_of_each :
    (d h m k : Option ℕ)
    → ((n : ℕ) → d ≡ some n → n ≤ u32_max)
    → ((n : ℕ) → h ≡ some n → n ≤ u32_max)
    → ((n : ℕ) → m ≡ some n → n ≤ u32_max)
    → (out : List Route) → All IsBounded out
    → All IsBounded (push_route (route_of d h m k) out)
unfolding route_of push_route count_ones
route_of_each (some d) (some h) (some m) (some k) p q s out b =
    (record { dest = p d refl; hop = q h refl; cost = s m refl; length = ones_le 32 k }, b)
route_of_each (some d) (some h) (some m) none p q s out b = b
route_of_each (some d) (some h) none k p q s out b = b
route_of_each (some d) none m k p q s out b = b
route_of_each none h m k p q s out b = b

read_cols_each :
    (tundev : Str) (cols : List Str) (out : List Route)
    → All IsBounded out
    → All IsBounded (push_route (read_cols tundev cols) out)
unfolding read_cols parse_u32 push_route
read_cols_each tundev (iface ∷ dest ∷ hop ∷ _ ∷ _ ∷ _ ∷ metric ∷ mask ∷ _ ∷ _ ∷ _ ∷ _) out b =
    elim (Bool-cases (str_eq iface tundev)) [
      | inl e ↦ rw e (
          route_of_each (from_str_radix 16 u32_max dest) (from_str_radix 16 u32_max hop)
            (from_str_radix 10 u32_max metric) (from_str_radix 16 u32_max mask)
            (from_str_radix_le 16 u32_max dest) (from_str_radix_le 16 u32_max hop)
            (from_str_radix_le 10 u32_max metric) out b)
      | inr e ↦ rw e b
    ]
read_cols_each tundev _ out b = b

read_rows_each : (tundev : Str) (ls : List Str) → All IsBounded (read_rows tundev ls)
unfolding read_rows
read_rows_each tundev [] = tt
read_rows_each tundev (l ∷ ls) =
    read_cols_each tundev (split_whitespace l) (read_rows tundev ls) (read_rows_each tundev ls)

-- Whatever the text of the table holds, the address, the next hop and the metric of each parsed
-- route are 32-bit numbers, and its prefix length is at most 32.
pub parse_proc_routes-IsBounded : (raw tundev : Str) → All IsBounded (parse_proc_routes raw tundev)
unfolding parse_proc_routes
parse_proc_routes-IsBounded raw tundev = read_rows_each tundev (after_header (lines raw))
