-- ===== src/Routes.antt =====
-- nm-openvpn3-service/src/routes.rs: the rows of /proc/net/route, and whether they hold a default
-- route. An address column is the number that the four octets give with the first one lowest.
pub mod Cover
pub mod Bounds
use nm_openvpn.Base.{
  Bool, List, Option, Str, [], false, if◌then◌else◌, none, some, true, ℕ, ◌∷◌, ◌==◌, ◌&&◌, ◌||◌,
  str_eq, not,
}
use nm_openvpn.Text.{lines, split_whitespace, from_str_radix, parse_u32, u32_max, count_ones}

pub record Route : Type 0 where
  pub dest_be : ℕ
  pub prefix : ℕ
  pub next_hop_be : ℕ
  pub metric : ℕ

-- A row with its four columns, each of which may fail to be a number.
unfoldable pub route_of : Option ℕ → Option ℕ → Option ℕ → Option ℕ → Option Route
route_of (some dest) (some hop) (some metric) (some mask) =
    some (record { dest_be = dest; prefix = count_ones mask; next_hop_be = hop; metric = metric })
route_of _ _ _ _ = none

-- `None` where the loop continues; a row has at least eleven columns.
unfoldable pub read_cols : Str → List Str → Option Route
read_cols tundev (iface ∷ dest ∷ hop ∷ _ ∷ _ ∷ _ ∷ metric ∷ mask ∷ _ ∷ _ ∷ _ ∷ _) =
    if not (str_eq iface tundev)
    then none
    else route_of (from_str_radix 16 u32_max dest) (from_str_radix 16 u32_max hop)
        (parse_u32 metric) (from_str_radix 16 u32_max mask)
read_cols tundev _ = none

unfoldable pub push_route : Option Route → List Route → List Route
push_route none out = out
push_route (some r) out = r ∷ out

unfoldable pub read_rows : Str → List Str → List Route
read_rows tundev [] = []
read_rows tundev (l ∷ ls) = push_route (read_cols tundev (split_whitespace l)) (read_rows tundev ls)

unfoldable pub after_header : List Str → List Str
after_header [] = []
after_header (l ∷ ls) = ls

unfoldable pub parse_proc_routes : Str → Str → List Route
parse_proc_routes raw tundev = read_rows tundev (after_header (lines raw))

-- `routes.iter().any(p)`
unfoldable pub any : (Route → Bool) → List Route → Bool
any p [] = false
any p (r ∷ rs) = p r || any p rs

unfoldable pub is_net : ℕ → ℕ → Route → Bool
is_net prefix dest r = r.prefix == prefix && r.dest_be == dest

unfoldable pub has_default_route : List Route → Bool
unfolding any is_net
has_default_route routes =
    if any (is_net 0 0) routes then true else any (is_net 1 0) routes && any (is_net 1 0x80) routes
