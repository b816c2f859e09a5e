-- ===== src/Ip4/Emit.antt =====
-- `emit`: the two dictionaries, and what each call of openvpn3 and of the system leads to.
use nm_openvpn.Base.{
  Bool, List, Option, Str, [], false, if◌then◌else◌, none, not, some, str, str_eq, true, ℕ, ◌++◌,
  ◌==◌, ◌∷◌,
}
use nm_openvpn.Text.{is_empty}
use nm_openvpn.Base.Maps.{Map, empty, insert}
use nm_openvpn.Routes.{Route, parse_proc_routes, has_default_route}
use nm_openvpn.Ip4.Address.{
  Ipv4, be, classify_gateway_host, GatewayHost, ifv4_to_addr_prefix, dns_strings_to_array, v4, v6,
  name,
}

-- What the answers are; `none` is an error.
pub record World : Type 0 where
  pub device_name : Option Str
  -- the interfaces, with address and netmask of those that are IPv4
  pub interfaces : Option (List (Str × Option (Ipv4 × Ipv4)))
  -- the protocol, the host and the port of the connection
  pub connected_to : Option (Option (Str × Str × ℕ))
  -- the addresses of a host, the IPv4 ones with their value; `none` also for a timeout
  pub lookup_host : Str → Option (List (Option Ipv4))
  pub device_path : Option Str
  pub dns_servers : Str → Option (List Str)
  pub dns_search : Str → Option (List Str)
  -- the text of /proc/net/route
  pub proc_routes : Option Str
  -- whether each signal can be sent
  pub sends_config : Bool
  pub sends_ip4 : Bool

pub data Value : Type 0 where
  u32 : ℕ → Value
  bool : Bool → Value
  text : Str → Value
  u32s : List ℕ → Value
  texts : List Str → Value

-- How `emit` ends, with the signals that it has sent.
pub data Emitted : Type 0 where
  no_device_name empty_device_name no_address no_gateway config_not_sent : Emitted
  ip4_not_sent : Map Value → Emitted
  sent : Map Value → Map Value → Emitted

unfoldable pub find_ipv4 : Str → List (Str × Option (Ipv4 × Ipv4)) → Option (ℕ × ℕ)
find_ipv4 tundev [] = none
find_ipv4 tundev ((ifname, none) ∷ addrs) = find_ipv4 tundev addrs
find_ipv4 tundev ((ifname, some (ip, netmask)) ∷ addrs) =
    let rest = find_ipv4 tundev addrs in
    if not (str_eq ifname tundev) then rest else some (ifv4_to_addr_prefix ip netmask)

unfoldable pub lookup_tun_ipv4 : World → Str → Option (ℕ × ℕ)
lookup_tun_ipv4 w tundev = elim w.interfaces [ none ↦ none | some addrs ↦ find_ipv4 tundev addrs ]

-- `it.find_map(…).unwrap_or_else(…)`
unfoldable pub first_v4 : List (Option Ipv4) → ℕ
first_v4 [] = 0
first_v4 (none ∷ it) = first_v4 it
first_v4 (some ip ∷ it) = be ip

unfoldable pub resolved : Option (List (Option Ipv4)) → ℕ
resolved none = 0
resolved (some it) = first_v4 it

unfoldable pub gateway_of : World → Str → GatewayHost → ℕ
gateway_of w host (v4 n) = n
gateway_of w host v6 = 0
gateway_of w host name = resolved (w.lookup_host (host ++ str ":0"))

unfoldable pub gateway_of_host : World → Str → ℕ
gateway_of_host w host =
    if not (is_empty host) then gateway_of w host (classify_gateway_host host) else 0

unfoldable pub ext_gateway : World → Option (Option (Str × Str × ℕ)) → ℕ
ext_gateway w none = 0
ext_gateway w (some none) = 0
ext_gateway w (some (some (proto, host, port))) = gateway_of_host w host

unfoldable pub or_empty {ℓ} : {A : Type ℓ} → Option (List A) → List A
or_empty none = []
or_empty (some l) = l

unfoldable pub dns_of : World → Option Str → List Str × List Str
dns_of w none = ([], [])
dns_of w (some p) = (or_empty (w.dns_servers p), or_empty (w.dns_search p))

unfoldable pub for_tun_device : World → Str → List Route
for_tun_device w tundev = elim w.proc_routes [ none ↦ [] | some raw ↦ parse_proc_routes raw tundev ]

unfoldable pub config_dict : Str → ℕ → Map Value
config_dict tundev ext_gw_be = insert (str "can-persist") (bool false) (
    insert (str "has-ip6") (bool false) (
      insert (str "has-ip4") (bool true)
        (insert (str "gateway") (u32 ext_gw_be) (insert (str "tundev") (text tundev) empty))))

-- `if b { ip4.insert(key, v); }`
unfoldable pub insert_if : Bool → Str → Value → Map Value → Map Value
insert_if b key v ip4 = if b then insert key v ip4 else ip4

unfoldable pub ip4_dict : Str → ℕ × ℕ → List Str × List Str → Bool → Map Value
ip4_dict tundev (addr_be, prefix) (servers, search) has_default =
    insert_if (not has_default) (str "never-default") (bool true) (
      insert_if (not (is_empty search)) (str "domains") (texts search) (
        insert_if (not (is_empty servers)) (str "dns") (u32s (dns_strings_to_array servers)) (
          insert (str "preserve-routes") (bool true) (
            insert (str "internal-gateway") (u32 0) (
              insert (str "prefix") (u32 prefix) (
                insert (str "address") (u32 addr_be)
                  (insert (str "tundev") (text tundev) empty)))))))

-- The two signals, the second one only once the first is sent.
unfoldable pub deliver : Bool → Bool → Map Value → Map Value → Emitted
deliver false sends_ip4 cfg ip4 = config_not_sent
deliver true false cfg ip4 = ip4_not_sent cfg
deliver true true cfg ip4 = sent cfg ip4

unfoldable pub send : World → Str → ℕ × ℕ → ℕ → Emitted
send w tundev address ext_gw_be =
    deliver w.sends_config w.sends_ip4 (config_dict tundev ext_gw_be) (
      ip4_dict tundev address (dns_of w w.device_path)
        (has_default_route (for_tun_device w tundev)))

unfoldable pub emit_address : World → Str → Option (ℕ × ℕ) → Emitted
emit_address w tundev none = no_address
emit_address w tundev (some address) =
    let ext_gw_be = ext_gateway w w.connected_to in
    if ext_gw_be == 0 then no_gateway else send w tundev address ext_gw_be

unfoldable pub emit_device : World → Option Str → Emitted
emit_device w none = no_device_name
emit_device w (some tundev) =
    if is_empty tundev then empty_device_name else emit_address w tundev (lookup_tun_ipv4 w tundev)

unfoldable pub emit : World → Emitted
emit w = emit_device w w.device_name
