-- ===== src/Tests/Addresses.antt =====
-- Applications of the results on the IPv4 configuration.
use nm_openvpn.Base.{[], none, some, str, true, ◌∷◌}
use nm_openvpn.Ip4.Address.{Ipv4}
use nm_openvpn.Ip4.Emit.{World, emit}
use nm_openvpn.Ip4.Sent.{Ends, emit-Ends}

abbrev local : Ipv4
local = record { first_octet = 10; second_octet = 8; third_octet = 0; last_octet = 6 }

abbrev netmask : Ipv4
netmask = record { first_octet = 255; second_octet = 255; third_octet = 255; last_octet = 0 }

abbrev server : Ipv4
server = record { first_octet = 192; second_octet = 0; third_octet = 2; last_octet = 255 }

-- A split tunnel with an IPv6 name server.
abbrev split_tunnel : World
split_tunnel = record {
  device_name = some (str "tun0");
  interfaces = some ((str "eth0", none) ∷ (str "tun0", some (local, netmask)) ∷ []);
  connected_to = some (some (str "udp", str "vpn.example.com", 1194));
  lookup_host = λ host. some (none ∷ some server ∷ []);
  device_path = some (str "/device");
  dns_servers = λ path. some (str "::1" ∷ str "10.8.0.1" ∷ []);
  dns_search = λ path. none;
  proc_routes = none;
  sends_config = true;
  sends_ip4 = true;
}

emit-Ends_example : Ends split_tunnel (emit split_tunnel)
emit-Ends_example = emit-Ends split_tunnel
