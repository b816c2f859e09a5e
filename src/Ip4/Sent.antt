-- ===== src/Ip4/Sent.antt =====
-- What NetworkManager gets, when it gets anything.
use nm_openvpn.Base.{
  Bool, Bool-cases, Option, Str, arith, false, if◌then◌else◌, inl, inr, none, refl, some, str,
  str_eq, true, ℕ, ◌==◌, ◌≡◌,
}
use nm_openvpn.Text.{is_empty}
use nm_openvpn.Ip4.Emit.{
  Emitted, Value, World, bool, config_dict, config_not_sent, deliver, dns_of, emit, emit_address,
  emit_device, empty_device_name, ext_gateway, for_tun_device, insert_if, ip4_dict, ip4_not_sent,
  lookup_tun_ipv4, no_address, no_device_name, no_gateway, send, sent, text, u32, u32s,
}
use nm_openvpn.Base.Maps.{Map, insert}
use nm_openvpn.Routes.{has_default_route}
use nm_openvpn.Ip4.Address.{dns_strings_to_array}

-- What both dictionaries say, for a device, its address and prefix, and a gateway.
pub record Reports (w : World) (tundev : Str) (addr prefix gateway : ℕ) (cfg ip4 : Map Value)
    : Type 0 where
  pub device : w.device_name ≡ some tundev
  pub device_named : is_empty tundev ≡ false
  pub address_found : lookup_tun_ipv4 w tundev ≡ some (addr, prefix)
  pub gateway_found : ext_gateway w w.connected_to ≡ gateway
  pub gateway_set : (gateway == 0) ≡ false
  pub config_device : cfg (str "tundev") ≡ some (text tundev)
  pub config_gateway : cfg (str "gateway") ≡ some (u32 gateway)
  pub config_ip4 : cfg (str "has-ip4") ≡ some (bool true)
  pub ip4_device : ip4 (str "tundev") ≡ some (text tundev)
  pub ip4_address : ip4 (str "address") ≡ some (u32 addr)
  pub ip4_prefix : ip4 (str "prefix") ≡ some (u32 prefix)
  pub keeps_routes : ip4 (str "preserve-routes") ≡ some (bool true)
  pub never_default :
      ip4 (str "never-default")
      ≡ (if has_default_route (for_tun_device w tundev) then none else some (bool true))
  pub name_servers : ip4 (str "dns") ≡ (
      if is_empty (dns_of w w.device_path).0
      then none
      else some (u32s (dns_strings_to_array (dns_of w w.device_path).0)))

-- An error before the first signal.
unfoldable pub one_error : Emitted → Bool
one_error no_device_name = true
one_error empty_device_name = true
one_error no_address = true
one_error no_gateway = true
one_error config_not_sent = true
one_error (ip4_not_sent cfg) = false
one_error (sent cfg ip4) = false

-- How `emit` ended: an error for which nothing was sent, or a first signal with a device and a
-- gateway, followed by the second one unless it was lost.
pub data Ends (w : World) : Emitted → Type 0 where
  nothing_sent : {e : Emitted} → one_error e ≡ true → Ends w e
  lost :
      (tundev : Str) (addr prefix gateway : ℕ) (cfg ip4 : Map Value)
      → Reports w tundev addr prefix gateway cfg ip4
      → Ends w (ip4_not_sent cfg)
  told :
      (tundev : Str) (addr prefix gateway : ℕ) (cfg ip4 : Map Value)
      → Reports w tundev addr prefix gateway cfg ip4
      → Ends w (sent cfg ip4)

reports :
    (w : World) (tundev : Str) (addr prefix gateway : ℕ)
    → w.device_name ≡ some tundev
    → is_empty tundev ≡ false
    → lookup_tun_ipv4 w tundev ≡ some (addr, prefix)
    → ext_gateway w w.connected_to ≡ gateway
    → (gateway == 0) ≡ false
    → Reports w tundev addr prefix gateway (config_dict tundev gateway) (
        ip4_dict tundev
          (addr, prefix)
          (dns_of w w.device_path)
          (has_default_route (for_tun_device w tundev)))
unfolding config_dict ip4_dict insert insert_if str_eq str
reports w tundev addr prefix gateway a b c d e = record {
  device = a;
  device_named = b;
  address_found = c;
  gateway_found = d;
  gateway_set = e;
  config_device = refl;
  config_gateway = refl;
  config_ip4 = refl;
  ip4_device = ground arith;
  ip4_address = ground arith;
  ip4_prefix = ground arith;
  keeps_routes = ground arith;
  never_default = ground arith;
  name_servers = ground arith;
}

deliver-Ends :
    (w : World) (tundev : Str) (addr prefix gateway : ℕ) (cfg ip4 : Map Value)
    → Reports w tundev addr prefix gateway cfg ip4
    → (a b : Bool) → Ends w (deliver a b cfg ip4)
unfolding deliver one_error
deliver-Ends w tundev addr prefix gateway cfg ip4 r false b = nothing_sent refl
deliver-Ends w tundev addr prefix gateway cfg ip4 r true false =
    lost tundev addr prefix gateway cfg ip4 r
deliver-Ends w tundev addr prefix gateway cfg ip4 r true true =
    told tundev addr prefix gateway cfg ip4 r

send-Ends :
    (w : World) (tundev : Str) (addr prefix gateway : ℕ)
    → Reports w tundev addr prefix gateway (config_dict tundev gateway) (
        ip4_dict tundev
          (addr, prefix)
          (dns_of w w.device_path)
          (has_default_route (for_tun_device w tundev)))
    → Ends w (send w tundev (addr, prefix) gateway)
unfolding send
send-Ends w tundev addr prefix gateway r =
    deliver-Ends w tundev addr prefix gateway _ _ r w.sends_config w.sends_ip4

address-Ends :
    (w : World) (tundev : Str) (o : Option (ℕ × ℕ))
    → w.device_name ≡ some tundev
    → is_empty tundev ≡ false
    → lookup_tun_ipv4 w tundev ≡ o
    → Ends w (emit_address w tundev o)
unfolding emit_address one_error
address-Ends w tundev none a b c = nothing_sent refl
address-Ends w tundev (some (addr, prefix)) a b c =
    elim (Bool-cases (ext_gateway w w.connected_to == 0)) [
      | inl h ↦ rw (h, emit_address) (nothing_sent refl)
      | inr h ↦
          rw (h, emit_address)
            (send-Ends w tundev addr prefix _ (reports w tundev addr prefix _ a b c refl h))
    ]

device-Ends : (w : World) (o : Option Str) → w.device_name ≡ o → Ends w (emit_device w o)
unfolding emit_device one_error
device-Ends w none a = nothing_sent refl
device-Ends w (some tundev) a = elim (Bool-cases (is_empty tundev)) [
  | inl h ↦ rw (h, emit_device) (nothing_sent refl)
  | inr h ↦ rw (h, emit_device) (address-Ends w tundev (lookup_tun_ipv4 w tundev) a h refl)
]

-- Whatever openvpn3, the interfaces, the resolver and the routing table answer, either emit fails
-- before it has sent anything, or it has found a named device with an IPv4 address and a gateway
-- other than 0, and both dictionaries report these: the gateway, the device, the address with its
-- prefix, that the routes are kept, never-default exactly if the device has no default route, and
-- the IPv4 name servers if any name servers are known.
pub emit-Ends : (w : World) → Ends w (emit w)
unfolding emit
emit-Ends w = device-Ends w w.device_name refl
