-- ===== src/Ip4.antt =====
-- nm-openvpn3-service/src/ip4.rs: the dictionaries that NetworkManager gets once the session is up.
pub mod Address
pub mod Emit
pub mod Sent
pub mod RoundTrip
