-- ===== src/Profile.antt =====
-- nm-openvpn3-service/src/build_profile.rs: the profile that the service hands to openvpn3 when no
-- .ovpn file is pinned, built from the settings of the connection.
pub mod Writer
pub mod Values
pub mod Blocks
pub mod Build
pub mod Clean
pub mod Rules
pub mod RouteGate
pub mod Safe
