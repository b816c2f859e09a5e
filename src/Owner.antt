-- ===== src/Owner.antt =====
-- nm-openvpn3-service/src/plugin.rs: who is granted access to the session, and the overrides of its
-- config.
pub mod Users
pub mod Overrides
pub mod Found
pub mod Granted
pub mod Switches
