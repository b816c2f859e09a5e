-- ===== src/Secrets.antt =====
-- nm-openvpn3-service/src/secrets.rs and connection.rs, the handlers of
-- nm-openvpn3-service/src/plugin.rs that feed credentials to openvpn3, and the input queue of
-- ovpn3-client/src/lib.rs.
pub mod Settings
pub mod Agree
pub mod Slots
pub mod Queue
pub mod Fetched
pub mod Attention
pub mod Outcome
pub mod NewSecrets
pub mod Batches
pub mod Burst
pub mod Teardown
pub mod Hints
