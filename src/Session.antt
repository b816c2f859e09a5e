-- ===== src/Session.antt =====
-- nm-openvpn3-service/src/plugin.rs: the background tasks of one session and the guards that they
-- share.
pub mod Code
pub mod Tasks
pub mod Steps
pub mod Guards
pub mod PollerLaws
