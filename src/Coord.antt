-- ===== src/Coord.antt =====
-- nm-openvpn3-service/src/connect_coord.rs, and `do_connect`, `cleanup_session`, `connect` and
-- `disconnect` of nm-openvpn3-service/src/plugin.rs: how Connect and Disconnect share the session.
-- The mutex is tokio's: one handler holds it at a time, and `holder` says where that one stands.
pub mod Defs
pub mod Steps
pub mod Tidy
pub mod AtRest
pub mod Release
pub mod Stopping
pub mod Refines
