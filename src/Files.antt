-- ===== src/Files.antt =====
-- nm-openvpn3-properties/src/bridge.rs and plugin.rs: the files of an import and an export, on a
-- disk that other programs use too. Directories above a path are taken to be there.
pub mod Defs
pub mod Write
pub mod Atomic
pub mod Read
pub mod Plugin
pub mod Bounded
pub mod Again
