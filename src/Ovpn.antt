-- ===== src/Ovpn.antt =====
-- nm-openvpn3-properties/src/import_export.rs: an .ovpn file as a list of directives.
pub mod Defs
pub mod Validate
pub mod Emit
pub mod Parse
pub mod RoundTrip
unfoldable pub use Defs.*
