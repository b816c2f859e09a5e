-- ===== src/Export.antt =====
-- nm-openvpn3-properties/src/import_export.rs: `from_nm_data`, the export of the settings of a
-- connection as an .ovpn file.
pub mod Blocks
pub mod Build
pub mod RouteWords
pub mod Words
pub mod Names
pub mod Writable
pub mod RoundTrip
pub mod Pinned
pub mod Exported
