-- ===== src/Import.antt =====
-- `as_nm_data` of nm-openvpn3-properties/src/import_export.rs: from directives to settings.
pub mod Arms
pub mod Build
pub mod BlobName
pub mod Connection
pub mod Pinned
pub mod Blobs
pub mod Items
pub mod ByName
pub mod Contype
pub mod Writes
pub mod Single
pub mod Direction
pub mod Export
pub mod Remotes
