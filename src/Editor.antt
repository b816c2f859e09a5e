-- ===== src/Editor.antt =====
-- nm-openvpn3-editor/src/editor.rs: the dialog for the settings of a connection.
pub mod Widgets
pub mod Tree
pub mod Apply
pub mod Combo
pub mod Sets
pub mod Keys
pub mod Rows
pub mod Settled
pub mod Reopen
pub mod Gate
pub mod Visible
