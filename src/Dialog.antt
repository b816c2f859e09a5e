-- ===== src/Dialog.antt =====
-- nm-openvpn3-auth-dialog/src/main.rs: the helper that NetworkManager runs to ask for secrets. It
-- reads the settings from standard input, decides what is needed, and writes a key file.
pub mod Details
pub mod Needs
pub mod Keyfile
pub mod Run
