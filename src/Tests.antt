-- ===== src/Tests.antt =====
-- Concrete runs of the model, and one application of each result.
pub mod Files
pub mod Sessions
pub mod Calls
pub mod Tables
pub mod Addresses
pub mod Coordinator
pub mod Imports
pub mod Dialogs
pub mod Editors
pub mod Disks
pub mod Credentials
pub mod Owners
pub mod Prepared
pub mod Timers
