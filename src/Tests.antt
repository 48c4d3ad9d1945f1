-- ===== src/Tests.antt =====
-- The theorems at concrete inputs: a server's connection, a text, a file and the configuration that
-- the program starts with.
pub mod Setup
pub mod Wire
pub mod Texts
pub mod Paths
pub mod Transfers
pub mod Settings
pub mod Session
pub mod Clients
pub mod Copied
pub mod Scanning
pub mod Starting
pub mod Folders
pub mod Platform
