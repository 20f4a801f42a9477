-- ===== src/Tests.antt =====
-- Concrete runs of the theorems, and the implementations of the interfaces that they run on.
pub mod Storage
pub mod Accounts
pub mod Services
pub mod Tasks
pub mod Website
pub mod Turns
pub mod Settings
pub mod Requests
pub mod Reload
pub mod Reading
pub mod Cipher
pub mod Streams
pub mod Files
pub mod Links
pub mod Copies
pub mod Hosts
pub mod Loops
pub mod Archives
