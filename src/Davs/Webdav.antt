-- ===== src/Davs/Webdav.antt =====
-- src/davs/webdav_server.rs
pub mod Paths
pub mod Ranges
pub mod Response
pub mod FilePath
pub mod PathItem
pub mod Propfind
pub mod Upload
pub mod Listing
pub mod Copy
pub mod CopyMove
pub mod Dispatch
pub mod FileSystem
pub mod SendFile
