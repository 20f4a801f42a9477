-- ===== src/Davs.antt =====
-- src/davs
pub mod Handler
pub mod Model
pub mod EncryptedStreamer
pub mod Headers
pub mod Streamer
pub mod Webdav
