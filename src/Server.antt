-- ===== src/Server.antt =====
-- src/server.rs: the routers.
pub mod Admin
pub mod Routes
pub mod Website
pub mod Routing
pub mod Build
