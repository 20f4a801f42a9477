-- ===== src/Users.antt =====
-- src/users.rs
pub mod Authorization
pub mod Accounts
