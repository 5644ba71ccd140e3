-- ===== src/Identity.antt =====
-- app/modules/identity: sessions, login, users, roles and the audit log.
pub mod Rows
pub mod Profile
pub mod Audit
pub mod Sessions
pub mod Login
pub mod Users
pub mod Roles
pub mod Routes
pub mod Lists
