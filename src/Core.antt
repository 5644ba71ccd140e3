-- ===== src/Core.antt =====
-- app/core: the errors, the outside world, the database session, permissions, passwords and
-- tokens, and the guards of the routes.
pub mod Errors
pub mod Config
pub mod World
pub mod Exec
pub mod Holds
pub mod Rbac
pub mod Passwords
pub mod Tokens
pub mod Deps
pub mod Logging
pub mod Middleware
pub mod Redis
