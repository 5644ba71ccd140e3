-- ===== src/System.antt =====
-- The service as a whole: the requests that it serves and the jobs of its worker, in any order, and
-- what holds of the committed database through all of them.
pub mod Stable
pub mod Sessions
pub mod Accounts
pub mod Others
pub mod Handlers
pub mod Runs
pub mod Lifecycle
pub mod Ledger
pub mod Keys
pub mod Revocation
pub mod Reads
pub mod Figures
pub mod Audited
