-- ===== src/Reporting.antt =====
-- app/modules/reporting and app/workers/tasks.py: reports are requested, generated in a worker, and
-- downloaded.
pub mod Service
pub mod Worker
pub mod Delivery
pub mod References
pub mod Sizes
pub mod Routes
