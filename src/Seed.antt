-- ===== src/Seed.antt =====
-- app/seed.py: the rows, the run, and a second run.
pub mod Rows
pub mod Run
pub mod Keys
pub mod Steps
pub mod Rerun
