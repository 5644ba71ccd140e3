-- ===== src/Operations.antt =====
-- app/modules/operations: alerts, retries, decoders and the system configuration.
pub mod Service
pub mod Laws
pub mod Routes
pub mod Decoders
pub mod Kpis
pub mod Stages
