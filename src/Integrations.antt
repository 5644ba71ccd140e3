-- ===== src/Integrations.antt =====
-- app/integrations: the clients of other systems.
pub mod Held
pub mod Clickhouse
pub mod RaPostgres
pub mod Airflow
pub mod Shutdown
