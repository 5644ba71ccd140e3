-- ===== src/Migrations.antt =====
-- migrations/versions: the revisions of the schema.
pub mod Schema
pub mod Initial
pub mod Extended
pub mod Orm
pub mod Environment
pub mod Frame
pub mod Roundtrip
