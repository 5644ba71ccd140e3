-- ===== src/Examples/Schemas.antt =====
-- The revisions beside the table in which Alembic keeps its place.
use ra_backend.Base.{[], ◌∷◌}
use ra_backend.Migrations.Schema.{Schema, varchar, key_column}

abbrev alembic : Schema
alembic =
    record {
      name = "alembic_version";
      columns = key_column "version_num" (varchar 32) ∷ [];
      constraints = [];
      indexes = [];
    }
    ∷ []
