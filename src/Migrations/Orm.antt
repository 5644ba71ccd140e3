-- ===== src/Migrations/Orm.antt =====
-- The tables of app/modules/*/models.py, as SQLAlchemy declares their columns, and whether a schema has
-- them.
use ra_backend.Base.{
  String, Bool, true, false, not, ◌&&◌, List, [], ◌∷◌, ◌==◌, exists, select, length, beq, join,
}
use ra_backend.Base.Decimal.{str}
use ra_backend.Migrations.Schema.{
  SqlType, varchar, text, jsonb, boolean, integer, big_integer, double, timestamptz, inet, Column,
  Table, Schema, named, key_column, column, nullable_column,
}

-- `TimestampMixin`
abbrev stamps : List Column
stamps = column "created_at" timestamptz ∷ column "updated_at" timestamptz ∷ []

-- app/modules/identity/models.py
abbrev pub identity_tables : List (String × List Column)
identity_tables =
    (
      "roles",
      key_column "id" (varchar 64)
          ∷ column "name" (varchar 128)
          ∷ column "description" text
          ∷ column "status" (varchar 32)
          ∷ column "permissions" jsonb
          ∷ column "is_system" boolean
          ∷ stamps,
    )
    ∷ (
      "users",
      key_column "id" (varchar 36)
          ∷ column "full_name" (varchar 255)
          ∷ column "email" (varchar 255)
          ∷ nullable_column "phone" (varchar 64)
          ∷ nullable_column "department" (varchar 128)
          ∷ column "hashed_password" (varchar 255)
          ∷ column "role_id" (varchar 64)
          ∷ column "status" (varchar 32)
          ∷ nullable_column "avatar" (varchar 16)
          ∷ nullable_column "last_login" timestamptz
          ∷ column "failed_login_count" integer
          ∷ nullable_column "locked_until" timestamptz
          ∷ column "must_reset_password" boolean
          ∷ nullable_column "password_changed_at" timestamptz
          ∷ stamps,
    )
    ∷ (
      "user_sessions",
      key_column "id" (varchar 36)
          ∷ column "user_id" (varchar 36)
          ∷ column "refresh_jti" (varchar 64)
          ∷ nullable_column "user_agent" (varchar 512)
          ∷ nullable_column "ip_address" inet
          ∷ column "issued_at" timestamptz
          ∷ column "expires_at" timestamptz
          ∷ nullable_column "revoked_at" timestamptz
          ∷ nullable_column "last_seen_at" timestamptz
          ∷ [],
    )
    ∷ (
      "audit_logs",
      key_column "id" (varchar 36)
          ∷ column "actor" (varchar 128)
          ∷ nullable_column "actor_id" (varchar 36)
          ∷ column "action" (varchar 255)
          ∷ nullable_column "target" (varchar 255)
          ∷ nullable_column "ip_address" inet
          ∷ nullable_column "user_agent" (varchar 512)
          ∷ nullable_column "request_id" (varchar 64)
          ∷ column "meta" jsonb
          ∷ column "at" timestamptz
          ∷ [],
    )
    ∷ []

-- app/modules/assurance/models.py
abbrev pub assurance_tables : List (String × List Column)
assurance_tables =
    (
      "cases",
      key_column "id" (varchar 36)
          ∷ column "reference" (varchar 32)
          ∷ column "title" (varchar 512)
          ∷ column "description" text
          ∷ column "severity" (varchar 16)
          ∷ column "status" (varchar 32)
          ∷ nullable_column "owner" (varchar 128)
          ∷ nullable_column "owner_id" (varchar 36)
          ∷ nullable_column "linked_txn_id" (varchar 128)
          ∷ nullable_column "estimated_impact" double
          ∷ stamps,
    )
    ∷ (
      "case_comments",
      key_column "id" (varchar 36)
          ∷ column "case_id" (varchar 36)
          ∷ column "author" (varchar 128)
          ∷ column "body" text
          ∷ column "created_at" timestamptz
          ∷ [],
    )
    ∷ (
      "saved_queries",
      key_column "id" (varchar 36)
          ∷ column "reference" (varchar 32)
          ∷ column "name" (varchar 512)
          ∷ nullable_column "owner" (varchar 128)
          ∷ column "definition" jsonb
          ∷ column "last_count" integer
          ∷ stamps,
    )
    ∷ []

-- app/modules/operations/models.py
abbrev pub operations_tables : List (String × List Column)
operations_tables =
    (
      "decoders",
      key_column "id" (varchar 64)
          ∷ column "name" (varchar 255)
          ∷ column "version" (varchar 32)
          ∷ column "status" (varchar 32)
          ∷ nullable_column "throughput" (varchar 32)
          ∷ column "config" jsonb
          ∷ stamps,
    )
    ∷ (
      "system_config",
      key_column "id" (varchar 32)
          ∷ column "environment" (varchar 32)
          ∷ column "retention_days" integer
          ∷ column "sla_minutes" integer
          ∷ nullable_column "alert_email" (varchar 255)
          ∷ column "maintenance_mode" boolean
          ∷ column "extra" jsonb
          ∷ stamps,
    )
    ∷ (
      "pipeline_alerts",
      key_column "id" (varchar 64)
          ∷ column "severity" (varchar 16)
          ∷ column "stage" (varchar 64)
          ∷ column "message" text
          ∷ column "status" (varchar 32)
          ∷ nullable_column "acknowledged_by" (varchar 128)
          ∷ column "created_at" timestamptz
          ∷ [],
    )
    ∷ []

-- app/modules/reporting/models.py
abbrev pub reporting_tables : List (String × List Column)
reporting_tables =
    (
      "reports",
      key_column "id" (varchar 36)
          ∷ column "reference" (varchar 32)
          ∷ column "name" (varchar 255)
          ∷ column "report_type" (varchar 64)
          ∷ nullable_column "period" (varchar 32)
          ∷ column "status" (varchar 32)
          ∷ nullable_column "size_bytes" big_integer
          ∷ nullable_column "file_path" (varchar 1024)
          ∷ nullable_column "checksum_sha256" (varchar 64)
          ∷ nullable_column "requested_by" (varchar 128)
          ∷ column "params" jsonb
          ∷ nullable_column "error" text
          ∷ nullable_column "completed_at" timestamptz
          ∷ stamps,
    )
    ∷ []

-- app/modules/rules/models.py
abbrev pub rules_tables : List (String × List Column)
rules_tables =
    (
      "rules",
      key_column "id" (varchar 36)
          ∷ nullable_column "parent_id" (varchar 36)
          ∷ column "name" (varchar 255)
          ∷ column "description" text
          ∷ column "severity" (varchar 16)
          ∷ column "status" (varchar 32)
          ∷ column "version" integer
          ∷ column "definition" jsonb
          ∷ nullable_column "schedule" (varchar 64)
          ∷ column "created_by" (varchar 36)
          ∷ nullable_column "approved_by" (varchar 36)
          ∷ nullable_column "approved_at" timestamptz
          ∷ nullable_column "rejected_reason" text
          ∷ nullable_column "disabled_at" timestamptz
          ∷ stamps,
    )
    ∷ (
      "rule_runs",
      key_column "id" (varchar 36)
          ∷ column "rule_id" (varchar 36)
          ∷ nullable_column "dag_run_id" (varchar 128)
          ∷ nullable_column "triggered_by" (varchar 36)
          ∷ column "status" (varchar 32)
          ∷ column "params" jsonb
          ∷ nullable_column "started_at" timestamptz
          ∷ nullable_column "ended_at" timestamptz
          ∷ nullable_column "row_count" big_integer
          ∷ nullable_column "summary" jsonb
          ∷ nullable_column "output_table" (varchar 255)
          ∷ nullable_column "error" text
          ∷ column "created_at" timestamptz
          ∷ [],
    )
    ∷ []

abbrev type_text : SqlType → String
type_text (varchar n) = join ("varchar " ∷ str n ∷ [])
type_text text = "text"
type_text jsonb = "jsonb"
type_text boolean = "boolean"
type_text integer = "integer"
type_text big_integer = "bigint"
type_text double = "double precision"
type_text timestamptz = "timestamptz"
type_text inet = "inet"

abbrev same_truth : Bool → Bool → Bool
same_truth true b = b
same_truth false b = not b

abbrev same_column : Column → Column → Bool
same_column c d =
    c.name == d.name
    && type_text c.type == type_text d.type
    && same_truth c.nullable d.nullable
    && same_truth c.primary_key d.primary_key

abbrev all_in : List Column → List Column → Bool
all_in [] ys = true
all_in (x ∷ xs) ys = exists (same_column x) ys && all_in xs ys

-- The same columns, in any order
abbrev same_columns : List Column → List Column → Bool
same_columns xs ys = beq (length xs) (length ys) && all_in xs ys && all_in ys xs

abbrev one_has : List Column → List Table → Bool
one_has columns [] = false
one_has columns (t ∷ []) = same_columns columns t.columns
one_has columns (t ∷ u ∷ r) = false

-- For every table of the models the schema has one of that name, with its columns.
unfoldable pub has_tables : List (String × List Column) → Schema → Bool
has_tables [] s = true
has_tables ((n, columns) ∷ r) s = one_has columns (select (named n) s) && has_tables r s
