-- ===== src/Migrations/Initial.antt =====
-- migrations/versions/0001_initial_schema.py: the first tables.
use ra_backend.Base.{true, false, none, some, List, [], ◌∷◌}
use ra_backend.Migrations.Schema.{
  varchar, text, jsonb, boolean, integer, big_integer, double, timestamptz, foreign_key, Op,
  create_table, drop_table, create_index, key_column, default_column, column, nullable_column,
}

abbrev pub upgrade_initial : List Op
upgrade_initial =
    create_table "roles"
      (key_column "id" (varchar 64)
        ∷ column "name" (varchar 128)
        ∷ default_column "description" text ""
        ∷ default_column "status" (varchar 32) "Active"
        ∷ default_column "permissions" jsonb "{}"
        ∷ default_column "is_system" boolean "false"
        ∷ default_column "created_at" timestamptz "now()"
        ∷ default_column "updated_at" timestamptz "now()"
        ∷ [])
      ([])
    ∷ create_table "users"
        (key_column "id" (varchar 36)
          ∷ column "full_name" (varchar 255)
          ∷ column "email" (varchar 255)
          ∷ nullable_column "phone" (varchar 64)
          ∷ nullable_column "department" (varchar 128)
          ∷ column "hashed_password" (varchar 255)
          ∷ column "role_id" (varchar 64)
          ∷ default_column "status" (varchar 32) "Active"
          ∷ nullable_column "avatar" (varchar 16)
          ∷ nullable_column "last_login" timestamptz
          ∷ default_column "created_at" timestamptz "now()"
          ∷ default_column "updated_at" timestamptz "now()"
          ∷ [])
        (foreign_key "fk_users_role_id_roles" "role_id" "roles" "id" none ∷ [])
    ∷ create_index "ix_users_email" "users" ("email" ∷ []) true
    ∷ create_index "ix_users_role_id" "users" ("role_id" ∷ []) false
    ∷ create_table "audit_logs"
        (key_column "id" (varchar 36)
          ∷ column "actor" (varchar 128)
          ∷ column "action" (varchar 255)
          ∷ nullable_column "target" (varchar 255)
          ∷ default_column "meta" jsonb "{}"
          ∷ column "at" timestamptz
          ∷ [])
        ([])
    ∷ create_index "ix_audit_logs_actor" "audit_logs" ("actor" ∷ []) false
    ∷ create_index "ix_audit_logs_at" "audit_logs" ("at" ∷ []) false
    ∷ create_table "cases"
        (key_column "id" (varchar 36)
          ∷ column "reference" (varchar 32)
          ∷ column "title" (varchar 512)
          ∷ default_column "description" text ""
          ∷ default_column "severity" (varchar 16) "medium"
          ∷ default_column "status" (varchar 32) "Open"
          ∷ nullable_column "owner" (varchar 128)
          ∷ nullable_column "owner_id" (varchar 36)
          ∷ nullable_column "linked_txn_id" (varchar 128)
          ∷ nullable_column "estimated_impact" double
          ∷ default_column "created_at" timestamptz "now()"
          ∷ default_column "updated_at" timestamptz "now()"
          ∷ [])
        ([])
    ∷ create_index "ix_cases_reference" "cases" ("reference" ∷ []) true
    ∷ create_index "ix_cases_status" "cases" ("status" ∷ []) false
    ∷ create_table "case_comments"
        (key_column "id" (varchar 36)
          ∷ column "case_id" (varchar 36)
          ∷ column "author" (varchar 128)
          ∷ column "body" text
          ∷ column "created_at" timestamptz
          ∷ [])
        (foreign_key "fk_case_comments_case_id_cases" "case_id" "cases" "id" (some "CASCADE") ∷ [])
    ∷ create_index "ix_case_comments_case_id" "case_comments" ("case_id" ∷ []) false
    ∷ create_table "saved_queries"
        (key_column "id" (varchar 36)
          ∷ column "reference" (varchar 32)
          ∷ column "name" (varchar 512)
          ∷ nullable_column "owner" (varchar 128)
          ∷ default_column "definition" jsonb "{}"
          ∷ default_column "last_count" integer "0"
          ∷ default_column "created_at" timestamptz "now()"
          ∷ default_column "updated_at" timestamptz "now()"
          ∷ [])
        ([])
    ∷ create_index "ix_saved_queries_reference" "saved_queries" ("reference" ∷ []) true
    ∷ create_table "decoders"
        (key_column "id" (varchar 64)
          ∷ column "name" (varchar 255)
          ∷ column "version" (varchar 32)
          ∷ default_column "status" (varchar 32) "Enabled"
          ∷ nullable_column "throughput" (varchar 32)
          ∷ default_column "config" jsonb "{}"
          ∷ default_column "created_at" timestamptz "now()"
          ∷ default_column "updated_at" timestamptz "now()"
          ∷ [])
        ([])
    ∷ create_table "system_config"
        (key_column "id" (varchar 32)
          ∷ default_column "environment" (varchar 32) "production"
          ∷ default_column "retention_days" integer "365"
          ∷ default_column "sla_minutes" integer "15"
          ∷ nullable_column "alert_email" (varchar 255)
          ∷ default_column "maintenance_mode" boolean "false"
          ∷ default_column "extra" jsonb "{}"
          ∷ default_column "created_at" timestamptz "now()"
          ∷ default_column "updated_at" timestamptz "now()"
          ∷ [])
        ([])
    ∷ create_table "pipeline_alerts"
        (key_column "id" (varchar 64)
          ∷ default_column "severity" (varchar 16) "medium"
          ∷ column "stage" (varchar 64)
          ∷ column "message" text
          ∷ default_column "status" (varchar 32) "Open"
          ∷ nullable_column "acknowledged_by" (varchar 128)
          ∷ column "created_at" timestamptz
          ∷ [])
        ([])
    ∷ create_table "reports"
        (key_column "id" (varchar 36)
          ∷ column "reference" (varchar 32)
          ∷ column "name" (varchar 255)
          ∷ default_column "report_type" (varchar 64) "reconciliation"
          ∷ nullable_column "period" (varchar 32)
          ∷ default_column "status" (varchar 32) "Queued"
          ∷ nullable_column "size_bytes" big_integer
          ∷ nullable_column "file_path" (varchar 1024)
          ∷ nullable_column "checksum_sha256" (varchar 64)
          ∷ nullable_column "requested_by" (varchar 128)
          ∷ default_column "params" jsonb "{}"
          ∷ nullable_column "error" text
          ∷ nullable_column "completed_at" timestamptz
          ∷ default_column "created_at" timestamptz "now()"
          ∷ default_column "updated_at" timestamptz "now()"
          ∷ [])
        ([])
    ∷ create_index "ix_reports_reference" "reports" ("reference" ∷ []) true
    ∷ create_index "ix_reports_status" "reports" ("status" ∷ []) false
    ∷ []

abbrev pub downgrade_initial : List Op
downgrade_initial =
    drop_table "reports"
    ∷ drop_table "pipeline_alerts"
    ∷ drop_table "system_config"
    ∷ drop_table "decoders"
    ∷ drop_table "saved_queries"
    ∷ drop_table "case_comments"
    ∷ drop_table "cases"
    ∷ drop_table "audit_logs"
    ∷ drop_table "users"
    ∷ drop_table "roles"
    ∷ []
