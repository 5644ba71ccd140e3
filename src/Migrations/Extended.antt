-- ===== src/Migrations/Extended.antt =====
-- migrations/versions/0002_sessions_lockout_rules_audit.py: sessions, lockout, rules
-- and the audit log.
use ra_backend.Base.{true, false, none, some, List, [], ◌∷◌}
use ra_backend.Migrations.Schema.{
  varchar, text, jsonb, boolean, integer, big_integer, timestamptz, inet, foreign_key, check, Op,
  create_table, drop_table, create_index, drop_index, add_column, drop_column, add_constraint,
  drop_constraint, key_column, default_column, column, nullable_column,
}

abbrev pub upgrade_extended : List Op
upgrade_extended =
    add_column "users" (default_column "failed_login_count" integer "0")
    ∷ add_column "users" (nullable_column "locked_until" timestamptz)
    ∷ add_column "users" (default_column "must_reset_password" boolean "false")
    ∷ add_column "users" (nullable_column "password_changed_at" timestamptz)
    ∷ create_table "user_sessions"
        (key_column "id" (varchar 36)
          ∷ column "user_id" (varchar 36)
          ∷ column "refresh_jti" (varchar 64)
          ∷ nullable_column "user_agent" (varchar 512)
          ∷ nullable_column "ip_address" inet
          ∷ column "issued_at" timestamptz
          ∷ column "expires_at" timestamptz
          ∷ nullable_column "revoked_at" timestamptz
          ∷ nullable_column "last_seen_at" timestamptz
          ∷ [])
        (foreign_key "fk_user_sessions_user_id" "user_id" "users" "id" (some "CASCADE") ∷ [])
    ∷ create_index "ix_user_sessions_refresh_jti" "user_sessions" ("refresh_jti" ∷ []) true
    ∷ create_index "ix_user_sessions_user_id" "user_sessions" ("user_id" ∷ []) false
    ∷ create_index "ix_user_sessions_expires_at" "user_sessions" ("expires_at" ∷ []) false
    ∷ add_column "audit_logs" (nullable_column "actor_id" (varchar 36))
    ∷ add_column "audit_logs" (nullable_column "ip_address" inet)
    ∷ add_column "audit_logs" (nullable_column "user_agent" (varchar 512))
    ∷ add_column "audit_logs" (nullable_column "request_id" (varchar 64))
    ∷ add_constraint "audit_logs"
        (foreign_key "fk_audit_logs_actor_id" "actor_id" "users" "id" none)
    ∷ create_index "ix_audit_logs_actor_id" "audit_logs" ("actor_id" ∷ []) false
    ∷ create_index "ix_audit_logs_request_id" "audit_logs" ("request_id" ∷ []) false
    ∷ create_table "rules"
        (key_column "id" (varchar 36)
          ∷ nullable_column "parent_id" (varchar 36)
          ∷ column "name" (varchar 255)
          ∷ default_column "description" text ""
          ∷ default_column "severity" (varchar 16) "medium"
          ∷ default_column "status" (varchar 32) "Draft"
          ∷ default_column "version" integer "1"
          ∷ column "definition" jsonb
          ∷ nullable_column "schedule" (varchar 64)
          ∷ column "created_by" (varchar 36)
          ∷ nullable_column "approved_by" (varchar 36)
          ∷ nullable_column "approved_at" timestamptz
          ∷ nullable_column "rejected_reason" text
          ∷ nullable_column "disabled_at" timestamptz
          ∷ default_column "created_at" timestamptz "now()"
          ∷ default_column "updated_at" timestamptz "now()"
          ∷ [])
        (foreign_key "fk_rules_created_by" "created_by" "users" "id" none
          ∷ foreign_key "fk_rules_approved_by" "approved_by" "users" "id" none
          ∷ [])
    ∷ create_index "ix_rules_parent_id" "rules" ("parent_id" ∷ []) false
    ∷ create_index "ix_rules_status" "rules" ("status" ∷ []) false
    ∷ create_table "rule_runs"
        (key_column "id" (varchar 36)
          ∷ column "rule_id" (varchar 36)
          ∷ nullable_column "dag_run_id" (varchar 128)
          ∷ nullable_column "triggered_by" (varchar 36)
          ∷ default_column "status" (varchar 32) "Triggered"
          ∷ default_column "params" jsonb "{}"
          ∷ nullable_column "started_at" timestamptz
          ∷ nullable_column "ended_at" timestamptz
          ∷ nullable_column "row_count" big_integer
          ∷ nullable_column "summary" jsonb
          ∷ nullable_column "output_table" (varchar 255)
          ∷ nullable_column "error" text
          ∷ default_column "created_at" timestamptz "now()"
          ∷ [])
        (foreign_key "fk_rule_runs_rule_id" "rule_id" "rules" "id" none
          ∷ foreign_key "fk_rule_runs_triggered_by" "triggered_by" "users" "id" none
          ∷ [])
    ∷ create_index "ix_rule_runs_rule_id" "rule_runs" ("rule_id" ∷ []) false
    ∷ create_index "ix_rule_runs_status" "rule_runs" ("status" ∷ []) false
    ∷ add_constraint "cases"
        (check "chk_cases_severity" "severity IN ('low','medium','high','critical')")
    ∷ add_constraint "cases" (
        check "chk_cases_status" "status IN ('Open','In Progress','Resolved','Closed','Cancelled')")
    ∷ []

abbrev pub downgrade_extended : List Op
downgrade_extended =
    drop_constraint "chk_cases_status" "cases"
    ∷ drop_constraint "chk_cases_severity" "cases"
    ∷ drop_table "rule_runs"
    ∷ drop_table "rules"
    ∷ drop_index "ix_audit_logs_request_id" "audit_logs"
    ∷ drop_index "ix_audit_logs_actor_id" "audit_logs"
    ∷ drop_constraint "fk_audit_logs_actor_id" "audit_logs"
    ∷ drop_column "audit_logs" "request_id"
    ∷ drop_column "audit_logs" "user_agent"
    ∷ drop_column "audit_logs" "ip_address"
    ∷ drop_column "audit_logs" "actor_id"
    ∷ drop_table "user_sessions"
    ∷ drop_column "users" "password_changed_at"
    ∷ drop_column "users" "must_reset_password"
    ∷ drop_column "users" "locked_until"
    ∷ drop_column "users" "failed_login_count"
    ∷ []
