-- ===== src/Migrations/Roundtrip.antt =====
-- The revisions on a database that has other tables too: up and down again.
use ra_backend.Base.{◌&&◌, String, Bool, true, Option, none, some, List, [], ◌∷◌, ◌++◌}
use ra_backend.Assurance.Payloads.{is_in}
use ra_backend.Migrations.Schema.{Schema, Op, run}
use ra_backend.Migrations.Initial.{upgrade_initial}
use ra_backend.Migrations.Extended.{upgrade_extended}
use ra_backend.Migrations.Frame.{names_of}

-- The names of tables and indexes that operations use are among these.
abbrev are_among : List String → List String → Bool
are_among ns [] = true
are_among ns (t ∷ r) = is_in ns t && are_among ns r

abbrev use_only : List String → List Op → Bool
use_only ns [] = true
use_only ns (o ∷ r) = are_among ns (names_of o) && use_only ns r

abbrev initial_names : List String
initial_names =
    "roles" ∷ "users" ∷ "audit_logs" ∷ "cases" ∷ "case_comments" ∷ "saved_queries" ∷ "decoders"
    ∷ "system_config" ∷ "pipeline_alerts" ∷ "reports" ∷ []

abbrev index_names : List String
index_names =
    "ix_users_email" ∷ "ix_users_role_id" ∷ "ix_audit_logs_actor" ∷ "ix_audit_logs_at"
    ∷ "ix_cases_reference" ∷ "ix_cases_status" ∷ "ix_case_comments_case_id"
    ∷ "ix_saved_queries_reference" ∷ "ix_reports_reference" ∷ "ix_reports_status"
    ∷ "ix_user_sessions_refresh_jti" ∷ "ix_user_sessions_user_id" ∷ "ix_user_sessions_expires_at"
    ∷ "ix_audit_logs_actor_id" ∷ "ix_audit_logs_request_id" ∷ "ix_rules_parent_id"
    ∷ "ix_rules_status" ∷ "ix_rule_runs_rule_id" ∷ "ix_rule_runs_status" ∷ []

-- The tables and the indexes of the revisions
abbrev pub all_names : List String
all_names = "user_sessions" ∷ "rules" ∷ "rule_runs" ∷ initial_names ++ index_names

abbrev or_empty : Option Schema → Schema
or_empty none = []
or_empty (some s) = s

-- The tables after the first revision, and after both
abbrev first_tables : Schema
first_tables = or_empty (run upgrade_initial [])

abbrev second_tables : Schema
second_tables = or_empty (run upgrade_extended first_tables)
