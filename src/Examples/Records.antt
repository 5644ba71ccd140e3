-- ===== src/Examples/Records.antt =====
-- Reports, cases and the configuration.
use ra_backend.Base.{arith, String, true, none, some, [], ◌∷◌, ◌≡◌, ◌≢◌, refl, select, modify}
use ra_backend.Base.Numbered.{reference_at}
use ra_backend.Base.Decimal.{str}
use ra_backend.Models.{Report, Case}
use ra_backend.Core.Errors.{python, other_error}
use ra_backend.Core.World.{Outcome, returned, raised}
use ra_backend.Core.Exec.{Tx, ok, err, finish}
use ra_backend.Reporting.Service.{ReportCreate, new_report, create_report}
use ra_backend.Reporting.References.{AreNumbered, worker_view, early_job_leaves_queued}
use ra_backend.Reporting.Worker.{Site, report_not_found, report_is, generate_report}
use ra_backend.Reporting.Worker.Laws.{report_row, generate_fails}
use ra_backend.Assurance.Payloads.{
  high, resolved, opened, unset, null, given, CaseCreate, CaseUpdate, checks, case_is, flush_case,
}
use ra_backend.Assurance.Service.{create_case, update_case}
use ra_backend.Assurance.Cases.{
  IsSound, IsPatched, created_case, create_case_succeeds, update_case_writes,
}
use ra_backend.Operations.Service.{retry_job, replay_job, SystemConfigUpdate}
use ra_backend.Integrations.Airflow.{Http, http_error, exchange}
use ra_backend.Operations.Laws.{IsSuccess, IsForeseen, trigger_always_succeeds}
use ra_backend.Examples.{float_bits, a_world, db_with, state_of}

abbrev pub a_request : ReportCreate
a_request = record {
  name = "Daily recon";
  report_type = "recon";
  period = some "2026-06-01";
  params = "{}";
}

abbrev a_report : Report
a_report = new_report "r1" "RPT-9901" a_request "ann@x.org" 0

abbrev pub report_state : Tx
report_state = state_of (record (db_with []) { reports = a_report ∷ [] })

pub report_state-AreNumbered : AreNumbered report_state.current
unfolding str
report_state-AreNumbered = (refl, tt)

-- A broker that is down
abbrev no_broker : String → Outcome (Unit {0})
no_broker id = raised other_error

abbrev pub broker : String → Outcome (Unit {0})
broker id = returned tt

-- ClickHouse is down, the file system works.
abbrev pub a_site : Site
a_site = record {
  client_query = raised other_error;
  write_csv = λ path rows columns. returned tt;
  getsize = λ path rows. returned 120;
  sha256 = λ path rows. returned "abc";
  exc_text = λ e. "disk full";
}

abbrev full_site : Site
full_site = record a_site { write_csv = λ path rows columns. raised other_error }

early_job_leaves_queued_example :
    let (r, s') = create_report a_world a_request "ann@x.org" broker report_state in
    let (job, v) = generate_report a_world a_site (a_world.uuid_str 0) (worker_view s') in
    let (answer, after) = finish (r, s') in
    (job ≡ ok report_not_found)
    × (v.committed ≡ report_state.committed)
    × (answer ≡ r)
    × ((report : Report) × (r ≡ ok (report, true))
        × (select (report_is (a_world.uuid_str 0)) after.committed.reports ≡ report ∷ [])
        × (report.id ≡ a_world.uuid_str 0)
        × (report.reference ≡ reference_at "RPT-" 9900 1)
        × (report.status ≡ "Queued")
        × (report.file_path ≡ none)
        × (report.name ≡ a_request.name)
        × (report.report_type ≡ a_request.report_type)
        × (report.requested_by ≡ some "ann@x.org"))
unfolding str
early_job_leaves_queued_example =
    early_job_leaves_queued a_world a_request "ann@x.org" broker report_state
      report_state-AreNumbered refl a_site refl

generate_fails_example :
    let (r, s') = generate_report a_world full_site "r1" report_state in
    (r ≡ err (python other_error))
    × (report_row "r1" s'.committed
        ≡ record a_report { status = "Failed"; error = some "disk full" } ∷ [])
generate_fails_example =
    generate_fails a_world full_site report_state a_report refl other_error refl

abbrev a_case_payload : CaseCreate
a_case_payload = record {
  title = "Leakage";
  description = "";
  severity = high;
  status = opened;
  owner = none;
  linked_txn_id = none;
  estimated_impact = none;
}

abbrev no_cases : Tx
no_cases = state_of (db_with [])

no_cases-IsSound : IsSound no_cases.current.cases
no_cases-IsSound = record { numbered = tt; checked = refl }

create_case_succeeds_example :
    (create_case a_world a_case_payload "ann" no_cases ≡ (
      ok (created_case a_world no_cases a_case_payload "ann"),
      record no_cases {
        current = record no_cases.current {
          cases = created_case a_world no_cases a_case_payload "ann" ∷ [];
        };
        draws = 1;
      },
    ))
    × IsSound (created_case a_world no_cases a_case_payload "ann" ∷ [])
create_case_succeeds_example =
    create_case_succeeds a_world no_cases no_cases-IsSound a_case_payload "ann" refl

abbrev a_case : Case
a_case = record {
  id = "c1";
  reference = "CASE-2001";
  title = "Leakage";
  description = "";
  severity = "high";
  status = "Open";
  owner = some "ann";
  owner_id = some "ann";
  linked_txn_id = none;
  estimated_impact = none;
  updated_at = 0;
}

abbrev case_state : Tx
case_state = state_of (record (db_with []) { cases = a_case ∷ [] })

case_state-IsSound : IsSound case_state.current.cases
unfolding str checks
case_state-IsSound = record { numbered = (refl, tt); checked = refl }

-- The status changes and the owner is removed.
abbrev a_patch : CaseUpdate
a_patch = record {
  title = unset;
  description = unset;
  severity = unset;
  status = given resolved;
  owner = null;
  estimated_impact = unset;
}

update_case_writes_example :
    let rows = modify (case_is "c1") (flush_case float_bits 0 a_patch) case_state.current.cases in
    (after : Case) × IsPatched a_patch a_case after
    × (update_case a_world "c1" a_patch case_state
        ≡ (ok after, record case_state { current = record case_state.current { cases = rows } }))
    × (select (case_is "c1") rows ≡ after ∷ [])
    × ((other : String)
        → other ≢ "c1"
        → select (case_is other) rows ≡ select (case_is other) case_state.current.cases)
    × IsSound rows
update_case_writes_example =
    update_case_writes a_world case_state case_state-IsSound a_patch a_case refl refl

abbrev a_setting : SystemConfigUpdate
a_setting = record {
  environment = none;
  retention_days = some 30;
  sla_minutes = none;
  alert_email = none;
  maintenance_mode = none;
}

-- A DAG run that times out
abbrev slow_airflow : Http
slow_airflow = record {
  post = λ args path conf. http_error "timeout";
  get = λ args path. http_error "timeout";
}

slow-IsForeseen : (dag_id : String) → IsForeseen a_world.settings slow_airflow dag_id
unfolding exchange
slow-IsForeseen dag_id conf e h = ground arith

trigger_always_succeeds_example :
    IsSuccess (retry_job a_world.settings slow_airflow "JOB-1")
    × IsSuccess (replay_job a_world.settings slow_airflow "JOB-1")
trigger_always_succeeds_example =
    trigger_always_succeeds a_world.settings slow_airflow "JOB-1" (slow-IsForeseen "air_recon_dag")
      (slow-IsForeseen "air_pipeline_dag")
