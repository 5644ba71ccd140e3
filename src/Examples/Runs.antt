-- ===== src/Examples/Runs.antt =====
-- Runs of the service: a logout, a job of the worker, and a report on its way to the client.
use ra_backend.Base.{String, true, some, List, [], ◌∷◌, ◌++◌, ◌≡◌, ◌≢◌, refl}
use ra_backend.Base.Dict
use ra_backend.Base.Decimal.{str}
use ra_backend.Models.{AuditLog}
use ra_backend.Core.Exec.{Tx, ok, begin}
use ra_backend.Core.Deps.{get_current_principal, find_user, find_session, find_role}
use ra_backend.Identity.Sessions.Access.{issued_access}
use ra_backend.Reporting.Service.{download_report, file_name}
use ra_backend.Reporting.Worker.{out_path, complete, start, generate_report}
use ra_backend.Reporting.Worker.Laws.{report_row}
use ra_backend.Reporting.References.{requested, worker_view}
use ra_backend.Reporting.Delivery.{after_job, report_is_delivered}
use ra_backend.Seed.Run.{seed}
use ra_backend.Seed.Rerun.{seed_is_idempotent}
use ra_backend.System.Lifecycle.{Advances, phase, sessions_refine_lifecycle}
use ra_backend.System.Ledger.{audit_log_is_append_only}
use ra_backend.System.Keys.{HasKeys, AnswersOnce, lookups_stay_unambiguous}
use ra_backend.System.Revocation.{revocation_is_final}
use ra_backend.System.Runs.{logout, serve, served, worked, Reach, here, onward}
use ra_backend.Examples.{
  Signed, a_world, a_context, a_state, revoked_state, ann, decode_signed, db_with, state_of,
}
use ra_backend.Examples.Sessions.{ann_principal}
use ra_backend.Examples.Records.{a_request, a_site, broker, report_state, report_state-AreNumbered}

abbrev ann_token : Signed
ann_token = issued_access a_world ann "s1" 900_000_000

-- A logout
abbrev logged_out : Tx
logged_out = serve a_world a_context (some ann_token) logout a_state

a_run : Reach a_world a_state logged_out
a_run =
    onward a_state a_state logged_out (here a_state)
      (served a_context (some ann_token) logout a_state)

sessions_refine_lifecycle_example :
    Advances (phase "s1" a_state.committed) (phase "s1" logged_out.committed)
sessions_refine_lifecycle_example = sessions_refine_lifecycle a_world "s1" a_state logged_out a_run

audit_log_is_append_only_example :
    (more : List AuditLog) × (logged_out.committed.audit_logs
      ≡ a_state.committed.audit_logs ++ more)
audit_log_is_append_only_example = audit_log_is_append_only a_world a_state logged_out a_run

a_state-HasKeys : HasKeys a_state.committed
a_state-HasKeys = record {
  user_ids = (refl, (refl, tt));
  emails = (refl, (refl, tt));
  session_ids = (refl, tt);
  role_ids = (refl, tt);
}

lookups_stay_unambiguous_example :
    HasKeys logged_out.committed
    × ((id : String)
        → AnswersOnce (find_user id (begin a_world logged_out)).0
          × AnswersOnce (find_session id (begin a_world logged_out)).0
          × AnswersOnce (find_role id (begin a_world logged_out)).0)
lookups_stay_unambiguous_example =
    lookups_stay_unambiguous a_world a_state logged_out a_state-HasKeys a_run

-- A job between the revocation and the request
abbrev after_a_job : Tx
after_a_job = (generate_report a_world a_site "r1" (worker_view revoked_state)).1

a_quiet_run : Reach a_world revoked_state after_a_job
a_quiet_run =
    onward revoked_state revoked_state after_a_job (here revoked_state)
      (worked a_site "r1" revoked_state)

revoked_state-HasKeys : HasKeys revoked_state.committed
revoked_state-HasKeys = record {
  user_ids = (refl, (refl, tt));
  emails = (refl, (refl, tt));
  session_ids = (refl, tt);
  role_ids = (refl, tt);
}

revocation_is_final_example :
    (get_current_principal a_world (some ann_token) (begin a_world after_a_job)).0
    ≢ ok ann_principal
unfolding Dict.get decode_signed Dict.update generate_report
revocation_is_final_example =
    revocation_is_final a_world revoked_state after_a_job "s1" ann_token ann_token.0
      revoked_state-HasKeys refl a_quiet_run refl refl refl ann_principal

report_is_delivered_example :
    let report = requested a_world a_request "ann@x.org" report_state in
    let path = out_path a_world a_site report in
    let after = after_job a_world a_request "ann@x.org" broker report_state a_site in
    (report_row report.id after.committed
      ≡ complete path 120 "abc" (a_world.clock 1) (start report) ∷ [])
    × ((download_report (λ p. true) report.reference (begin a_world after)).0
        ≡ ok (record { path = path; filename = file_name report; checksum = some "abc" }))
unfolding str
report_is_delivered_example =
    report_is_delivered a_world a_request "ann@x.org" broker report_state a_site 120 "abc"
      (λ p. true) report_state-AreNumbered refl refl refl refl refl

-- A first run of the seed, on empty tables
abbrev unseeded : Tx
unseeded = state_of (record (db_with []) { roles = []; users = [] })

abbrev seeded : Tx
seeded = (seed a_world "pw" unseeded).1

seed_is_idempotent_example : seed a_world "pw" (begin a_world seeded) ≡ (
  ok tt,
  record (begin a_world seeded) { committed = seeded.committed; current = seeded.committed },
)
unfolding seed str
seed_is_idempotent_example = seed_is_idempotent a_world "pw" unseeded seeded refl
