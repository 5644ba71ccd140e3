-- ===== src/System/Runs/Kept.antt =====
-- An invariant that withstands the writes of the services, through every request and every job.
use ra_backend.Models.{Db}
use ra_backend.Base.{Option}
use ra_backend.Core.World.{World}
use ra_backend.Core.Exec.{Tx}
use ra_backend.Core.Holds.{Keeps-request}
use ra_backend.Identity.Audit.{Context}
use ra_backend.Reporting.References.{worker_view}
use ra_backend.System.Figures.{stages-Keeps, summary-Keeps, dashboard-Keeps}
use ra_backend.System.Reads.{
  audit-Keeps, users-Keeps, roles-Keeps, cases-Keeps, case-Keeps, queries-Keeps, stats-Keeps,
  alerts-Keeps, decoders_list-Keeps, records-Keeps, kpis-Keeps, runs-Keeps, reports-Keeps,
}
use ra_backend.System.Stable.{IsStable}
use ra_backend.System.Others.{generate_report-Keeps}
use ra_backend.System.Handlers.{
  login-Keeps, refresh-Keeps, logout-Keeps, password-Keeps, me-Keeps, new_user-Keeps,
  changed_user-Keeps, permissions-Keeps, role-Keeps, new_case-Keeps, changed_case-Keeps,
  comment-Keeps, query-Keeps, alert-Keeps, decoder-Keeps, config-Keeps, settings-Keeps,
  retries-Keeps, report-Keeps, retry-Keeps, replay-Keeps, download-Keeps,
}
use ra_backend.System.Runs.{
  Call, serve, Step, served, worked, Reach, here, onward, login, refresh, logout, me, get_config,
  retries, change_password, create_user, update_user, update_role_permissions, upsert_role,
  create_case, update_case, add_comment, create_query, ack_alert, upsert_decoder, update_config,
  retry_job, replay_job, create_report, download_report, list_roles, list_queries, list_decoders,
  stats, alerts, records, audit, list_users, list_reports, list_cases, get_case, kpis, runs, stages,
  summary, dashboard,
}

module _ {T : Type 0} (w : World T) (P : Db → Type 0) (stable : IsStable P) where
  serve-keeps :
      (ctx : Context) (creds : Option T) (c : Call T) (s : Tx)
      → P s.committed
      → P (serve w ctx creds c s).committed
  unfolding serve
  serve-keeps ctx creds (login email password) s =
      Keeps-request w _ s (login-Keeps w P stable ctx email password)
  serve-keeps ctx creds (refresh token) s = Keeps-request w _ s (refresh-Keeps w P stable ctx token)
  serve-keeps ctx creds logout s = Keeps-request w _ s (logout-Keeps w P stable ctx creds)
  serve-keeps ctx creds me s = Keeps-request w _ s (me-Keeps w P stable ctx creds)
  serve-keeps ctx creds get_config s = Keeps-request w _ s (config-Keeps w P stable creds)
  serve-keeps ctx creds retries s = Keeps-request w _ s (retries-Keeps w P stable creds)
  serve-keeps ctx creds (change_password current new) s =
      Keeps-request w _ s (password-Keeps w P stable ctx creds current new)
  serve-keeps ctx creds (create_user payload) s =
      Keeps-request w _ s (new_user-Keeps w P stable ctx creds payload)
  serve-keeps ctx creds (update_user id payload) s =
      Keeps-request w _ s (changed_user-Keeps w P stable ctx creds id payload)
  serve-keeps ctx creds (update_role_permissions id m) s =
      Keeps-request w _ s (permissions-Keeps w P stable ctx creds id m)
  serve-keeps ctx creds (upsert_role payload) s =
      Keeps-request w _ s (role-Keeps w P stable ctx creds payload)
  serve-keeps ctx creds (create_case payload) s =
      Keeps-request w _ s (new_case-Keeps w P stable creds payload)
  serve-keeps ctx creds (update_case id payload) s =
      Keeps-request w _ s (changed_case-Keeps w P stable creds id payload)
  serve-keeps ctx creds (add_comment id body) s =
      Keeps-request w _ s (comment-Keeps w P stable creds id body)
  serve-keeps ctx creds (create_query payload) s =
      Keeps-request w _ s (query-Keeps w P stable creds payload)
  serve-keeps ctx creds (ack_alert id) s = Keeps-request w _ s (alert-Keeps w P stable creds id)
  serve-keeps ctx creds (upsert_decoder payload) s =
      Keeps-request w _ s (decoder-Keeps w P stable creds payload)
  serve-keeps ctx creds (update_config payload) s =
      Keeps-request w _ s (settings-Keeps w P stable creds payload)
  serve-keeps ctx creds (retry_job http id) s =
      Keeps-request w _ s (retry-Keeps w P stable creds http id)
  serve-keeps ctx creds (replay_job http id) s =
      Keeps-request w _ s (replay-Keeps w P stable creds http id)
  serve-keeps ctx creds (create_report payload delay) s =
      Keeps-request w _ s (report-Keeps w P stable creds payload delay)
  serve-keeps ctx creds (download_report file_exists reference) s =
      Keeps-request w _ s (download-Keeps w P stable creds file_exists reference)
  serve-keeps ctx creds (audit p) s = Keeps-request w _ s (audit-Keeps w P stable creds p)
  serve-keeps ctx creds (list_users p) s = Keeps-request w _ s (users-Keeps w P stable creds p)
  serve-keeps ctx creds list_roles s = Keeps-request w _ s (roles-Keeps w P stable creds)
  serve-keeps ctx creds (list_cases ties status p) s =
      Keeps-request w _ s (cases-Keeps w P stable creds ties status p)
  serve-keeps ctx creds (get_case id) s = Keeps-request w _ s (case-Keeps w P stable creds id)
  serve-keeps ctx creds list_queries s = Keeps-request w _ s (queries-Keeps w P stable creds)
  serve-keeps ctx creds stats s = Keeps-request w _ s (stats-Keeps w P stable creds)
  serve-keeps ctx creds alerts s = Keeps-request w _ s (alerts-Keeps w P stable creds)
  serve-keeps ctx creds (kpis source) s = Keeps-request w _ s (kpis-Keeps w P stable creds source)
  serve-keeps ctx creds (runs source limit) s =
      Keeps-request w _ s (runs-Keeps w P stable creds source limit)
  serve-keeps ctx creds (list_reports p) s = Keeps-request w _ s (reports-Keeps w P stable creds p)
  serve-keeps ctx creds list_decoders s = Keeps-request w _ s (decoders_list-Keeps w P stable creds)
  serve-keeps ctx creds (records source status p) s =
      Keeps-request w _ s (records-Keeps w P stable creds source status p)
  serve-keeps ctx creds (stages source) s =
      Keeps-request w _ s (stages-Keeps w P stable creds source)
  serve-keeps ctx creds (summary source hours) s =
      Keeps-request w _ s (summary-Keeps w P stable creds source hours)
  serve-keeps ctx creds (dashboard source) s =
      Keeps-request w _ s (dashboard-Keeps w P stable creds source)

  step-keeps : (s t : Tx) → Step w s t → P s.committed → P t.committed
  step-keeps _ _ (served ctx creds c s) p = serve-keeps ctx creds c s p
  step-keeps _ _ (worked site id s) p =
      ((generate_report-Keeps P stable w site id).at (worker_view s)
        (record { committed = p; current = p })).committed

  -- What withstands the writes of the services holds in every state that the service reaches.
  pub reach-keeps : (s t : Tx) → Reach w s t → P s.committed → P t.committed
  reach-keeps _ _ (here s) p = p
  reach-keeps _ _ (onward s t u before step) p = step-keeps t u step (reach-keeps s t before p)
