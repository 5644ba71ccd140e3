-- ===== src/System/Runs.antt =====
-- The service as it runs: requests to the handlers, each in a transaction of its own, and jobs of
-- the worker, one after the other in any order, by any callers.
pub mod Kept
use ra_backend.Base.{List, ℕ, String, Bool, Option}
use ra_backend.Models.{PermissionMap, Case}
use ra_backend.Core.World.{World, Outcome}
use ra_backend.Core.Exec.{Tx, request}
use ra_backend.Identity.Audit.{Context}
use ra_backend.Identity.Users.{UserCreate, UserUpdate}
use ra_backend.Identity.Roles.{RoleUpsert}
use ra_backend.Identity.Routes as IdentityRoutes
use ra_backend.Identity.Routes.Admin
use ra_backend.Assurance.Payloads.{CaseCreate, CaseUpdate}
use ra_backend.Assurance.Service.{SavedQueryCreate}
use ra_backend.Assurance.Routes as AssuranceRoutes
use ra_backend.Integrations.Airflow.{Http}
use ra_backend.Operations.Service.{DecoderUpsert, SystemConfigUpdate}
use ra_backend.Operations.Routes as OperationsRoutes
use ra_backend.Reporting.Service.{ReportCreate}
use ra_backend.Reporting.Routes as ReportingRoutes
use ra_backend.Reporting.Worker.{Site, generate_report}
use ra_backend.Reporting.References.{worker_view}
use ra_backend.Identity.Lists as IdentityLists
use ra_backend.Assurance.Reads as AssuranceReads
use ra_backend.Assurance.Recon.{Records, records_route}
use ra_backend.Operations.Kpis
use ra_backend.Operations.Stages as Stages
use ra_backend.Operations.Stages.{StageSource}
use ra_backend.Assurance.Summary.{Totals, summary_route}
use ra_backend.Meta.{dashboard_kpis}
use ra_backend.Operations.Kpis.{Source}
use ra_backend.Core.Deps.{Pagination}

-- A request, as its handler and what the body and the path give it. What the surroundings do to
-- it, the broker, Airflow and the file system, comes with it.
pub data Call (T : Type 0) : Type 0 where
  login : (email password : String) → Call T
  refresh : T → Call T
  logout me get_config retries : Call T
  change_password : (current new : String) → Call T
  create_user : UserCreate → Call T
  update_user : String → UserUpdate → Call T
  update_role_permissions : String → PermissionMap → Call T
  upsert_role : RoleUpsert → Call T
  create_case : CaseCreate → Call T
  update_case : String → CaseUpdate → Call T
  add_comment : (id body : String) → Call T
  create_query : SavedQueryCreate → Call T
  ack_alert : String → Call T
  upsert_decoder : DecoderUpsert → Call T
  update_config : SystemConfigUpdate → Call T
  retry_job replay_job : Http → String → Call T
  create_report : ReportCreate → (String → Outcome (Unit {0})) → Call T
  download_report : (String → Bool) → String → Call T
  list_roles list_queries list_decoders stats alerts : Call T
  records : Records → Option String → Pagination → Call T
  audit list_users list_reports : Pagination → Call T
  list_cases : (List Case → List Case) → Option String → Pagination → Call T
  get_case : String → Call T
  kpis : Source → Call T
  runs : Source → (limit : ℕ) → Call T
  stages : StageSource → Call T
  summary : Totals → (hours : ℕ) → Call T
  dashboard : Totals → Call T

module _ {T : Type 0} (w : World T) where
  -- The state after a request with these headers.
  unfoldable pub serve : Context → Option T → Call T → Tx → Tx
  serve ctx creds (login email password) s =
      (request w (IdentityRoutes.login w ctx email password) s).1
  serve ctx creds (refresh token) s = (request w (IdentityRoutes.refresh w ctx token) s).1
  serve ctx creds logout s = (request w (IdentityRoutes.logout w ctx creds) s).1
  serve ctx creds me s = (request w (Admin.me w ctx creds) s).1
  serve ctx creds get_config s = (request w (OperationsRoutes.get_config w creds) s).1
  serve ctx creds retries s = (request w (OperationsRoutes.retries w creds) s).1
  serve ctx creds (change_password current new) s =
      (request w (Admin.change_password w ctx creds current new) s).1
  serve ctx creds (create_user payload) s = (request w (Admin.create_user w ctx creds payload) s).1
  serve ctx creds (update_user id payload) s =
      (request w (Admin.update_user w ctx creds id payload) s).1
  serve ctx creds (update_role_permissions id m) s =
      (request w (Admin.update_role_permissions w ctx creds id m) s).1
  serve ctx creds (upsert_role payload) s = (request w (Admin.upsert_role w ctx creds payload) s).1
  serve ctx creds (create_case payload) s =
      (request w (AssuranceRoutes.create_case w creds payload) s).1
  serve ctx creds (update_case id payload) s =
      (request w (AssuranceRoutes.update_case w creds id payload) s).1
  serve ctx creds (add_comment id body) s =
      (request w (AssuranceRoutes.add_comment w creds id body) s).1
  serve ctx creds (create_query payload) s =
      (request w (AssuranceRoutes.create_query w creds payload) s).1
  serve ctx creds (ack_alert id) s = (request w (OperationsRoutes.ack_alert w creds id) s).1
  serve ctx creds (upsert_decoder payload) s =
      (request w (OperationsRoutes.upsert_decoder w creds payload) s).1
  serve ctx creds (update_config payload) s =
      (request w (OperationsRoutes.update_config w creds payload) s).1
  serve ctx creds (retry_job http id) s =
      (request w (OperationsRoutes.retry_route w creds http id) s).1
  serve ctx creds (replay_job http id) s =
      (request w (OperationsRoutes.replay_route w creds http id) s).1
  serve ctx creds (create_report payload delay) s =
      (request w (ReportingRoutes.create_report w creds payload delay) s).1
  serve ctx creds (download_report file_exists reference) s =
      (request w (ReportingRoutes.download_report w creds file_exists reference) s).1
  serve ctx creds (audit p) s = (request w (IdentityLists.audit_route w creds p) s).1
  serve ctx creds (list_users p) s = (request w (IdentityLists.users_route w creds p) s).1
  serve ctx creds list_roles s = (request w (IdentityLists.roles_route w creds) s).1
  serve ctx creds (list_cases ties status p) s =
      (request w (AssuranceReads.cases_route w creds ties status p) s).1
  serve ctx creds (get_case id) s = (request w (AssuranceReads.case_route w creds id) s).1
  serve ctx creds list_queries s = (request w (AssuranceReads.queries_route w creds) s).1
  serve ctx creds stats s = (request w (AssuranceReads.stats w creds) s).1
  serve ctx creds alerts s = (request w (Kpis.alerts w creds) s).1
  serve ctx creds (kpis source) s = (request w (Kpis.kpis w source creds) s).1
  serve ctx creds (runs source limit) s = (request w (Kpis.runs w source creds limit) s).1
  serve ctx creds (list_reports p) s = (request w (ReportingRoutes.list_reports w creds p) s).1
  serve ctx creds list_decoders s = (request w (OperationsRoutes.list_decoders w creds) s).1
  serve ctx creds (records source status p) s =
      (request w (records_route w source creds status p) s).1
  serve ctx creds (stages source) s = (request w (Stages.stages w source creds) s).1
  serve ctx creds (summary source hours) s = (request w (summary_route w source creds hours) s).1
  serve ctx creds (dashboard source) s = (request w (dashboard_kpis w source creds) s).1

  pub data Step : Tx → Tx → Type 0 where
    served : (ctx : Context) (creds : Option T) (c : Call T) (s : Tx) → Step s (serve ctx creds c s)
    worked :
        (site : Site) (id : String) (s : Tx) → Step s (generate_report w site id (worker_view s)).1

  -- What the service comes to from a state, in any number of steps.
  pub data Reach : Tx → Tx → Type 0 where
    here : (s : Tx) → Reach s s
    onward : (s t u : Tx) → Reach s t → Step t u → Reach s u
