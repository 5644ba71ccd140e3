-- ===== src/System/Handlers.antt =====
-- The handlers of the routers, under an invariant of the identity tables.
use ra_backend.Base.{String, Bool, Option}
use ra_backend.Models.{Db, PermissionMap}
use ra_backend.Core.World.{World, Outcome}
use ra_backend.Core.Holds.{Keeps}
use ra_backend.Identity.Audit.{Context}
use ra_backend.Identity.Users.{UserCreate, UserUpdate}
use ra_backend.Identity.Roles.{RoleUpsert}
use ra_backend.Identity.Routes as IdentityRoutes
use ra_backend.Identity.Routes.Admin
use ra_backend.Assurance.Payloads.{CaseCreate, CaseUpdate}
use ra_backend.Assurance.Service.{SavedQueryCreate}
use ra_backend.Assurance.Routes as AssuranceRoutes
use ra_backend.Integrations.Airflow.{Http}
use ra_backend.Operations.Service.{get_retries, DecoderUpsert, SystemConfigUpdate}
use ra_backend.Operations.Routes as OperationsRoutes
use ra_backend.Reporting.Service.{ReportCreate, get_report, download_report}
use ra_backend.Reporting.Routes as ReportingRoutes
use ra_backend.System.Stable.{IsStable}
use ra_backend.System.Sessions.{session_rules}
use ra_backend.System.Accounts.{
  authenticate-Keeps, change_password-Keeps, create_user-Keeps, update_user-Keeps,
  update_role_permissions-Keeps, upsert_role-Keeps,
}
use ra_backend.System.Others.{
  acknowledge_alert-Keeps, upsert_decoder-Keeps, get_system_config-Keeps,
  update_system_config-Keeps, create_case-Keeps, update_case-Keeps, add_comment-Keeps,
  create_saved_query-Keeps, create_report-Keeps,
}

module _ {T : Type 0} (w : World T) (P : Db → Type 0) (stable : IsStable P) where
  module _ (ctx : Context) where
    pub login-Keeps :
        (email password : String) → Keeps P (IdentityRoutes.login w ctx email password)
    unfolding IdentityRoutes.login
    login-Keeps email password = search (session_rules, authenticate-Keeps) depth 20 fits 2000

    pub refresh-Keeps : (token : T) → Keeps P (IdentityRoutes.refresh w ctx token)
    unfolding IdentityRoutes.refresh
    refresh-Keeps token = search session_rules depth 20 fits 2000

    module _ (creds : Option T) where
      pub logout-Keeps : Keeps P (IdentityRoutes.logout w ctx creds)
      unfolding IdentityRoutes.logout
      logout-Keeps = search session_rules depth 20 fits 2000

      pub password-Keeps :
          (current new : String) → Keeps P (Admin.change_password w ctx creds current new)
      unfolding Admin.change_password
      password-Keeps current new = search (session_rules, change_password-Keeps) depth 20 fits 2000

      pub me-Keeps : Keeps P (Admin.me w ctx creds)
      unfolding Admin.me
      me-Keeps = search session_rules depth 20 fits 2000

      pub new_user-Keeps : (payload : UserCreate) → Keeps P (Admin.create_user w ctx creds payload)
      unfolding Admin.create_user
      new_user-Keeps payload = search (session_rules, create_user-Keeps) depth 20 fits 2000

      pub changed_user-Keeps :
          (id : String) (payload : UserUpdate) → Keeps P (Admin.update_user w ctx creds id payload)
      unfolding Admin.update_user
      changed_user-Keeps id payload = search (session_rules, update_user-Keeps) depth 20 fits 2000

      pub permissions-Keeps :
          (id : String) (m : PermissionMap)
          → Keeps P (Admin.update_role_permissions w ctx creds id m)
      unfolding Admin.update_role_permissions
      permissions-Keeps id m =
          search (session_rules, update_role_permissions-Keeps) depth 20 fits 2000

      pub role-Keeps : (payload : RoleUpsert) → Keeps P (Admin.upsert_role w ctx creds payload)
      unfolding Admin.upsert_role
      role-Keeps payload = search (session_rules, upsert_role-Keeps) depth 20 fits 2000

  module _ (creds : Option T) where
    pub new_case-Keeps :
        (payload : CaseCreate) → Keeps P (AssuranceRoutes.create_case w creds payload)
    unfolding AssuranceRoutes.create_case
    new_case-Keeps payload = search (session_rules, create_case-Keeps) depth 20 fits 2000

    pub changed_case-Keeps :
        (id : String) (payload : CaseUpdate)
        → Keeps P (AssuranceRoutes.update_case w creds id payload)
    unfolding AssuranceRoutes.update_case
    changed_case-Keeps id payload = search (session_rules, update_case-Keeps) depth 20 fits 2000

    pub comment-Keeps : (id body : String) → Keeps P (AssuranceRoutes.add_comment w creds id body)
    unfolding AssuranceRoutes.add_comment
    comment-Keeps id body = search (session_rules, add_comment-Keeps) depth 20 fits 2000

    pub query-Keeps :
        (payload : SavedQueryCreate) → Keeps P (AssuranceRoutes.create_query w creds payload)
    unfolding AssuranceRoutes.create_query
    query-Keeps payload = search (session_rules, create_saved_query-Keeps) depth 20 fits 2000

    pub alert-Keeps : (id : String) → Keeps P (OperationsRoutes.ack_alert w creds id)
    unfolding OperationsRoutes.ack_alert
    alert-Keeps id = search (session_rules, acknowledge_alert-Keeps) depth 20 fits 2000

    pub decoder-Keeps :
        (payload : DecoderUpsert) → Keeps P (OperationsRoutes.upsert_decoder w creds payload)
    unfolding OperationsRoutes.upsert_decoder
    decoder-Keeps payload = search (session_rules, upsert_decoder-Keeps) depth 20 fits 2000

    pub config-Keeps : Keeps P (OperationsRoutes.get_config w creds)
    unfolding OperationsRoutes.get_config
    config-Keeps = search (session_rules, get_system_config-Keeps) depth 20 fits 2000

    pub settings-Keeps :
        (payload : SystemConfigUpdate) → Keeps P (OperationsRoutes.update_config w creds payload)
    unfolding OperationsRoutes.update_config
    settings-Keeps payload = search (session_rules, update_system_config-Keeps) depth 20 fits 2000

    pub retries-Keeps : Keeps P (OperationsRoutes.retries w creds)
    unfolding OperationsRoutes.retries get_retries
    retries-Keeps = search session_rules depth 20 fits 2000

    pub report-Keeps :
        (payload : ReportCreate) (delay : String → Outcome (Unit {0}))
        → Keeps P (ReportingRoutes.create_report w creds payload delay)
    unfolding ReportingRoutes.create_report
    report-Keeps payload delay = search (session_rules, create_report-Keeps) depth 20 fits 2000

    module _ (http : Http) (id : String) where
      pub retry-Keeps : Keeps P (OperationsRoutes.retry_route w creds http id)
      unfolding OperationsRoutes.retry_route
      retry-Keeps = search session_rules depth 20 fits 2000

      pub replay-Keeps : Keeps P (OperationsRoutes.replay_route w creds http id)
      unfolding OperationsRoutes.replay_route
      replay-Keeps = search session_rules depth 20 fits 2000

    pub download-Keeps :
        (file_exists : String → Bool) (reference : String)
        → Keeps P (ReportingRoutes.download_report w creds file_exists reference)
    unfolding ReportingRoutes.download_report download_report get_report
    download-Keeps file_exists reference = search session_rules depth 20 fits 2000
