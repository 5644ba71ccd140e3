-- ===== src/Identity/Routes.antt =====
-- app/modules/identity/router.py, the /auth handlers. Each runs inside `request`.
pub mod Admin
pub mod Guards
use ra_backend.Base.{String, Bool, true, Option, none, some}
use ra_backend.Core.World.{World}
use ra_backend.Core.Exec.{Exec, pure, ◌>>=◌, ◌>>◌}
use ra_backend.Core.Deps.{find_role, get_current_principal}
use ra_backend.Identity.Audit.{Context, record_audit}
use ra_backend.Identity.Profile.{AuthUser, to_auth_user}
use ra_backend.Identity.Sessions.{refresh_session, revoke_session}
use ra_backend.Identity.Login.{authenticate}

pub record LoginResponse (T : Type 0) : Type 0 where
  pub token : T
  pub refresh_token : T
  pub user : AuthUser

pub record ActionResult : Type 0 where
  pub success : Bool
  pub detail : Option String

module _ {T : Type 0} (w : World T) (ctx : Context) where
  unfoldable pub login : String → String → Exec (LoginResponse T)
  login email password = do
    (access, refresh, user) ← authenticate w email password ctx.user_agent ctx.client_ip
    record_audit w ctx (record {
      actor = user.email;
      action = "Signed in";
      target = some user.id;
      actor_id = some user.id;
    })
    role ← find_role user.role_id
    pure (record { token = access; refresh_token = refresh; user = to_auth_user role user })

  -- The handler of `/auth/refresh`
  unfoldable pub refresh : T → Exec (T × T)
  refresh refresh_token = refresh_session w refresh_token ctx.user_agent ctx.client_ip

  unfoldable pub logout : Option T → Exec ActionResult
  logout creds = do
    principal ← get_current_principal w creds
    revoke_session w principal.session_id
    record_audit w ctx (record {
      actor = principal.email;
      action = "Signed out";
      target = none;
      actor_id = some principal.id;
    })
    pure (record { success = true; detail = some "Signed out." })
