-- ===== src/Identity/Routes/Admin.antt =====
-- app/modules/identity/router.py: the handlers for an own account, for users and for roles. The
-- guard is the dependency that runs before the body.
use ra_backend.Base.{String, true, Option, none, some}
use ra_backend.Models.{PermissionMap}
use ra_backend.Core.World.{World}
use ra_backend.Core.Exec.{Exec, pure, ◌>>=◌, ◌>>◌}
use ra_backend.Core.Rbac.{user_management, role_management, edit}
use ra_backend.Core.Deps.{Principal, guarded, get_current_principal, find_role}
use ra_backend.Identity.Audit.{Context, record_audit}
use ra_backend.Identity.Profile.{AuthUser, to_auth_user, UserRow, to_user_row}
use ra_backend.Identity.Users
use ra_backend.Identity.Users.{UserCreate, UserUpdate, get_user}
use ra_backend.Identity.Roles
use ra_backend.Identity.Roles.{RoleUpsert, RoleRow, to_role_row}
use ra_backend.Identity.Routes.{ActionResult}

module _ {T : Type 0} (w : World T) (ctx : Context) (creds : Option T) where
  -- An entry in the name of the caller
  abbrev pub audited : Principal → String → Option String → Exec (Unit {0})
  audited principal action target = record_audit w ctx (record {
    actor = principal.email;
    action = action;
    target = target;
    actor_id = some principal.id;
  })

  unfoldable pub change_password : String → String → Exec ActionResult
  change_password current_password new_password = do
    principal ← get_current_principal w creds
    Users.change_password w principal.id current_password new_password
    audited principal "Changed password" none
    pure (record { success = true; detail = some "Password updated." })

  unfoldable pub me : Exec AuthUser
  me = do
    principal ← get_current_principal w creds
    user ← get_user principal.id
    role ← find_role user.role_id
    pure (to_auth_user role user)

  unfoldable pub create_user : UserCreate → Exec UserRow
  create_user payload = do
    principal ← guarded w user_management edit creds
    user ← Users.create_user w payload
    audited principal "Created user" (some user.id)
    pure (to_user_row user)

  unfoldable pub update_user : String → UserUpdate → Exec UserRow
  update_user user_id payload = do
    principal ← guarded w user_management edit creds
    user ← Users.update_user w user_id payload
    audited principal "Updated user" (some user.id)
    pure (to_user_row user)

  unfoldable pub update_role_permissions : String → PermissionMap → Exec RoleRow
  update_role_permissions role_id permissions = do
    principal ← guarded w role_management edit creds
    role ← Roles.update_role_permissions role_id permissions
    audited principal "Updated role permissions" (some role_id)
    pure (to_role_row role)

  unfoldable pub upsert_role : RoleUpsert → Exec RoleRow
  upsert_role payload = do
    principal ← guarded w role_management edit creds
    role ← Roles.upsert_role w payload
    audited principal "Saved role" (some role.id)
    pure (to_role_row role)
