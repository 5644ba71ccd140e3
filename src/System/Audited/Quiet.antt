-- ===== src/System/Audited/Quiet.antt =====
-- The operations on accounts, roles and sessions leave the audit log alone.
use ra_backend.Base.{arith, ◌≡◌, String, Option, none, some, List}
use ra_backend.Models.{Db, Role, User, AuditLog, PermissionMap, UserSession}
use ra_backend.Core.World.{World}
use ra_backend.Core.Holds.{Keeps, keeps_rules}
use ra_backend.Identity.Rows.{set_user, set_session, set_role, add_user, add_role}
use ra_backend.Identity.Users as Users
use ra_backend.Identity.Users.{UserCreate, UserUpdate, checked_role, new_password}
use ra_backend.Identity.Roles as Roles
use ra_backend.Identity.Roles.{RoleUpsert, new_role, save_role}
use ra_backend.Identity.Sessions.{revoke_session}

-- The audit log is this one.
abbrev pub HasLogs : List AuditLog → Db → Type 0
HasLogs logs db = db.audit_logs ≡ logs

module _ {T : Type 0} (w : World T) (logs : List AuditLog) where
  set_user-Keeps : (id : String) (f : User → User) → Keeps (HasLogs logs) (set_user id f)
  set_user-Keeps id f = record {
    at = λ s h. record { committed = h.committed; current = h.current };
  }

  set_session-Keeps :
      (id : String) (f : UserSession → UserSession) → Keeps (HasLogs logs) (set_session id f)
  set_session-Keeps id f = record {
    at = λ s h. record { committed = h.committed; current = h.current };
  }

  set_role-Keeps : (id : String) (f : Role → Role) → Keeps (HasLogs logs) (set_role id f)
  set_role-Keeps id f = record {
    at = λ s h. record { committed = h.committed; current = h.current };
  }

  add_user-Keeps : (u : User) → Keeps (HasLogs logs) (add_user w u)
  unfolding add_user
  add_user-Keeps u = record { at = λ s h. ground arith }

  add_role-Keeps : (r : Role) → Keeps (HasLogs logs) (add_role w r)
  unfolding add_role
  add_role-Keeps r = record { at = λ s h. ground arith }

  pub change_password-Keeps :
      (id current new : String) → Keeps (HasLogs logs) (Users.change_password w id current new)
  unfolding Users.change_password
  change_password-Keeps id current new = search (keeps_rules, set_user-Keeps) depth 30 fits 3000

  pub create_user-Keeps :
      (payload : UserCreate) → Keeps (HasLogs logs) (Users.create_user w payload)
  unfolding Users.create_user
  create_user-Keeps payload = search (keeps_rules, add_user-Keeps) depth 30 fits 3000

  checked_role-Keeps :
      (role : Option String) (old : String) → Keeps (HasLogs logs) (checked_role w role old)
  unfolding checked_role
  checked_role-Keeps none old = search keeps_rules depth 20 fits 2000
  checked_role-Keeps (some new) old = search keeps_rules depth 20 fits 2000

  new_password-Keeps : (plain : Option String) → Keeps (HasLogs logs) (new_password w plain)
  unfolding new_password
  new_password-Keeps none = search keeps_rules depth 20 fits 2000
  new_password-Keeps (some p) = search keeps_rules depth 20 fits 2000

  pub update_user-Keeps :
      (id : String) (payload : UserUpdate) → Keeps (HasLogs logs) (Users.update_user w id payload)
  unfolding Users.update_user
  update_user-Keeps id payload =
      search (keeps_rules, checked_role-Keeps, new_password-Keeps, set_user-Keeps) depth 30 fits
        3000

  pub update_role_permissions-Keeps :
      (id : String) (m : PermissionMap) → Keeps (HasLogs logs) (Roles.update_role_permissions id m)
  unfolding Roles.update_role_permissions
  update_role_permissions-Keeps id m = search (keeps_rules, set_role-Keeps) depth 30 fits 3000

  save_role-Keeps :
      (payload : RoleUpsert) (o : Option Role) → Keeps (HasLogs logs) (save_role w payload o)
  unfolding save_role new_role
  save_role-Keeps payload none = search (keeps_rules, add_role-Keeps) depth 20 fits 2000
  save_role-Keeps payload (some r) = search (keeps_rules, set_role-Keeps) depth 20 fits 2000

  pub upsert_role-Keeps :
      (payload : RoleUpsert) → Keeps (HasLogs logs) (Roles.upsert_role w payload)
  unfolding Roles.upsert_role
  upsert_role-Keeps payload = search (keeps_rules, save_role-Keeps) depth 20 fits 2000

  pub revoke_session-Keeps : (sid : Option String) → Keeps (HasLogs logs) (revoke_session w sid)
  unfolding revoke_session
  revoke_session-Keeps sid = record { at = λ s h. ground arith }
