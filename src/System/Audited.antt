-- ===== src/System/Audited.antt =====
-- The requests that change accounts, roles and sessions in the caller's name, and the entry of the
-- audit log that each of them writes.
mod Quiet
use ra_backend.Base.{
  Bool, Bool-cases, inl, inr, exists, not, ◌==◌, ◌+◌, arith, refl, ◌≡◌, subst, ap, String, Option,
  none, some, List, [], ◌∷◌, ◌++◌,
}
use ra_backend.Models.{Db, Role, User, AuditLog, PermissionMap, UserSession}
use ra_backend.Core.World.{World}
use ra_backend.Core.Exec.{
  Tx, Result, ok, err, Exec, pure, after, finish, begin, request, ◌>>=◌, ◌>>◌,
}
use ra_backend.Core.Holds.{Holds, Keeps, keeps_rules}
use ra_backend.Core.Deps.{Principal, get_current_principal, guarded}
use ra_backend.Core.Rbac.{user_management, role_management, edit}
use ra_backend.Identity.Rows.{
  user_is, set_user, set_session, set_role, add_user, add_role, add_audit,
}
use ra_backend.Identity.Audit.{Context, record_audit}
use ra_backend.Identity.Users as Users
use ra_backend.Identity.Users.{UserCreate, UserUpdate, checked_role, new_password}
use ra_backend.Identity.Roles as Roles
use ra_backend.Identity.Roles.{RoleUpsert, new_role, save_role}
use ra_backend.Identity.Routes.{logout}
use ra_backend.Identity.Routes.Admin as Admin
use ra_backend.Identity.Sessions.{revoke_session}
use Quiet.{
  HasLogs, change_password-Keeps, create_user-Keeps, update_user-Keeps,
  update_role_permissions-Keeps, upsert_role-Keeps, revoke_session-Keeps,
}
use ra_backend.System.Sessions.{get_current_principal-Keeps, guarded-Keeps}

-- What a request adds to the log: where it succeeds one entry, with the caller and the action, and
-- where it fails none.
pub IsAudited : {A : Type 0} → List AuditLog → Principal → String → Result A × Db → Type 0
IsAudited logs p action (ok x, db) =
    (a : AuditLog) × (db.audit_logs ≡ logs ++ a ∷ [])
    × (a.actor ≡ p.email)
    × (a.actor_id ≡ some p.id)
    × (a.action ≡ action)
IsAudited logs p action (err e, db) = db.audit_logs ≡ logs

-- The database that a computation leaves: what it has written, or what was committed.
abbrev left : {A : Type 0} → Result A × Tx → Result A × Db
left (ok x, s) = (ok x, s.current)
left (err e, s) = (err e, s.committed)

module _ {T : Type 0} (w : World T) (logs : List AuditLog) (p : Principal) (action : String) where
  -- A computation that ends with the entry.
  Logs : {A : Type 0} → Exec A → Type 0
  Logs m = (s : Tx) → Holds (HasLogs logs) s → IsAudited logs p action (left (m s))

  after-Logs :
      {A B : Type 0} (f : A → Exec B) (x : Result A × Tx)
      → Holds (HasLogs logs) x.1
      → ((a : A) → Logs (f a))
      → IsAudited logs p action (left (after f x))
  unfolding Logs IsAudited
  after-Logs f (ok a, s) h k = k a s h
  after-Logs f (err e, s) h k = h.committed

  bind-Logs :
      {A B : Type 0} (m : Exec A) (f : A → Exec B)
      → Keeps (HasLogs logs) m
      → ((a : A) → Logs (f a))
      → Logs (m >>= f)
  unfolding Logs
  bind-Logs m f km k s h = after-Logs f (m s) (km.at s h) k

  audited-Logs :
      {A : Type 0} (ctx : Context) (creds : Option T) (target : Option String) (x : A)
      → Logs (Admin.audited w ctx creds p action target >> pure x)
  unfolding Logs IsAudited record_audit add_audit
  audited-Logs ctx creds target x s h = elim (Bool-cases taken) [
    | inl yes_taken ↦ rw yes_taken h.committed
    | inr free ↦ elim (Bool-cases missing) [
      | inl gone ↦ rw (free, gone) h.committed
      | inr there ↦ rw (free, there) (entry, ap (λ l. l ++ entry ∷ []) h.current, refl, refl, refl)
    ]
  ]
    where
      taken : Bool
      taken = exists (λ (b : AuditLog). b.id == w.uuid_str (s.draws + 1)) s.current.audit_logs

      missing : Bool
      missing = not (exists (user_is p.id) s.current.users)

      entry : AuditLog
      entry = record {
        id = w.uuid_str (s.draws + 1);
        actor = p.email;
        actor_id = some p.id;
        action = action;
        target = target;
        ip_address = ctx.client_ip;
        user_agent = ctx.user_agent;
        request_id = ctx.request_id;
        meta = "{}";
        at = w.clock s.draws;
      }

-- The requests that change something in the caller's name.
pub data Change : Type 0 where
  signs_out : Change
  changes_password : (current new : String) → Change
  creates_user : UserCreate → Change
  updates_user : String → UserUpdate → Change
  updates_permissions : String → PermissionMap → Change
  saves_role : RoleUpsert → Change

unfoldable pub action_of : Change → String
action_of signs_out = "Signed out"
action_of (changes_password current new) = "Changed password"
action_of (creates_user payload) = "Created user"
action_of (updates_user id payload) = "Updated user"
action_of (updates_permissions id m) = "Updated role permissions"
action_of (saves_role payload) = "Saved role"

-- What a request answers, but for its content.
abbrev forget : {A : Type 0} → Result A × Tx → Result (Unit {0}) × Db
forget (ok a, s) = (ok tt, s.committed)
forget (err e, s) = (err e, s.committed)

module _ {T : Type 0} (w : World T) (ctx : Context) (creds : Option T) where
  -- How the caller is found.
  unfoldable pub caller : Change → Exec Principal
  caller signs_out = get_current_principal w creds
  caller (changes_password current new) = get_current_principal w creds
  caller (creates_user payload) = guarded w user_management edit creds
  caller (updates_user id payload) = guarded w user_management edit creds
  caller (updates_permissions id m) = guarded w role_management edit creds
  caller (saves_role payload) = guarded w role_management edit creds

  -- Whether the request succeeds, and what it commits.
  pub perform : Change → Tx → Result (Unit {0}) × Db
  perform signs_out s = forget (request w (logout w ctx creds) s)
  perform (changes_password current new) s =
      forget (request w (Admin.change_password w ctx creds current new) s)
  perform (creates_user payload) s = forget (request w (Admin.create_user w ctx creds payload) s)
  perform (updates_user id payload) s =
      forget (request w (Admin.update_user w ctx creds id payload) s)
  perform (updates_permissions id m) s =
      forget (request w (Admin.update_role_permissions w ctx creds id m) s)
  perform (saves_role payload) s = forget (request w (Admin.upsert_role w ctx creds payload) s)

  module _ (s s' : Tx) (p : Principal) where
    finished :
        {A : Type 0} (action : String) (x : Result A × Tx)
        → IsAudited s.committed.audit_logs p action (left x)
        → IsAudited s.committed.audit_logs p action (forget (finish x))
    unfolding IsAudited
    finished action (ok a, t) h = h
    finished action (err e, t) h = h

    -- A request whose caller was found goes on with the rest.
    found_caller :
        {A : Type 0} (action : String) (m : Exec Principal) (f : Principal → Exec A)
        → Keeps (HasLogs s.committed.audit_logs) m
        → m (begin w s) ≡ (ok p, s')
        → Logs w s.committed.audit_logs p action (f p)
        → IsAudited s.committed.audit_logs p action (forget (request w (m >>= f) s))
    unfolding request Logs
    found_caller action m f keeps found logs = rw found (
        finished action (f p s') (
          logs s' (
            subst (λ x. Holds (HasLogs s.committed.audit_logs) x.1) found
              (keeps.at (begin w s) (record { committed = refl; current = refl })))))

  -- Where the caller of a logout, a change of the password, a new or changed user, or a new, saved
  -- or changed role is found and allowed: a request that succeeds commits the audit log with one
  -- entry more, which names the caller and the action, and a request that fails commits the log as
  -- it was.
  pub change-IsAudited :
      (c : Change) (s s' : Tx) (p : Principal)
      → caller c (begin w s) ≡ (ok p, s')
      → IsAudited s.committed.audit_logs p (action_of c) (perform c s)
  unfolding perform caller action_of logout Admin.change_password Admin.create_user
      Admin.update_user Admin.update_role_permissions Admin.upsert_role
  change-IsAudited signs_out s s' p found =
      found_caller s s' p _ _ _ (get_current_principal-Keeps w _ creds) found (
        bind-Logs w _ p _ _ _ (revoke_session-Keeps w _ p.session_id)
          (λ u. audited-Logs w _ p _ ctx creds none _))
  change-IsAudited (changes_password current new) s s' p found =
      found_caller s s' p _ _ _ (get_current_principal-Keeps w _ creds) found (
        bind-Logs w _ p _ _ _ (change_password-Keeps w _ p.id current new)
          (λ u. audited-Logs w _ p _ ctx creds none _))
  change-IsAudited (creates_user payload) s s' p found =
      found_caller s s' p _ _ _ (guarded-Keeps w _ user_management edit creds) found (
        bind-Logs w _ p _ _ _ (create_user-Keeps w _ payload)
          (λ u. audited-Logs w _ p _ ctx creds (some u.id) _))
  change-IsAudited (updates_user id payload) s s' p found =
      found_caller s s' p _ _ _ (guarded-Keeps w _ user_management edit creds) found (
        bind-Logs w _ p _ _ _ (update_user-Keeps w _ id payload)
          (λ u. audited-Logs w _ p _ ctx creds (some u.id) _))
  change-IsAudited (updates_permissions id m) s s' p found =
      found_caller s s' p _ _ _ (guarded-Keeps w _ role_management edit creds) found (
        bind-Logs w _ p _ _ _ (update_role_permissions-Keeps w _ id m)
          (λ r. audited-Logs w _ p _ ctx creds (some id) _))
  change-IsAudited (saves_role payload) s s' p found =
      found_caller s s' p _ _ _ (guarded-Keeps w _ role_management edit creds) found (
        bind-Logs w _ p _ _ _ (upsert_role-Keeps w _ payload)
          (λ r. audited-Logs w _ p _ ctx creds (some r.id) _))
