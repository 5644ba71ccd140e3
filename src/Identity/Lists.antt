-- ===== src/Identity/Lists.antt =====
-- app/modules/identity/service.py and router.py: the handlers that list users, roles and the audit
-- log.
use ra_backend.Base.{String, Option, List, map}
use ra_backend.Base.Order.{order_by, page, newest_first, oldest_first}
use ra_backend.Models.{Role, User, AuditLog}
use ra_backend.Models.Common.{Timestamp}
use ra_backend.Core.World.{World}
use ra_backend.Core.Exec.{Exec, query, ◌>>◌}
use ra_backend.Core.Rbac.{user_management, role_management, settings, view}
use ra_backend.Core.Deps.{Pagination, guarded}
use ra_backend.Identity.Profile.{UserRow, to_user_row}
use ra_backend.Identity.Roles.{RoleRow, to_role_row}

pub record AuditRow : Type 0 where
  pub id : String
  pub actor : String
  pub action : String
  pub target : Option String
  pub at : Timestamp

abbrev pub to_audit_row : AuditLog → AuditRow
to_audit_row r = record {
  id = r.id;
  actor = r.actor;
  action = r.action;
  target = r.target;
  at = r.at;
}

unfoldable pub list_audit : Pagination → Exec (List AuditRow)
unfolding page
list_audit p = query (λ db.
    map to_audit_row
      (page p.limit p.offset (order_by (newest_first (λ (r : AuditLog). r.at)) db.audit_logs)))

unfoldable pub list_users : Pagination → Exec (List UserRow)
unfolding page
list_users p = query (λ db.
    map to_user_row
      (page p.limit p.offset (order_by (newest_first (λ (u : User). u.created_at)) db.users)))

unfoldable pub list_roles : Exec (List RoleRow)
list_roles =
    query (λ db. map to_role_row (order_by (oldest_first (λ (r : Role). r.created_at)) db.roles))

module _ {T : Type 0} (w : World T) (creds : Option T) where
  unfoldable pub audit_route : Pagination → Exec (List AuditRow)
  unfolding list_audit
  audit_route p = do guarded w settings view creds; list_audit p

  unfoldable pub users_route : Pagination → Exec (List UserRow)
  unfolding list_users
  users_route p = do guarded w user_management view creds; list_users p

  unfoldable pub roles_route : Exec (List RoleRow)
  unfolding list_roles
  roles_route = do guarded w role_management view creds; list_roles
