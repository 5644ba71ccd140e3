-- ===== src/Identity/Roles.antt =====
-- app/modules/identity/service.py, roles: create or replace, and the permission matrix.
pub mod Laws
use ra_backend.Base.{
  String, Bool, true, false, not, Option, none, some, [], ◌∷◌, ◌==◌, or_text, if◌then◌else◌,
}
use ra_backend.Base.Text.{lower, replace_char}
use Prim.Native.Char.{Char}
use ra_backend.Models.{Role, PermissionMap}
use ra_backend.Models.Common.{Timestamp}
use ra_backend.Core.World.{World}
use ra_backend.Core.Exec.{Exec, pure, started_at, ◌>>=◌, ◌>>◌}
use ra_backend.Core.Rbac.{default_permissions_for}
use ra_backend.Core.Deps.{find_role}
use ra_backend.Identity.Rows.{set_role, add_role}
use ra_backend.Identity.Users.{require_role}

pub record RoleUpsert : Type 0 where
  pub id : Option String
  pub name : String
  pub description : String
  pub status : String
  pub permissions : Option PermissionMap

abbrev space : Char
space = " "

abbrev underscore : Char
underscore = "_"

-- `payload.id or payload.name.lower().replace(" ", "_")`
unfoldable pub role_id_of : RoleUpsert → String
unfolding lower replace_char
role_id_of payload = or_text payload.id (replace_char space underscore (lower payload.name))

-- `payload.permissions or default`: a missing or an empty matrix gives the default.
unfoldable pub or_permissions : Option PermissionMap → PermissionMap → PermissionMap
or_permissions none d = d
or_permissions (some []) d = d
or_permissions (some (e ∷ r)) d = e ∷ r

-- `if payload.permissions is not None`
abbrev pub set_permissions : Option PermissionMap → Role → Role
set_permissions none r = r
set_permissions (some p) r = record r { permissions = p }

abbrev pub rewrite_role : RoleUpsert → Role → Role
rewrite_role payload r =
    set_permissions payload.permissions
      (record r { name = payload.name; description = payload.description; status = payload.status })

module _ {T : Type 0} (w : World T) where
  unfoldable pub new_role : RoleUpsert → Exec Role
  unfolding role_id_of or_permissions default_permissions_for add_role
  new_role payload = do
    created ← started_at
    let role_id = role_id_of payload
    let role : Role = record {
      id = role_id;
      name = payload.name;
      description = payload.description;
      status = payload.status;
      permissions = or_permissions payload.permissions (default_permissions_for role_id);
      is_system = false;
      created_at = created;
    }
    add_role w role
    pure role

  unfoldable pub save_role : RoleUpsert → Option Role → Exec Role
  unfolding new_role
  save_role payload none = new_role payload
  save_role payload (some role) = do
    set_role role.id (rewrite_role payload)
    pure (rewrite_role payload role)

  unfoldable pub upsert_role : RoleUpsert → Exec Role
  unfolding save_role
  upsert_role payload = do found ← find_role (role_id_of payload); save_role payload found

abbrev pub set_matrix : PermissionMap → Role → Role
set_matrix permissions r = record r { permissions = permissions }

unfoldable pub update_role_permissions : String → PermissionMap → Exec Role
update_role_permissions role_id permissions = do
  role ← require_role role_id
  set_role role.id (set_matrix permissions)
  pure (set_matrix permissions role)

pub record RoleRow : Type 0 where
  pub id : String
  pub name : String
  pub description : String
  pub status : String
  pub permissions : PermissionMap
  pub created_at : Timestamp

unfoldable pub to_role_row : Role → RoleRow
to_role_row role = record {
  id = role.id;
  name = role.name;
  description = role.description;
  status = role.status;
  permissions = role.permissions;
  created_at = role.created_at;
}
