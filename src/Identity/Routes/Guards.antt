-- ===== src/Identity/Routes/Guards.antt =====
-- What the guards of the user and role handlers let through.
use ra_backend.Base.{◌≡◌, String, false, Option, refl}
use ra_backend.Models.{PermissionMap}
use ra_backend.Core.World.{World}
use ra_backend.Core.Exec.{Tx, ok, err, begin, request, request_raises}
use ra_backend.Core.Rbac.{PermKey, user_management, role_management, edit}
use ra_backend.Core.Deps.{Principal, can, lacking, require, guarded, get_current_principal}
use ra_backend.Identity.Audit.{Context}
use ra_backend.Identity.Users.{UserCreate, UserUpdate}
use ra_backend.Identity.Roles.{RoleUpsert}
use ra_backend.Identity.Routes.Admin.{
  create_user, update_user, update_role_permissions, upsert_role,
}

module _ {T : Type 0} (w : World T) (creds : Option T) where
  guard_refuses :
      (key : PermKey) (s s' : Tx) (p : Principal)
      → get_current_principal w creds s ≡ (ok p, s')
      → can p key edit ≡ false
      → guarded w key edit creds s ≡ (err (lacking p key edit), s')
  unfolding guarded require
  guard_refuses key s s' p known lacks = rw (known, lacks) refl

  -- A request in the name of a known principal that lacks a permission.
  module _ (ctx : Context) (s s' : Tx) (p : Principal)
      (known : get_current_principal w creds (begin w s) ≡ (ok p, s')) where
    -- A caller who is authenticated and whose role may not edit users gets the permission error
    -- from the handlers that create and update users, and the request rolls back to what was
    -- committed.
    pub users_are_guarded :
        (payload : UserCreate) (user_id : String) (change : UserUpdate)
        → can p user_management edit ≡ false
        → let refused = record s' { current = s'.committed } in
          (request w (create_user w ctx creds payload) s
            ≡ (err (lacking p user_management edit), refused))
          × (request w (update_user w ctx creds user_id change) s
              ≡ (err (lacking p user_management edit), refused))
    unfolding create_user update_user
    users_are_guarded payload user_id change lacks =
        let refuses = guard_refuses user_management (begin w s) s' p known lacks in
        (
          request_raises w (guarded w user_management edit creds) _ s s' _ refuses,
          request_raises w (guarded w user_management edit creds) _ s s' _ refuses,
        )

    -- A caller who is authenticated and whose role may not edit roles gets the permission error
    -- from the handlers that save a role and its matrix, and the request rolls back to what was
    -- committed.
    roles_are_guarded :
        (payload : RoleUpsert) (role_id : String) (permissions : PermissionMap)
        → can p role_management edit ≡ false
        → let refused = record s' { current = s'.committed } in
          (request w (upsert_role w ctx creds payload) s
            ≡ (err (lacking p role_management edit), refused))
          × (request w (update_role_permissions w ctx creds role_id permissions) s
              ≡ (err (lacking p role_management edit), refused))
    unfolding upsert_role update_role_permissions
    roles_are_guarded payload role_id permissions lacks =
        let refuses = guard_refuses role_management (begin w s) s' p known lacks in
        (
          request_raises w (guarded w role_management edit creds) _ s s' _ refuses,
          request_raises w (guarded w role_management edit creds) _ s s' _ refuses,
        )
