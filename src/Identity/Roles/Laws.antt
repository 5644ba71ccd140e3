-- ===== src/Identity/Roles/Laws.antt =====
-- What saving a role grants.
use ra_backend.Base.{
  String, true, false, Option, none, some, ◌≢◌, List, [], ◌∷◌, ◌≡◌, ap, refl, ◌==◌, select, modify,
  select-modify_apart, keys_apart, select-append_new, select-modify_found, select-eq-nil, exists,
  eq_refl,
}
use ra_backend.Base.Dict
use ra_backend.Models.{Db, Role, PermissionMap}
use ra_backend.Core.World.{World}
use ra_backend.Core.Exec.{Tx, ok}
use ra_backend.Core.Rbac.{
  PermKey, PermAction, full, has_permission, default_permissions_for, default_role_permissions,
}
use ra_backend.Core.Rbac.Defaults.{has_permission-full}
use ra_backend.Identity.Rows.{role_is}
use ra_backend.Identity.Roles.{
  RoleUpsert, role_id_of, or_permissions, upsert_role, rewrite_role, set_permissions,
}

abbrev pub role_row : String → Db → List Role
role_row id db = select (role_is id) db.roles

default_unknown :
    (role : String)
    → Dict.get default_role_permissions role ≡ none
    → default_permissions_for role ≡ full
unfolding default_permissions_for
default_unknown role h = rw h

-- The matrix of a payload that lists no permission.
pub data ListsNothing : Option PermissionMap → Type 0 where
  missing : ListsNothing none
  empty : ListsNothing (some [])

nothing_is_default :
    {o : Option PermissionMap} (d : PermissionMap) → ListsNothing o → or_permissions o d ≡ d
unfolding or_permissions
nothing_is_default d missing = refl
nothing_is_default d empty = refl

id-set_permissions : (o : Option PermissionMap) (r : Role) → (set_permissions o r).id ≡ r.id
id-set_permissions none r = refl
id-set_permissions (some p) r = refl

id-rewrite_role : (payload : RoleUpsert) (r : Role) → (rewrite_role payload r).id ≡ r.id
id-rewrite_role payload r = id-set_permissions payload.permissions _

module _ {T : Type 0} (w : World T) (payload : RoleUpsert) (s : Tx) where
  -- A new role whose payload has no matrix or an empty one, and whose id is none of the four known
  -- slugs, is stored with every permission.
  pub new_role_gets_everything :
      exists (role_is (role_id_of payload)) s.current.roles ≡ false
      → ListsNothing payload.permissions
      → Dict.get default_role_permissions (role_id_of payload) ≡ none
      → (r : Role) × ((upsert_role w payload s).0 ≡ ok r)
        × (role_row (role_id_of payload) (upsert_role w payload s).1.current ≡ r ∷ [])
        × ((k : PermKey) (a : PermAction) → has_permission r.permissions k a ≡ true)
  unfolding upsert_role
  new_role_gets_everything absent nothing unknown =
      let matrix = nothing_is_default (default_permissions_for (role_id_of payload)) nothing in
      (
        record {
          id = role_id_of payload;
          name = payload.name;
          description = payload.description;
          status = payload.status;
          permissions =
              or_permissions payload.permissions (default_permissions_for (role_id_of payload));
          is_system = false;
          created_at = s.started;
        },
        rw (select-eq-nil _ s.current.roles absent, absent),
        rw (select-eq-nil _ s.current.roles absent, absent)
            (select-append_new (role_is (role_id_of payload)) _ s.current.roles absent
              (eq_refl (role_id_of payload))),
        λ k a. rw (matrix, default_unknown _ unknown) (has_permission-full k a),
      )

  -- Saving a role that exists answers with and stores the rewritten role: a missing matrix keeps
  -- the old one and a given matrix, also an empty one, replaces it; the rows of other ids stay.
  existing_role_is_rewritten :
      (role : Role)
      → role_row (role_id_of payload) s.current ≡ role ∷ []
      → ((upsert_role w payload s).0 ≡ ok (rewrite_role payload role))
        × (role_row (role_id_of payload) (upsert_role w payload s).1.current
            ≡ rewrite_role payload role ∷ [])
        × ((id : String)
            → id ≢ role.id
            → role_row id (upsert_role w payload s).1.current ≡ role_row id s.current)
  unfolding upsert_role
  existing_role_is_rewritten role found = (
    rw found,
    rw found (
        select-modify_found (role_is (role_id_of payload)) (role_is role.id) (rewrite_role payload)
          role s.current.roles keeps_key (eq_refl role.id) found),
    λ id ne. rw found (frame id ne),
  )
    where
      keeps_key :
          (r : Role)
          → role_is (role_id_of payload) (rewrite_role payload r) ≡ role_is (role_id_of payload) r
      keeps_key r = ap (λ i. i == role_id_of payload) (id-rewrite_role payload r)

      frame :
          (id : String)
          → id ≢ role.id
          → select (role_is id) (modify (role_is role.id) (rewrite_role payload) s.current.roles)
            ≡ select (role_is id) s.current.roles
      frame id ne =
          select-modify_apart (role_is id) (role_is role.id) (rewrite_role payload)
            (λ r. ap (λ i. i == id) (id-rewrite_role payload r))
            (λ r. keys_apart r.id id role.id ne) s.current.roles
