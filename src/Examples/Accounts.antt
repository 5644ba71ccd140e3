-- ===== src/Examples/Accounts.antt =====
-- Users, roles, guards, passwords and the default matrices.
use ra_backend.Base.{
  ap, ◌==◌, String, true, false, Option, none, some, [], ◌∷◌, ◌≡◌, ◌≢◌, refl, select,
}
use ra_backend.Base.Dict
use ra_backend.Base.Text.{lower}
use ra_backend.Base.Decimal.{str}
use ra_backend.Models.{User, Role, is_active}
use ra_backend.Core.Errors.{python, PyError}
use ra_backend.Core.World.{returned}
use ra_backend.Core.Exec.{Tx, ok, err, request, begin}
use ra_backend.Core.Passwords.{verify_password, needs_rehash}
use ra_backend.Core.Passwords.Laws.{verify-hash}
use ra_backend.Core.Rbac.{
  PermKey, PermAction, edit, user_management, default_permissions_for, default_role_permissions,
  has_permission,
}
use ra_backend.Core.Deps.{Principal, lacking, get_current_principal}
use ra_backend.Identity.Rows.{user_is}
use ra_backend.Identity.Login.{accounts, authenticate}
use ra_backend.Identity.Users.{
  UserCreate, UserUpdate, create_user, change_password, update_user, apply_update,
}
use ra_backend.Identity.Users.Laws.{
  update_blocks_login, change_password_replaces, created_user_is_found,
}
use ra_backend.Identity.Roles.{RoleUpsert, role_id_of, upsert_role}
use ra_backend.Identity.Roles.Laws.{empty, role_row, new_role_gets_everything}
use ra_backend.Identity.Sessions.Access.{issued_access}
use ra_backend.Identity.Routes.Admin
use ra_backend.Identity.Routes.Guards.{users_are_guarded}
use ra_backend.System.Audited.{IsAudited, signs_out, action_of, caller, perform, change-IsAudited}
use ra_backend.Examples.{
  a_world, a_world_argon, a_context, a_state, ann, bob, Signed, decode_signed,
}

abbrev a_change : UserUpdate
a_change = record {
  full_name = none;
  email = some "Ann@x.org";
  password = none;
  role = none;
  phone = none;
  department = none;
  status = none;
}

abbrev ann_id : String
ann_id = "ann"

abbrev bob_id : String
bob_id = "bob"

true_not_false : true ≢ false
true_not_false e = cc

bob_not_ann : bob_id ≢ ann_id
bob_not_ann e = true_not_false (ap (λ t. t == bob_id) e)

update_blocks_login_example :
    ((update_user a_world "bob" a_change a_state).0 ≡ ok (apply_update a_change "viewer" none bob))
    × ((password : String) (ua ip : Option String)
        → (authenticate a_world "ann@x.org" password ua ip
            (update_user a_world "bob" a_change a_state).1).0
          ≡ err (python PyError.multiple_results_found))
unfolding lower
update_blocks_login_example =
    update_blocks_login a_world a_state a_change bob "ann" "ann@x.org" "Ann@x.org" refl refl refl
      refl refl bob_not_ann refl refl

change_password_replaces_example :
    let (r, s') = change_password a_world "ann" "pw" "new" a_state in
    (u : User) × (r ≡ ok u)
    × (select (user_is "ann") s'.current.users ≡ u ∷ [])
    × (verify_password a_world "new" u.hashed_password ≡ returned true)
    × (u.must_reset_password ≡ false)
    × ((id : String)
        → id ≢ "ann"
        → select (user_is id) s'.current.users ≡ select (user_is id) a_state.current.users)
unfolding verify_password
change_password_replaces_example =
    change_password_replaces a_world a_world_argon a_state ann "pw" "new" refl refl

abbrev a_user : UserCreate
a_user = record {
  full_name = "Cy Doe";
  email = "Cy@x.org";
  password = "secret1";
  role = "viewer";
  phone = none;
  department = none;
  status = "Active";
  must_reset_password = false;
}

created_user_is_found_example :
    let (r, s') = create_user a_world a_user a_state in
    (u : User) × (r ≡ ok u)
    × (accounts a_world "Cy@x.org" s'.current.users ≡ u ∷ [])
    × (verify_password a_world "secret1" u.hashed_password ≡ returned true)
    × (u.role_id ≡ "viewer")
unfolding lower str
created_user_is_found_example =
    created_user_is_found a_world a_world_argon a_state a_user refl refl refl refl

abbrev a_new_role : RoleUpsert
a_new_role = record {
  id = none;
  name = "Night Shift";
  description = "";
  status = "Active";
  permissions = some [];
}

new_role_gets_everything_example :
    (r : Role) × ((upsert_role a_world a_new_role a_state).0 ≡ ok r)
    × (role_row (role_id_of a_new_role) (upsert_role a_world a_new_role a_state).1.current ≡ r ∷ [])
    × ((k : PermKey) (a : PermAction) → has_permission r.permissions k a ≡ true)
unfolding role_id_of Dict.get default_role_permissions
new_role_gets_everything_example =
    new_role_gets_everything a_world a_new_role a_state refl empty refl

abbrev a_known_role : RoleUpsert
a_known_role = record a_new_role { id = some "viewer" }

-- A viewer who is signed in
abbrev viewer_token : Option Signed
viewer_token = some (issued_access a_world ann "s1" 900_000_000)

abbrev viewer_principal : Principal
viewer_principal = record {
  id = "ann";
  email = "ann@x.org";
  full_name = "Ann Lee";
  role = "viewer";
  permissions = default_permissions_for "viewer";
  session_id = some "s1";
  must_reset_password = true;
}

abbrev checked_state : Tx
checked_state = record (begin a_world a_state) { draws = 3 }

users_are_guarded_example :
    (request a_world (Admin.create_user a_world a_context viewer_token a_user) a_state
      ≡ (err (lacking viewer_principal user_management edit), checked_state))
    × (request a_world (Admin.update_user a_world a_context viewer_token "bob" a_change) a_state
        ≡ (err (lacking viewer_principal user_management edit), checked_state))
unfolding get_current_principal decode_signed Dict.update is_active lower has_permission
    default_permissions_for
users_are_guarded_example =
    users_are_guarded a_world viewer_token a_context a_state checked_state viewer_principal refl
      a_user "bob" a_change refl

verify-hash_example :
    (verify_password a_world "pw" (a_world.argon_hash 0 "pw") ≡ returned true)
    × (needs_rehash a_world (a_world.argon_hash 0 "pw") ≡ returned false)
verify-hash_example = verify-hash a_world a_world_argon 0 "pw"

change-IsAudited_example :
    IsAudited a_state.committed.audit_logs viewer_principal "Signed out"
      (perform a_world a_context viewer_token signs_out a_state)
unfolding caller get_current_principal decode_signed Dict.update is_active lower
    default_permissions_for action_of
change-IsAudited_example =
    change-IsAudited a_world a_context viewer_token signs_out a_state checked_state viewer_principal
      refl
