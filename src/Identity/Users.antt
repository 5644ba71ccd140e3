-- ===== src/Identity/Users.antt =====
-- app/modules/identity/service.py, users: look up, change of password, creation, update.
pub mod Laws
use ra_backend.Base.{
  ℕ, String, Bool, true, false, not, ◌&&◌, ◌||◌, Option, none, some, List, [], ◌∷◌, ◌==◌, select,
  exists, truthy, non_empty, join, if◌then◌else◌,
}
use ra_backend.Base.Text.{lower}
use ra_backend.Models.{Role, User}
use ra_backend.Models.Common.{Timestamp}
use ra_backend.Core.Errors.{Exc, app, not_found, conflict}
use ra_backend.Core.World.{World, unique_violation, foreign_key_violation}
use ra_backend.Core.Exec.{
  Exec, pure, raise_if, or_raise, branch, draw, query, call, violation, scalar_one_or_none,
  started_at, ◌>>=◌, ◌>>◌,
}
use ra_backend.Core.Passwords.{hash_password, verify_password}
use ra_backend.Core.Deps.{unauthorized, find_user, find_role}
use ra_backend.Identity.Profile.{initials}
use ra_backend.Identity.Rows.{user_is, role_is, set_user, add_user}
use ra_backend.Identity.Login.{accounts}

pub record UserCreate : Type 0 where
  pub full_name : String
  pub email : String
  pub password : String
  pub role : String
  pub phone : Option String
  pub department : Option String
  pub status : String
  pub must_reset_password : Bool

pub record UserUpdate : Type 0 where
  pub full_name : Option String
  pub email : Option String
  pub password : Option String
  pub role : Option String
  pub phone : Option String
  pub department : Option String
  pub status : Option String

-- `get_user`
abbrev pub get_user : String → Exec User
get_user user_id = do found ← find_user user_id; or_raise found (app not_found "User not found." [])

-- `_require_role`
abbrev pub require_role : String → Exec Role
require_role role_id = do
  found ← find_role role_id
  or_raise found (app not_found (join ("Role '" ∷ role_id ∷ "' does not exist." ∷ [])) [])

-- `if value is not None: attribute = value`
abbrev pub or_old : Option String → String → String
or_old none old = old
or_old (some new) old = new

abbrev pub or_old_optional : Option String → Option String → Option String
or_old_optional none old = old
or_old_optional (some new) old = some new

-- The attributes of a new hash and its time.
abbrev pub set_password : Option (String × Timestamp) → User → User
set_password none u = u
set_password (some (hash, now)) u = record u {
  hashed_password = hash;
  password_changed_at = some now;
}

abbrev pub set_name : Option String → User → User
set_name none u = u
set_name (some name) u = record u { full_name = name; avatar = some (initials name) }

-- The attributes that `update_user` sets when `role` is the role id after its check.
unfoldable pub apply_update : UserUpdate → String → Option (String × Timestamp) → User → User
apply_update payload role new_password u =
    let named = set_name payload.full_name u in
    set_password new_password (record named {
      role_id = role;
      email = or_old payload.email u.email;
      phone = or_old_optional payload.phone u.phone;
      department = or_old_optional payload.department u.department;
      status = or_old payload.status u.status;
    })

-- The `User(...)` of `create_user`, with the columns' defaults.
abbrev pub new_user : UserCreate → String → Timestamp → String → Timestamp → User
new_user payload hash now id created = record {
  id = id;
  full_name = payload.full_name;
  email = payload.email;
  phone = payload.phone;
  department = payload.department;
  hashed_password = hash;
  role_id = payload.role;
  status = payload.status;
  avatar = some (initials payload.full_name);
  last_login = none;
  failed_login_count = 0;
  locked_until = none;
  must_reset_password = payload.must_reset_password;
  password_changed_at = some now;
  created_at = created;
}

module _ {T : Type 0} (w : World T) where
  unfoldable pub change_password : String → String → String → Exec User
  unfolding verify_password hash_password
  change_password user_id current_password new_password = do
    user ← get_user user_id
    good ← call (verify_password w current_password user.hashed_password)
    raise_if (not good) (unauthorized "Current password is incorrect.")
    hash ← hash_password w new_password
    now ← draw w.clock
    let change = λ (u : User). record u {
      hashed_password = hash;
      password_changed_at = some now;
      must_reset_password = false;
    }
    set_user user.id change
    pure (change user)

  unfoldable pub create_user : UserCreate → Exec User
  unfolding hash_password add_user
  create_user payload = do
    require_role payload.role
    same ← query (λ db. accounts w payload.email db.users)
    taken ← scalar_one_or_none same
    raise_if (elim taken [ none ↦ false | some _ ↦ true ])
        (app conflict "A user with this email already exists." [])
    hash ← hash_password w payload.password
    now ← draw w.clock
    id ← draw w.uuid_str
    created ← started_at
    let user = new_user payload hash now id created
    add_user w user
    pure user

  -- `payload.role and payload.role != user.role_id`: the new role must exist.
  unfoldable pub checked_role : Option String → String → Exec String
  checked_role none old = pure old
  checked_role (some new) old =
      branch (non_empty new && not (new == old)) (do require_role new; pure new) (pure old)

  -- `if payload.password`
  unfoldable pub new_password : Option String → Exec (Option (String × Timestamp))
  unfolding hash_password
  new_password none = pure none
  new_password (some plain) =
      branch (non_empty plain)
        (do hash ← hash_password w plain; now ← draw w.clock; pure (some (hash, now))) (pure none)

  -- Another user than this one has the email.
  abbrev pub holds_email : String → String → User → Bool
  holds_email user_id email u = not (u.id == user_id) && u.email == email

  unfoldable pub update_user : String → UserUpdate → Exec User
  unfolding checked_role new_password apply_update
  update_user user_id payload = do
    user ← get_user user_id
    role ← checked_role payload.role user.role_id
    password ← new_password payload.password
    let change = apply_update payload role password
    taken ← query (λ db. exists (holds_email user.id (change user).email) db.users)
    violation w taken unique_violation
    set_user user.id change
    pure (change user)
