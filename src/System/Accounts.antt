-- ===== src/System/Accounts.antt =====
-- Logins, users and roles under an invariant of the identity tables.
use ra_backend.Base.{arith, ap, ◌∙◌, ◌≡◌, refl, String, Option, none, some, exists}
use ra_backend.Models.{Db, Role, User, PermissionMap}
use ra_backend.Models.Common.{Timestamp}
use ra_backend.Core.World.{World, unique_violation}
use ra_backend.Core.Exec.{Exec, query, violation, pure, ◌>>=◌, ◌>>◌}
use ra_backend.Core.Holds.{Keeps, keeps_rules}
use ra_backend.Identity.Rows.{set_user, set_role, add_user, add_role}
use ra_backend.Identity.Login.{sign_in, upgraded_hash, login_failed, login_succeeded, authenticate}
use ra_backend.Identity.Users.{
  UserCreate, UserUpdate, apply_update, set_name, set_password, or_old, holds_email, checked_role,
  new_password, change_password, create_user, update_user,
}
use ra_backend.Identity.Roles.{
  RoleUpsert, rewrite_role, set_permissions, new_role, save_role, upsert_role,
  update_role_permissions,
}
use ra_backend.System.Stable.{IsStable}
use ra_backend.System.Sessions.{issue_session-Keeps}

-- A write that leaves the keys of a user alone.
abbrev KeepsKeys : (User → User) → Type 0
KeepsKeys f = (u : User) → ((f u).id ≡ u.id) × ((f u).email ≡ u.email)

sign_in-KeepsKeys : (now : Timestamp) (hash : Option String) → KeepsKeys (sign_in now hash)
unfolding sign_in
sign_in-KeepsKeys now hash u = (refl, refl)

id-set_name : (o : Option String) (u : User) → (set_name o u).id ≡ u.id
id-set_name none u = refl
id-set_name (some n) u = refl

id-set_password : (o : Option (String × Timestamp)) (u : User) → (set_password o u).id ≡ u.id
id-set_password none u = refl
id-set_password (some n) u = refl

email-set_password :
    (o : Option (String × Timestamp)) (u : User) → (set_password o u).email ≡ u.email
email-set_password none u = refl
email-set_password (some n) u = refl

module _ (payload : UserUpdate) (role : String) (password : Option (String × Timestamp))
    (u : User) where
  id-apply_update : (apply_update payload role password u).id ≡ u.id
  unfolding apply_update
  id-apply_update = id-set_password password _ ∙ id-set_name payload.full_name u

  email-apply_update : (apply_update payload role password u).email ≡ or_old payload.email u.email
  unfolding apply_update
  email-apply_update = email-set_password password _

module _ {T : Type 0} (w : World T) (P : Db → Type 0) (stable : IsStable P) where
  set_user-Keeps : (id : String) (f : User → User) → KeepsKeys f → Keeps P (set_user id f)
  set_user-Keeps id f keeps = record {
    at = λ s h. record {
      committed = h.committed;
      current = stable.users_changed s.current id f keeps h.current;
    };
  }

  set_role-Keeps :
      (id : String) (f : Role → Role) → ((r : Role) → (f r).id ≡ r.id) → Keeps P (set_role id f)
  set_role-Keeps id f keeps = record {
    at = λ s h. record {
      committed = h.committed;
      current = stable.roles_changed s.current id f keeps h.current;
    };
  }

  add_user-Keeps : (u : User) → Keeps P (add_user w u)
  unfolding add_user
  add_user-Keeps u = record { at = λ s h. ground (arith, stable.users_added s.current u) }

  add_role-Keeps : (r : Role) → Keeps P (add_role w r)
  unfolding add_role
  add_role-Keeps r = record { at = λ s h. ground (arith, stable.roles_added s.current r) }

  login_failed-Keeps : (now : Timestamp) (user : User) → Keeps P (login_failed w now user)
  unfolding login_failed
  login_failed-Keeps now user = search (keeps_rules, set_user-Keeps) depth 20 fits 2000

  upgraded_hash-Keeps : (password hash : String) → Keeps P (upgraded_hash w password hash)
  unfolding upgraded_hash
  upgraded_hash-Keeps password hash = search keeps_rules depth 20 fits 2000

  login_succeeded-Keeps :
      (now : Timestamp) (user : User) (password : String) (ua ip : Option String)
      → Keeps P (login_succeeded w now user password ua ip)
  unfolding login_succeeded
  login_succeeded-Keeps now user password ua ip =
      search
        (keeps_rules, upgraded_hash-Keeps, set_user-Keeps, sign_in-KeepsKeys, issue_session-Keeps)
        depth 20 fits 2000

  pub authenticate-Keeps :
      (email password : String) (ua ip : Option String)
      → Keeps P (authenticate w email password ua ip)
  unfolding authenticate
  authenticate-Keeps email password ua ip =
      search (keeps_rules, login_succeeded-Keeps, login_failed-Keeps) depth 30 fits 3000

  pub change_password-Keeps : (id current new : String) → Keeps P (change_password w id current new)
  unfolding change_password
  change_password-Keeps id current new = search (keeps_rules, set_user-Keeps) depth 30 fits 3000

  pub create_user-Keeps : (payload : UserCreate) → Keeps P (create_user w payload)
  unfolding create_user
  create_user-Keeps payload = search (keeps_rules, add_user-Keeps) depth 30 fits 3000

  pub update_role_permissions-Keeps :
      (id : String) (m : PermissionMap) → Keeps P (update_role_permissions id m)
  unfolding update_role_permissions
  update_role_permissions-Keeps id m = search (keeps_rules, set_role-Keeps) depth 30 fits 3000

  set_permissions-id : (o : Option PermissionMap) (r : Role) → (set_permissions o r).id ≡ r.id
  set_permissions-id none r = refl
  set_permissions-id (some m) r = refl

  rewrite_role-id : (payload : RoleUpsert) (r : Role) → (rewrite_role payload r).id ≡ r.id
  rewrite_role-id payload r = set_permissions-id payload.permissions _

  new_role-Keeps : (payload : RoleUpsert) → Keeps P (new_role w payload)
  unfolding new_role
  new_role-Keeps payload = search (keeps_rules, add_role-Keeps) depth 20 fits 2000

  save_role-Keeps : (payload : RoleUpsert) (o : Option Role) → Keeps P (save_role w payload o)
  unfolding save_role
  save_role-Keeps payload none = new_role-Keeps payload
  save_role-Keeps payload (some r) =
      search (keeps_rules, set_role-Keeps, rewrite_role-id) depth 20 fits 2000

  pub upsert_role-Keeps : (payload : RoleUpsert) → Keeps P (upsert_role w payload)
  unfolding upsert_role
  upsert_role-Keeps payload = search (keeps_rules, save_role-Keeps) depth 20 fits 2000

  checked_role-Keeps : (role : Option String) (old : String) → Keeps P (checked_role w role old)
  unfolding checked_role
  checked_role-Keeps none old = search keeps_rules depth 20 fits 2000
  checked_role-Keeps (some new) old = search keeps_rules depth 20 fits 2000

  new_password-Keeps : (plain : Option String) → Keeps P (new_password w plain)
  unfolding new_password
  new_password-Keeps none = search keeps_rules depth 20 fits 2000
  new_password-Keeps (some p) = search keeps_rules depth 20 fits 2000

  -- The check of the email and the write, at the end of an update.
  rename : UserUpdate → String → Option (String × Timestamp) → User → Exec User
  rename payload role password user = do
    let change = apply_update payload role password
    taken ← query (λ db. exists (holds_email w user.id (change user).email) db.users)
    violation w taken unique_violation
    set_user user.id change
    pure (change user)

  rename_guarded :
      (payload : UserUpdate) (role : String) (password : Option (String × Timestamp)) (user : User)
      (o : Option String)
      → payload.email ≡ o
      → Keeps P (rename payload role password user)
  unfolding rename
  rename_guarded payload role password user none e = record {
    at = λ s h. ground (
      arith,
      stable.users_changed s.current user.id (apply_update payload role password) (λ u. (
        id-apply_update payload role password u,
        email-apply_update payload role password u ∙ rw e refl,
      )),
    );
  }
  rename_guarded payload role password user (some new) e = record {
    at = λ s h. ground (
      arith,
      stable.users_renamed s.current user.id new (apply_update payload role password) (λ u. (
        id-apply_update payload role password u,
        email-apply_update payload role password u ∙ rw e refl,
      )),
      email-apply_update payload role password user
          ∙ ap (λ (o : Option String). or_old o user.email) e,
    );
  }

  pub update_user-Keeps : (id : String) (payload : UserUpdate) → Keeps P (update_user w id payload)
  unfolding update_user rename
  update_user-Keeps id payload =
      search
        (
          keeps_rules,
          checked_role-Keeps,
          new_password-Keeps,
          λ (role : String) (password : Option (String × Timestamp)) (user : User).
              rename_guarded payload role password user payload.email refl,
        )
        depth 20 fits 2000
