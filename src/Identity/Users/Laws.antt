-- ===== src/Identity/Users/Laws.antt =====
-- What the operations on users keep, and what they break.
use ra_backend.Base.{
  ◌+◌, ◌≤◌, String, true, false, Bool, ◌&&◌, Option, none, some, List, [], ◌∷◌, ◌≡◌, ◌≢◌, refl,
  ◌==◌, ◌||◌, arith, length, select, modify, exists, select-eq-nil, exists_of_select,
  exists-modify_hit, exists-modify_apart, select-modify_found, select-append_new,
  select-modify_apart, keys_apart, eq_refl, eq_iff,
}
use ra_backend.Base.Text.{lower}
use ra_backend.Models.{Role, User}
use ra_backend.Core.Errors.{python, PyError, app, conflict}
use ra_backend.Core.World.{World, returned}
use ra_backend.Core.Exec.{Tx, ok, err, at_most_one}
use ra_backend.Core.Passwords.{verify_password}
use ra_backend.Core.Passwords.Laws.{ArgonLaws, verify-hash}
use ra_backend.Core.Deps.{unauthorized}
use ra_backend.Identity.Rows.{user_is, role_is}
use ra_backend.Identity.Login.{accounts, authenticate}
use ra_backend.Identity.Users.{
  UserCreate, UserUpdate, new_user, create_user, change_password, update_user, apply_update,
  set_name, holds_email,
}

-- Two rows with different keys that both pass make an answer of more than one row.
module _ {ℓ} {A : Type ℓ} (p : A → Bool) (key : A → String) where
  one_selected :
      (i : String) (xs : List A)
      → exists (λ x. p x && key x == i) xs ≡ true
      → 1 ≤ length (select p xs)
  one_selected i [] h = cc
  one_selected i (x ∷ xs) h = ground (arith, one_selected i xs)

  two_selected :
      (i j : String) (xs : List A)
      → i ≢ j
      → exists (λ x. p x && key x == i) xs ≡ true
      → exists (λ x. p x && key x == j) xs ≡ true
      → 2 ≤ length (select p xs)
  two_selected i j [] ne h k = cc
  two_selected i j (x ∷ xs) ne h k = ground (
    arith,
    eq_iff (key x) i,
    eq_iff (key x) j,
    one_selected i xs,
    one_selected j xs,
    two_selected i j xs ne,
  )

many_results {ℓ} :
    {A : Type ℓ} (rows : List A)
    → 2 ≤ length rows
    → at_most_one rows ≡ err (python PyError.multiple_results_found)
many_results [] h = absurd (omega arith)
many_results (x ∷ []) h = absurd (omega arith)
many_results (x ∷ y ∷ r) h = refl

id-set_name : (o : Option String) (u : User) → (set_name o u).id ≡ u.id
id-set_name none u = refl
id-set_name (some n) u = refl

id-apply_update :
    (payload : UserUpdate) (role : String) (u : User) → (apply_update payload role none u).id ≡ u.id
unfolding apply_update
id-apply_update payload role u = id-set_name payload.full_name u

email-apply_update :
    (payload : UserUpdate) (role email : String) (u : User)
    → payload.email ≡ some email
    → (apply_update payload role none u).email ≡ email
unfolding apply_update
email-apply_update payload role email u e = rw e

module _ {T : Type 0} (w : World T) where
  -- The test by which a login finds its account.
  abbrev pub logs_in_as : String → User → Bool
  logs_in_as email u = w.sql_lower u.email == lower email

  -- Two accounts that a login finds: no password signs in, and the answer is an internal error.
  pub ambiguous_login :
      (email password : String) (ua ip : Option String) (s : Tx) (i j : String)
      → i ≢ j
      → exists (λ u. logs_in_as email u && u.id == i) s.current.users ≡ true
      → exists (λ u. logs_in_as email u && u.id == j) s.current.users ≡ true
      → (authenticate w email password ua ip s).0 ≡ err (python PyError.multiple_results_found)
  unfolding authenticate
  ambiguous_login email password ua ip s i j ne one two = rw (
      many_results (accounts w email s.current.users)
        (two_selected (logs_in_as email) (λ u. u.id) i j s.current.users ne one two))

  update_email :
      (s : Tx) (payload : UserUpdate) (user : User) (new_email : String)
      → payload.email ≡ some new_email
      → payload.role ≡ none
      → payload.password ≡ none
      → select (user_is user.id) s.current.users ≡ user ∷ []
      → exists (holds_email w user.id new_email) s.current.users ≡ false
      → update_user w user.id payload s ≡ (
        ok (apply_update payload user.role_id none user),
        record s {
          current = record s.current {
            users =
                modify (user_is user.id) (apply_update payload user.role_id none) s.current.users;
          };
        },
      )
  unfolding update_user
  update_email s payload user new_email em ro pw found free = simp (found, ro, pw, em, free)

  -- An update of a user's email, with no new role or password, to a text that no other row has, but
  -- that another account's email equals up to case, is accepted; after it a login by that email is
  -- an internal error for every password.
  pub update_blocks_login :
      (s : Tx) (payload : UserUpdate) (user : User) (other_id email new_email : String)
      → payload.email ≡ some new_email
      → payload.role ≡ none
      → payload.password ≡ none
      → select (user_is user.id) s.current.users ≡ user ∷ []
      → exists (holds_email w user.id new_email) s.current.users ≡ false
      → user.id ≢ other_id
      → exists (λ u. logs_in_as email u && u.id == other_id) s.current.users ≡ true
      → w.sql_lower new_email ≡ lower email
      → ((update_user w user.id payload s).0 ≡ ok (apply_update payload user.role_id none user))
        × ((password : String) (ua ip : Option String)
            → (authenticate w email password ua ip (update_user w user.id payload s).1).0
              ≡ err (python PyError.multiple_results_found))
  update_blocks_login s payload user other_id email new_email em ro pw found free ne other same =
      rw (update_email s payload user new_email em ro pw found free) (
        refl,
        λ password ua ip.
            ambiguous_login email password ua ip _ user.id other_id ne
              (exists-modify_hit (λ u. logs_in_as email u && u.id == user.id) (user_is user.id)
                change s.current.users hit
                (exists_of_select (user_is user.id) s.current.users user [] found))
              (exists-modify_apart (λ u. logs_in_as email u && u.id == other_id) (user_is user.id)
                change s.current.users apart other),
      )
    where
      change : User → User
      change = apply_update payload user.role_id none

      hit :
          (u : User)
          → user_is user.id u ≡ true
          → (logs_in_as email (change u) && (change u).id == user.id) ≡ true
      hit u own = rw (
        email-apply_update payload user.role_id new_email u em,
        same,
        eq_refl,
        id-apply_update payload user.role_id u,
        own,
      )

      apart :
          (u : User) → (logs_in_as email u && u.id == other_id) ≡ true → user_is user.id u ≡ false
      apart u h = ground (arith, eq_iff u.id other_id, eq_iff u.id user.id)

  -- Where Argon2 does as documented, a change of the password with the right current one stores a
  -- hash that the new password verifies, lifts the demand for a reset, and leaves the rows of other
  -- ids as they were.
  pub change_password_replaces :
      ArgonLaws w
      → (s : Tx) (user : User) (current_password new_password : String)
      → select (user_is user.id) s.current.users ≡ user ∷ []
      → verify_password w current_password user.hashed_password ≡ returned true
      → let (r, s') = change_password w user.id current_password new_password s in
        (u : User) × (r ≡ ok u)
        × (select (user_is user.id) s'.current.users ≡ u ∷ [])
        × (verify_password w new_password u.hashed_password ≡ returned true)
        × (u.must_reset_password ≡ false)
        × ((id : String)
            → id ≢ user.id
            → select (user_is id) s'.current.users ≡ select (user_is id) s.current.users)
  unfolding change_password
  change_password_replaces laws s user current_password new_password found right = (
    record user {
      hashed_password = w.argon_hash s.draws new_password;
      password_changed_at = some (w.clock (s.draws + 1));
      must_reset_password = false;
    },
    rw (found, right),
    rw (found, right)
        (select-modify_found (user_is user.id) (user_is user.id) _ user s.current.users (λ u. refl)
          (eq_refl user.id) found),
    (verify-hash w laws s.draws new_password).0,
    refl,
    λ id ne.
        rw (found, right)
          (select-modify_apart (user_is id) (user_is user.id) _ (λ u. refl)
            (λ u. keys_apart u.id id user.id ne) s.current.users),
  )

  -- With a wrong current password nothing changes.
  pub change_password_refuses :
      (s : Tx) (user : User) (current_password new_password : String)
      → select (user_is user.id) s.current.users ≡ user ∷ []
      → verify_password w current_password user.hashed_password ≡ returned false
      → change_password w user.id current_password new_password s
        ≡ (err (unauthorized "Current password is incorrect."), s)
  unfolding change_password
  change_password_refuses s user current_password new_password found wrong = rw (found, wrong)

  -- Where Argon2 does as documented, the role exists, no account has the email up to case, the
  -- drawn id is free and the database folds the email as Python does: a created user is the only
  -- account that a login by the email finds, its password verifies, and it has the role.
  pub created_user_is_found :
      ArgonLaws w
      → (s : Tx) (payload : UserCreate) {role : Role}
      → select (role_is payload.role) s.current.roles ≡ role ∷ []
      → exists (logs_in_as payload.email) s.current.users ≡ false
      → exists
          (λ u. u.id == w.uuid_str (s.draws + 1 + 1) || u.email == payload.email)
          s.current.users
        ≡ false
      → w.sql_lower payload.email ≡ lower payload.email
      → let (r, s') = create_user w payload s in
        (u : User) × (r ≡ ok u)
        × (accounts w payload.email s'.current.users ≡ u ∷ [])
        × (verify_password w payload.password u.hashed_password ≡ returned true)
        × (u.role_id ≡ payload.role)
  unfolding create_user
  created_user_is_found laws s payload known unseen free folds = (
    new_user payload (w.argon_hash s.draws payload.password) (w.clock (s.draws + 1))
        (w.uuid_str (s.draws + 1 + 1)) s.started,
    rw (
      known,
      select-eq-nil _ s.current.users unseen,
      free,
      exists_of_select _ s.current.roles _ [] known,
    ),
    rw
        (
          known,
          select-eq-nil _ s.current.users unseen,
          free,
          exists_of_select _ s.current.roles _ [] known,
        )
        (select-append_new (logs_in_as payload.email) _ s.current.users unseen
          (rw folds (eq_refl (lower payload.email)))),
    (verify-hash w laws s.draws payload.password).0,
    refl,
  )

  -- An email that the lookup by lower case finds once is a conflict, and nothing is stored.
  pub create_user_conflicts :
      (s : Tx) (payload : UserCreate) {role : Role} {user : User}
      → select (role_is payload.role) s.current.roles ≡ role ∷ []
      → accounts w payload.email s.current.users ≡ user ∷ []
      → create_user w payload s
        ≡ (err (app conflict "A user with this email already exists." []), s)
  unfolding create_user
  create_user_conflicts s payload known seen = rw (known, seen)
