-- ===== src/Identity/Login/Steps.antt =====
-- One login attempt, by its outcome, and what a login by the same email finds afterwards.
use text.Mathlib.TextPositions.{eq_refl}
use ra_backend.Base.{
  ℕ, ◌+◌, ◌<◌, ◌≤◌, String, true, false, Option, List, [], ◌∷◌, ◌≡◌, ap, ◌∙◌, ◌==◌, modify,
  lt→not_leb, le→leb, select-modify, join,
}
use ra_backend.Base.Decimal.{str}
use ra_backend.Base.Text.{lower}
use ra_backend.Models.{Db, User, is_active}
use ra_backend.Core.World.{World, returned, minutes}
use ra_backend.Core.Exec.{Tx, err}
use ra_backend.Core.Passwords.{verify_password}
use ra_backend.Core.Deps.{unauthorized}
use ra_backend.Identity.Rows.{user_is}
use ra_backend.Identity.Login.{accounts, authenticate, is_locked, count_failure, lock_out}

abbrev pub with_users : (List User → List User) → Db → Db
with_users f db = record db { users = f db.users }

-- The state after one reading of the clock and a commit of `db`.
abbrev pub committed_at : ℕ → Db → Tx → Tx
committed_at d db s = record s { committed = db; current = db; draws = d }

module _ {T : Type 0} (w : World T) (email password : String) (ua ip : Option String) where
  module _ (s : Tx) (user : User) (found : accounts w email s.current.users ≡ user ∷ [])
      (unlocked : is_locked (w.clock s.draws) user ≡ false) (active : is_active user ≡ true)
      (wrong : verify_password w password user.hashed_password ≡ returned false) where
    pub authenticate_counts :
        user.failed_login_count + 1 < w.settings.max_failed_logins
        → authenticate w email password ua ip s ≡ (
          err (unauthorized "Invalid email or password."),
          committed_at
              (s.draws + 1)
              (with_users (modify (user_is user.id) count_failure) s.current)
              s,
        )
    unfolding authenticate
    authenticate_counts below = rw (found, unlocked, active, wrong, lt→not_leb _ _ below)

    pub authenticate_locks :
        w.settings.max_failed_logins ≤ user.failed_login_count + 1
        → authenticate w email password ua ip s ≡ (
          err (
              unauthorized (
                join (
                  "Too many failed attempts. Account locked for "
                  ∷ str w.settings.lockout_minutes
                  ∷ " minutes."
                  ∷ []))),
          committed_at
              (s.draws + 1)
              (with_users
                (modify
                  (user_is user.id)
                  (lock_out (w.clock s.draws + minutes w.settings.lockout_minutes)))
                s.current)
              s,
        )
    unfolding authenticate
    authenticate_locks reached = rw (found, unlocked, active, wrong, le→leb _ _ reached)

  -- While the lock holds, no password is even looked at.
  pub authenticate_refuses_locked :
      (s : Tx) (user : User)
      → accounts w email s.current.users ≡ user ∷ []
      → is_locked (w.clock s.draws) user ≡ true
      → authenticate w email password ua ip s ≡ (
        err (
            unauthorized
              "Account temporarily locked due to failed login attempts. Try again later."),
        record s { draws = s.draws + 1 },
      )
  unfolding authenticate
  authenticate_refuses_locked s user found locked = rw (found, locked)

module _ {T : Type 0} (w : World T) (email : String) where
  -- An update of the found user that keeps its email leaves it the one that is found.
  pub accounts-modify :
      (f : User → User) (user : User) (users : List User)
      → ((u : User) → (f u).email ≡ u.email)
      → accounts w email users ≡ user ∷ []
      → accounts w email (modify (user_is user.id) f users) ≡ f user ∷ []
  accounts-modify f user users keeps found =
      select-modify (λ u. w.sql_lower u.email == lower email) (user_is user.id) f
        (λ u. ap (λ e. w.sql_lower e == lower email) (keeps u)) users
      ∙ rw (found, eq_refl)
