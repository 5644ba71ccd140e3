-- ===== src/Identity/Login.antt =====
-- app/modules/identity/service.py, `authenticate`: credentials with lockout, and a new session.
pub mod Steps
pub mod Lockout
pub mod Success
use ra_backend.Base.{
  ℕ, ◌+◌, String, Bool, false, not, Option, none, some, List, [], ◌∷◌, ◌==◌, ltb, leb, select, join,
}
use ra_backend.Base.Decimal.{str}
use ra_backend.Base.Text.{lower}
use ra_backend.Models.{User, is_active}
use ra_backend.Models.Common.{Timestamp}
use ra_backend.Core.World.{World, minutes}
use ra_backend.Core.Exec.{
  Exec, pure, raise, or_raise, raise_if, branch, draw, query, call, commit, scalar_one_or_none,
  ◌>>=◌, ◌>>◌,
}
use ra_backend.Core.Passwords.{hash_password, verify_password, needs_rehash}
use ra_backend.Core.Deps.{unauthorized}
use ra_backend.Identity.Rows.{set_user}
use ra_backend.Identity.Sessions.{issue_session}

-- `user.locked_until and user.locked_until > now`
abbrev pub is_locked : Timestamp → User → Bool
is_locked now user = elim user.locked_until [ none ↦ false | some t ↦ ltb now t ]

abbrev pub count_failure : User → User
count_failure u = record u { failed_login_count = u.failed_login_count + 1 }

abbrev pub lock_out : Timestamp → User → User
lock_out until u = record u { locked_until = some until; failed_login_count = 0 }

or_hash : Option String → String → String
or_hash none old = old
or_hash (some new) old = new

-- The attributes that a successful login sets.
unfoldable pub sign_in : Timestamp → Option String → User → User
unfolding or_hash
sign_in now new_hash u = record u {
  failed_login_count = 0;
  locked_until = none;
  last_login = some now;
  hashed_password = or_hash new_hash u.hashed_password;
}

module _ {T : Type 0} (w : World T) where
  -- The rows that a login by this email finds.
  abbrev pub accounts : String → List User → List User
  accounts email = select (λ u. w.sql_lower u.email == lower email)

  -- A stale hash is replaced.
  unfoldable pub upgraded_hash : String → String → Exec (Option String)
  unfolding needs_rehash hash_password
  upgraded_hash password hashed = do
    stale ← call (needs_rehash w hashed)
    branch stale (do new ← hash_password w password; pure (some new)) (pure none)

  unfoldable pub login_failed : Timestamp → User → Exec (T × T × User)
  login_failed now user =
      branch (leb w.settings.max_failed_logins (user.failed_login_count + 1))
        (do
          set_user user.id (lock_out (now + minutes w.settings.lockout_minutes))
          commit
          raise (
              unauthorized (
                join (
                  "Too many failed attempts. Account locked for "
                  ∷ str w.settings.lockout_minutes
                  ∷ " minutes."
                  ∷ []))))
        (do
          set_user user.id count_failure
          commit
          raise (unauthorized "Invalid email or password."))

  unfoldable pub login_succeeded :
      Timestamp → User → String → Option String → Option String → Exec (T × T × User)
  unfolding upgraded_hash sign_in issue_session
  login_succeeded now user password user_agent ip = do
    new_hash ← upgraded_hash password user.hashed_password
    set_user user.id (sign_in now new_hash)
    (access, refresh) ← issue_session w user user_agent ip
    pure (access, refresh, sign_in now new_hash user)

  unfoldable pub authenticate :
      String → String → Option String → Option String → Exec (T × T × User)
  unfolding login_failed login_succeeded verify_password
  authenticate email password user_agent ip = do
    now ← draw w.clock
    rows ← query (λ db. accounts email db.users)
    found ← scalar_one_or_none rows
    user ← or_raise found (unauthorized "Invalid email or password.")
    raise_if (is_locked now user)
        (unauthorized "Account temporarily locked due to failed login attempts. Try again later.")
    raise_if (not (is_active user))
        (unauthorized "Your account has been disabled. Please contact administrator.")
    good ← call (verify_password w password user.hashed_password)
    branch good (login_succeeded now user password user_agent ip) (login_failed now user)
