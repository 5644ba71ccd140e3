-- ===== src/Identity/Login/Lockout.antt =====
-- Repeated wrong passwords: from the first failure to the lock, request after request.
use ra_backend.Base.{
  ℕ, ◌+◌, ◌-◌, ◌*◌, ◌<◌, ◌≤◌, String, true, false, some, List, [], ◌∷◌, ◌≡◌, refl, arith, ap, subst,
  lt→ltb, length,
}
use ra_backend.Models.{User, is_active}
use ra_backend.Models.Common.{Timestamp}
use ra_backend.Core.World.{World, returned, minutes}
use ra_backend.Core.Exec.{Tx, Result, err, request, request_raises, begin}
use ra_backend.Core.Passwords.{verify_password}
use ra_backend.Core.Deps.{unauthorized}
use ra_backend.Identity.Audit.{Context}
use ra_backend.Identity.Routes.{LoginResponse, login}
use ra_backend.Identity.Login.{authenticate, accounts, is_locked, count_failure, lock_out}
use ra_backend.Identity.Login.Steps.{
  authenticate_counts, authenticate_locks, authenticate_refuses_locked, accounts-modify,
}

module _ {T : Type 0} (w : World T) (ctx : Context) (email : String) where
  abbrev pub attempt : String → Tx → Result (LoginResponse T) × Tx
  attempt password = request w (login w ctx email password)

  -- The state after one login request for each password.
  pub attempts : List String → Tx → Tx
  attempts [] s = s
  attempts (p ∷ ps) s = attempts ps (attempt p s).1

  -- Every password of the list is wrong for the hash.
  abbrev pub AllWrong : List String → String → Type 0
  AllWrong [] hash = Unit
  AllWrong (p ∷ ps) hash = (verify_password w p hash ≡ returned false) × AllWrong ps hash

  -- The committed account that the email finds: active, with no lock at any later time.
  pub record IsOpen (s : Tx) (user : User) : Type 0 where
    pub found : accounts w email s.committed.users ≡ user ∷ []
    pub unlocked : (n : ℕ) → s.draws ≤ n → is_locked (w.clock n) user ≡ false
    pub active : is_active user ≡ true

  module _ (p : String) (s : Tx) (user : User) (h : IsOpen s user)
      (wrong : verify_password w p user.hashed_password ≡ returned false) where
    attempt_counts :
        user.failed_login_count + 1 < w.settings.max_failed_logins
        → IsOpen (attempt p s).1 (count_failure user) × ((attempt p s).1.draws ≡ s.draws + 2)
    unfolding login is_active
    attempt_counts below =
        rw
          (request_raises w (authenticate w email p ctx.user_agent ctx.client_ip) _ s _ _ (
            authenticate_counts w email p ctx.user_agent ctx.client_ip (begin w s) user h.found
              (h.unlocked (s.draws + 1) (omega arith)) h.active wrong below))
          (
            record {
              found =
                  accounts-modify w email count_failure user s.committed.users (λ u. refl) h.found;
              unlocked = λ n le. h.unlocked n (omega arith);
              active = h.active;
            },
            omega arith,
          )

    attempt_locks :
        w.settings.max_failed_logins ≤ user.failed_login_count + 1
        → (accounts w email (attempt p s).1.committed.users
            ≡ lock_out (w.clock (s.draws + 1) + minutes w.settings.lockout_minutes) user ∷ [])
          × ((attempt p s).1.draws ≡ s.draws + 2)
    unfolding login
    attempt_locks reached =
        rw
          (request_raises w (authenticate w email p ctx.user_agent ctx.client_ip) _ s _ _ (
            authenticate_locks w email p ctx.user_agent ctx.client_ip (begin w s) user h.found
              (h.unlocked (s.draws + 1) (omega arith)) h.active wrong reached))
          (
            accounts-modify w email
                (lock_out (w.clock (s.draws + 1) + minutes w.settings.lockout_minutes)) user
                s.committed.users (λ u. refl) h.found,
            omega arith,
          )

  -- A lock that an account got at a reading of the clock.
  pub record IsLockedFrom (s : Tx) (since : Timestamp) : Type 0 where
    pub account : User
    pub found : accounts w email s.committed.users ≡ account ∷ []
    pub until : account.locked_until ≡ some (since + minutes w.settings.lockout_minutes)
    pub restarted : account.failed_login_count ≡ 0

  -- An active account that is not locked and whose failure count is below the limit: when login
  -- requests with wrong passwords bring the count to the limit, the account is committed as locked
  -- until `lockout_minutes` after the last request's reading of the clock, and its count starts
  -- anew at 0.
  pub attempts_lock :
      (ps : List String) (s : Tx) (user : User)
      → IsOpen s user
      → AllWrong ps user.hashed_password
      → user.failed_login_count < w.settings.max_failed_logins
      → user.failed_login_count + length ps ≡ w.settings.max_failed_logins
      → IsLockedFrom (attempts ps s) (w.clock (s.draws + 2 * length ps - 1))
        × ((attempts ps s).draws ≡ s.draws + 2 * length ps)
  unfolding attempts
  attempts_lock [] s user h wrong room total = absurd (omega arith)
  attempts_lock (p ∷ []) s user h wrong room total =
      let (found, drawn) = attempt_locks p s user h wrong.0 (omega arith) in
      (
        record {
          account = lock_out (w.clock (s.draws + 1) + minutes w.settings.lockout_minutes) user;
          found = found;
          until = ap (λ n. some (w.clock n + minutes w.settings.lockout_minutes)) (omega arith);
          restarted = refl;
        },
        omega arith,
      )
  attempts_lock (p ∷ q ∷ ps) s user h wrong room total =
      let (open_still, drawn) = attempt_counts p s user h wrong.0 (omega arith) in
      let (locked, then_drawn) =
        attempts_lock (q ∷ ps) (attempt p s).1 (count_failure user) open_still wrong.1 (omega arith)
          (omega arith) in
      (
        subst (λ n. IsLockedFrom (attempts (q ∷ ps) (attempt p s).1) (w.clock n))
            (omega (arith, drawn)) locked,
        omega arith,
      )

  -- Before the end of an account's lock a login request with its email is refused whatever the
  -- password is, also the right one, and what is committed does not change.
  pub locked_refuses :
      (p : String) (s : Tx) (since : Timestamp)
      → IsLockedFrom s since
      → w.clock (s.draws + 1) < since + minutes w.settings.lockout_minutes
      → ((attempt p s).0
          ≡ err (
              unauthorized
                "Account temporarily locked due to failed login attempts. Try again later."))
        × ((attempt p s).1.committed ≡ s.committed)
  unfolding login
  locked_refuses p s since h early =
      rw
        (request_raises w (authenticate w email p ctx.user_agent ctx.client_ip) _ s _ _ (
          authenticate_refuses_locked w email p ctx.user_agent ctx.client_ip (begin w s) h.account
            h.found (rw (h.until, lt→ltb _ _ early))))
        (refl, refl)
