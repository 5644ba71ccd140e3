-- ===== src/Identity/Login/Success.antt =====
-- A login with the right password.
use ra_backend.Base.{
  ℕ, ◌+◌, String, true, false, Option, none, some, List, [], ◌∷◌, ◌++◌, ◌≡◌, refl, ◌∙◌, ◌==◌, ◌||◌,
  modify, exists, exists-modify, exists_of_found, eq_refl,
}
use ra_backend.Base.Dict
use ra_backend.Models.{User, UserSession, is_active}
use ra_backend.Core.World.{World, returned, minutes}
use ra_backend.Core.Exec.{Tx, ok}
use ra_backend.Core.Passwords.{verify_password, needs_rehash}
use ra_backend.Core.Passwords.Laws.{ArgonLaws, verify-hash}
use ra_backend.Core.Tokens.{encode, access_claims, refresh_claims}
use ra_backend.Identity.Rows.{user_is}
use ra_backend.Identity.Sessions.{access_extra}
use ra_backend.Identity.Login.{accounts, authenticate, is_locked, sign_in}
use ra_backend.Identity.Login.Steps.{accounts-modify}

module _ {T : Type 0} (w : World T) where
  -- The session that a login opens when its first free draw is `n`.
  abbrev pub opened : ℕ → User → Option String → Option String → UserSession
  opened n user ua ip = record {
    id = w.uuid_str (n + 1);
    user_id = user.id;
    refresh_jti = w.uuid_hex (n + 1 + 1);
    user_agent = ua;
    ip_address = ip;
    issued_at = w.clock n;
    expires_at = w.clock n + minutes w.settings.refresh_token_expire_minutes;
    revoked_at = none;
    last_seen_at = some (w.clock n);
  }

  -- The pair of tokens for it.
  abbrev pub opened_tokens : ℕ → User → T × T
  opened_tokens n user = (
    encode w (
        access_claims user.id (some (access_extra user (w.uuid_str (n + 1))))
          (w.clock (n + 1 + 1 + 1))
          (w.clock (n + 1 + 1 + 1) + minutes w.settings.access_token_expire_minutes)),
    encode w (
        refresh_claims user.id (w.uuid_str (n + 1)) (w.uuid_hex (n + 1 + 1))
          (w.clock (n + 1 + 1 + 1 + 1))
          (w.clock (n + 1 + 1 + 1 + 1) + minutes w.settings.refresh_token_expire_minutes)),
  )

  -- The state that a login leaves.
  abbrev pub signed_in : ℕ → Option String → User → Option String → Option String → Tx → Tx
  signed_in n new_hash user ua ip s = record s {
    current = record s.current {
      users = modify (user_is user.id) (sign_in (w.clock s.draws) new_hash) s.current.users;
      sessions = s.current.sessions ++ opened n user ua ip ∷ [];
    };
    draws = n + 1 + 1 + 1 + 1 + 1;
  }

  -- No session has the identifiers that a login draws.
  abbrev pub IsFree : ℕ → List UserSession → Type 0
  IsFree n sessions =
      exists
        (λ (t : UserSession). t.id == w.uuid_str (n + 1) || t.refresh_jti == w.uuid_hex (n + 1 + 1))
        sessions
      ≡ false

  module _ (email password : String) (ua ip : Option String) (s : Tx) (user : User)
      (found : accounts w email s.current.users ≡ user ∷ [])
      (unlocked : is_locked (w.clock s.draws) user ≡ false) (active : is_active user ≡ true)
      (right : verify_password w password user.hashed_password ≡ returned true) where
    still_there :
        (new_hash : Option String)
        → exists
            (user_is user.id)
            (modify (user_is user.id) (sign_in (w.clock s.draws) new_hash) s.current.users)
          ≡ true
    unfolding sign_in
    still_there new_hash =
        exists-modify (user_is user.id) (user_is user.id) (sign_in (w.clock s.draws) new_hash)
          (λ u. refl) s.current.users
        ∙ exists_of_found _ (user_is user.id) s.current.users user [] found (eq_refl user.id)

    -- With a current hash the login opens one session and keeps the hash.
    pub authenticate_signs_in :
        needs_rehash w user.hashed_password ≡ returned false
        → IsFree (s.draws + 1) s.current.sessions
        → authenticate w email password ua ip s ≡ (
          ok (
            (opened_tokens (s.draws + 1) user).0,
            (opened_tokens (s.draws + 1) user).1,
            sign_in (w.clock s.draws) none user,
          ),
          signed_in (s.draws + 1) none user ua ip s,
        )
    unfolding authenticate Dict.update
    authenticate_signs_in current free =
        rw (found, unlocked, active, right, current, free, still_there none)

    -- With a stale or legacy hash the login also stores a new one.
    pub authenticate_upgrades :
        needs_rehash w user.hashed_password ≡ returned true
        → IsFree (s.draws + 1 + 1) s.current.sessions
        → let new_hash = some (w.argon_hash (s.draws + 1) password) in
          authenticate w email password ua ip s ≡ (
            ok (
              (opened_tokens (s.draws + 1 + 1) user).0,
              (opened_tokens (s.draws + 1 + 1) user).1,
              sign_in (w.clock s.draws) new_hash user,
            ),
            signed_in (s.draws + 1 + 1) new_hash user ua ip s,
          )
    unfolding authenticate Dict.update
    authenticate_upgrades stale free = rw (
      found,
      unlocked,
      active,
      right,
      stale,
      free,
      still_there (some (w.argon_hash (s.draws + 1) password)),
    )

    -- Where Argon2 does as documented, a login with the right password by an account that is active
    -- and not locked, whose hash is stale or of an older scheme, with free identifiers for the
    -- session: the email then finds one account, whose hash the same password verifies and which
    -- needs no further upgrade, with no failures and no lock.
    pub login_upgrades_hash :
        ArgonLaws w
        → needs_rehash w user.hashed_password ≡ returned true
        → IsFree (s.draws + 1 + 1) s.current.sessions
        → let s' = (authenticate w email password ua ip s).1 in
          (u : User) × (accounts w email s'.current.users ≡ u ∷ [])
          × (verify_password w password u.hashed_password ≡ returned true)
          × (needs_rehash w u.hashed_password ≡ returned false)
          × (u.failed_login_count ≡ 0)
          × (u.locked_until ≡ none)
    unfolding sign_in
    login_upgrades_hash laws stale free =
        let new_hash : Option String = some (w.argon_hash (s.draws + 1) password) in
        let u : User = sign_in (w.clock s.draws) new_hash user in
        let (verified, current) = verify-hash w laws (s.draws + 1) password in
        (
          u,
          rw (authenticate_upgrades stale free) (
              accounts-modify w email (sign_in (w.clock s.draws) new_hash) user s.current.users
                (λ v. refl) found),
          verified,
          current,
          refl,
          refl,
        )
