-- ===== src/Identity/Sessions/Refresh.antt =====
-- `refresh_session` by its outcomes.
use ra_backend.Base.{
  ℕ, ◌+◌, String, true, false, Option, none, some, List, [], ◌∷◌, ◌≡◌, ◌==◌, select, modify, exists,
}
use ra_backend.Base.Dict
use ra_backend.Models.{Db, User, UserSession, is_active}
use ra_backend.Core.World.{World, Claims, returned, text, minutes}
use ra_backend.Core.Exec.{Tx, ok, err}
use ra_backend.Core.Tokens.{encode, access_claims, refresh_claims}
use ra_backend.Core.Deps.{unauthorized, session_gone, is_dead}
use ra_backend.Identity.Rows.{user_is, session_is}
use ra_backend.Identity.Sessions.{access_extra, refresh_session, is_gone, rotate, revoke, holds_jti}

abbrev pub with_sessions : (List UserSession → List UserSession) → Db → Db
with_sessions f db = record db { sessions = f db.sessions }

-- The row of a session, found by its id.
abbrev pub session_row : String → Db → List UserSession
session_row sid db = select (session_is sid) db.sessions

module _ {T : Type 0} (w : World T) where
  -- At the n-th reading of the clock the token decodes as a refresh token of the session.
  pub record IsRefreshToken (n : ℕ) (token : T) (sid jti : String) : Type 0 where
    pub claims : Claims
    pub decodes :
        w.jwt_decode (w.clock n) token w.settings.jwt_secret w.settings.jwt_algorithm
        ≡ returned claims
    pub kind : Dict.get claims "type" ≡ some (text "refresh")
    pub sid_claim : Dict.get claims "sid" ≡ some (text sid)
    pub jti_claim : Dict.get claims "jti" ≡ some (text jti)

  module _ (token : T) (ua ip : Option String) (s : Tx) (sid jti : String)
      (presented : IsRefreshToken s.draws token sid jti) where
    -- No session, one that was revoked, or one that has ended: nothing happens.
    pub refresh_dead :
        (rows : Option UserSession)
        → session_row sid s.current ≡ elim rows [ none ↦ [] | some r ↦ r ∷ [] ]
        → is_dead (w.clock (s.draws + 1)) rows ≡ true
        → refresh_session w token ua ip s ≡ (err session_gone, record s { draws = s.draws + 1 + 1 })
    unfolding refresh_session
    refresh_dead none found dead =
        rw (presented.decodes, presented.kind, presented.sid_claim, found)
    refresh_dead (some r) found dead =
        rw (presented.decodes, presented.kind, presented.sid_claim, found, dead)

    module _ (session : UserSession) (found : session_row sid s.current ≡ session ∷ [])
        (alive : is_dead (w.clock (s.draws + 1)) (some session) ≡ false) where
      abbrev revoked_db : Db
      revoked_db =
          with_sessions (modify (session_is session.id) (revoke (w.clock (s.draws + 1)))) s.current

      -- A stale `jti` revokes the session, for good: the revocation is committed.
      pub refresh_reuse :
          (jti == session.refresh_jti) ≡ false
          → refresh_session w token ua ip s ≡ (
            err (unauthorized "Refresh token reuse detected. Session revoked."),
            record s { committed = revoked_db; current = revoked_db; draws = s.draws + 1 + 1 },
          )
      unfolding refresh_session
      refresh_reuse stale = rw (
        presented.decodes, presented.kind, presented.sid_claim, found, alive, presented.jti_claim,
        stale,
      )

      -- The right `jti` of a user who is gone or disabled revokes the session too.
      pub refresh_gone :
          (jti == session.refresh_jti) ≡ true
          → (user : Option User)
          → select (user_is session.user_id) s.current.users
            ≡ elim user [ none ↦ [] | some u ↦ u ∷ [] ]
          → is_gone user ≡ true
          → refresh_session w token ua ip s ≡ (
            err (unauthorized "Account is no longer active."),
            record s { committed = revoked_db; current = revoked_db; draws = s.draws + 1 + 1 },
          )
      unfolding refresh_session
      refresh_gone match none owner gone = rw (
        presented.decodes, presented.kind, presented.sid_claim, found, alive, presented.jti_claim,
        match, owner,
      )
      refresh_gone match (some u) owner gone = rw (
        presented.decodes, presented.kind, presented.sid_claim, found, alive, presented.jti_claim,
        match, owner, gone,
      )

      -- Otherwise the session gets a new `jti` and a new end, and the caller a pair of tokens.
      pub refresh_rotates :
          (jti == session.refresh_jti) ≡ true
          → (user : User) → select (user_is session.user_id) s.current.users ≡ user ∷ []
          → is_active user ≡ true
          → exists (holds_jti session.id (w.uuid_hex (s.draws + 1 + 1))) s.current.sessions ≡ false
          → let new_jti = w.uuid_hex (s.draws + 1 + 1) in
            refresh_session w token ua ip s ≡ (
              ok (
                encode w (
                    access_claims user.id
                      (some (access_extra user session.id))
                      (w.clock (s.draws + 1 + 1 + 1))
                      (w.clock (s.draws + 1 + 1 + 1)
                        + minutes w.settings.access_token_expire_minutes)),
                encode w (
                    refresh_claims user.id session.id new_jti (w.clock (s.draws + 1 + 1 + 1 + 1)) (
                      w.clock (s.draws + 1 + 1 + 1 + 1)
                      + minutes w.settings.refresh_token_expire_minutes)),
              ),
              record s {
                current =
                    with_sessions
                      (modify
                        (session_is session.id)
                        (rotate w new_jti (w.clock (s.draws + 1)) ua ip))
                      s.current;
                draws = s.draws + 1 + 1 + 1 + 1 + 1;
              },
            )
      unfolding refresh_session is_gone Dict.update
      refresh_rotates match user owner active fresh = rw (
        presented.decodes, presented.kind, presented.sid_claim, found, alive, presented.jti_claim,
        match, owner, active, fresh,
      )
