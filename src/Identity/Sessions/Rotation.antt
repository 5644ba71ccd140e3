-- ===== src/Identity/Sessions/Rotation.antt =====
-- Refresh-token rotation from request to request: a token is good once, its replay ends the
-- session, and an ended session serves no token, refresh or access.
use ra_backend.Base.{
  ℕ, ◌+◌, ◌≤◌, String, true, false, Option, none, some, List, [], ◌∷◌, ◌≡◌, ◌≢◌, ap, refl, ◌∙◌,
  ◌==◌, arith, modify, exists, select, select-modify, eq_refl, non_empty, Bool-cases, ne→not_eq,
  eq_iff, inl, inr, sym, subst, truthy, if◌then◌else◌, select-modify_apart,
}
use ra_backend.Base.Dict
use ra_backend.Models.{Db, User, UserSession, is_active}
use ra_backend.Models.Common.{Timestamp}
use ra_backend.Core.World.{World, Value, text, num, Claims, returned, minutes, second}
use ra_backend.Core.Exec.{Tx, Result, ok, err, request, begin}
use ra_backend.Core.Tokens.{encode, access_claims, refresh_claims}
use ra_backend.Core.Tokens.Laws.{JwtLaws, timestamp_window}
use ra_backend.Core.Deps.{
  Principal, unauthorized, session_gone, is_dead, get_current_principal, wrong_type, claim_or_none,
}
use ra_backend.Identity.Audit.{Context}
use ra_backend.Identity.Routes.{refresh}
use ra_backend.Identity.Rows.{user_is, session_is}
use ra_backend.Identity.Sessions.{access_extra, rotate, revoke, holds_jti}
use ra_backend.Identity.Sessions.Refresh.{
  IsRefreshToken, session_row, refresh_dead, refresh_reuse, refresh_rotates,
}

-- One answer of a query is one row.
only_row : {a b : UserSession} → a ∷ [] ≡ b ∷ [] → a ≡ b
only_row e = cc

abbrev answered_refresh : {T : Type 0} → T → Result (T × T) → T
answered_refresh default (ok (access, next)) = next
answered_refresh default (err e) = default

other_session : (id other sid : String) → (id == other) ≡ true → other ≢ sid → (id == sid) ≡ false
other_session id other sid own apart =
    ne→not_eq _ _ (λ e. apart (sym ((eq_iff id other).0 own) ∙ e))

-- An update of the found session that keeps its id leaves it the one that is found.
session_row-modify :
    (f : UserSession → UserSession) (session : UserSession) (db : Db)
    → ((t : UserSession) → (f t).id ≡ t.id)
    → session_row session.id db ≡ session ∷ []
    → select (session_is session.id) (modify (session_is session.id) f db.sessions) ≡ f session ∷ []
session_row-modify f session db keeps found =
    select-modify (session_is session.id) (session_is session.id) f
      (λ t. ap (λ i. i == session.id) (keeps t)) db.sessions
    ∙ rw (found, eq_refl)

module _ {T : Type 0} (w : World T) (ctx : Context) where
  abbrev pub refresh_request : T → Tx → Result (T × T) × Tx
  refresh_request token = request w (refresh w ctx token)

  -- A token with another `jti` than the session's revokes the session, and this is committed.
  stale_revokes :
      (token : T) (s : Tx) (session : UserSession) (jti : String)
      → IsRefreshToken w (s.draws + 1) token session.id jti
      → session_row session.id s.committed ≡ session ∷ []
      → is_dead (w.clock (s.draws + 1 + 1)) (some session) ≡ false
      → (jti == session.refresh_jti) ≡ false
      → ((refresh_request token s).0
          ≡ err (unauthorized "Refresh token reuse detected. Session revoked."))
        × (session_row session.id (refresh_request token s).1.committed
            ≡ record session { revoked_at = some (w.clock (s.draws + 1 + 1)) } ∷ [])
  unfolding request refresh
  stale_revokes token s session jti presented found alive stale =
      rw
        (refresh_reuse w token ctx.user_agent ctx.client_ip (begin w s) session.id jti presented
          session found alive stale)
        (
          refl,
          session_row-modify (revoke (w.clock (s.draws + 1 + 1))) session s.committed (λ t. refl)
              found,
        )

  -- What a refresh needs to succeed: a good token with the current `jti`, a session that lives,
  -- an active owner, and a new `jti` that no other session has.
  pub record IsRefreshable (s : Tx) (token : T) (session : UserSession) (user : User) : Type 0 where
    pub presented : IsRefreshToken w (s.draws + 1) token session.id session.refresh_jti
    pub found : session_row session.id s.committed ≡ session ∷ []
    pub alive : is_dead (w.clock (s.draws + 1 + 1)) (some session) ≡ false
    pub owner : select (user_is session.user_id) s.committed.users ≡ user ∷ []
    pub active : is_active user ≡ true
    pub fresh :
        exists (holds_jti session.id (w.uuid_hex (s.draws + 1 + 1 + 1))) s.committed.sessions
        ≡ false

  -- The `jti`, the session and the tokens that a refresh at this state makes.
  abbrev next_jti : Tx → String
  next_jti s = w.uuid_hex (s.draws + 1 + 1 + 1)

  abbrev rotated : Tx → UserSession → UserSession
  rotated s = rotate w (next_jti s) (w.clock (s.draws + 1 + 1)) ctx.user_agent ctx.client_ip

  abbrev pub next_refresh_token : Tx → UserSession → User → T
  next_refresh_token s session user = encode w (
      refresh_claims user.id session.id (next_jti s) (w.clock (s.draws + 1 + 1 + 1 + 1 + 1))
        (w.clock (s.draws + 1 + 1 + 1 + 1 + 1) + minutes w.settings.refresh_token_expire_minutes))

  abbrev pub next_access_token : Tx → UserSession → User → T
  next_access_token s session user = encode w (
      access_claims user.id (some (access_extra user session.id))
        (w.clock (s.draws + 1 + 1 + 1 + 1))
        (w.clock (s.draws + 1 + 1 + 1 + 1) + minutes w.settings.access_token_expire_minutes))

  module _ (s : Tx) (token : T) (session : UserSession) (user : User)
      (h : IsRefreshable s token session user) where
    -- A refresh request with a good token of a session that lives, of an active user, with a new
    -- `jti` that no other session has: it answers with an access and a refresh token; the committed
    -- session has the new `jti`, the time of the check as `last_seen_at`, its end
    -- `refresh_token_expire_minutes` after that time, the request's agent and address where they
    -- are given and not empty, and its other columns as before; the sessions of other ids are as
    -- before, and six values are drawn.
    pub refresh_request_rotates :
        ((refresh_request token s).0
          ≡ ok (next_access_token s session user, next_refresh_token s session user))
        × (session_row session.id (refresh_request token s).1.committed
            ≡ record session {
              refresh_jti = w.uuid_hex (s.draws + 1 + 1 + 1);
              last_seen_at = some (w.clock (s.draws + 1 + 1));
              expires_at =
                  w.clock (s.draws + 1 + 1) + minutes w.settings.refresh_token_expire_minutes;
              user_agent = if truthy ctx.user_agent then ctx.user_agent else session.user_agent;
              ip_address = if truthy ctx.client_ip then ctx.client_ip else session.ip_address;
            }
              ∷ [])
        × ((other : String)
            → other ≢ session.id
            → session_row other (refresh_request token s).1.committed
              ≡ session_row other s.committed)
        × ((refresh_request token s).1.draws ≡ s.draws + 6)
    unfolding request refresh
    refresh_request_rotates =
        rw
          (refresh_rotates w token ctx.user_agent ctx.client_ip (begin w s) session.id
            session.refresh_jti h.presented session h.found h.alive (eq_refl session.refresh_jti)
            user h.owner h.active h.fresh)
          (
            refl,
            session_row-modify (rotated s) session s.committed (λ t. refl) h.found,
            λ other apart.
                select-modify_apart (session_is other) (session_is session.id) (rotated s)
                  (λ t. refl) (λ t own. other_session t.id other session.id own apart)
                  s.committed.sessions,
            omega arith,
          )

    -- The refresh token that this refresh makes decodes as one of its new `jti`.
    next_refresh_token-IsRefreshToken :
        JwtLaws w
        → (n : ℕ) → w.clock (s.draws + 1 + 1 + 1 + 1 + 1) ≤ w.clock n
        → w.clock n + second
          ≤ w.clock (s.draws + 1 + 1 + 1 + 1 + 1) + minutes w.settings.refresh_token_expire_minutes
        → IsRefreshToken w n (next_refresh_token s session user) session.id (next_jti s)
    unfolding Dict.get
    next_refresh_token-IsRefreshToken laws n later early =
        let window =
          timestamp_window (w.clock (s.draws + 1 + 1 + 1 + 1 + 1))
            w.settings.refresh_token_expire_minutes (w.clock n) later in
        record {
          claims =
              refresh_claims user.id session.id (next_jti s) (w.clock (s.draws + 1 + 1 + 1 + 1 + 1))
                (w.clock (s.draws + 1 + 1 + 1 + 1 + 1)
                  + minutes w.settings.refresh_token_expire_minutes);
          decodes =
              laws.decode-encode _ user.id _ _ _
                (record {
                  sub_claim = refl;
                  iat_claim = refl;
                  exp_claim = refl;
                  jti_claim = λ k e. cc;
                })
                window.0 (window.1 early);
          kind = refl;
          sid_claim = refl;
          jti_claim = refl;
        }

    -- Where PyJWT decodes what it encoded, and a refresh request, with a good token of a session
    -- that lives, of an active user, with a new `jti` that no other session has, answers with two
    -- tokens: the second decodes, from its issue until a second before its end, as a refresh token
    -- of the session with the `jti` that the committed session has after the request.
    pub refresh_request-IsRefreshToken :
        JwtLaws w
        → (access next : T) (row : UserSession) → (refresh_request token s).0 ≡ ok (access, next)
        → session_row session.id (refresh_request token s).1.committed ≡ row ∷ []
        → (n : ℕ) → w.clock (s.draws + 1 + 1 + 1 + 1 + 1) ≤ w.clock n
        → w.clock n + second
          ≤ w.clock (s.draws + 1 + 1 + 1 + 1 + 1) + minutes w.settings.refresh_token_expire_minutes
        → IsRefreshToken w n next session.id row.refresh_jti
    refresh_request-IsRefreshToken laws access next row answer committed n later early =
        subst (λ t. IsRefreshToken w n t session.id row.refresh_jti)
          (ap (answered_refresh token) (sym refresh_request_rotates.0 ∙ answer))
          (subst
            (λ (r : UserSession).
              IsRefreshToken w n (next_refresh_token s session user) session.id r.refresh_jti)
            (only_row (sym refresh_request_rotates.1 ∙ committed))
            (next_refresh_token-IsRefreshToken laws n later early))

    -- Reuse detection: after a refresh that succeeds, a token that decodes as a refresh token of
    -- the session with its former `jti`, while the committed session has not ended and where its
    -- `jti` differs from the former, is refused, and the committed session has the time of the
    -- second request's check as `revoked_at`, its other columns as the refresh left them.
    pub replay_revokes :
        (replayed : T) (row : UserSession)
        → let s' = (refresh_request token s).1 in
          session_row session.id s'.committed ≡ row ∷ []
          → IsRefreshToken w (s'.draws + 1) replayed session.id session.refresh_jti
          → session.refresh_jti ≢ row.refresh_jti
          → is_dead (w.clock (s'.draws + 1 + 1)) (some row) ≡ false
          → ((refresh_request replayed s').0
              ≡ err (unauthorized "Refresh token reuse detected. Session revoked."))
            × (session_row session.id (refresh_request replayed s').1.committed
                ≡ record row { revoked_at = some (w.clock (s'.draws + 1 + 1)) } ∷ [])
    replay_revokes replayed row committed presented new alive =
        let same =
          ap (λ (r : UserSession). r.id) (only_row (sym refresh_request_rotates.1 ∙ committed)) in
        subst
          (λ sid.
            IsRefreshToken w ((refresh_request token s).1.draws + 1) replayed sid
              session.refresh_jti
            → session_row sid (refresh_request token s).1.committed ≡ row ∷ []
            → ((refresh_request replayed (refresh_request token s).1).0
                ≡ err (unauthorized "Refresh token reuse detected. Session revoked."))
              × (session_row sid (refresh_request replayed (refresh_request token s).1).1.committed
                  ≡ record row {
                    revoked_at = some (w.clock ((refresh_request token s).1.draws + 1 + 1));
                  }
                    ∷ []))
          (sym same)
          (λ decoded found.
            stale_revokes replayed (refresh_request token s).1 row session.refresh_jti decoded found
              alive (ne→not_eq _ _ new))
          presented committed

-- An ended session.
module _ {T : Type 0} (w : World T) (ctx : Context) where
  -- A refresh request with a token of a session that was revoked is refused, whatever the token's
  -- `jti` is, and what is committed does not change.
  revoked_refuses_refresh :
      (token : T) (s : Tx) (sid jti : String) (session : UserSession) {t : Timestamp}
      → IsRefreshToken w (s.draws + 1) token sid jti
      → session_row sid s.committed ≡ session ∷ []
      → session.revoked_at ≡ some t
      → ((refresh_request w ctx token s).0 ≡ err session_gone)
        × ((refresh_request w ctx token s).1.committed ≡ s.committed)
  unfolding request refresh is_dead
  revoked_refuses_refresh token s sid jti session presented found revoked =
      rw
        (refresh_dead w token ctx.user_agent ctx.client_ip (begin w s) sid jti presented
          (some session) found (rw revoked))
        (refl, refl)

  -- A token that decodes to claims with a non-empty `sid` of a session that was revoked
  -- authenticates nobody, whatever its other claims are.
  pub revoked_refuses_access :
      (token : T) (s : Tx) (claims : Claims) (sid : String) (session : UserSession) {t : Timestamp}
      → w.jwt_decode (w.clock s.draws) token w.settings.jwt_secret w.settings.jwt_algorithm
        ≡ returned claims
      → Dict.get claims "sid" ≡ some (text sid)
      → non_empty sid ≡ true
      → session_row sid s.current ≡ session ∷ []
      → session.revoked_at ≡ some t
      → (p : Principal) → (get_current_principal w (some token) s).0 ≢ ok p
  unfolding get_current_principal
  revoked_refuses_access token s claims sid session decodes bound named found revoked p =
      elim (Bool-cases (non_empty (w.token_text token))) [
        | inr empty ↦ rw empty (λ q. cc)
        | inl given ↦ elim (Bool-cases (wrong_type (Dict.get claims "type"))) [
          | inl wrong ↦ rw (given, decodes, wrong) (λ q. cc)
          | inr right ↦ by_subject given right (claim_or_none (Dict.get claims "sub")) refl
        ]
      ]
    where
      by_user :
          non_empty (w.token_text token) ≡ true
          → wrong_type (Dict.get claims "type") ≡ false
          → (id : String) → claim_or_none (Dict.get claims "sub") ≡ some (text id)
          → (rows : List User) → select (user_is id) s.current.users ≡ rows
          → (get_current_principal w (some token) s).0 ≢ ok p
      by_user given right id subject [] e = rw (given, decodes, right, subject, e) (λ q. cc)
      by_user given right id subject (u ∷ v ∷ r) e =
          rw (given, decodes, right, subject, e) (λ q. cc)
      by_user given right id subject (u ∷ []) e = elim (Bool-cases (is_active u)) [
        | inr disabled ↦ rw (given, decodes, right, subject, e, disabled) (λ q. cc)
        | inl active ↦
            rw (given, decodes, right, subject, e, active, bound, named, found, revoked) (λ q. cc)
      ]

      by_subject :
          non_empty (w.token_text token) ≡ true
          → wrong_type (Dict.get claims "type") ≡ false
          → (o : Option Value) → claim_or_none (Dict.get claims "sub") ≡ o
          → (get_current_principal w (some token) s).0 ≢ ok p
      by_subject given right none e = rw (given, decodes, right, e) (λ q. cc)
      by_subject given right (some (num n)) e = rw (given, decodes, right, e) (λ q. cc)
      by_subject given right (some (text id)) e =
          by_user given right id e (select (user_is id) s.current.users) refl
