-- ===== src/Identity/Sessions.antt =====
-- app/modules/identity/service.py, tokens and sessions: issue, refresh with rotation, revoke.
pub mod Refresh
pub mod Rotation
pub mod Access
use ra_backend.Base.{
  String, Bool, true, false, not, ◌&&◌, exists, Option, none, some, [], ◌∷◌, ◌+◌, ◌==◌, non_empty,
  truthy, if◌then◌else◌,
}
use ra_backend.Base.Dict
use ra_backend.Models.{User, UserSession, is_active}
use ra_backend.Models.Common.{Timestamp}
use ra_backend.Core.Errors.{python, PyError}
use ra_backend.Core.World.{
  World, Outcome, returned, raised, Value, text, num, Claims, minutes, unique_violation,
}
use ra_backend.Core.Exec.{
  Exec, Result, ok, err, lift, pure, raise, or_raise, raise_if, branch, draw, commit, query,
  violation, ◌>>=◌, ◌>>◌,
}
use ra_backend.Core.Tokens.{create_access_token, create_refresh_token, decode_token}
use ra_backend.Core.Deps.{unauthorized, session_gone, is_dead, claim_key, find_user, find_session}
use ra_backend.Identity.Rows.{set_session, add_session}

abbrev pub access_extra : User → String → Claims
access_extra user session_id =
    ("email", text user.email) ∷ ("role", text user.role_id) ∷ ("sid", text session_id) ∷ []

-- The `except` clause around `decode_token`.
unfoldable pub refresh_claims_of : Outcome Claims → Result Claims
refresh_claims_of (returned c) = ok c
refresh_claims_of (raised PyError.expired_signature) =
    err (unauthorized "Invalid or expired refresh token.")
refresh_claims_of (raised PyError.py_jwt_error) =
    err (unauthorized "Invalid or expired refresh token.")
refresh_claims_of (raised e) = err (python e)

-- A claim that must be this text
abbrev pub is_text : Option Value → String → Bool
is_text none t = false
is_text (some (text s)) t = s == t
is_text (some (num n)) t = false

-- `UserSession.id == session_id`; comparing with NULL finds no row.
abbrev pub claimed_session : Option Value → Exec (Option UserSession)
claimed_session none = pure none
claimed_session (some v) = do key ← lift (claim_key v); find_session key

abbrev pub revoke : Timestamp → UserSession → UserSession
revoke now s = record s { revoked_at = some now }

-- `if user is None or not user.is_active`
unfoldable pub is_gone : Option User → Bool
is_gone none = true
is_gone (some u) = not (is_active u)

-- Another session than this one has the value.
abbrev pub holds_jti : String → String → UserSession → Bool
holds_jti session_id jti s = not (s.id == session_id) && s.refresh_jti == jti

-- `if value: attribute = value`
abbrev pub or_keep : Option String → Option String → Option String
or_keep v old = if truthy v then v else old

module _ {T : Type 0} (w : World T) where
  unfoldable pub tokens_for_session : User → String → String → Exec (T × T)
  unfolding create_access_token create_refresh_token
  tokens_for_session user session_id refresh_jti = do
    access ← create_access_token w user.id (some (access_extra user session_id)) none
    refresh ← create_refresh_token w user.id session_id refresh_jti none
    pure (access, refresh)

  unfoldable pub issue_session : User → Option String → Option String → Exec (T × T)
  unfolding tokens_for_session add_session
  issue_session user user_agent ip = do
    now ← draw w.clock
    session_id ← draw w.uuid_str
    refresh_jti ← draw w.uuid_hex
    add_session w (record {
      id = session_id;
      user_id = user.id;
      refresh_jti = refresh_jti;
      user_agent = user_agent;
      ip_address = ip;
      issued_at = now;
      expires_at = now + minutes w.settings.refresh_token_expire_minutes;
      revoked_at = none;
      last_seen_at = some now;
    })
    tokens_for_session user session_id refresh_jti

  -- The attributes that a rotation sets.
  abbrev pub rotate : String → Timestamp → Option String → Option String → UserSession → UserSession
  rotate new_jti now user_agent ip s = record s {
    refresh_jti = new_jti;
    last_seen_at = some now;
    expires_at = now + minutes w.settings.refresh_token_expire_minutes;
    user_agent = or_keep user_agent s.user_agent;
    ip_address = or_keep ip s.ip_address;
  }

  -- The unique index on `refresh_jti`, as the flush of a rotation meets it.
  abbrev pub rotate_is_unique : String → String → Exec (Unit {0})
  rotate_is_unique session_id new_jti = do
    taken ← query (λ db. exists (holds_jti session_id new_jti) db.sessions)
    violation w taken unique_violation

  unfoldable pub refresh_session : T → Option String → Option String → Exec (T × T)
  unfolding refresh_claims_of is_dead is_gone decode_token tokens_for_session Dict.get
  refresh_session refresh_token user_agent ip = do
    outcome ← decode_token w refresh_token
    payload ← lift (refresh_claims_of outcome)
    raise_if (not (is_text (Dict.get payload "type") "refresh"))
        (unauthorized "Not a refresh token.")
    found ← claimed_session (Dict.get payload "sid")
    now ← draw w.clock
    raise_if (is_dead now found) session_gone
    session ← or_raise found session_gone
    branch (is_text (Dict.get payload "jti") session.refresh_jti)
        (do
          user ← find_user session.user_id
          branch (is_gone user)
              (do
                set_session session.id (revoke now)
                commit
                raise (unauthorized "Account is no longer active."))
              (do
                active ← or_raise user (unauthorized "Account is no longer active.")
                new_jti ← draw w.uuid_hex
                rotate_is_unique session.id new_jti
                set_session session.id (rotate new_jti now user_agent ip)
                tokens_for_session active session.id new_jti))
        (do
          set_session session.id (revoke now)
          commit
          raise (unauthorized "Refresh token reuse detected. Session revoked."))

  -- `if session is not None and session.revoked_at is None`
  revoke_found : Option UserSession → Exec (Unit {0})
  revoke_found none = pure tt
  revoke_found (some s) = elim s.revoked_at [
    | some _ ↦ pure tt
    | none ↦ do now ← draw w.clock; set_session s.id (revoke now)
  ]

  unfoldable pub revoke_session : Option String → Exec (Unit {0})
  unfolding revoke_found
  revoke_session none = pure tt
  revoke_session (some session_id) =
      branch (non_empty session_id) (do found ← find_session session_id; revoke_found found)
        (pure tt)
