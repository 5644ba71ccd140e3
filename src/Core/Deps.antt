-- ===== src/Core/Deps.antt =====
-- app/core/deps.py: the caller is resolved from the token and the database, and a route's guard
-- asks for a permission.
use ra_backend.Base.{
  if◌then◌else◌, zero, suc, ℕ, String, Bool, true, false, not, Option, none, some, [], ◌∷◌, ◌==◌,
  non_empty, leb, select, join,
}
use ra_backend.Base.Dict
use ra_backend.Models.{Role, User, UserSession, PermissionMap, is_active}
use ra_backend.Models.Common.{Timestamp}
use ra_backend.Core.Errors.{Exc, app, authentication, permission_denied, python, PyError}
use ra_backend.Core.World.{World, Outcome, returned, raised, Value, text, num, Claims}
use ra_backend.Core.Exec.{
  Exec, Result, ok, err, lift, pure, or_raise, raise_if, query, draw, scalar_one_or_none, ◌>>=◌,
  ◌>>◌,
}
use ra_backend.Core.Rbac.{PermKey, PermAction, key_text, action_text, has_permission}
use ra_backend.Core.Tokens.{decode_token}

pub record Principal : Type 0 where
  pub id : String
  pub email : String
  pub full_name : String
  pub role : String
  pub permissions : PermissionMap
  pub session_id : Option String
  pub must_reset_password : Bool

-- `PageParams`, whose bounds the query parameters have been checked against
pub record Pagination : Type 0 where
  pub limit : ℕ
  pub offset : ℕ

-- `raise AuthenticationError(message)`
abbrev pub unauthorized : String → Exc
unauthorized message = app authentication message []

abbrev pub session_gone : Exc
session_gone = unauthorized "Session is no longer valid. Please sign in again."

-- `select(User).where(User.id == id)` and its kind: rows by primary key.
abbrev pub find_user : String → Exec (Option User)
find_user id = do
  rows ← query (λ db. select (λ (u : User). u.id == id) db.users)
  scalar_one_or_none rows

abbrev pub find_role : String → Exec (Option Role)
find_role id = do
  rows ← query (λ db. select (λ (r : Role). r.id == id) db.roles)
  scalar_one_or_none rows

abbrev pub find_session : String → Exec (Option UserSession)
find_session id = do
  rows ← query (λ db. select (λ (s : UserSession). s.id == id) db.sessions)
  scalar_one_or_none rows

-- A claim compared with a key column: a number is no text, and the driver refuses it.
abbrev pub claim_key : Value → Result String
claim_key (text s) = ok s
claim_key (num n) = err (python PyError.data_error)

-- `session is None or session.revoked_at is not None or session.expires_at <= now`
unfoldable pub is_dead : Timestamp → Option UserSession → Bool
is_dead now none = true
is_dead now (some s) = elim s.revoked_at [ none ↦ leb s.expires_at now | some _ ↦ true ]

-- The `except` clauses around `decode_token`.
unfoldable pub principal_claims : Outcome Claims → Result Claims
principal_claims (returned c) = ok c
principal_claims (raised PyError.expired_signature) = err (unauthorized "Token has expired.")
principal_claims (raised PyError.py_jwt_error) = err (unauthorized "Invalid token.")
principal_claims (raised e) = err (python e)

-- `payload.get("type") not in (None, "access")`
unfoldable pub wrong_type : Option Value → Bool
wrong_type none = false
wrong_type (some (text t)) = not (t == "access")
wrong_type (some (num n)) = true

-- `if not user_id`: a missing, empty or zero claim
unfoldable pub claim_or_none : Option Value → Option Value
claim_or_none none = none
claim_or_none (some (text s)) = if non_empty s then some (text s) else none
claim_or_none (some (num zero)) = none
claim_or_none (some (num (suc n))) = some (num (suc n))

-- The text of a claim that passed `claim_key`, for `Principal.session_id`.
abbrev pub claim_text : Option Value → Option String
claim_text (some (text s)) = some s
claim_text _ = none

module _ {T : Type 0} (w : World T) where
  -- The credentials of the `Authorization` header, if there are any.
  abbrev bearer : Option T → Option T
  bearer none = none
  bearer (some t) = if non_empty (w.token_text t) then some t else none

  -- A token that is bound to a session is good as long as the session is.
  unfoldable pub check_session : Option Value → Exec (Unit {0})
  unfolding is_dead
  check_session none = pure tt
  check_session (some sid) = do
    key ← lift (claim_key sid)
    session ← find_session key
    now ← draw w.clock
    raise_if (is_dead now session) session_gone

  unfoldable pub get_current_principal : Option T → Exec Principal
  unfolding principal_claims wrong_type claim_or_none check_session decode_token Dict.get
  get_current_principal creds = do
    token ← or_raise (bearer creds) (unauthorized "Missing bearer token.")
    outcome ← decode_token w token
    payload ← lift (principal_claims outcome)
    raise_if (wrong_type (Dict.get payload "type"))
        (unauthorized "Wrong token type for this endpoint.")
    subject ←
        or_raise (claim_or_none (Dict.get payload "sub")) (unauthorized "Invalid token subject.")
    user_id ← lift (claim_key subject)
    found ← find_user user_id
    user ← or_raise found (unauthorized "User no longer exists.")
    raise_if (not (is_active user)) (unauthorized "Account is disabled.")
    check_session (claim_or_none (Dict.get payload "sid"))
    joined ← find_role user.role_id
    role ← or_raise joined (python PyError.attribute_error)
    pure (record {
      id = user.id;
      email = user.email;
      full_name = user.full_name;
      role = user.role_id;
      permissions = role.permissions;
      session_id = claim_text (Dict.get payload "sid");
      must_reset_password = user.must_reset_password;
    })

-- `Principal.can`
abbrev pub can : Principal → PermKey → PermAction → Bool
can p key action = has_permission p.permissions key action

-- The error of a guard
abbrev pub lacking : Principal → PermKey → PermAction → Exc
lacking principal key action =
    app permission_denied
      (join (
        "Role '"
        ∷ principal.role
        ∷ "' lacks '"
        ∷ action_text action
        ∷ "' on '"
        ∷ key_text key
        ∷ "'."
        ∷ []))
      []

-- The guard that `require(key, action)` makes.
unfoldable pub require : PermKey → PermAction → Principal → Exec Principal
require key action principal = do
  raise_if (not (can principal key action)) (lacking principal key action)
  pure principal

-- `Depends(require(key, action))`
unfoldable pub guarded : {T : Type 0} → World T → PermKey → PermAction → Option T → Exec Principal
guarded w key action creds = do
  principal ← get_current_principal w creds
  require key action principal
