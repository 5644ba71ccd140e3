-- ===== src/Core/Tokens.antt =====
-- app/core/security.py, JSON web tokens.
pub mod Laws
use ra_backend.Base.{ℕ, zero, suc, ◌+◌, ◌/◌, String, Option, none, some, [], ◌∷◌}
use ra_backend.Base.Dict
use ra_backend.Models.Common.{Timestamp}
use ra_backend.Core.World.{World, Outcome, Claims, text, num, second, minutes}
use ra_backend.Core.Exec.{Exec, draw, pure, ◌>>=◌}

-- `expires_minutes or d`
abbrev pub or_minutes : Option ℕ → ℕ → ℕ
or_minutes none d = d
or_minutes (some zero) d = d
or_minutes (some (suc m)) d = suc m

-- `payload.update(extra)` under `if extra_claims`
abbrev pub with_extra : Claims → Option Claims → Claims
with_extra c none = c
with_extra c (some extra) = Dict.update c extra

-- `int(t.timestamp())`
abbrev pub timestamp : Timestamp → ℕ
timestamp t = t / second

abbrev pub access_claims : String → Option Claims → Timestamp → Timestamp → Claims
access_claims subject extra now expire =
    with_extra
      (("sub", text subject)
        ∷ ("iat", num (timestamp now))
        ∷ ("exp", num (timestamp expire))
        ∷ ("type", text "access")
        ∷ [])
      extra

abbrev pub refresh_claims : String → String → String → Timestamp → Timestamp → Claims
refresh_claims subject session_id jti now expire =
    ("sub", text subject)
    ∷ ("iat", num (timestamp now))
    ∷ ("exp", num (timestamp expire))
    ∷ ("type", text "refresh")
    ∷ ("sid", text session_id)
    ∷ ("jti", text jti)
    ∷ []

module _ {T : Type 0} (w : World T) where
  abbrev pub encode : Claims → T
  encode c = w.jwt_encode c w.settings.jwt_secret w.settings.jwt_algorithm

  unfoldable pub create_access_token : String → Option Claims → Option ℕ → Exec T
  create_access_token subject extra expires_minutes = do
    now ← draw w.clock
    let expire = now + minutes (or_minutes expires_minutes w.settings.access_token_expire_minutes)
    pure (encode (access_claims subject extra now expire))

  unfoldable pub create_refresh_token : String → String → String → Option ℕ → Exec T
  create_refresh_token subject session_id jti expires_minutes = do
    now ← draw w.clock
    let expire = now + minutes (or_minutes expires_minutes w.settings.refresh_token_expire_minutes)
    pure (encode (refresh_claims subject session_id jti now expire))

  -- `decode_token`; what `jwt.decode` raises is handed to the caller's `except` clauses.
  unfoldable pub decode_token : T → Exec (Outcome Claims)
  decode_token token =
      draw (λ n. w.jwt_decode (w.clock n) token w.settings.jwt_secret w.settings.jwt_algorithm)
