-- ===== src/Core/World.antt =====
-- What the program is given: its settings, the clock, fresh identifiers, and
-- the third-party libraries that it calls. Everything here is a parameter of the model.
use ra_backend.Base.{ℕ, ◌*◌, String, Bool}
use ra_backend.Core.Config.{Settings}
use ra_backend.Base.Dict.{Dict}
use ra_backend.Models.Common.{Timestamp, Float}
use ra_backend.Core.Errors.{PyError}

-- A claim of a token: `sub`, `type`, `sid` and `jti` are texts, `iat` and `exp` are seconds.
pub data Value : Type 0 where
  text : String → Value
  num : ℕ → Value

abbrev pub Claims : Type 0
Claims = Dict Value

-- What a library call does: it returns, or it raises.
pub data Outcome (A : Type 0) : Type 0 where
  returned : A → Outcome A
  raised : PyError → Outcome A

-- The constraints of the tables, as PostgreSQL reports their violation.
pub data Constraint : Type 0 where
  unique_violation foreign_key_violation check_violation not_null_violation : Constraint

-- `Token` is the type of the encoded tokens, which the program only passes on.
pub record World (Token : Type 0) : Type 0 where
  pub settings : Settings
  -- the n-th reading of the clock, and the n-th random value
  pub clock : ℕ → Timestamp
  pub uuid_str : ℕ → String
  pub uuid_hex : ℕ → String
  -- `PasswordHasher.hash` with the n-th salt, `.verify`, `.check_needs_rehash`; `bcrypt.checkpw`
  pub argon_hash : ℕ → String → String
  pub argon_verify : String → String → Outcome Bool
  pub argon_check_needs_rehash : String → Outcome Bool
  pub bcrypt_checkpw : String → String → Outcome Bool
  -- `jwt.encode` and `jwt.decode` (the latter reads the clock itself)
  pub jwt_encode : Claims → String → String → Token
  pub jwt_decode : Timestamp → Token → String → String → Outcome Claims
  -- a token as the text that a client sends
  pub token_text : Token → String
  -- PostgreSQL's `lower`
  pub sql_lower : String → String
  -- the collation of the database: whether a text does not come after another
  pub sql_before : String → String → Bool
  -- `==` on floats
  pub float_eq : Float → Float → Bool
  -- the name of the class of `IntegrityError.orig`
  pub origin_name : Constraint → String

abbrev pub second : ℕ
second = 1_000_000

-- `timedelta(minutes=m)`
abbrev pub minutes : ℕ → ℕ
minutes m = m * (60 * second)
