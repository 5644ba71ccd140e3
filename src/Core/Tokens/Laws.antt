-- ===== src/Core/Tokens/Laws.antt =====
-- What PyJWT documents of tokens that the program signs, and the lifetime that follows.
use ra_backend.Base.{ℕ, ◌+◌, ◌*◌, ◌≤◌, ◌<◌, String, ◌≡◌, ◌≢◌, some, arith}
use ra_backend.Base.Dict
use ra_backend.Models.Common.{Timestamp}
use ra_backend.Core.Errors.{PyError}
use ra_backend.Core.World.{World, Claims, text, num, returned, raised, second, minutes}
use ra_backend.Core.Tokens.{encode, timestamp}

-- The registered claims have the types that `jwt.decode` asks for.
pub record IsMinted (c : Claims) (subject : String) (iat exp : ℕ) : Type 0 where
  pub sub_claim : Dict.get c "sub" ≡ some (text subject)
  pub iat_claim : Dict.get c "iat" ≡ some (num iat)
  pub exp_claim : Dict.get c "exp" ≡ some (num exp)
  pub jti_claim : (n : ℕ) → Dict.get c "jti" ≢ some (num n)

pub record JwtLaws {T : Type 0} (w : World T) : Type 0 where
  pub decode-encode :
      (c : Claims) (subject : String) (iat exp : ℕ) (now : Timestamp)
      → IsMinted c subject iat exp
      → iat * second ≤ now
      → now < exp * second
      → w.jwt_decode now (encode w c) w.settings.jwt_secret w.settings.jwt_algorithm ≡ returned c
  pub decode_expired :
      (c : Claims) (subject : String) (iat exp : ℕ) (now : Timestamp)
      → IsMinted c subject iat exp
      → iat * second ≤ now
      → exp * second ≤ now
      → w.jwt_decode now (encode w c) w.settings.jwt_secret w.settings.jwt_algorithm
        ≡ raised PyError.expired_signature

-- The seconds of a token's end, cut off by `int`.
pub timestamp_window :
    (now m later : ℕ)
    → now ≤ later
    → (timestamp now * second ≤ later)
      × (later + second ≤ now + minutes m → later < timestamp (now + minutes m) * second)
      × (now + minutes m ≤ later → timestamp (now + minutes m) * second ≤ later)
timestamp_window now m later h = (omega arith, omega arith, omega arith)
