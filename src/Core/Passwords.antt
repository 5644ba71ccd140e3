-- ===== src/Core/Passwords.antt =====
-- app/core/security.py, passwords: Argon2id for new hashes, bcrypt to verify old ones.
pub mod Laws
use text.Mathlib.Text.{starts_with}
use ra_backend.Base.{String, Bool, true, false, ◌||◌, non_empty, if◌then◌else◌}
use ra_backend.Core.Errors.{PyError}
use ra_backend.Core.World.{World, Outcome, returned, raised}
use ra_backend.Core.Exec.{Exec, draw}

-- The `except` clauses of `verify_password`.
unfoldable pub catch_verify : Outcome Bool → Outcome Bool
catch_verify (returned b) = returned b
catch_verify (raised PyError.verify_mismatch) = returned false
catch_verify (raised PyError.invalid_hash) = returned false
catch_verify (raised PyError.verification_error) = returned false
catch_verify (raised PyError.value_error) = returned false
catch_verify (raised PyError.type_error) = returned false
catch_verify (raised e) = raised e

-- The `except` clause of `needs_rehash`.
unfoldable pub catch_rehash : Outcome Bool → Outcome Bool
catch_rehash (returned b) = returned b
catch_rehash (raised PyError.invalid_hash) = returned true
catch_rehash (raised e) = raised e

abbrev pub is_argon : String → Bool
is_argon hashed = starts_with hashed "$argon2"

-- `hashed.startswith(_BCRYPT_PREFIXES)`
abbrev pub is_bcrypt : String → Bool
is_bcrypt hashed =
    starts_with hashed "$2a$" || starts_with hashed "$2b$" || starts_with hashed "$2y$"

module _ {T : Type 0} (w : World T) where
  unfoldable pub hash_password : String → Exec String
  hash_password plain = draw (λ n. w.argon_hash n plain)

  unfoldable pub verify_password : String → String → Outcome Bool
  unfolding catch_verify
  verify_password plain hashed =
      if non_empty hashed
      then (if is_argon hashed
          then catch_verify (w.argon_verify hashed plain)
          else if is_bcrypt hashed
          then catch_verify (w.bcrypt_checkpw plain hashed)
          else returned false)
      else returned false

  unfoldable pub needs_rehash : String → Outcome Bool
  unfolding catch_rehash
  needs_rehash hashed =
      if non_empty hashed
      then (if is_argon hashed
          then catch_rehash (w.argon_check_needs_rehash hashed)
          else returned true)
      else returned true
