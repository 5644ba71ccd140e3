-- ===== src/Core/Passwords/Laws.antt =====
-- What the password functions promise, from what the hashing libraries document.
use ra_backend.Base.{
  ℕ, String, Bool, true, false, ◌≡◌, refl, inl, inr, arith, Bool-cases, non_empty,
}
use ra_backend.Core.Errors.{PyError}
use ra_backend.Core.World.{World, Outcome, returned, raised}
use ra_backend.Core.Passwords.{is_argon, is_bcrypt, catch_verify, verify_password, needs_rehash}

-- The exceptions that argon2-cffi and bcrypt document for a wrong password or a malformed hash.
abbrev pub IsDocumented : Outcome Bool → Type 0
IsDocumented (returned b) = Unit
IsDocumented (raised PyError.verify_mismatch) = Unit
IsDocumented (raised PyError.invalid_hash) = Unit
IsDocumented (raised PyError.verification_error) = Unit
IsDocumented (raised PyError.value_error) = Unit
IsDocumented (raised PyError.type_error) = Unit
IsDocumented (raised e) = ⊥

-- What argon2-cffi documents of the hashes that it makes.
pub record ArgonLaws {T : Type 0} (w : World T) : Type 0 where
  pub tagged : (n : ℕ) (p : String) → is_argon (w.argon_hash n p) ≡ true
  pub tag_not_empty : (n : ℕ) (p : String) → non_empty (w.argon_hash n p) ≡ true
  pub verifies : (n : ℕ) (p : String) → w.argon_verify (w.argon_hash n p) p ≡ returned true
  pub current :
      (n : ℕ) (p : String) → w.argon_check_needs_rehash (w.argon_hash n p) ≡ returned false

catch_documented : (o : Outcome Bool) → IsDocumented o → (b : Bool) × (catch_verify o ≡ returned b)
unfolding catch_verify
catch_documented (returned b) d = (b, refl)
catch_documented (raised PyError.verify_mismatch) d = (false, refl)
catch_documented (raised PyError.invalid_hash) d = (false, refl)
catch_documented (raised PyError.verification_error) d = (false, refl)
catch_documented (raised PyError.value_error) d = (false, refl)
catch_documented (raised PyError.type_error) d = (false, refl)
catch_documented (raised e) d = elim d [ ]

catch_true : (o : Outcome Bool) → catch_verify o ≡ returned true → o ≡ returned true
unfolding catch_verify
catch_true (returned b) h = h
catch_true (raised PyError.verify_mismatch) h = cc
catch_true (raised e) h = cc

module _ {T : Type 0} (w : World T) where
  -- A password verifies against the hash just made of it, which needs no new hash.
  pub verify-hash :
      ArgonLaws w
      → (n : ℕ) (p : String)
      → (verify_password w p (w.argon_hash n p) ≡ returned true)
        × (needs_rehash w (w.argon_hash n p) ≡ returned false)
  unfolding verify_password needs_rehash
  verify-hash laws n p = (
    rw (laws.tag_not_empty n p, laws.tagged n p, laws.verifies n p),
    rw (laws.tag_not_empty n p, laws.tagged n p, laws.current n p),
  )

  -- Where the libraries raise only what they document for a wrong password or a malformed hash, the
  -- verification of any password against any text returns a truth value.
  verify_never_raises :
      (p h : String)
      → IsDocumented (w.argon_verify h p)
      → IsDocumented (w.bcrypt_checkpw p h)
      → (b : Bool) × (verify_password w p h ≡ returned b)
  unfolding verify_password
  verify_never_raises p h da db = elim (Bool-cases (non_empty h)) [
    | inr empty ↦ (false, rw empty)
    | inl some_hash ↦ elim (Bool-cases (is_argon h)) [
      | inl argon ↦ (
        (catch_documented (w.argon_verify h p) da).0,
        rw (some_hash, argon) (catch_documented (w.argon_verify h p) da).1,
      )
      | inr other ↦ elim (Bool-cases (is_bcrypt h)) [
        | inl bcrypt ↦ (
          (catch_documented (w.bcrypt_checkpw p h) db).0,
          rw (some_hash, other, bcrypt) (catch_documented (w.bcrypt_checkpw p h) db).1,
        )
        | inr unknown ↦ (false, rw (some_hash, other, unknown))
      ]
    ]
  ]

  -- A hash that verifies and has no Argon2 tag is a bcrypt hash that bcrypt verified, and it needs
  -- a new hash.
  legacy_needs_rehash :
      (p h : String)
      → verify_password w p h ≡ returned true
      → is_argon h ≡ false
      → (is_bcrypt h ≡ true)
        × (w.bcrypt_checkpw p h ≡ returned true)
        × (needs_rehash w h ≡ returned true)
  unfolding verify_password needs_rehash
  legacy_needs_rehash p h v n = ground (arith, catch_true (w.bcrypt_checkpw p h))
