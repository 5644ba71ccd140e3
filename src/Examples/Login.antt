-- ===== src/Examples/Login.antt =====
-- Logins: wrong passwords up to the lock, the locked account, and the upgrade of an old hash.
use ra_backend.Base.{String, true, false, none, List, [], ◌∷◌, ◌≡◌, refl, arith}
use ra_backend.Base.Text.{lower}
use ra_backend.Base.Decimal.{str}
use ra_backend.Models.{User, is_active}
use ra_backend.Core.World.{returned}
use ra_backend.Core.Exec.{Tx, err}
use ra_backend.Core.Passwords.{verify_password, needs_rehash}
use ra_backend.Core.Deps.{unauthorized}
use ra_backend.Identity.Login.{authenticate, accounts}
use ra_backend.Identity.Login.Lockout.{
  attempt, attempts, IsOpen, IsLockedFrom, attempts_lock, locked_refuses,
}
use ra_backend.Identity.Login.Success.{login_upgrades_hash}
use ra_backend.Examples.{a_world, a_context, a_state, ann, bob, a_world_argon}

abbrev guesses : List String
guesses = "a" ∷ "b" ∷ "c" ∷ []

ann-IsOpen : IsOpen a_world a_context "Ann@x.org" a_state ann
unfolding is_active lower
ann-IsOpen = record { found = refl; unlocked = λ n le. refl; active = refl }

abbrev locked_state : Tx
locked_state = attempts a_world a_context "Ann@x.org" guesses a_state

ann_is_locked :
    IsLockedFrom a_world a_context "Ann@x.org" locked_state (a_world.clock 5)
    × (locked_state.draws ≡ 6)
unfolding verify_password
ann_is_locked =
    attempts_lock a_world a_context "Ann@x.org" guesses a_state ann ann-IsOpen
      (refl, (refl, (refl, tt))) (omega arith) refl

attempts_lock_example :
    IsLockedFrom a_world a_context "Ann@x.org" locked_state (a_world.clock 5)
    × (locked_state.draws ≡ 6)
unfolding verify_password
attempts_lock_example =
    attempts_lock a_world a_context "Ann@x.org" guesses a_state ann ann-IsOpen
      (refl, (refl, (refl, tt))) (omega arith) refl

-- The right password, while the account is locked
locked_refuses_example :
    ((attempt a_world a_context "Ann@x.org" "pw" locked_state).0
      ≡ err (
          unauthorized "Account temporarily locked due to failed login attempts. Try again later."))
    × ((attempt a_world a_context "Ann@x.org" "pw" locked_state).1.committed
        ≡ locked_state.committed)
locked_refuses_example =
    locked_refuses a_world a_context "Ann@x.org" "pw" locked_state (a_world.clock 5) ann_is_locked.0
      (omega (arith, ann_is_locked.1))

login_upgrades_hash_example :
    let s' = (authenticate a_world "bob@x.org" "pw" none none a_state).1 in
    (u : User) × (accounts a_world "bob@x.org" s'.current.users ≡ u ∷ [])
    × (verify_password a_world "pw" u.hashed_password ≡ returned true)
    × (needs_rehash a_world u.hashed_password ≡ returned false)
    × (u.failed_login_count ≡ 0)
    × (u.locked_until ≡ none)
unfolding is_active verify_password needs_rehash lower str
login_upgrades_hash_example =
    login_upgrades_hash a_world "bob@x.org" "pw" none none a_state bob refl refl refl refl
      a_world_argon refl refl
