-- ===== src/Core/Exec.antt =====
-- app/core/database.py: a request runs in one transaction. What it has flushed is visible to
-- itself (`current`); `commit` makes it visible to others (`committed`), and an exception rolls
-- back to what was committed last.
use ra_backend.Base.{◌≡◌, ap, ℕ, ◌+◌, Bool, true, false, Option, none, some, List, [], ◌∷◌}
use ra_backend.Models.{Db}
use ra_backend.Models.Common.{Timestamp}
use ra_backend.Core.Errors.{Exc, PyError, python, integrity}
use ra_backend.Core.World.{World, Outcome, returned, raised, Constraint}

pub record Tx : Type 0 where
  pub committed : Db
  pub current : Db
  -- `now()` of the transaction
  pub started : Timestamp
  -- how many readings of the clock and of the random source were made
  pub draws : ℕ

pub data Result {ℓ} (A : Type ℓ) : Type ℓ where
  ok : A → Result A
  err : Exc → Result A

abbrev pub Exec {ℓ} : Type ℓ → Type ℓ
Exec A = Tx → Result A × Tx

module _ {ℓ} {A : Type ℓ} where
  abbrev pub pure : A → Exec A
  pure a s = (ok a, s)

  abbrev pub raise : Exc → Exec A
  raise e s = (err e, s)

  abbrev pub branch : Bool → Exec A → Exec A → Exec A
  branch true m n s = m s
  branch false m n s = n s

  abbrev pub lift : Result A → Exec A
  lift r s = (r, s)

  abbrev pub value_or : Option A → Exc → Result A
  value_or none e = err e
  value_or (some a) e = ok a

  abbrev pub or_raise : Option A → Exc → Exec A
  or_raise o e s = (value_or o e, s)

  abbrev pub query : (Db → A) → Exec A
  query f s = (ok (f s.current), s)

  abbrev pub draw : (ℕ → A) → Exec A
  draw f s = (ok (f s.draws), record s { draws = s.draws + 1 })

-- A library call that may raise.
abbrev pub result : {A : Type 0} → Outcome A → Result A
result (returned a) = ok a
result (raised e) = err (python e)

abbrev pub call : {A : Type 0} → Outcome A → Exec A
call o s = (result o, s)

abbrev pub at_most_one {ℓ} : {A : Type ℓ} → List A → Result (Option A)
at_most_one [] = ok none
at_most_one (x ∷ []) = ok (some x)
at_most_one (x ∷ y ∷ r) = err (python PyError.multiple_results_found)

-- `Result.scalar_one_or_none()`
abbrev pub scalar_one_or_none {ℓ} : {A : Type ℓ} → List A → Exec (Option A)
scalar_one_or_none rows s = (at_most_one rows, s)

-- What follows a step, at the step's result.
abbrev pub after {ℓ κ} : {A : Type ℓ} {B : Type κ} → (A → Exec B) → Result A × Tx → Result B × Tx
after f (ok a, s) = f a s
after f (err e, s) = (err e, s)

infixl 5 ◌>>=◌ ◌>>◌
abbrev pub ◌>>=◌ {ℓ κ} : {A : Type ℓ} {B : Type κ} → Exec A → (A → Exec B) → Exec B
◌>>=◌ m f s = after f (m s)

abbrev pub ◌>>◌ {ℓ κ} : {A : Type ℓ} {B : Type κ} → Exec A → Exec B → Exec B
m >> k = m >>= λ _. k

abbrev pub unless : Bool → Exc → Result (Unit {0})
unless true e = err e
unless false e = ok tt

abbrev pub raise_if : Bool → Exc → Exec (Unit {0})
raise_if b e s = (unless b e, s)

-- Rows are written and flushed; the constraints are checked first.
abbrev pub write : (Db → Db) → Exec (Unit {0})
write f s = (ok tt, record s { current = f s.current })

abbrev pub violation : {T : Type 0} → World T → Bool → Constraint → Exec (Unit {0})
violation w b c = raise_if b (integrity (w.origin_name c))

-- The default of a `created_at` column
abbrev pub started_at : Exec Timestamp
started_at s = (ok s.started, s)

-- `db.commit()` in the middle of a request
abbrev pub commit : Exec (Unit {0})
commit s = (ok tt, record s { committed = s.current })

-- `session.rollback()`
abbrev pub rollback : Exec (Unit {0})
rollback s = (ok tt, record s { current = s.committed })

-- `try: … except Exception as e: …`
abbrev pub handled {ℓ} : {A : Type ℓ} → (Exc → Exec A) → Result A × Tx → Result A × Tx
handled h (ok a, s) = (ok a, s)
handled h (err e, s) = h e s

abbrev pub rescue {ℓ} : {A : Type ℓ} → Exec A → (Exc → Exec A) → Exec A
rescue m h s = handled h (m s)

-- The end of `get_session`: commit, or roll back and raise again.
abbrev pub finish {ℓ} : {A : Type ℓ} → Result A × Tx → Result A × Tx
finish (ok a, s) = (ok a, record s { committed = s.current })
finish (err e, s) = (err e, record s { current = s.committed })

-- The session is opened: the transaction's clock is read at its first statement.
abbrev pub begin : {T : Type 0} → World T → Tx → Tx
begin w s = record s { current = s.committed; started = w.clock s.draws; draws = s.draws + 1 }

-- `get_session` around a handler
unfoldable pub request {ℓ} : {T : Type 0} {A : Type ℓ} → World T → Exec A → Tx → Result A × Tx
request w m s = finish (m (begin w s))

-- A request whose first step raises ends there, and rolls back to what was committed.
pub request_raises {ℓ κ} :
    {T : Type 0} {A : Type ℓ} {B : Type κ} (w : World T) (m : Exec A) (f : A → Exec B) (s s' : Tx)
    (e : Exc)
    → m (begin w s) ≡ (err e, s')
    → request w (m >>= f) s ≡ (err e, record s' { current = s'.committed })
unfolding request
request_raises w m f s s' e h = ap (λ r. finish (after f r)) h
