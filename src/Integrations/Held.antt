-- ===== src/Integrations/Held.antt =====
-- The module globals of app/integrations and app/core/redis.py: a client that is made when it is
-- first asked for and held until it is closed. The two counts are the model's own: how many
-- clients were made, and how many of them were closed.
use ra_backend.Base.{ℕ, ◌+◌, Option, none, some, ◌≡◌, arith}
use ra_backend.Core.Errors.{Exc, python}
use ra_backend.Core.World.{Outcome, returned, raised}
use ra_backend.Core.Exec.{Result, ok, err, result}

pub record Slot (C : Type 0) : Type 0 where
  pub held : Option C
  pub made : ℕ
  pub closed : ℕ

-- A computation that reads and sets the global.
abbrev pub Uses : Type 0 → Type 0 → Type 0
Uses C A = Slot C → Result A × Slot C

module _ {C A : Type 0} where
  abbrev pub give : A → Uses C A
  give a s = (ok a, s)

  abbrev pub fail : Exc → Uses C A
  fail e s = (err e, s)

  -- A call of a library, which does not touch the global.
  abbrev pub call : Outcome A → Uses C A
  call o s = (result o, s)

  abbrev caught : (Exc → Uses C A) → Result A × Slot C → Result A × Slot C
  caught h (ok a, s) = (ok a, s)
  caught h (err e, s) = h e s

  -- `try: … except Exception as exc: …`
  abbrev pub rescue : Uses C A → (Exc → Uses C A) → Uses C A
  rescue m h s = caught h (m s)

abbrev next : {C A B : Type 0} → (A → Uses C B) → Result A × Slot C → Result B × Slot C
next f (ok a, s) = f a s
next f (err e, s) = (err e, s)

infixl 5 ◌>>=◌ ◌>>◌
abbrev pub ◌>>=◌ : {C A B : Type 0} → Uses C A → (A → Uses C B) → Uses C B
◌>>=◌ m f s = next f (m s)

abbrev pub ◌>>◌ : {C A B : Type 0} → Uses C A → Uses C B → Uses C B
m >> k = m >>= λ _. k

module _ {C : Type 0} where
  abbrev make : Outcome C → Slot C → Result C × Slot C
  make (returned c) s = (ok c, record s { held = some c; made = s.made + 1 })
  make (raised e) s = (err (python e), s)

  abbrev get_from : Outcome C → Option C → Slot C → Result C × Slot C
  get_from connect none s = make connect s
  get_from connect (some c) s = (ok c, s)

  -- The held client, or a new one, which `connect` makes.
  unfoldable pub get_or_make : Outcome C → Uses C C
  get_or_make connect s = get_from connect s.held s

  abbrev pub held_count : Option C → ℕ
  held_count none = 0
  held_count (some c) = 1

  -- Every client that was made is held or was closed.
  abbrev pub IsBalanced : Slot C → Type 0
  IsBalanced s = s.made ≡ s.closed + held_count s.held

  pub get_or_make-IsBalanced :
      (connect : Outcome C) (s : Slot C) → IsBalanced s → IsBalanced (get_or_make connect s).1
  unfolding get_or_make
  get_or_make-IsBalanced connect s b = ground arith
