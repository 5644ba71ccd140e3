-- ===== src/Core/Holds.antt =====
-- Invariants of the database under the computations of app/core/database.py's sessions: a property
-- of what is committed and of what the session sees, one rule for each way to go on.
use ra_backend.Base.{ℕ, Bool, true, false}
use ra_backend.Models.{Db}
use ra_backend.Core.Errors.{Exc}
use ra_backend.Core.World.{World}
use ra_backend.Core.Exec.{
  ◌>>=◌, pure, lift, query, draw, write, commit, rollback, rescue, started_at, Tx, Result, ok, err,
  Exec, after, handled, branch, finish, begin, request,
}

pub record Holds (P : Db → Type 0) (s : Tx) : Type 0 where
  pub committed : P s.committed
  pub current : P s.current

-- A computation keeps a property, whether it returns or raises.
pub record Keeps {A : Type 0} (P : Db → Type 0) (m : Exec A) : Type 0 where
  pub at : (s : Tx) → Holds P s → Holds P (m s).1

module _ {P : Db → Type 0} where
  module _ {A B : Type 0} where
    Holds-after :
        (f : A → Exec B) (x : Result A × Tx)
        → Holds P x.1
        → ((a : A) → Keeps P (f a))
        → Holds P (after f x).1
    Holds-after f (ok a, s) h k = (k a).at s h
    Holds-after f (err e, s) h k = h

    pub Keeps-bind :
        (m : Exec A) (f : A → Exec B) → Keeps P m → ((a : A) → Keeps P (f a)) → Keeps P (m >>= f)
    Keeps-bind m f km kf = record { at = λ s h. Holds-after f (m s) (km.at s h) kf }

  module _ {A B : Type 0} where
    -- A step that leaves the session alone: a query, a check, a library call.
    pub Keeps-read :
        (r : Tx → Result A) (f : A → Exec B)
        → ((a : A) → Keeps P (f a))
        → Keeps P ((λ s. (r s, s)) >>= f)
    Keeps-read r f = Keeps-bind (λ s. (r s, s)) f (record { at = λ s h. h })

    pub Keeps-drawn :
        (g : ℕ → A) (f : A → Exec B) → ((a : A) → Keeps P (f a)) → Keeps P (draw g >>= f)
    Keeps-drawn g f =
        Keeps-bind (draw g) f
          (record { at = λ s h. record { committed = h.committed; current = h.current } })

  module _ {B : Type 0} where
    pub Keeps-pure : (b : B) → Keeps P (pure b)
    Keeps-pure b = record { at = λ s h. h }

    pub Keeps-lift : (r : Result B) → Keeps P (lift r)
    Keeps-lift r = record { at = λ s h. h }

    pub Keeps-query : (f : Db → B) → Keeps P (query f)
    Keeps-query f = record { at = λ s h. h }

    pub Keeps-draw : (f : ℕ → B) → Keeps P (draw f)
    Keeps-draw f = record { at = λ s h. record { committed = h.committed; current = h.current } }

    pub Keeps-branch : (b : Bool) (m n : Exec B) → Keeps P m → Keeps P n → Keeps P (branch b m n)
    Keeps-branch b m n km kn = record { at = λ s h. branch_at b m n km kn s h }
      where
        branch_at :
            (b : Bool) (m n : Exec B)
            → Keeps P m
            → Keeps P n
            → (s : Tx) → Holds P s
            → Holds P (branch b m n s).1
        branch_at true m n km kn s h = km.at s h
        branch_at false m n km kn s h = kn.at s h

    Holds-handled :
        (k : Exc → Exec B) (x : Result B × Tx)
        → Holds P x.1
        → ((e : Exc) → Keeps P (k e))
        → Holds P (handled k x).1
    Holds-handled k (ok a, s) h kk = h
    Holds-handled k (err e, s) h kk = (kk e).at s h

    pub Keeps-rescue :
        (m : Exec B) (k : Exc → Exec B)
        → Keeps P m
        → ((e : Exc) → Keeps P (k e))
        → Keeps P (rescue m k)
    Keeps-rescue m k km kk = record { at = λ s h. Holds-handled k (m s) (km.at s h) kk }

  pub Keeps-started_at : Keeps P started_at
  Keeps-started_at = record { at = λ s h. h }

  pub Keeps-commit : Keeps P commit
  Keeps-commit = record { at = λ s h. record { committed = h.current; current = h.current } }

  pub Keeps-rollback : Keeps P rollback
  Keeps-rollback = record { at = λ s h. record { committed = h.committed; current = h.committed } }

  pub Keeps-write : (f : Db → Db) → ((db : Db) → P db → P (f db)) → Keeps P (write f)
  Keeps-write f keeps = record {
    at = λ s h. record { committed = h.committed; current = keeps s.current h.current };
  }

  module _ {B : Type 0} where
    Holds-finish : (x : Result B × Tx) → Holds P x.1 → P (finish x).1.committed
    Holds-finish (ok b, s) h = h.current
    Holds-finish (err e, s) h = h.committed

    -- A request whose handler keeps a property of the committed database leaves it so.
    pub Keeps-request :
        {T : Type 0} (w : World T) (m : Exec B) (s : Tx)
        → Keeps P m
        → P s.committed
        → P (request w m s).1.committed
    unfolding request
    Keeps-request w m s k p =
        Holds-finish (m (begin w s)) (k.at (begin w s) (record { committed = p; current = p }))

pub ruleset keeps_rules = (
  Keeps-bind, Keeps-pure, Keeps-lift, Keeps-query, Keeps-draw, Keeps-branch, Keeps-commit,
  Keeps-rollback, Keeps-started_at,
)
