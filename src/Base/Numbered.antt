-- ===== src/Base/Numbered.antt =====
-- Human-readable references that count the rows: the n-th row of a table, from 0, has the reference
-- "<prefix><base + n + 1>". Rows are only appended, so a new reference is always free.
use Prim.Native.Nat.{ℕ, suc, ◌+◌, ◌≤◌}
use Prim.Native.String.{String}
use mathlib.Core.Bool.{Bool, true, false}
use mathlib.Core.List.{List, [], ◌∷◌, ◌++◌}
use mathlib.Core.Logic.{◌≢◌}
use mathlib.Core.Path.{◌≡◌, refl, ap, ◌∙◌}
use native.Mathlib.Omega.{arith}
use text.Mathlib.Text.{◌==◌}
use ra_backend.Base.Decimal.{str}
use ra_backend.Base.Join.{join, reference-injective}
use ra_backend.Base.Rows.{length, exists, modify}
use ra_backend.Base.Tests.{ne→not_eq, if◌then◌else◌}

abbrev pub reference_at : String → ℕ → ℕ → String
reference_at prefix base n = join (prefix ∷ str (base + n + 1) ∷ [])

module _ {A : Type 0} (reference : A → String) (prefix : String) (base : ℕ) where
  -- The rows have the references of the numbers from `n` on.
  abbrev pub IsNumbered : ℕ → List A → Type 0
  IsNumbered n [] = Unit
  IsNumbered n (x ∷ xs) = (reference x ≡ reference_at prefix base n) × IsNumbered (n + 1) xs

  pub IsNumbered-append :
      (n : ℕ) (xs : List A) (x : A)
      → IsNumbered n xs
      → reference x ≡ reference_at prefix base (n + length xs)
      → IsNumbered n (xs ++ x ∷ [])
  IsNumbered-append n [] x h e = (e ∙ ap (reference_at prefix base) (omega arith), tt)
  IsNumbered-append n (y ∷ xs) x h e =
      (h.0, IsNumbered-append (n + 1) xs x h.1 (e ∙ ap (reference_at prefix base) (omega arith)))

  pub IsNumbered-modify :
      (q : A → Bool) (f : A → A)
      → ((a : A) → reference (f a) ≡ reference a)
      → (n : ℕ) (xs : List A) → IsNumbered n xs
      → IsNumbered n (modify q f xs)
  IsNumbered-modify q f keeps n [] h = tt
  IsNumbered-modify q f keeps n (x ∷ xs) h =
      (written (q x), IsNumbered-modify q f keeps (n + 1) xs h.1)
    where
      written : (b : Bool) → reference (if b then f x else x) ≡ reference_at prefix base n
      written true = keeps x ∙ h.0
      written false = h.0

  differ : (m n : ℕ) → suc m ≤ n → reference_at prefix base m ≢ reference_at prefix base n
  differ m n lt e = absurd (omega (arith, reference-injective prefix _ _ e))

  -- A reference from the end on is not taken.
  pub reference_is_free :
      (n k : ℕ) (xs : List A)
      → IsNumbered n xs
      → n + length xs ≤ k
      → exists (λ x. reference x == reference_at prefix base k) xs ≡ false
  reference_is_free n k [] h le = refl
  reference_is_free n k (x ∷ xs) h le =
      rw (h.0, ne→not_eq _ _ (differ n k (omega arith)))
        (reference_is_free (n + 1) k xs h.1 (omega arith))
