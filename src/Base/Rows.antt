-- ===== src/Base/Rows.antt =====
-- A table as the list of its rows, in the order of insertion: the queries and the row updates that
-- the services send through the session.
use Prim.Native.Nat.{ℕ, suc, ◌+◌}
use mathlib.Core.Path.{◌≡◌, refl, ◌∙◌}
use mathlib.Core.Logic.{◌≢◌}
use Prim.Native.String.{String}
use text.Mathlib.Text.{◌==◌}
use text.Mathlib.TextEquality.{eq_iff}
use mathlib.Core.Bool.{Bool, true, false}
use mathlib.Core.List.{List, [], ◌∷◌, ◌++◌}
use native.Mathlib.Omega.{arith}
use ra_backend.Base.Tests.{if◌then◌else◌}

module _ {ℓ} {A : Type ℓ} where
  abbrev pub length : List A → ℕ
  length [] = 0
  length (x ∷ xs) = suc (length xs)

  -- `select(A).where(p)`
  abbrev pub select : (A → Bool) → List A → List A
  select p [] = []
  select p (x ∷ xs) = let rest = select p xs in if p x then x ∷ rest else rest

  -- The rows that satisfy `p` are written by `f`.
  abbrev pub modify : (A → Bool) → (A → A) → List A → List A
  modify p f [] = []
  modify p f (x ∷ xs) = (if p x then f x else x) ∷ modify p f xs

  -- Some row satisfies `p`.
  abbrev pub exists : (A → Bool) → List A → Bool
  exists p [] = false
  exists p (x ∷ xs) = let rest = exists p xs in if p x then true else rest

  pub length-append : (xs ys : List A) → length (xs ++ ys) ≡ length xs + length ys
  length-append [] ys = omega arith
  length-append (x ∷ xs) ys = omega (arith, length-append xs ys)

  pub length-modify : (p : A → Bool) (f : A → A) (xs : List A) → length (modify p f xs) ≡ length xs
  length-modify p f [] = refl
  length-modify p f (x ∷ xs) = omega (arith, length-modify p f xs)

  pub select-append :
      (p : A → Bool) (xs ys : List A) → select p (xs ++ ys) ≡ select p xs ++ select p ys
  select-append p [] ys = refl
  select-append p (x ∷ xs) ys = ground (arith, select-append p xs ys)

  -- A query whose test the update does not touch sees the updated rows of the old answer.
  pub select-modify :
      (p q : A → Bool) (f : A → A)
      → ((a : A) → p (f a) ≡ p a)
      → (xs : List A) → select p (modify q f xs) ≡ modify q f (select p xs)
  select-modify p q f keeps [] = refl
  select-modify p q f keeps (x ∷ xs) = ground (arith, keeps x, select-modify p q f keeps xs)

  pub exists-append :
      (p : A → Bool) (xs ys : List A)
      → exists p (xs ++ ys) ≡ (if exists p xs then true else exists p ys)
  exists-append p [] ys = refl
  exists-append p (x ∷ xs) ys = ground (arith, exists-append p xs ys)

  pub exists-modify :
      (p q : A → Bool) (f : A → A)
      → ((a : A) → p (f a) ≡ p a)
      → (xs : List A) → exists p (modify q f xs) ≡ exists p xs
  exists-modify p q f keeps [] = refl
  exists-modify p q f keeps (x ∷ xs) = ground (arith, keeps x, exists-modify p q f keeps xs)

  -- A row that is not there is not selected.
  pub select-eq-nil : (p : A → Bool) (xs : List A) → exists p xs ≡ false → select p xs ≡ []
  select-eq-nil p [] h = refl
  select-eq-nil p (x ∷ xs) h = ground (arith, select-eq-nil p xs)

  pub exists_of_select :
      (p : A → Bool) (xs : List A) (x : A) (r : List A) → select p xs ≡ x ∷ r → exists p xs ≡ true
  exists_of_select p [] x r h = cc
  exists_of_select p (y ∷ ys) x r h = ground (arith, exists_of_select p ys x r)

  -- What a query finds passes its test.
  pub test_of_select :
      (p : A → Bool) (xs : List A) (x : A) (r : List A) → select p xs ≡ x ∷ r → p x ≡ true
  test_of_select p [] x r h = cc
  test_of_select p (y ∷ ys) x r h = ground (arith, test_of_select p ys x r)

  modify-select_apart :
      (p q : A → Bool) (f : A → A)
      → ((a : A) → p a ≡ true → q a ≡ false)
      → (xs : List A) → modify q f (select p xs) ≡ select p xs
  modify-select_apart p q f apart [] = refl
  modify-select_apart p q f apart (x ∷ xs) =
      ground (arith, apart x, modify-select_apart p q f apart xs)

  -- The frame of an update: a query for other rows has the answer that it had.
  pub select-modify_apart :
      (p q : A → Bool) (f : A → A)
      → ((a : A) → p (f a) ≡ p a)
      → ((a : A) → p a ≡ true → q a ≡ false)
      → (xs : List A) → select p (modify q f xs) ≡ select p xs
  select-modify_apart p q f keeps apart xs =
      select-modify p q f keeps xs ∙ modify-select_apart p q f apart xs

module _ {ℓ} {A : Type ℓ} (p : A → Bool) where
  -- A row that one query finds is there for another whose test it passes.
  pub exists_of_found :
      (q : A → Bool) (xs : List A) (x : A) (r : List A)
      → select p xs ≡ x ∷ r
      → q x ≡ true
      → exists q xs ≡ true
  exists_of_found q [] x r h own = cc
  exists_of_found q (y ∷ ys) x r h own = ground (arith, exists_of_found q ys x r)

  -- The row that a query found is written, and the query finds what was written.
  pub select-modify_found :
      (q : A → Bool) (f : A → A) (x : A) (xs : List A)
      → ((a : A) → p (f a) ≡ p a)
      → q x ≡ true
      → select p xs ≡ x ∷ []
      → select p (modify q f xs) ≡ f x ∷ []
  select-modify_found q f x xs keeps own found = select-modify p q f keeps xs ∙ rw (found, own)

  -- The first row that passes the test is the only answer.
  pub select-append_new :
      (x : A) (xs : List A) → exists p xs ≡ false → p x ≡ true → select p (xs ++ x ∷ []) ≡ x ∷ []
  select-append_new x xs absent passes =
      select-append p xs (x ∷ []) ∙ rw (select-eq-nil p xs absent, passes)

  pub exists-modify_apart :
      (q : A → Bool) (f : A → A) (xs : List A)
      → ((a : A) → p a ≡ true → q a ≡ false)
      → exists p xs ≡ true
      → exists p (modify q f xs) ≡ true
  exists-modify_apart q f [] apart h = h
  exists-modify_apart q f (x ∷ xs) apart h =
      ground (arith, apart x, exists-modify_apart q f xs apart)

  pub exists-modify_hit :
      (q : A → Bool) (f : A → A) (xs : List A)
      → ((a : A) → q a ≡ true → p (f a) ≡ true)
      → exists q xs ≡ true
      → exists p (modify q f xs) ≡ true
  exists-modify_hit q f [] hit h = h
  exists-modify_hit q f (x ∷ xs) hit h = ground (arith, hit x, exists-modify_hit q f xs hit)

-- Two queries by different keys have no row in common.
pub keys_apart : (key i j : String) → i ≢ j → (key == i) ≡ true → (key == j) ≡ false
keys_apart key i j ne h = ground (arith, eq_iff key i, eq_iff key j)
