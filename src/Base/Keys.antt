-- ===== src/Base/Keys.antt =====
-- A unique column: no two rows of a table have the same text there.
use Prim.Native.String.{String}
use mathlib.Core.Path.{◌≡◌, refl, sym, subst}
use mathlib.Core.Logic.{◌⊎◌, inl, inr}
use mathlib.Core.Bool.{Bool, true, false, not, ◌&&◌}
use mathlib.Core.List.{List, [], ◌∷◌, ◌++◌}
use native.Mathlib.Omega.{arith}
use text.Mathlib.Text.{◌==◌}
use text.Mathlib.TextEquality.{eq_iff}
use ra_backend.Base.Tests.{if◌then◌else◌, Bool-cases}
use ra_backend.Base.Rows.{select, modify, exists, select-eq-nil}

module _ {ℓ} {A : Type ℓ} (key : A → String) where
  abbrev pub AreUnique : List A → Type 0
  AreUnique [] = Unit
  AreUnique (x ∷ xs) = (exists (λ y. key y == key x) xs ≡ false) × AreUnique xs

  exists-append_other :
      (k : String) (x : A) (xs : List A)
      → exists (λ y. key y == k) xs ≡ false
      → (key x == k) ≡ false
      → exists (λ y. key y == k) (xs ++ x ∷ []) ≡ false
  exists-append_other k x [] h other = rw other refl
  exists-append_other k x (y ∷ ys) h other = ground (arith, exists-append_other k x ys)

  -- A row with a new key is added.
  pub AreUnique-append :
      (x : A) (xs : List A)
      → exists (λ y. key y == key x) xs ≡ false
      → AreUnique xs
      → AreUnique (xs ++ x ∷ [])
  AreUnique-append x [] fresh h = (refl, tt)
  AreUnique-append x (y ∷ ys) fresh h = (
    exists-append_other (key y) x ys h.0
        (ground (arith, eq_iff (key y) (key x), eq_iff (key x) (key y))),
    AreUnique-append x ys (ground arith) h.1,
  )

  exists-modify_key :
      (q : A → Bool) (f : A → A) (k : String)
      → ((x : A) → key (f x) ≡ key x)
      → (xs : List A) → exists (λ y. key y == k) (modify q f xs) ≡ exists (λ y. key y == k) xs
  exists-modify_key q f k keeps [] = refl
  exists-modify_key q f k keeps (x ∷ xs) = ground (arith, keeps x, exists-modify_key q f k keeps xs)

  key_if : (b : Bool) (f : A → A) (x : A) → key (f x) ≡ key x → key (if b then f x else x) ≡ key x
  key_if true f x h = h
  key_if false f x h = refl

  -- Rows are written, and keep their keys.
  pub AreUnique-modify :
      (q : A → Bool) (f : A → A)
      → ((x : A) → key (f x) ≡ key x)
      → (xs : List A) → AreUnique xs
      → AreUnique (modify q f xs)
  AreUnique-modify q f keeps [] h = tt
  AreUnique-modify q f keeps (x ∷ xs) h = (
    rw (key_if (q x) f x (keeps x), exists-modify_key q f (key x) keeps xs) h.0,
    AreUnique-modify q f keeps xs h.1,
  )

  -- A look-up by a unique column finds one row at most.
  pub select-AreUnique :
      (k : String) (xs : List A)
      → AreUnique xs
      → (select (λ y. key y == k) xs ≡ []) ⊎ ((x : A) × (select (λ y. key y == k) xs ≡ x ∷ []))
  select-AreUnique k [] h = inl refl
  select-AreUnique k (x ∷ xs) h = elim (Bool-cases (key x == k)) [
    | inl same ↦ inr (
      x,
      rw (same, select-eq-nil (λ y. key y == k) xs (rw (sym ((eq_iff (key x) k).0 same)) h.0)),
    )
    | inr other ↦ rw other (select-AreUnique k xs h.1)
  ]

-- One row gets a new value in a unique column, which no other row has.
module _ {ℓ} {A : Type ℓ} (id key : A → String) (i k : String) (f : A → A)
    (same : (x : A) → id (f x) ≡ id x) (sets : (x : A) → key (f x) ≡ k) where
  renamed_elsewhere :
      (xs : List A) (j : String)
      → exists (λ x. id x == i) xs ≡ false
      → exists (λ y. key y == j) (modify (λ x. id x == i) f xs) ≡ exists (λ y. key y == j) xs
  renamed_elsewhere [] j h = refl
  renamed_elsewhere (x ∷ xs) j h = ground (arith, renamed_elsewhere xs j)

  renamed_absent :
      (xs : List A)
      → exists (λ x. id x == i) xs ≡ false
      → AreUnique key xs
      → AreUnique key (modify (λ x. id x == i) f xs)
  renamed_absent [] h u = tt
  renamed_absent (x ∷ xs) h u = elim (Bool-cases (id x == i)) [
    | inl hit ↦ cc
    | inr other ↦
        rw other (
          rw (renamed_elsewhere xs (key x) (ground arith)) u.0,
          renamed_absent xs (ground arith) u.1,
        )
  ]

  -- A value that no other row has: not among the rows after the write, but for the row itself.
  others_apart :
      (xs : List A) (j : String)
      → (j == k) ≡ false
      → exists (λ y. key y == j) xs ≡ false
      → exists (λ y. key y == j) (modify (λ x. id x == i) f xs) ≡ false
  others_apart [] j ne h = refl
  others_apart (x ∷ xs) j ne h =
      ground (arith, others_apart xs j, sets x, eq_iff j k, eq_iff k j, eq_iff (key (f x)) j)

  absent_others :
      (xs : List A)
      → exists (λ x. id x == i) xs ≡ false
      → exists (λ x. not (id x == i) && key x == k) xs ≡ false
      → exists (λ x. key x == k) xs ≡ false
  absent_others [] h o = refl
  absent_others (x ∷ xs) h o = ground (arith, absent_others xs)

  pub AreUnique-rename :
      (xs : List A)
      → AreUnique id xs
      → exists (λ x. not (id x == i) && key x == k) xs ≡ false
      → AreUnique key xs
      → AreUnique key (modify (λ x. id x == i) f xs)
  AreUnique-rename [] ids free u = tt
  AreUnique-rename (x ∷ xs) ids free u = elim (Bool-cases (id x == i)) [
    | inl hit ↦
        let gone : exists (λ x. id x == i) xs ≡ false =
          subst (λ j. exists (λ y. id y == j) xs ≡ false) ((eq_iff (id x) i).0 hit) ids.0 in
        rw hit (
          rw (sets x, renamed_elsewhere xs k gone) (absent_others xs gone (ground arith)),
          renamed_absent xs gone u.1,
        )
    | inr other ↦
        rw other
          (others_apart xs (key x) (ground arith) u.0, AreUnique-rename xs ids.1 (ground arith) u.1)
  ]
