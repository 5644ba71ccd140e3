-- ===== src/Base/Order.antt =====
-- `ORDER BY … LIMIT … OFFSET …`: rows in an order, and a page of them. Rows that the order does not
-- tell apart stay in the order in which they are given.
use Prim.Native.Nat.{ℕ, suc}
use mathlib.Core.Bool.{Bool, true, false}
use mathlib.Core.List.{List, [], ◌∷◌, Perm}
use mathlib.Core.List.Perm
use mathlib.Core.Logic.{inl, inr}
use mathlib.Core.Path.{◌≡◌}
use native.Mathlib.Omega.{arith}
use ra_backend.Base.Tests.{if◌then◌else◌, Bool-cases, leb}

module _ {ℓ} {A : Type ℓ} where
  -- `before x y`: a row `x` that was inserted before `y` comes before it.
  unfoldable pub insert_by : (A → A → Bool) → A → List A → List A
  insert_by before x [] = x ∷ []
  insert_by before x (y ∷ ys) =
      let rest = insert_by before x ys in if before x y then x ∷ y ∷ ys else y ∷ rest

  unfoldable pub order_by : (A → A → Bool) → List A → List A
  unfolding insert_by
  order_by before [] = []
  order_by before (x ∷ xs) = insert_by before x (order_by before xs)

  unfoldable pub take : ℕ → List A → List A
  take (suc n) (x ∷ xs) = x ∷ take n xs
  take _ _ = []

  unfoldable pub drop : ℕ → List A → List A
  drop (suc n) (x ∷ xs) = drop n xs
  drop _ xs = xs

  -- `.limit(limit).offset(offset)`
  unfoldable pub page : ℕ → ℕ → List A → List A
  unfolding take drop
  page limit offset xs = take limit (drop offset xs)

  abbrev pub All {κ} : (A → Type κ) → List A → Type κ
  All P [] = Unit
  All P (x ∷ xs) = P x × All P xs

  -- Every row comes before all that follow it.
  abbrev pub IsOrdered : (A → A → Bool) → List A → Type 0
  IsOrdered before [] = Unit
  IsOrdered before (x ∷ xs) = All (λ y. before x y ≡ true) xs × IsOrdered before xs

  insert_by-perm :
      (before : A → A → Bool) (x : A) (xs : List A) → Perm (insert_by before x xs) (x ∷ xs)
  unfolding insert_by
  insert_by-perm before x [] = Perm.refl (x ∷ [])
  insert_by-perm before x (y ∷ ys) = elim (Bool-cases (before x y)) [
    | inl yes_before ↦ rw yes_before (Perm.refl (x ∷ y ∷ ys))
    | inr later ↦
        rw later (Perm.trans (Perm.cons y (insert_by-perm before x ys)) (Perm.swap x y ys))
  ]

  pub order_by-perm : (before : A → A → Bool) (xs : List A) → Perm (order_by before xs) xs
  unfolding order_by
  order_by-perm before [] = Perm.refl []
  order_by-perm before (x ∷ xs) =
      Perm.trans (insert_by-perm before x (order_by before xs))
        (Perm.cons x (order_by-perm before xs))

  module _ (before : A → A → Bool) (total : (x y : A) → before x y ≡ false → before y x ≡ true)
      (trans : (x y z : A) → before x y ≡ true → before y z ≡ true → before x z ≡ true) where
    All-trans :
        (x y : A) (zs : List A)
        → before x y ≡ true
        → All (λ z. before y z ≡ true) zs
        → All (λ z. before x z ≡ true) zs
    All-trans x y [] h all = tt
    All-trans x y (z ∷ zs) h all = (trans x y z h all.0, All-trans x y zs h all.1)

    All-insert_by :
        (y x : A) (xs : List A)
        → before y x ≡ true
        → All (λ z. before y z ≡ true) xs
        → All (λ z. before y z ≡ true) (insert_by before x xs)
    unfolding insert_by
    All-insert_by y x [] h all = (h, tt)
    All-insert_by y x (z ∷ zs) h all = ground (arith, All-insert_by y x zs h all.1)

    insert_by-IsOrdered :
        (x : A) (xs : List A) → IsOrdered before xs → IsOrdered before (insert_by before x xs)
    unfolding insert_by
    insert_by-IsOrdered x [] h = (tt, tt)
    insert_by-IsOrdered x (y ∷ ys) h = elim (Bool-cases (before x y)) [
      | inl first ↦ rw first ((first, All-trans x y ys first h.0), h)
      | inr later ↦
          rw later (All-insert_by y x ys (total x y later) h.0, insert_by-IsOrdered x ys h.1)
    ]

    pub order_by-IsOrdered : (xs : List A) → IsOrdered before (order_by before xs)
    unfolding order_by
    order_by-IsOrdered [] = tt
    order_by-IsOrdered (x ∷ xs) = insert_by-IsOrdered x (order_by before xs) (order_by-IsOrdered xs)

-- `order_by(column.desc())` on a column of times, and `order_by(column)`
module _ {A : Type 0} (at : A → ℕ) where
  abbrev pub newest_first : A → A → Bool
  newest_first x y = leb (at y) (at x)

  abbrev pub oldest_first : A → A → Bool
  oldest_first x y = leb (at x) (at y)

  pub oldest_first-IsOrdered : (xs : List A) → IsOrdered oldest_first (order_by oldest_first xs)
  oldest_first-IsOrdered =
      order_by-IsOrdered oldest_first (λ x y h. ground arith) (λ x y z h k. ground arith)
