-- ===== src/Base/Doubles/Laws.antt =====
-- How far the operations of Base/Doubles are from the exact quotients.
use Prim.Native.Nat.{ℕ, zero, suc, ◌+◌, ◌*◌, ◌/◌, ◌%◌, ◌^◌, ◌≤◌, ◌<◌}
use Prim.Native.Nat.pow
use mathlib.Core.Bool.{true, false}
use mathlib.Core.Logic.{◌⊎◌, inl, inr}
use mathlib.Core.Path.{◌≡◌, refl, subst, sym, ap, ◌∙◌}
use native.Mathlib.Nat.{mod-lt, div-add-mod, mul-le-mul_left, mul-le-mul_right}
use native.Mathlib.Omega.{arith}
use ra_backend.Base.Tests.{
  ltb, leb, if◌then◌else◌, Bool-cases, ltb→lt, leb→le, not_ltb→le, lt→not_leb, lt→ltb,
}
use ra_backend.Base.Doubles.{float_of, half_even, finer, coarser, to_double}

-- `t` is within a half of `a / b`.
pub record IsNear (a b t : ℕ) : Type 0 where
  pub above : 2 * (t * b) ≤ 2 * a + b
  pub below : 2 * a ≤ 2 * (t * b) + b

parity : (q : ℕ) → (q % 2 ≡ 0) ⊎ (q % 2 ≡ 1)
parity q = ground arith

module _ (a b q r : ℕ) (split : b * q + r ≡ a) (small : r < b) where
  down-IsNear : 2 * r ≤ b → IsNear a b q
  down-IsNear h = record { above = omega arith; below = omega arith }

  up-IsNear : b ≤ 2 * r → IsNear a b (q + 1)
  up-IsNear h = record { above = omega arith; below = omega arith }

  tie-IsNear : b ≤ 2 * r → 2 * r ≤ b → IsNear a b (q + q % 2)
  tie-IsNear low high = elim (parity q) [
    | inl even ↦ rw even (whole-IsNear high)
    | inr odd ↦ rw odd (up-IsNear low)
  ]
    where
      whole-IsNear : 2 * r ≤ b → IsNear a b (q + 0)
      whole-IsNear h = record { above = omega arith; below = omega arith }

  if-IsNear : IsNear a b (if ltb (2 * r) b then q else if ltb b (2 * r) then q + 1 else q + q % 2)
  if-IsNear = elim (Bool-cases (ltb (2 * r) b)) [
    | inl low ↦ rw low (down-IsNear (omega (arith, ltb→lt _ _ low)))
    | inr not_low ↦ elim (Bool-cases (ltb b (2 * r))) [
      | inl high ↦ rw (not_low, high) (up-IsNear (omega (arith, ltb→lt _ _ high)))
      | inr tie ↦ rw (not_low, tie) (tie-IsNear (not_ltb→le _ _ not_low) (not_ltb→le _ _ tie))
    ]
  ]

-- `half_even` rounds to the nearest.
pub half_even-IsNear : (a b : ℕ) → 0 < b → IsNear a b (half_even a b)
unfolding half_even
half_even-IsNear a b pos = if-IsNear a b (a / b) (a % b) (div-add-mod a b) (mod-lt a pos)

bound_of : (a b c t : ℕ) → 0 < b → a ≤ c * b → 2 * (t * b) ≤ 2 * a + b → t ≤ c
bound_of a b c t pos h near = elim (Bool-cases (leb t c)) [
  | inl le ↦ leb→le t c le
  | inr gt ↦ absurd (omega (arith, mul-le-mul_right b (over gt)))
]
  where
    over : leb t c ≡ false → suc c ≤ t
    over gt = ground arith

-- A whole bound of the quotient bounds what it is rounded to.
pub half_even-le : (a b c : ℕ) → 0 < b → a ≤ c * b → half_even a b ≤ c
half_even-le a b c pos h = bound_of a b c _ pos h (half_even-IsNear a b pos).above

floor_of : (a b c t : ℕ) → 0 < b → c * b ≤ a → 2 * a ≤ 2 * (t * b) + b → c ≤ t
floor_of a b c t pos h near = elim (Bool-cases (leb c t)) [
  | inl le ↦ leb→le c t le
  | inr gt ↦ absurd (omega (arith, mul-le-mul_right b (over gt)))
]
  where
    over : leb c t ≡ false → suc t ≤ c
    over gt = ground arith

pub half_even-ge : (a b c : ℕ) → 0 < b → c * b ≤ a → c ≤ half_even a b
half_even-ge a b c pos h = floor_of a b c _ pos h (half_even-IsNear a b pos).below

-- A whole quotient is what it is rounded to.
pub half_even-whole : (b c : ℕ) → 0 < b → half_even (c * b) b ≡ c
half_even-whole b c pos =
    omega (
      arith,
      half_even-le (c * b) b c pos (omega arith),
      half_even-ge (c * b) b c pos (omega arith),
    )

pub finer_pos : (fuel n d : ℕ) → 0 < finer fuel n d
unfolding finer
finer_pos zero n d = omega arith
finer_pos (suc fuel) n d =
    elim (leb (4503599627370496 * d) n)
      as (λ b. 0 < elim b [ true ↦ 1 | false ↦ 2 * finer fuel (2 * n) d ]) [
        | true ↦ omega arith
        | false ↦ omega (arith, finer_pos fuel (2 * n) d)
      ]

power_pos : (j : ℕ) → 1 ≤ 2 ^ j
power_pos zero = omega arith
power_pos (suc j) = omega (arith, power_pos j)

regroup : (n x : ℕ) → n * (x * 2) ≡ 2 * n * x
regroup n x = omega arith

power_step : (j n : ℕ) → n * 2 ^ suc j ≡ 2 * n * 2 ^ j
power_step j n = rw (pow.suc 2 j) (regroup n (2 ^ j))

below_bits :
    (j n d : ℕ)
    → 0 < d
    → 2 * n * 2 ^ j ≤ 4503599627370496 * d
    → leb (4503599627370496 * d) n ≡ false
below_bits j n d pos small =
    lt→not_leb (4503599627370496 * d) n (omega (arith, mul-le-mul_left (2 * n) (power_pos j)))

-- Each doubling that leaves the quotient below 53 bits is made, as long as there is fuel.
pub finer_least :
    (j fuel n d : ℕ) → 0 < d → j ≤ fuel → n * 2 ^ j ≤ 4503599627370496 * d → 2 ^ j ≤ finer fuel n d
unfolding finer
finer_least zero fuel n d pos enough small = finer_pos fuel n d
finer_least (suc j) zero n d pos enough small = absurd (omega arith)
finer_least (suc j) (suc fuel) n d pos enough small =
    rw (finer, below_bits j n d pos (subst (λ x. x ≤ 4503599627370496 * d) (power_step j n) small))
      (omega (
        arith,
        finer_least j fuel (2 * n) d pos (omega arith)
            (subst (λ x. x ≤ 4503599627370496 * d) (power_step j n) small),
      ))

pub coarser_one : (fuel n d : ℕ) → n < 9007199254740992 * d → coarser fuel n d ≡ 1
unfolding coarser
coarser_one zero n d small = refl
coarser_one (suc fuel) n d small = rw (coarser, lt→ltb n (9007199254740992 * d) small) refl

times_one : (d : ℕ) → d * 1 ≡ d
times_one d = omega arith

one_times : (d : ℕ) → 1 * d ≡ d
one_times d = omega arith

unit_form : (n p d : ℕ) → 1 * half_even (n * p) (d * 1) ≡ half_even (n * p) d
unit_form n p d = one_times _ ∙ ap (half_even (n * p)) (times_one d)

-- A quotient below 2^53 keeps its 53 bits by a finer scale only.
pub to_double-fine :
    (n d : ℕ)
    → n < 9007199254740992 * d
    → to_double n d ≡ record { num = half_even (n * finer 1074 n d) d; den = finer 1074 n d }
unfolding to_double
to_double-fine n d small =
    rw (coarser_one 1024 n d small)
      (ap (λ x. record { num = x; den = finer 1074 n d }) (unit_form n (finer 1074 n d) d))

-- A whole number below 2^53 is a double.
pub float_of-small : (n : ℕ) → n < 9007199254740992 → float_of n ≡ n
unfolding float_of
float_of-small n small = rw (coarser_one 1024 n 1 (omega (arith, small))) (
    one_times (half_even n 1)
    ∙ ap (λ m. half_even m 1) (sym (times_one n))
    ∙ half_even-whole 1 n (omega arith))
