-- ===== src/Base/Doubles/Percent.antt =====
-- A percentage as Python computes it, `a / b * 100`, in hundredths: how far it is from the exact
-- one.
use Prim.Native.Nat.{ℕ, ◌+◌, ◌*◌, ◌≤◌, ◌<◌}
use mathlib.Core.Path.{◌≡◌, sym, subst, ap, ◌∙◌}
use native.Mathlib.Nat.{mul-le-mul_left, mul-le-mul_right, le_of_mul-le-mul_right}
use native.Mathlib.Omega.{arith}
use ra_backend.Base.Doubles.{half_even, Double, finer, to_double, times, hundredths}
use ra_backend.Base.Doubles.Laws.{
  IsNear, half_even-IsNear, half_even-le, half_even-ge, finer_pos, finer_least, to_double-fine,
}

-- `a / b * 100` for whole numbers
unfoldable pub percent : ℕ → ℕ → Double
unfolding times
percent a b = times 100 (to_double a b)

-- The mantissas and scales of the two steps
abbrev den_of : ℕ → ℕ → ℕ
den_of a b = finer 1074 a b

abbrev num_of : ℕ → ℕ → ℕ
num_of a b = half_even (a * den_of a b) b

-- The errors of the three roundings, each within a half, are less than one hundredth together.
module _ (a b p m q n h : ℕ) (pos : 0 < b) (p_large : 32768 ≤ p) (q_large : 256 ≤ q) where
  scale_pos : 0 < p * q
  scale_pos = omega (arith, mul-le-mul_left 1 p_large, mul-le-mul_right q p_large)

  slack : 10000 * (b * q) + 100 * (p * b) ≤ p * q * b
  slack = omega (arith, mul-le-mul_right (b * q) p_large, mul-le-mul_right (p * b) q_large)

  not_above :
      2 * (m * b) ≤ 2 * (a * p) + b
      → 2 * (n * p) ≤ 2 * (100 * m * q) + p
      → 2 * (h * q) ≤ 2 * (100 * n) + q
      → h * b ≤ 10000 * a + b
  not_above first second third =
      le_of_mul-le-mul_right {k = p * q}
        (omega (
          arith,
          mul-le-mul_right (10000 * q) first,
          mul-le-mul_right (100 * b) second,
          mul-le-mul_right (p * b) third,
          slack,
        ))
        scale_pos

  not_below :
      2 * (a * p) ≤ 2 * (m * b) + b
      → 2 * (100 * m * q) ≤ 2 * (n * p) + p
      → 2 * (100 * n) ≤ 2 * (h * q) + q
      → 10000 * a ≤ h * b + b
  not_below first second third =
      le_of_mul-le-mul_right {k = p * q}
        (omega (
          arith,
          mul-le-mul_right (10000 * q) first,
          mul-le-mul_right (100 * b) second,
          mul-le-mul_right (p * b) third,
          slack,
        ))
        scale_pos

module _ (a b : ℕ) (part : a ≤ b) (pos : 0 < b) where
  num_le_den : num_of a b ≤ den_of a b
  num_le_den =
      half_even-le (a * den_of a b) b (den_of a b) pos
        (omega (arith, mul-le-mul_left (den_of a b) part))

  den_large : 32768 ≤ den_of a b
  den_large = finer_least 15 1074 a b pos (omega arith) (omega arith)

  quotient : to_double a b ≡ record { num = num_of a b; den = den_of a b }
  quotient = to_double-fine a b (omega arith)

  small : 100 * num_of a b ≤ 100 * den_of a b
  small = omega (arith, num_le_den)

  percent_form : percent a b ≡ record {
    num = num_of (100 * num_of a b) (den_of a b);
    den = den_of (100 * num_of a b) (den_of a b);
  }
  unfolding percent times
  percent_form =
      ap (times 100) quotient
      ∙ to_double-fine (100 * num_of a b) (den_of a b) (omega (arith, small, finer_pos 1074 a b))

  abbrev den_second : ℕ
  den_second = den_of (100 * num_of a b) (den_of a b)

  abbrev num_second : ℕ
  num_second = num_of (100 * num_of a b) (den_of a b)

  hundredths_form : hundredths (percent a b) ≡ half_even (100 * num_second) den_second
  unfolding hundredths
  hundredths_form = ap hundredths percent_form

  second_large : 256 ≤ den_second
  second_large =
      finer_least 8 1074 (100 * num_of a b) (den_of a b) (finer_pos 1074 a b) (omega arith)
        (omega (arith, num_le_den))

  num_second_le : num_second ≤ 100 * den_second
  num_second_le =
      half_even-le (100 * num_of a b * den_second) (den_of a b) (100 * den_second)
        (finer_pos 1074 a b) (omega (arith, mul-le-mul_left (100 * den_second) num_le_den))

  pub percent_bounded : hundredths (percent a b) ≤ 10000
  percent_bounded = rw hundredths_form (
      half_even-le (100 * num_second) den_second 10000 (finer_pos 1074 _ _)
        (omega (arith, num_second_le)))

  first-IsNear : IsNear (a * den_of a b) b (num_of a b)
  first-IsNear = half_even-IsNear (a * den_of a b) b pos

  second-IsNear : IsNear (100 * num_of a b * den_second) (den_of a b) num_second
  second-IsNear = half_even-IsNear (100 * num_of a b * den_second) (den_of a b) (finer_pos 1074 a b)

  third-IsNear : IsNear (100 * num_second) den_second (half_even (100 * num_second) den_second)
  third-IsNear = half_even-IsNear (100 * num_second) den_second (finer_pos 1074 _ _)

  pub percent_not_above : hundredths (percent a b) * b ≤ 10000 * a + b
  percent_not_above = rw hundredths_form (
      not_above a b (den_of a b) (num_of a b) den_second num_second _ pos den_large second_large
        first-IsNear.above second-IsNear.above third-IsNear.above)

  pub percent_not_below : 10000 * a ≤ hundredths (percent a b) * b + b
  percent_not_below = rw hundredths_form (
      not_below a b (den_of a b) (num_of a b) den_second num_second _ pos den_large second_large
        first-IsNear.below second-IsNear.below third-IsNear.below)

-- All of a number is 100 percent of it.
module _ (b : ℕ) (pos : 0 < b) where
  full_first : den_of b b ≤ num_of b b
  full_first = half_even-ge (b * den_of b b) b (den_of b b) pos (omega arith)

  full_second :
      100 * den_of (100 * num_of b b) (den_of b b) ≤ num_of (100 * num_of b b) (den_of b b)
  full_second =
      half_even-ge (100 * num_of b b * den_of (100 * num_of b b) (den_of b b)) (den_of b b) _
        (finer_pos 1074 b b)
        (omega (arith, mul-le-mul_left (100 * den_of (100 * num_of b b) (den_of b b)) full_first))

  pub percent_full : hundredths (percent b b) ≡ 10000
  percent_full = omega (
    arith,
    percent_bounded b b (omega arith) pos,
    subst (λ h. 10000 ≤ h) (sym (hundredths_form b b (omega arith) pos))
        (half_even-ge (100 * num_second b b (omega arith) pos) (den_second b b (omega arith) pos)
          10000 (finer_pos 1074 _ _) (omega (arith, full_second))),
  )
