-- ===== src/Base/Doubles.antt =====
-- Python's floats that are not negative, as quotients `num / den` where `den` is a power of two, and
-- the operations that round them: to 53 bits, and to hundredths. Above 2^1024, where Python
-- overflows, the quotients go on.
pub mod Laws
pub mod Percent
use Prim.Native.Nat.{ℕ, zero, suc, ◌+◌, ◌*◌, ◌/◌, ◌%◌}
use mathlib.Core.Bool.{Bool, true, false}
use mathlib.Core.Path.{◌≡◌, refl}
use ra_backend.Base.Tests.{ltb, leb, if◌then◌else◌}

-- `n / d` to the nearest whole number, halves to even
unfoldable pub half_even : ℕ → ℕ → ℕ
half_even n d =
    let q = n / d in
    let r = n % d in if ltb (2 * r) d then q else if ltb d (2 * r) then q + 1 else q + q % 2

pub record Double : Type 0 where
  pub num : ℕ
  pub den : ℕ

-- The power of two, `2 ^ fuel` at most, that brings `n / d` up to 53 bits.
unfoldable pub finer : ℕ → ℕ → ℕ → ℕ
finer zero n d = 1
finer (suc fuel) n d = elim (leb (4503599627370496 * d) n) [
  | true ↦ 1
  | false ↦ 2 * finer fuel (2 * n) d
]

-- The power of two that brings `n / d` down to 53 bits.
unfoldable pub coarser : ℕ → ℕ → ℕ → ℕ
coarser zero n d = 1
coarser (suc fuel) n d = elim (ltb n (9007199254740992 * d)) [
  | true ↦ 1
  | false ↦ 2 * coarser fuel n (2 * d)
]

-- The double nearest to `n / d`. No double is finer than 2^-1074.
unfoldable pub to_double : ℕ → ℕ → Double
unfolding half_even finer coarser
to_double n d =
    let p = finer 1074 n d in
    let q = coarser 1024 n d in record { num = q * half_even (n * p) (d * q); den = p }

-- `float(n)`
unfoldable pub float_of : ℕ → ℕ
unfolding half_even coarser
float_of n = let q = coarser 1024 n 1 in q * half_even n q

-- `x * k` for a whole number that is a double
unfoldable pub times : ℕ → Double → Double
unfolding to_double
times k x = to_double (k * x.num) x.den

-- `round(x, 2)` and `f"{x:.2f}"`, in hundredths
unfoldable pub hundredths : Double → ℕ
unfolding half_even
hundredths x = half_even (100 * x.num) x.den

-- `x >= k`
unfoldable pub at_least : ℕ → Double → Bool
at_least k x = leb (k * x.den) x.num

test_tenth : hundredths (times 100 (to_double 2 3)) ≡ 6667
unfolding hundredths times to_double half_even finer coarser
test_tenth = refl

test_big : (to_double 9007199254740993 1).num ≡ 9007199254740992
unfolding to_double half_even finer coarser
test_big = refl

test_float_of : float_of 9007254230322381 ≡ 9007254230322380
unfolding float_of half_even coarser
test_float_of = refl
