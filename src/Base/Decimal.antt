-- ===== src/Base/Decimal.antt =====
-- `str(n)` of a Python integer that is not negative.
use Prim.Native.Char.{Char, code, nul}
use Prim.Native.Nat.{ℕ, zero, suc, ◌+◌, ◌-◌, ◌*◌, ◌/◌, ◌%◌, ◌≤◌, ◌<◌}
use Prim.Native.String.{String, [], ◌∷◌}
use mathlib.Core.Path.{◌≡◌, refl, sym, ap, ◌∙◌}
use native.Mathlib.Omega.{arith}
use ra_backend.Base.Tests.{ltb, if◌then◌else◌, ltb→lt, Bool-cases}
use mathlib.Core.Logic.{inl, inr}

nth_char : String → ℕ → Char
nth_char [] i = nul
nth_char (c ∷ s) zero = c
nth_char (c ∷ s) (suc i) = nth_char s i

digit : ℕ → Char
unfolding nth_char
digit d = nth_char "0123456789" d

-- The digits of `n` in front of `rest`; the fuel is the number itself.
show_digits : ℕ → ℕ → String → String
unfolding digit
show_digits zero n rest = digit n ∷ rest
show_digits (suc fuel) n rest =
    let more = show_digits fuel (n / 10) (digit (n % 10) ∷ rest) in
    if ltb n 10 then digit n ∷ rest else more

-- `str(n)`
unfoldable pub str : ℕ → String
unfolding show_digits
str n = show_digits n n ""

-- The number that a text of digits stands for, read from the left.
pub read_digits : ℕ → String → ℕ
read_digits n [] = n
read_digits n (c ∷ s) = read_digits (n * 10 + (code c - 48)) s

code-digit : (d : ℕ) → d < 10 → code (digit d) - 48 ≡ d
unfolding digit
code-digit zero h = refl
code-digit (suc zero) h = refl
code-digit (suc (suc zero)) h = refl
code-digit (suc (suc (suc zero))) h = refl
code-digit (suc (suc (suc (suc zero)))) h = refl
code-digit (suc (suc (suc (suc (suc zero))))) h = refl
code-digit (suc (suc (suc (suc (suc (suc zero)))))) h = refl
code-digit (suc (suc (suc (suc (suc (suc (suc zero))))))) h = refl
code-digit (suc (suc (suc (suc (suc (suc (suc (suc zero)))))))) h = refl
code-digit (suc (suc (suc (suc (suc (suc (suc (suc (suc zero))))))))) h = refl
code-digit (suc (suc (suc (suc (suc (suc (suc (suc (suc (suc n)))))))))) h = absurd (omega arith)

one_digit : (n : ℕ) (rest : String) → n < 10 → read_digits 0 (digit n ∷ rest) ≡ read_digits n rest
unfolding read_digits
one_digit n rest h = ap (λ d. read_digits d rest) (omega (arith, code-digit n h))

last_digit :
    (n : ℕ) (rest : String) → read_digits (n / 10) (digit (n % 10) ∷ rest) ≡ read_digits n rest
unfolding read_digits
last_digit n rest = ap (λ d. read_digits d rest) (omega (arith, code-digit (n % 10) (omega arith)))

read-show_digits :
    (fuel n : ℕ) (rest : String)
    → n ≤ fuel
    → read_digits 0 (show_digits fuel n rest) ≡ read_digits n rest
unfolding show_digits read_digits
read-show_digits zero n rest h = one_digit n rest (omega arith)
read-show_digits (suc fuel) n rest h = elim (Bool-cases (ltb n 10)) [
  | inl small ↦ rw small (one_digit n rest (ltb→lt n 10 small))
  | inr large ↦
      rw large
        (read-show_digits fuel (n / 10) (digit (n % 10) ∷ rest) (ground arith) ∙ last_digit n rest)
]

-- Reading a printed number gives the number back.
pub read-str : (n : ℕ) → read_digits 0 (str n) ≡ n
unfolding str read_digits
read-str n = read-show_digits n n "" (omega arith)

pub str-injective : (m n : ℕ) → str m ≡ str n → m ≡ n
str-injective m n e = sym (read-str m) ∙ ap (read_digits 0) e ∙ read-str n

str_example : str 9901 ≡ "9901"
unfolding str
str_example = refl
