-- ===== src/Reporting/Sizes.antt =====
-- app/modules/reporting/service.py, `format_bytes` and `to_row`. The size is rounded to a double
-- first, whose quotients by powers of 1024 are exact; `.1f` rounds to tenths, halves to even.
use ra_backend.Base.{
  ℕ, zero, suc, ◌+◌, ◌*◌, ◌/◌, ◌%◌, ◌≤◌, ◌<◌, String, false, Option, none, some, [], ◌∷◌, ◌≡◌, refl,
  inl, inr, arith, ltb, ltb→lt, le→not_ltb, ◌⊎◌, join, if◌then◌else◌, Bool-cases,
}
use ra_backend.Base.Decimal.{str}
use ra_backend.Base.Doubles.{float_of}
use ra_backend.Base.Doubles.Laws.{float_of-small}
use ra_backend.Models.{Report}

-- The tenths of `n / d`
unfoldable pub rounded : ℕ → ℕ → ℕ
rounded n d =
    let q = n * 10 / d in
    let r = n * 10 % d in if ltb (2 * r) d then q else if ltb d (2 * r) then q + 1 else q + q % 2

-- `f"{size:.1f} {unit}"`
abbrev pub tenths_text : ℕ → String → String
tenths_text t unit = join (str (t / 10) ∷ "." ∷ str (t % 10) ∷ " " ∷ unit ∷ [])

-- The loop over the units, from the size as a double
unfoldable pub in_units : ℕ → String
unfolding rounded
in_units n =
    if ltb n 1024
    then join (str n ∷ " B" ∷ [])
    else if ltb n 1048576
    then tenths_text (rounded n 1024) "KB"
    else if ltb n 1073741824
    then tenths_text (rounded n 1048576) "MB"
    else if ltb n 1099511627776
    then tenths_text (rounded n 1073741824) "GB"
    else tenths_text (rounded n 1099511627776) "TB"

-- `size = float(num)` and the loop
unfoldable pub format_size : ℕ → String
unfolding in_units float_of
format_size n = in_units (float_of n)

unfoldable pub format_bytes : Option ℕ → String
unfolding format_size
format_bytes none = "—"
format_bytes (some zero) = "—"
format_bytes (some (suc n)) = format_size (suc n)

pub record ReportRow : Type 0 where
  pub id : String
  pub name : String
  pub period : Option String
  pub status : String
  pub size : String

unfoldable pub to_row : Report → ReportRow
unfolding format_bytes
to_row r = record {
  id = r.reference;
  name = r.name;
  period = r.period;
  status = r.status;
  size = format_bytes r.size_bytes;
}

-- The units above the byte.
pub data IsUnit : ℕ → String → Type 0 where
  kilo : IsUnit 1024 "KB"
  mega : IsUnit 1048576 "MB"
  giga : IsUnit 1073741824 "GB"
  tera : IsUnit 1099511627776 "TB"

-- The tenths are within half a tenth of the quotient.
abbrev pub IsNearest : ℕ → ℕ → ℕ → Type 0
IsNearest n d t = (20 * n ≤ 2 * t * d + d) × (2 * t * d ≤ 20 * n + d)

rounded-IsNearest : {d : ℕ} {unit : String} → IsUnit d unit → (n : ℕ) → IsNearest n d (rounded n d)
unfolding rounded
rounded-IsNearest kilo n = ground arith
rounded-IsNearest mega n = ground arith
rounded-IsNearest giga n = ground arith
rounded-IsNearest tera n = ground arith

-- What is shown of a size: tenths of the greatest unit that it reaches.
abbrev pub IsShown : ℕ → Type 0
IsShown n =
    (d : ℕ) × (unit : String) × (t : ℕ) × IsUnit d unit
    × (format_bytes (some n) ≡ tenths_text t unit)
    × (d ≤ n)
    × (n < 1024 * d ⊎ (unit ≡ "TB"))
    × IsNearest n d t

not_below : (n m : ℕ) → ltb n m ≡ false → m ≤ n
not_below n m h = ground arith

-- A size from 1024 bytes on and below 2^53, so that it is a double, is shown in tenths of a unit of
-- 1024, 1024^2, 1024^3 or 1024^4 bytes that it reaches, and is below 1024 of that unit or the unit
-- is the last one; the tenths are within half a tenth of the quotient.
pub format_bytes-IsShown : (n : ℕ) → 1024 ≤ n → n < 9007199254740992 → IsShown n
unfolding format_bytes in_units
format_bytes-IsShown zero big small = absurd (omega arith)
format_bytes-IsShown (suc n) big small = elim (Bool-cases (ltb (suc n) 1048576)) [
  | inl kb ↦ (
    1024,
    "KB",
    rounded (suc n) 1024,
    kilo,
    rw (exact, not_bytes, kb) refl,
    big,
    inl (omega (arith, ltb→lt _ _ kb)),
    rounded-IsNearest kilo (suc n),
  )
  | inr not_kb ↦ elim (Bool-cases (ltb (suc n) 1073741824)) [
    | inl mb ↦ (
      1048576,
      "MB",
      rounded (suc n) 1048576,
      mega,
      rw (exact, not_bytes, not_kb, mb) refl,
      not_below _ _ not_kb,
      inl (omega (arith, ltb→lt _ _ mb)),
      rounded-IsNearest mega (suc n),
    )
    | inr not_mb ↦ elim (Bool-cases (ltb (suc n) 1099511627776)) [
      | inl gb ↦ (
        1073741824,
        "GB",
        rounded (suc n) 1073741824,
        giga,
        rw (exact, not_bytes, not_kb, not_mb, gb) refl,
        not_below _ _ not_mb,
        inl (omega (arith, ltb→lt _ _ gb)),
        rounded-IsNearest giga (suc n),
      )
      | inr not_gb ↦ (
        1099511627776,
        "TB",
        rounded (suc n) 1099511627776,
        tera,
        rw (exact, not_bytes, not_kb, not_mb, not_gb) refl,
        not_below _ _ not_gb,
        inr refl,
        rounded-IsNearest tera (suc n),
      )
    ]
  ]
]
  where
    not_bytes : ltb (suc n) 1024 ≡ false
    not_bytes = le→not_ltb _ _ big

    exact : float_of (suc n) ≡ suc n
    exact = float_of-small (suc n) small
