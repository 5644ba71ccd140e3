-- ===== src/Base/Join.antt =====
-- f-strings, and the references that count upwards ("CASE-2031").
use Prim.Native.String.{String, ◌++◌}
use mathlib.Core.List.{List, [], ◌∷◌}
use mathlib.Core.Path.{◌≡◌}
use Prim.Native.Nat.{ℕ}
use text.Mathlib.TextLemmas.{append_cancel_left}
use ra_backend.Base.Decimal.{str, str-injective}

-- An f-string, as the list of its parts.
abbrev pub join : List String → String
join [] = ""
join (s ∷ []) = s
join (s ∷ t ∷ r) = s ++ join (t ∷ r)

-- A reference determines its number, whatever the prefix.
pub reference-injective :
    (prefix : String) (m n : ℕ) → join (prefix ∷ str m ∷ []) ≡ join (prefix ∷ str n ∷ []) → m ≡ n
reference-injective prefix m n e = str-injective m n (append_cancel_left prefix (str m) (str n) e)
