-- ===== src/Base/Text.antt =====
-- Python's `str` methods that the program calls, on the native texts. Letters are folded over
-- ASCII, and the blanks are those of ASCII.
use Prim.Native.Char.{Char, code}
use Prim.Native.String.{String, [], ◌∷◌}
use mathlib.Core.Path.{◌≡◌, refl}
use mathlib.Core.Bool.{Bool, true, false, not, ◌&&◌, ◌||◌}
use mathlib.Core.Option.{none, some}
use mathlib.Core.List.{List}
use Prim.Native.Nat.{ℕ, zero, suc}
use text.Mathlib.Text.{find?}
use ra_backend.Base.Tests.{beq, leb, non_empty, if◌then◌else◌}

-- One character, by the table of two texts of equal length; others are kept.
unfoldable pub translate : String → String → Char → Char
translate [] to c = c
translate (a ∷ from) [] c = c
translate (a ∷ from) (b ∷ to) c = if beq (code a) (code c) then b else translate from to c

abbrev upper_letters : String
upper_letters = "ABCDEFGHIJKLMNOPQRSTUVWXYZ"

abbrev lower_letters : String
lower_letters = "abcdefghijklmnopqrstuvwxyz"

-- `s.lower()`
unfoldable pub lower : String → String
unfolding translate
lower [] = []
lower (c ∷ s) = translate upper_letters lower_letters c ∷ lower s

-- `s.upper()`
unfoldable pub upper : String → String
unfolding translate
upper [] = []
upper (c ∷ s) = translate lower_letters upper_letters c ∷ upper s

-- `s.replace(a, b)` for texts `a` and `b` of one character
unfoldable pub replace_char : Char → Char → String → String
replace_char a b [] = []
replace_char a b (c ∷ s) = (if beq (code a) (code c) then b else c) ∷ replace_char a b s

test_lower : lower "Priya.Shah@RADONAIX.io" ≡ "priya.shah@radonaix.io"
unfolding lower
test_lower = refl

-- `t in s`
abbrev pub contains : String → String → Bool
contains s t = elim (find? s t) [ none ↦ false | some _ ↦ true ]

-- `c.isspace()`
unfoldable pub is_blank : Char → Bool
is_blank c =
    beq (code c) 32 || leb 9 (code c) && leb (code c) 13 || leb 28 (code c) && leb (code c) 31

unfoldable pub is_comma : Char → Bool
is_comma c = beq (code c) b','

push : Char → List String → List String
push c List.[] = List.◌∷◌ (c ∷ []) List.[]
push c (List.◌∷◌ s r) = List.◌∷◌ (c ∷ s) r

-- The pieces of a text between the characters that `p` accepts: `s.split(",")`.
unfoldable pub pieces : (Char → Bool) → String → List String
unfolding push
pieces p [] = List.◌∷◌ [] List.[]
pieces p (c ∷ s) = let rest = pieces p s in if p c then List.◌∷◌ [] rest else push c rest

-- `s[:n]`
unfoldable pub take : ℕ → String → String
take zero s = []
take (suc n) [] = []
take (suc n) (c ∷ s) = c ∷ take n s

-- `s.lstrip()`
unfoldable pub strip_left : String → String
unfolding is_blank
strip_left [] = []
strip_left (c ∷ s) = if is_blank c then strip_left s else c ∷ s

-- `s.rstrip()`
unfoldable pub strip_right : String → String
unfolding is_blank
strip_right [] = []
strip_right (c ∷ s) =
    let rest = strip_right s in if is_blank c && not (non_empty rest) then [] else c ∷ rest

-- `s.strip()`
unfoldable pub strip : String → String
unfolding strip_left strip_right
strip s = strip_right (strip_left s)
