-- ===== src/Base/Text.antt =====
-- Text: equality of whole strings, and the code points of a string.
use Prim.Native.Nat.{ℕ, zero, suc, ◌/◌, ◌%◌}
use Prim.Native.Char.{code}
use Prim.Native.String.{String, ◌++◌ as append}
use mathlib.Core.Bool.{Bool, true, false}
use mathlib.Core.List.{List, [], ◌∷◌}
use mathlib.Core.Path.{◌≡◌, refl, ap₂}
use native.Mathlib.Omega.{arith}
pub use text.Mathlib.TextEquality.{eq_iff}
use text.Mathlib.Text.{◌==◌}
use text.Mathlib.TextEquality.{Char-path}
use lwd.Base.Tests.{if◌then◌else◌, ltb, ◌==◌ as nat_eq}

infixr 65 ◌+++◌
-- `a + b` of two strings
abbrev pub ◌+++◌ : String → String → String
a +++ b = append a b

-- `a == b` of two strings
abbrev pub str_eq : String → String → Bool
str_eq a b = a == b

-- The code points of a text: its bytes, if it is ASCII. `String` has its own `[]` and `∷`.
abbrev pub codes : String → List ℕ
codes String.[] = []
codes (String.◌∷◌ c s) = code c ∷ codes s

-- The order of strings: by the first code point in which they differ, which is Go's order of the
-- bytes of their UTF-8.
unfoldable pub codes_ltb : List ℕ → List ℕ → Bool
codes_ltb [] [] = false
codes_ltb [] (y ∷ ys) = true
codes_ltb (x ∷ xs) [] = false
codes_ltb (x ∷ xs) (y ∷ ys) =
    let rest = codes_ltb xs ys in if ltb x y then true else if ltb y x then false else rest

-- `a < b`
unfoldable pub str_ltb : String → String → Bool
unfolding codes_ltb
str_ltb a b = codes_ltb (codes a) (codes b)

codes_ltb-asym : (a b : List ℕ) → codes_ltb a b ≡ true → codes_ltb b a ≡ false
unfolding codes_ltb
codes_ltb-asym [] [] h = refl
codes_ltb-asym [] (y ∷ ys) h = refl
codes_ltb-asym (x ∷ xs) [] h = cc
codes_ltb-asym (x ∷ xs) (y ∷ ys) h = ground (arith, codes_ltb-asym xs ys)

codes_ltb-neg_trans :
    (a b c : List ℕ) → codes_ltb a b ≡ false → codes_ltb b c ≡ false → codes_ltb a c ≡ false
unfolding codes_ltb
codes_ltb-neg_trans [] [] [] h k = refl
codes_ltb-neg_trans [] [] (z ∷ zs) h k = k
codes_ltb-neg_trans [] (y ∷ ys) c h k = cc
codes_ltb-neg_trans (x ∷ xs) b [] h k = refl
codes_ltb-neg_trans (x ∷ xs) [] (z ∷ zs) h k = cc
codes_ltb-neg_trans (x ∷ xs) (y ∷ ys) (z ∷ zs) h k = ground (arith, codes_ltb-neg_trans xs ys zs)

codes_ltb-connex : (a b : List ℕ) → codes_ltb a b ≡ false → codes_ltb b a ≡ false → a ≡ b
unfolding codes_ltb
codes_ltb-connex [] [] h k = refl
codes_ltb-connex [] (y ∷ ys) h k = cc
codes_ltb-connex (x ∷ xs) [] h k = cc
codes_ltb-connex (x ∷ xs) (y ∷ ys) h k = ground (arith, codes_ltb-connex xs ys)

pub str_ltb-asym : (a b : String) → str_ltb a b ≡ true → str_ltb b a ≡ false
unfolding str_ltb
str_ltb-asym a b h = codes_ltb-asym (codes a) (codes b) h

pub str_ltb-neg_trans :
    (a b c : String) → str_ltb a b ≡ false → str_ltb b c ≡ false → str_ltb a c ≡ false
unfolding str_ltb
str_ltb-neg_trans a b c h k = codes_ltb-neg_trans (codes a) (codes b) (codes c) h k

-- Two strings with the same code points are one string.
codes-injective : (a b : String) → codes a ≡ codes b → a ≡ b
codes-injective String.[] String.[] h = refl
codes-injective String.[] (String.◌∷◌ d t) h = cc
codes-injective (String.◌∷◌ c s) String.[] h = cc
codes-injective (String.◌∷◌ c s) (String.◌∷◌ d t) h =
    ap₂ String.◌∷◌ (Char-path c d (ground arith)) (codes-injective s t (ground arith))

pub str_ltb-connex : (a b : String) → str_ltb a b ≡ false → str_ltb b a ≡ false → a ≡ b
unfolding str_ltb
str_ltb-connex a b h k = codes-injective a b (codes_ltb-connex (codes a) (codes b) h k)

-- Decimal digits of a number, `%d`.
abbrev digit : ℕ → String
digit n =
    if nat_eq n 0
    then "0"
    else if nat_eq n 1
    then "1"
    else if nat_eq n 2
    then "2"
    else if nat_eq n 3
    then "3"
    else if nat_eq n 4
    then "4"
    else if nat_eq n 5
    then "5"
    else if nat_eq n 6
    then "6"
    else if nat_eq n 7
    then "7"
    else if nat_eq n 8
    then "8"
    else "9"

decimal_from : ℕ → ℕ → String
decimal_from zero n = digit n
decimal_from (suc f) n =
    let rest = decimal_from f (n / 10) in if ltb n 10 then digit n else rest +++ digit (n % 10)

unfoldable pub decimal : ℕ → String
unfolding decimal_from
decimal n = decimal_from 20 n
