-- ===== src/Spec/Size.antt =====
-- `ParseSize`: a number, and a binary unit.
use lwd.Base.{
  Bool, Float64, List, Option, Result, String, [], codes, err, errorf, every, if◌then◌else◌, leb,
  ltb_ℤ, none, ok, pos, some, str, str_eq, true, wrapf, ℕ, ℤ, ◌&&◌, ◌++◌, ◌+◌, ◌==◌, ◌^◌, ◌||◌, ◌∷◌,
}

-- \s, and the decimal digits
abbrev pub is_space : ℕ → Bool
is_space c = c == 9 || (c == 10 || (c == 12 || (c == 13 || c == 32)))

abbrev pub is_digit : ℕ → Bool
is_digit c = leb b'0' c && leb c b'9'

unfoldable pub skip_spaces : List ℕ → List ℕ
skip_spaces [] = []
skip_spaces (c ∷ cs) = let rest = skip_spaces cs in if is_space c then rest else c ∷ cs

-- The longest prefix whose characters pass the test, and the rest.
unfoldable pub span : (ℕ → Bool) → List ℕ → List ℕ × List ℕ
span p [] = ([], [])
span p (c ∷ cs) = let (a, b) = span p cs in if p c then (c ∷ a, b) else ([], c ∷ cs)

-- unicode.ToLower of the code points whose lower case is in ASCII: the capital letters, U+0130 (the
-- dotted I) and U+212A (the Kelvin sign). All others are kept: they are compared with ASCII only.
abbrev pub to_lower : ℕ → ℕ
to_lower c =
    if leb b'A' c && leb c b'Z'
    then c + 32
    else if c == 304
    then b'i'
    else if c == 8490
    then b'k'
    else c

-- The exponent of 1024 that a unit's letter stands for.
abbrev pub unit_exponent : ℕ → Option ℕ
unit_exponent c =
    if c == b'k'
    then some 1
    else if c == b'm'
    then some 2
    else if c == b'g'
    then some 3
    else if c == b't'
    then some 4
    else none

-- What follows the letter of a unit: `i`, spaces and the end. Under `(?i)`, `i` stands for itself and
-- `I` alone, and `k` for the Kelvin sign too.
unfoldable pub after_letter : List ℕ → Bool
unfolding skip_spaces
after_letter [] = true
after_letter (c ∷ cs) =
    if c == b'i' || c == b'I' then every is_space cs else every is_space (c ∷ cs)

-- The multiplier of what follows the number, if the pattern matches.
unfoldable pub factor_of : List ℕ → Option ℕ
unfolding after_letter
factor_of [] = some 1
factor_of (c ∷ cs) = elim (unit_exponent (to_lower c)) [
  | none ↦ none
  | some e ↦ if after_letter cs then some (1024 ^ e) else none
]

-- The digits and, after a point, more digits.
unfoldable pub fraction : List ℕ → List ℕ × List ℕ → Option (List ℕ × List ℕ)
fraction whole ([], _) = none
fraction whole (d ∷ ds, end) = some (whole ++ (b'.' ∷ d ∷ ds), end)

unfoldable pub after_whole : List ℕ × List ℕ → Option (List ℕ × List ℕ)
unfolding fraction span
after_whole ([], rest) = none
after_whole (whole, []) = some (whole, [])
after_whole (whole, c ∷ cs) =
    if c == b'.' then fraction whole (span is_digit cs) else some (whole, c ∷ cs)

unfoldable pub magnitude : List ℕ → Option (List ℕ × List ℕ)
unfolding span after_whole
magnitude s = after_whole (span is_digit s)

-- `sizeRe`: the digits of the number, and the multiplier of its unit.
unfoldable pub size_match : List ℕ → Option (List ℕ × ℕ)
unfolding skip_spaces magnitude factor_of
size_match s = elim (magnitude (skip_spaces s)) [
  | none ↦ none
  | some (digits, rest) ↦ elim (factor_of (skip_spaces rest)) [
    | none ↦ none
    | some f ↦ some (digits, f)
  ]
]

module _ (fl : Float64) where
  unfoldable pub to_bytes : String → ℕ → Result ℤ → Result ℤ
  to_bytes s factor (err e) = err (wrapf "size %q is invalid: %w" (str s ∷ []) e)
  to_bytes s factor (ok n) =
      let bytes = fl.mul n (fl.of_int (pos factor)) in
      if ltb_ℤ bytes (pos 0)
      then err (errorf "size %q is invalid: must not be negative" (str s ∷ []))
      else ok (fl.to_int64 bytes)

  unfoldable pub parse_size : String → Result ℤ
  unfolding size_match to_bytes
  parse_size s = if str_eq s "" then ok (pos 0) else elim (size_match (codes s)) [
    | none ↦ err (
        errorf "size %q is invalid: want a number optionally followed by K/M/G/T (or Ki/Mi/Gi/Ti)"
          (str s ∷ []))
    | some (digits, factor) ↦ to_bytes s factor (fl.parse digits)
  ]
