-- ===== src/Base/Outcome.antt =====
-- Go's `(value, error)`: a value or an error, with the error's format and those of its arguments that
-- are a whole string or a natural number.
use Prim.Native.Nat.{ℕ}
use Prim.Native.String.{String}
use mathlib.Core.List.{List}

-- An argument of a format.
pub data Arg : Type 0 where
  str : String → Arg
  num : ℕ → Arg

-- `fmt.Errorf(format, args...)`, and the same with a last `%w`. `external` is an error that code
-- outside the repository returned.
pub data Error : Type 0 where
  errorf : String → List Arg → Error
  wrapf : String → List Arg → Error → Error
  external : String → Error

pub data Result {ℓ} (A : Type ℓ) : Type ℓ where
  ok : A → Result A
  err : Error → Result A

-- `if err != nil { return ..., fmt.Errorf(format, args..., err) }`
abbrev pub wrap {ℓ} : {A : Type ℓ} → String → List Arg → Result A → Result A
wrap f args (ok a) = ok a
wrap f args (err e) = err (wrapf f args e)

-- It returned a value.
abbrev pub IsOk {ℓ} : {A : Type ℓ} → Result A → Type 0
IsOk (ok a) = Unit
IsOk (err e) = ⊥
