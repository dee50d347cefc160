-- ===== src/Base/Float.antt =====
-- `float64`, taken at its finite values as whole multiples of 2^-1074, so that comparisons are those
-- of ℤ. What rounds, reads or converts is the hardware's and strconv's: a parameter.
use mathlib.Core.List.{List}
use Prim.Native.Nat.{ℕ}
use lwd.Base.Int.{ℤ}
use lwd.Base.Outcome.{Result}

pub record Float64 : Type 0 where
  pub of_int : ℤ → ℤ
  pub sub : ℤ → ℤ → ℤ
  pub mul : ℤ → ℤ → ℤ
  pub to_int64 : ℤ → ℤ
  pub parse : List ℕ → Result ℤ
