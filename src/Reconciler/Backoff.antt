-- ===== src/Reconciler/Backoff.antt =====
-- The delays between heal attempts.
use lwd.Base.{
  Bool-cases, ap, arith, false, if◌then◌else◌, inl, inr, ltb, pos, refl, suc, sym, zero, ℕ, ◌%◌,
  ◌*◌, ◌+◌, ◌-◌, ◌<◌, ◌^◌, ◌∙◌, ◌≡◌, ◌≤◌, ◌⊎◌,
}
use native.Mathlib.Nat.{two-pow-succ, pow-le-pow_right}
use lwd.Reconciler.Heal.{backoff_base, backoff_max, capped, heal_backoff, int64_of}

-- A word that is zero or above the cap is capped.
capped_high :
    (r : ℕ)
    → r < 18446744073709551616
    → (r ≡ 0) ⊎ (backoff_max < r)
    → capped (int64_of r) ≡ pos backoff_max
capped_high r b h = ground arith

-- 15 s times 2^5 is a multiple of 2^14, and 2^39 ns is above the cap.
shifted_by :
    (z : ℕ)
    → (((480000000000 * (33554432 * z)) % 18446744073709551616) ≡ 0)
      ⊎ (300000000000 < (480000000000 * (33554432 * z)) % 18446744073709551616)
shifted_by z = ground arith

shift30 : (j : ℕ) → 2 ^ (30 + j) ≡ 1073741824 * 2 ^ j
shift30 zero = refl
shift30 (suc j) =
    let step : 30 + suc j ≡ suc (30 + j) = omega arith in
    rw step (omega (arith, shift30 j, two-pow-succ (30 + j), two-pow-succ j))

-- From the sixth attempt on, the shifted word is zero or above the cap, whether it wraps around or not.
shifted :
    (k : ℕ)
    → (((backoff_base * 2 ^ (5 + k)) % 18446744073709551616) ≡ 0)
      ⊎ (backoff_max < (backoff_base * 2 ^ (5 + k)) % 18446744073709551616)
shifted k = elim (Bool-cases (ltb k 25)) [
  | inl small ↦
      let low : 2 ^ 5 ≤ 2 ^ (5 + k) =
        pow-le-pow_right {n = 2} (omega arith) {i = 5} {j = 5 + k} (omega arith) in
      let high : 2 ^ (5 + k) ≤ 2 ^ 29 =
        pow-le-pow_right {n = 2} (omega arith) {i = 5 + k} {j = 29} (ground (arith, small)) in
      inr (omega (arith, low, high))
  | inr large ↦
      let split : 5 + k ≡ 30 + (k - 25) = ground (arith, large) in
      rw split (omega (arith, shift30 (k - 25), shifted_by (2 ^ (k - 25))))
]

late : (k : ℕ) → heal_backoff (6 + k) ≡ pos backoff_max
unfolding heal_backoff
late k =
    let many : ltb (6 + k) 1 ≡ false = ground arith in
    let count : 6 + k - 1 ≡ 5 + k = omega arith in
    ap
      (λ b.
        capped
          (int64_of ((backoff_base * 2 ^ ((if b then 1 else 6 + k) - 1)) % 18446744073709551616)))
      many
    ∙ ap (λ x. capped (int64_of ((backoff_base * 2 ^ x) % 18446744073709551616))) count
    ∙ capped_high ((backoff_base * 2 ^ (5 + k)) % 18446744073709551616) (omega arith) (shifted k)

-- The delay doubles from 15 s with each attempt up to the fifth, and is five minutes from the sixth on,
-- for each count of attempts: no wrap-around of the shift makes it shorter.
pub heal_backoff-exact :
    (n : ℕ) → heal_backoff n ≡ pos (if ltb n 6 then backoff_base * 2 ^ (n - 1) else backoff_max)
unfolding heal_backoff
heal_backoff-exact zero = refl
heal_backoff-exact (suc zero) = refl
heal_backoff-exact (suc (suc zero)) = refl
heal_backoff-exact (suc (suc (suc zero))) = refl
heal_backoff-exact (suc (suc (suc (suc zero)))) = refl
heal_backoff-exact (suc (suc (suc (suc (suc zero))))) = refl
heal_backoff-exact (suc (suc (suc (suc (suc (suc k)))))) =
    let m : ℕ = suc (suc (suc (suc (suc (suc k))))) in
    let split : 6 + k ≡ m = omega arith in
    let many : ltb m 6 ≡ false = ground arith in
    ap heal_backoff (sym split)
    ∙ late k
    ∙ ap (λ b. pos (if b then backoff_base * 2 ^ (m - 1) else backoff_max)) (sym many)
