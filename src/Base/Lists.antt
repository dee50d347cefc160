-- ===== src/Base/Lists.antt =====
-- Lists measured and indexed by native numbers, and predicates over them.
use Prim.Native.Nat.{ℕ, zero, suc, ◌+◌}
use mathlib.Core.Path.{refl, ◌≡◌, refl}
use mathlib.Core.Logic.{◌≢◌, inl, inr}
use mathlib.Core.Bool.{◌&&◌, ◌||◌, Bool, true, false}
use mathlib.Core.List.{map, List, [], ◌∷◌, ◌++◌}
use mathlib.Core.Option.{Option, none, some}
use native.Mathlib.Omega.{arith}
use lwd.Base.Tests.{Bool-cases, if◌then◌else◌}

module _ {ℓ} {A : Type ℓ} where
  abbrev pub length : List A → ℕ
  length [] = 0
  length (x ∷ xs) = suc (length xs)

  abbrev pub get_elem? : List A → ℕ → Option A
  get_elem? [] i = none
  get_elem? (x ∷ xs) zero = some x
  get_elem? (x ∷ xs) (suc i) = get_elem? xs i

  -- A write out of bounds changes nothing.
  abbrev pub set : List A → ℕ → A → List A
  set [] i v = []
  set (x ∷ xs) zero v = v ∷ xs
  set (x ∷ xs) (suc i) v = x ∷ set xs i v

  -- `for _, x := range xs { if keep(x) { out = append(out, x) } }`
  abbrev pub keep : (A → Bool) → List A → List A
  keep p [] = []
  keep p (x ∷ xs) = let rest = keep p xs in if p x then x ∷ rest else rest

  pub length-append : (xs ys : List A) → length (xs ++ ys) ≡ length xs + length ys
  length-append [] ys = omega arith
  length-append (x ∷ xs) ys = omega (arith, length-append xs ys)

module _ {ℓ κ} {A : Type ℓ} where
  -- P holds of every entry.
  abbrev pub All : (A → Type κ) → List A → Type κ
  All P [] = Unit
  All P (x ∷ xs) = P x × All P xs

-- `x` is an entry, with its place kept.
pub data In {ℓ} {A : Type ℓ} (x : A) : List A → Type ℓ where
  here : {xs : List A} → In x (x ∷ xs)
  there : {y : A} {xs : List A} → In x xs → In x (y ∷ xs)

module _ {ℓ κ} {A : Type ℓ} (P : A → Type κ) where
  pub All-In : {x : A} {xs : List A} → In x xs → All P xs → P x
  All-In here h = h.0
  All-In (there i) h = All-In i h.1

  pub All-append : (xs ys : List A) → All P xs → All P ys → All P (xs ++ ys)
  All-append [] ys hx hy = hy
  All-append (x ∷ xs) ys hx hy = (hx.0, All-append xs ys hx.1 hy)

module _ {ℓ} {A : Type ℓ} where
  pub In-All : (xs ys : List A) → ((x : A) → In x xs → In x ys) → All (λ x. In x ys) xs
  In-All [] ys h = tt
  In-All (x ∷ xs) ys h = (h x here, In-All xs ys (λ y i. h y (there i)))

module _ {ℓ κ} {A : Type ℓ} (p : A → Bool) (P : A → Type κ) where
  -- A filter keeps what holds of every entry, and its entries pass the test.
  pub All-keep : (xs : List A) → All P xs → All (λ x. P x × (p x ≡ true)) (keep p xs)
  All-keep [] h = tt
  All-keep (x ∷ xs) h = elim (Bool-cases (p x)) [
    | inl e ↦ rw e ((h.0, e), All-keep xs h.1)
    | inr e ↦ rw e (All-keep xs h.1)
  ]

  -- What holds of every kept entry holds of every entry that passes the test.
  pub keep-All : (xs : List A) → All P (keep p xs) → All (λ x. p x ≡ true → P x) xs
  keep-All [] h = tt
  keep-All (x ∷ xs) h = elim (Bool-cases (p x)) [
    | inl e ↦ let h' : P x × All P (keep p xs) = rw e at h in ((λ _. h'.0), keep-All xs h'.1)
    | inr e ↦ ((λ f. absurd (ground (arith, e, f))), keep-All xs (rw e at h))
  ]

module _ {ℓ} {A : Type ℓ} (p : A → Bool) where
  -- An entry that passes the test is kept.
  pub keep-In : {c : A} {xs : List A} → In c xs → p c ≡ true → In c (keep p xs)
  keep-In {c} (here {xs}) e = rw e here
  keep-In {c} (there {y} {xs} i) e = elim (Bool-cases (p y)) [
    | inl f ↦ rw f (there (keep-In i e))
    | inr f ↦ rw f (keep-In i e)
  ]

  pub In-ne : {c : A} (xs : List A) → In c xs → xs ≢ []
  In-ne [] i h = elim i [ ]
  In-ne (x ∷ xs) i h = cc

  pub keep-nil : (xs : List A) → ((c : A) → In c xs → p c ≡ true → ⊥) → keep p xs ≡ []
  keep-nil [] h = refl
  keep-nil (x ∷ xs) h = elim (Bool-cases (p x)) [
    | inl e ↦ absurd (h x here e)
    | inr e ↦ rw e (keep-nil xs (λ c i. h c (there i)))
  ]

module _ {ℓ κ} {A : Type ℓ} {B : Type κ} (f : A → B) where
  pub In-map : {x : A} {xs : List A} → In x xs → In (f x) (map f xs)
  In-map here = here
  In-map (there i) = there (In-map i)

  pub map-In : (xs : List A) {y : B} → In y (map f xs) → (x : A) × In x xs × (f x ≡ y)
  map-In [] i = elim i [ ]
  map-In (x ∷ xs) here = (x, here, refl)
  map-In (x ∷ xs) (there i) = let (z, j, e) = map-In xs i in (z, there j, e)

module _ {ℓ} {A : Type ℓ} (p : A → Bool) where
  -- Every entry passes the test, and some entry does.
  abbrev pub every : List A → Bool
  every [] = true
  every (x ∷ xs) = p x && every xs

  abbrev pub some_entry : List A → Bool
  some_entry [] = false
  some_entry (x ∷ xs) = p x || some_entry xs
