-- ===== src/Base/Sort.antt =====
-- `sort.SliceStable` and `sort.Slice` over a strict weak order: a stable insertion sort, which has
-- the one result that a stable sort can have.
use mathlib.Core.Path.{◌≡◌, subst}
use mathlib.Core.Bool.{Bool, true, false}
use mathlib.Core.List.{List, [], ◌∷◌}
use mathlib.Core.Logic.{inl, inr}
use mathlib.Core.Logic.{◌≢◌}
use lwd.Base.Tests.{Bool-cases, if◌then◌else◌}
use lwd.Base.Lists.{All}

module _ {ℓ} {A : Type ℓ} (less : A → A → Bool) where
  unfoldable pub insert_sorted : A → List A → List A
  insert_sorted x [] = x ∷ []
  insert_sorted x (y ∷ ys) =
      let rest = insert_sorted x ys in if less y x then y ∷ rest else x ∷ y ∷ ys

  unfoldable pub sort_stable : List A → List A
  unfolding insert_sorted
  sort_stable [] = []
  sort_stable (x ∷ xs) = insert_sorted x (sort_stable xs)

-- What a sort needs of its test: a strict weak order.
pub record IsWeakOrder {ℓ} {A : Type ℓ} (less : A → A → Bool) : Type ℓ where
  pub asym : (a b : A) → less a b ≡ true → less b a ≡ false
  pub neg_trans : (a b c : A) → less a b ≡ false → less b c ≡ false → less a c ≡ false

-- What holds of the entries holds of the sorted entries, and the other way round.
module _ {ℓ κ} {A : Type ℓ} (less : A → A → Bool) (P : A → Type κ) where
  All-insert_sorted : (x : A) (ys : List A) → P x → All P ys → All P (insert_sorted less x ys)
  unfolding insert_sorted
  All-insert_sorted x [] px h = (px, h)
  All-insert_sorted x (y ∷ ys) px h = elim (Bool-cases (less y x)) [
    | inl e ↦ rw e (h.0, All-insert_sorted x ys px h.1)
    | inr e ↦ rw e (px, h)
  ]

  insert_sorted-All : (x : A) (ys : List A) → All P (insert_sorted less x ys) → P x × All P ys
  unfolding insert_sorted
  insert_sorted-All x [] h = h
  insert_sorted-All x (y ∷ ys) h = elim (Bool-cases (less y x)) [
    | inl e ↦
        let h' : P y × All P (insert_sorted less x ys) = rw e at h in
        let (px, rest) = insert_sorted-All x ys h'.1 in (px, (h'.0, rest))
    | inr e ↦ rw e at h
  ]

  pub All-sort_stable : (xs : List A) → All P xs → All P (sort_stable less xs)
  unfolding sort_stable
  All-sort_stable [] h = h
  All-sort_stable (x ∷ xs) h =
      All-insert_sorted x (sort_stable less xs) h.0 (All-sort_stable xs h.1)

  pub sort_stable-All : (xs : List A) → All P (sort_stable less xs) → All P xs
  unfolding sort_stable
  sort_stable-All [] h = h
  sort_stable-All (x ∷ xs) h =
      let (px, rest) = insert_sorted-All x (sort_stable less xs) h in (px, sort_stable-All xs rest)

-- The first entry is one that no entry comes before.
module _ {ℓ} {A : Type ℓ} (less : A → A → Bool) (order : IsWeakOrder less) where
  abbrev LeastFirst : List A → Type 0
  LeastFirst [] = Unit
  LeastFirst (y ∷ ys) = All (λ z. less z y ≡ false) ys

  irrefl : (a : A) → less a a ≡ false
  irrefl a = elim (Bool-cases (less a a)) [ inl e ↦ order.asym a a e | inr e ↦ e ]

  through :
      (x y : A) (ys : List A)
      → less y x ≡ false
      → All (λ z. less z y ≡ false) ys
      → All (λ z. less z x ≡ false) ys
  through x y [] e h = tt
  through x y (z ∷ zs) e h = (order.neg_trans z y x h.0 e, through x y zs e h.1)

  LeastFirst-insert : (x : A) (ys : List A) → LeastFirst ys → LeastFirst (insert_sorted less x ys)
  unfolding insert_sorted
  LeastFirst-insert x [] h = tt
  LeastFirst-insert x (y ∷ ys) h = elim (Bool-cases (less y x)) [
    | inl e ↦ rw e (All-insert_sorted less (λ z. less z y ≡ false) x ys (order.asym y x e) h)
    | inr e ↦ rw e (e, through x y ys e h)
  ]

  LeastFirst-sort : (xs : List A) → LeastFirst (sort_stable less xs)
  unfolding sort_stable
  LeastFirst-sort [] = tt
  LeastFirst-sort (x ∷ xs) = LeastFirst-insert x (sort_stable less xs) (LeastFirst-sort xs)

  pub sort_stable-least :
      (xs : List A) (y : A) (ys : List A)
      → sort_stable less xs ≡ y ∷ ys
      → All (λ z. less z y ≡ false) xs
  sort_stable-least xs y ys e =
      sort_stable-All less (λ z. less z y ≡ false) xs
        (rw e (irrefl y, subst LeastFirst e (LeastFirst-sort xs)))

insert_sorted-ne {ℓ} :
    {A : Type ℓ} (less : A → A → Bool) (x : A) (ys : List A) → insert_sorted less x ys ≢ []
unfolding insert_sorted
insert_sorted-ne less x [] h = cc
insert_sorted-ne less x (y ∷ ys) h = elim (Bool-cases (less y x)) [
  | inl e ↦ cc (rw e at h)
  | inr e ↦ cc (rw e at h)
]

pub sort_stable-cons {ℓ} :
    {A : Type ℓ} (less : A → A → Bool) (x : A) (xs : List A) → sort_stable less (x ∷ xs) ≢ []
unfolding sort_stable
sort_stable-cons less x xs h = insert_sorted-ne less x (sort_stable less xs) h
