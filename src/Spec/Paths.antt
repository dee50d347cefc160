-- ===== src/Spec/Paths.antt =====
-- `validateRelativeNoTraversal`: a path is relative, and what `filepath.Clean` makes of it has no
-- `..` segment.
use lwd.Base.{
  Bool, Bool-cases, Error, List, Option, String, [], arith, codes, errorf, false, if◌then◌else◌,
  inl, inr, length, none, not, refl, some, some_entry, str, str_eq, suc, true, zero, ||_false, ℕ,
  ◌==◌, ◌||◌, ◌↔◌, ◌∷◌, ◌≡◌, ◌⊎◌,
}
use lwd.Spec.Names.{codes_eq, has_prefix}

abbrev onto : ℕ → List (List ℕ) → List (List ℕ)
onto c [] = (c ∷ []) ∷ []
onto c (s ∷ ss) = (c ∷ s) ∷ ss

-- strings.Split(path, "/")
unfoldable pub segments : List ℕ → List (List ℕ)
segments [] = [] ∷ []
segments (c ∷ cs) = let rest = segments cs in if c == b'/' then [] ∷ rest else onto c rest

abbrev pub is_up : List ℕ → Bool
is_up s = codes_eq s (codes "..")

abbrev pub is_idle : List ℕ → Bool
is_idle s = codes_eq s [] || codes_eq s (codes ".")

-- One segment of a relative path, over the segments kept so far, the last one first.
unfoldable pub up_from : List (List ℕ) → List (List ℕ)
up_from [] = codes ".." ∷ []
up_from (s ∷ ss) = if is_up s then codes ".." ∷ s ∷ ss else ss

unfoldable pub clean_step : List (List ℕ) → List ℕ → List (List ℕ)
unfolding up_from
clean_step kept s = if is_idle s then kept else if is_up s then up_from kept else s ∷ kept

-- The segments of filepath.Clean(path) for a relative path, the last one first.
unfoldable pub clean_from : List (List ℕ) → List (List ℕ) → List (List ℕ)
unfolding clean_step
clean_from kept [] = kept
clean_from kept (s ∷ ss) = clean_from (clean_step kept s) ss

unfoldable pub validate_relative_no_traversal : String → String → Option Error
unfolding clean_from segments
validate_relative_no_traversal label path =
    if str_eq path ""
    then none
    else if has_prefix (b'/' ∷ []) (codes path)
    then some (errorf "%s %q is invalid: must be a relative path" (str label ∷ str path ∷ []))
    else if some_entry is_up (clean_from [] (segments (codes path)))
    then some (
        errorf "%s %q is invalid: must not escape the clone root (no .. segments)"
          (str label ∷ str path ∷ []))
    else none

-- A walk along the segments from `depth` directories below the root never goes above it.
unfoldable pub stays_inside : ℕ → List (List ℕ) → Bool
stays_inside depth [] = true
stays_inside zero (s ∷ ss) =
    if is_idle s then stays_inside zero ss else if is_up s then false else stays_inside 1 ss
stays_inside (suc d) (s ∷ ss) =
    if is_idle s
    then stays_inside (suc d) ss
    else if is_up s
    then stays_inside d ss
    else stays_inside (suc (suc d)) ss

-- Once a `..` is kept, it stays.
up_stays :
    (ss kept : List (List ℕ))
    → some_entry is_up kept ≡ true
    → some_entry is_up (clean_from kept ss) ≡ true
unfolding clean_from
up_stays [] kept h = h
up_stays (s ∷ ss) kept h = up_stays ss (clean_step kept s) (step kept h)
  where
    step :
        (kept : List (List ℕ))
        → some_entry is_up kept ≡ true
        → some_entry is_up (clean_step kept s) ≡ true
    step [] h = cc
    step (k ∷ ks) h = ground arith

clean-stays_inside :
    (ss kept : List (List ℕ))
    → some_entry is_up kept ≡ false
    → some_entry is_up (clean_from kept ss) ≡ not (stays_inside (length kept) ss)
unfolding clean_from stays_inside codes_eq
clean-stays_inside [] kept h = h
clean-stays_inside (s ∷ ss) [] h = elim (Bool-cases (is_idle s)) [
  | inl e ↦ rw e (clean-stays_inside ss [] refl)
  | inr e ↦ elim (Bool-cases (is_up s)) [
    | inl u ↦ rw (e, u) (up_stays ss (codes ".." ∷ []) refl)
    | inr u ↦ rw (e, u) (clean-stays_inside ss (s ∷ []) (rw u))
  ]
]
clean-stays_inside (s ∷ ss) (k ∷ ks) h = elim (Bool-cases (is_idle s)) [
  | inl e ↦ rw e (clean-stays_inside ss (k ∷ ks) h)
  | inr e ↦ elim (Bool-cases (is_up s)) [
    | inl u ↦
        let (top, deeper) = ||_false (is_up k) (some_entry is_up ks) h in
        rw (e, u, top) (clean-stays_inside ss ks deeper)
    | inr u ↦ rw (e, u) (clean-stays_inside ss (s ∷ k ∷ ks) (rw (u, h)))
  ]
]

-- A path is accepted exactly if it is empty, or relative and the walk along its segments, from the
-- root of the clone, never goes above the root; a `..` that goes back inside the clone is accepted.
pub validate_path_exact :
    (label path : String)
    → (validate_relative_no_traversal label path ≡ none) ↔ (
        (str_eq path "" ≡ true)
        ⊎ ((has_prefix (b'/' ∷ []) (codes path) ≡ false)
            × (stays_inside 0 (segments (codes path)) ≡ true)))
unfolding validate_relative_no_traversal
validate_path_exact label path =
    let walk = clean-stays_inside (segments (codes path)) [] refl in
    (ground (arith, walk), ground (arith, walk))
