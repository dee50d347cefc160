-- ===== src/Spec/Transports.antt =====
-- No accepted git url reaches a command-executing transport, `ext::` or `fd::`.
use lwd.Base.{
  All, Bool, Bool-cases, List, Option, Option-cases, String, [], arith, codes, false, inl, inr, map,
  none, refl, some, some_entry, sym, true, ℕ, ◌==◌, ◌∙◌, ◌∷◌, ◌≡◌,
}
use lwd.Spec.Size.{to_lower}
use lwd.Spec.Names.{
  allowed_scheme, before, codes_eq, contains, git_allowed_schemes, has_prefix, validate_git_url,
}

abbrev is_colon : ℕ → Bool
is_colon c = c == b':'

codes_eq_colon :
    (s t : List ℕ) → codes_eq s t ≡ true → some_entry is_colon t ≡ some_entry is_colon s
unfolding codes_eq
codes_eq_colon [] [] h = refl
codes_eq_colon [] (d ∷ ds) h = cc
codes_eq_colon (c ∷ cs) [] h = cc
codes_eq_colon (c ∷ cs) (d ∷ ds) h = ground (arith, codes_eq_colon cs ds)

lower_colon : (s : List ℕ) → some_entry is_colon (map to_lower s) ≡ some_entry is_colon s
lower_colon [] = refl
lower_colon (c ∷ cs) = ground (arith, lower_colon cs)

colon_of_contains : (s : List ℕ) → contains (codes "::") s ≡ true → some_entry is_colon s ≡ true
unfolding contains
colon_of_contains [] h = cc
colon_of_contains (c ∷ cs) h = ground (arith, colon_of_contains cs)

scheme_colon :
    (names : List String) (s : List ℕ)
    → All (λ a. some_entry is_colon (codes a) ≡ false) names
    → some_entry (λ a. codes_eq (codes a) (map to_lower s)) names ≡ true
    → some_entry is_colon s ≡ false
scheme_colon [] s a h = cc
scheme_colon (x ∷ xs) s a h = elim (Bool-cases (codes_eq (codes x) (map to_lower s))) [
  | inl e ↦ sym (lower_colon s) ∙ codes_eq_colon (codes x) (map to_lower s) e ∙ a.0
  | inr e ↦ scheme_colon xs s a.1 (rw e at h)
]

-- What stands before the first `://` of a url, or the whole url.
abbrev transport_of : Option (List ℕ) → List ℕ → List ℕ
transport_of (some scheme) url = scheme
transport_of none url = url

abbrev pub transport : String → List ℕ
transport url = transport_of (before (codes "://") (codes url)) (codes url)

no_colon : (s : List ℕ) → some_entry is_colon s ≡ false → contains (codes "::") s ≡ false
no_colon s h = elim (Bool-cases (contains (codes "::") s)) [
  | inl e ↦ absurd (ground (arith, h, colon_of_contains s e))
  | inr e ↦ e
]

allowed_no_colon : (s : List ℕ) → allowed_scheme s ≡ true → some_entry is_colon s ≡ false
unfolding allowed_scheme
allowed_no_colon s h =
    scheme_colon git_allowed_schemes s (refl, (refl, (refl, (refl, (refl, tt))))) h

-- An accepted url does not begin with `-`, and has no `::` before its first `://`, nor anywhere if
-- it has no `://`: it names no `ext::` or `fd::` transport and no option.
pub validate_git_url_safe :
    (url : String)
    → validate_git_url url ≡ none
    → (has_prefix (b'-' ∷ []) (codes url) ≡ false) × (contains (codes "::") (transport url) ≡ false)
unfolding validate_git_url
validate_git_url_safe url h = elim (Option-cases (before (codes "://") (codes url))) [
  | inl n ↦ (ground (arith, h, n), rw n (ground (arith, h, n)))
  | inr (scheme, e) ↦ (
    ground (arith, h, e),
    rw e (no_colon scheme (allowed_no_colon scheme (ground (arith, h, e)))),
  )
]
