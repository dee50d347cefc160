-- ===== src/Auth/Bearer.antt =====
-- Requests that reach a handler carry the token.
use lwd.Base.{
  Bool-cases, List, Option, Result, String, [], ap, arith, codes, eq_iff, false, inl, inr, none,
  refl, some, str_eq, sym, true, ℕ, ◌++◌, ◌∙◌, ◌∷◌, ◌≡◌, ◌≢◌, ◌⊎◌,
}
use lwd.Auth.{
  Request, after_prefix, api_listen_allowed, auth_middleware, bearer_middleware, bearer_token,
  check_token, is_loopback_addr, or_empty,
}
use lwd.Spec.Names.{codes_eq}

codes_eq-path : (s t : List ℕ) → codes_eq s t ≡ true → s ≡ t
unfolding codes_eq
codes_eq-path [] [] h = refl
codes_eq-path [] (d ∷ t) h = cc
codes_eq-path (c ∷ s) [] h = cc
codes_eq-path (c ∷ s) (d ∷ t) h = ground (arith, codes_eq-path s t)

after_prefix-path : (p s t : List ℕ) → after_prefix p s ≡ some t → s ≡ p ++ t
unfolding after_prefix
after_prefix-path [] s t h = ground (arith, h)
after_prefix-path (c ∷ p) [] t h = cc
after_prefix-path (c ∷ p) (d ∷ s) t h = ground (arith, after_prefix-path p s t)

token_path :
    (configured provided : List ℕ)
    → check_token configured provided ≡ true
    → (configured ≡ provided) × (provided ≢ [])
token_path configured [] h = absurd (ground (arith, h))
token_path [] (c ∷ cs) h = absurd (ground (arith, h))
token_path (d ∷ ds) (c ∷ cs) h = (codes_eq-path (d ∷ ds) (c ∷ cs) h, λ e. ground (arith, e))

-- The header is `Bearer` with this token.
abbrev pub Carries : String → Request → Type 0
Carries token r = (codes r.authorization ≡ codes "Bearer " ++ codes token) × (codes token ≢ [])

carried :
    (configured s : List ℕ) (o : Option (List ℕ))
    → after_prefix (codes "Bearer ") s ≡ o
    → check_token configured (or_empty o) ≡ true
    → (s ≡ codes "Bearer " ++ configured) × (configured ≢ [])
carried configured s none h k = absurd ((token_path configured [] k).1 refl)
carried configured s (some t) h k =
    let (same, full) = token_path configured t k in
    (
      after_prefix-path (codes "Bearer ") s t h ∙ ap (λ x. codes "Bearer " ++ x) (sym same),
      λ e. full (sym same ∙ e),
    )

check_token-Carries :
    (token : String) (r : Request)
    → check_token (codes token) (bearer_token r) ≡ true
    → Carries token r
unfolding bearer_token
check_token-Carries token r h =
    carried (codes token) (codes r.authorization)
      (after_prefix (codes "Bearer ") (codes r.authorization)) refl h

module _ {A : Type 0} where
  -- If the daemon may listen on a non-empty address that is not a loopback one, then each request
  -- that the handler behind the token check answers carries the token, which is not empty.
  pub bearer_middleware-Carries :
      (split : String → Result (String × String)) (addr token : String) (h : Request → A)
      (r : Request) (a : A)
      → api_listen_allowed split addr token ≡ none
      → addr ≢ ""
      → is_loopback_addr split addr ≡ false
      → bearer_middleware token h r ≡ some a
      → Carries token r
  unfolding api_listen_allowed bearer_middleware
  bearer_middleware-Carries split addr token h r a allowed named remote got =
      check_token-Carries token r (elim (Bool-cases (str_eq token "")) [
        | inl e ↦ absurd (ground (arith, eq_iff addr "", allowed, named, remote, e))
        | inr e ↦ ground (arith, e, got)
      ])

  -- Each request that an agent's handler answers is for `/healthz` or carries the token.
  pub auth_middleware-Carries :
      (token : String) (h : Request → A) (r : Request) (a : A)
      → auth_middleware token h r ≡ some a
      → (r.path ≡ "/healthz") ⊎ Carries token r
  unfolding auth_middleware
  auth_middleware-Carries token h r a got = elim (Bool-cases (str_eq r.path "/healthz")) [
    | inl e ↦ inl ((eq_iff r.path "/healthz").0 e)
    | inr e ↦ inr (check_token-Carries token r (ground (arith, e, got)))
  ]
