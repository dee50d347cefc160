-- ===== src/Store/Current.antt =====
-- `CurrentDeployment` and `PreviousDeployment`: which rows they find, and how a new generation
-- takes over.
use lwd.Base.{
  All, All-In, Bool, Bool-cases, In, List, Option-cases, [], ap, arith, here, inl, inr, ltb, some,
  sym, there, true, ℕ, ◌<◌, ◌∙◌, ◌∷◌, ◌≡◌, ◌≤◌,
}
use lwd.Store.{Deployment, latest}
use lwd.Store.History.{Descending}

module _ (p : Deployment → Bool) where
  -- What `latest` finds in a longer list.
  data Found (d : Deployment) (ds : List Deployment) (e : Deployment) : Type 0 where
    newer : p d ≡ true → e ≡ d → Found d ds e
    older : latest p ds ≡ some e → Found d ds e

  Found-of :
      (d : Deployment) (ds : List Deployment) (e : Deployment)
      → latest p (d ∷ ds) ≡ some e
      → Found d ds e
  unfolding latest
  Found-of d ds e h = elim (Bool-cases (p d)) [
    | inr off ↦ older (rw off at h)
    | inl on ↦ elim (Option-cases (latest p ds)) [
      | inl n ↦ newer on (ground (arith, h, on, n))
      | inr (r, m) ↦ elim (Bool-cases (ltb d.id r.id)) [
        | inl lt ↦ older (ground (arith, h, on, m, lt))
        | inr ge ↦ newer on (ground (arith, h, on, m, ge))
      ]
    ]
  ]

  latest-lt :
      (n : ℕ) (ds : List Deployment) (e : Deployment)
      → All (λ d. d.id < n) ds
      → latest p ds ≡ some e
      → e.id < n
  unfolding latest
  latest-lt n [] e a h = cc
  latest-lt n (d ∷ ds) e a h = elim (Found-of d ds e h) [
    | newer on q ↦ rw q a.0
    | older m ↦ latest-lt n ds e a.1 m
  ]

  -- The row that is found is in the table and passes the test.
  pub latest-In :
      (ds : List Deployment) (e : Deployment) → latest p ds ≡ some e → In e ds × (p e ≡ true)
  unfolding latest
  latest-In [] e h = cc
  latest-In (d ∷ ds) e h = elim (Found-of d ds e h) [
    | newer on q ↦ (rw q here, rw q on)
    | older m ↦ let (i, t) = latest-In ds e m in (there i, t)
  ]

  pub latest_head :
      (d : Deployment) (ds : List Deployment)
      → Descending (d ∷ ds)
      → p d ≡ true
      → latest p (d ∷ ds) ≡ some d
  unfolding latest
  latest_head d ds h e = elim (Option-cases (latest p ds)) [
    | inl n ↦ rw (e, n)
    | inr (r, m) ↦ let lt = latest-lt d.id ds r h.0 m in rw (e, m) (ground (arith, lt))
  ]

  -- A row that passes the test is found if every other such row is older.
  pub latest_of :
      (ds : List Deployment) (e : Deployment)
      → Descending ds
      → In e ds
      → p e ≡ true
      → ((d : Deployment) → In d ds → p d ≡ true → d.id ≤ e.id)
      → latest p ds ≡ some e
  unfolding latest
  latest_of [] e h i t top = elim i [ ]
  latest_of (d ∷ ds) e h here t top = latest_head d ds h t
  latest_of (d ∷ ds) e h (there i) t top =
      let lt = All-In (λ x. x.id < d.id) i h.0 in
      elim (Bool-cases (p d)) [
        | inl on ↦ absurd (omega (arith, top d here on, lt))
        | inr off ↦ rw off (latest_of ds e h.1 i t (λ x j. top x (there j)))
      ]

  -- It is the newest row that passes the test.
  pub latest-top :
      (ds : List Deployment) (e : Deployment)
      → Descending ds
      → latest p ds ≡ some e
      → (d : Deployment) → In d ds
      → p d ≡ true
      → d.id ≤ e.id
  unfolding latest
  latest-top [] e h m d i t = elim i [ ]
  latest-top (c ∷ cs) e h m d here t = ground (arith, ap (λ o. o) ((sym m) ∙ latest_head c cs h t))
  latest-top (c ∷ cs) e h m d (there i) t = elim (Found-of c cs e m) [
    | newer on q ↦ let lt = All-In (λ x. x.id < c.id) i h.0 in rw q (omega (arith, lt))
    | older n ↦ latest-top cs e h.1 n d i t
  ]
