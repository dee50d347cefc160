-- ===== src/Store/Generations.antt =====
-- A new generation of an app: the row of the old one is retired, and a running row is recorded.
use lwd.Base.{
  ==_iff, All-In, Bool-cases, In, In-map, List, String, [], ap, arith, here, inl, inr, map, map-In,
  refl, some, subst, suc, sym, there, true, ℕ, ◌<◌, ◌==◌, ◌∙◌, ◌∷◌, ◌≡◌, ◌≢◌, ◌≤◌, ◌⊎◌,
}
use lwd.Store.{
  Deployment, Store, current_deployment, empty_store, failed, is_app, latest, previous_deployment,
  record_deployment, retired, running, set_status, with_status,
}
use lwd.Store.History.{
  Descending, IsHistory, record_deployment-IsHistory, set_status-IsHistory, with_status-id,
}
use lwd.Store.Current.{latest-In, latest_head, latest_of}

-- A running row of the app is newer than every other row of it that runs or ran.
pub record IsSettled (app : String) (s : Store) : Type 0 where
  pub top :
      (d e : Deployment)
      → In d s.deployments
      → In e s.deployments
      → is_app app running d ≡ true
      → (is_app app running e ≡ true) ⊎ (is_app app retired e ≡ true)
      → e.id ≤ d.id

pub IsSettled-empty : (app : String) → IsSettled app empty_store
IsSettled-empty app = record { top = λ d e i j t h. elim i [ ] }

same_row :
    (ds : List Deployment) (d e : Deployment)
    → Descending ds
    → In d ds
    → In e ds
    → d.id ≡ e.id
    → d ≡ e
same_row [] d e h i j q = elim i [ ]
same_row (c ∷ cs) d e h here here q = refl
same_row (c ∷ cs) d e h here (there j) q =
    let lt = All-In (λ x. x.id < c.id) j h.0 in absurd (omega (arith, lt))
same_row (c ∷ cs) d e h (there i) here q =
    let lt = All-In (λ x. x.id < c.id) i h.0 in absurd (omega (arith, lt))
same_row (c ∷ cs) d e h (there i) (there j) q = same_row cs d e h.1 i j q

-- The retirement of one row, seen from a row.
data Retired (i : ℕ) (d : Deployment) : Type 0 where
  it : d.id ≡ i → with_status i retired d ≡ record d { status = retired } → Retired i d
  other : d.id ≢ i → with_status i retired d ≡ d → Retired i d

Retired-of : (i : ℕ) (d : Deployment) → Retired i d
Retired-of i d = elim (Bool-cases (d.id == i)) [
  | inl e ↦ it ((==_iff d.id i).0 e) (rw e)
  | inr e ↦ other (λ q. absurd (ground (arith, e, q))) (rw e)
]

not_both :
    (app : String) (d : Deployment) → is_app app running d ≡ true → is_app app retired d ≡ true → ⊥
not_both app d h k = ground (arith, h, k)

module _ (app : String) (d prev : Deployment) (s : Store) (hist : IsHistory s)
    (settled : IsSettled app s) (cur : current_deployment app s ≡ some prev)
    (starts : is_app app running d ≡ true) where
  abbrev next_store : Store
  next_store = (record_deployment d (set_status prev.id retired s)).0

  prev-In : In prev s.deployments × (is_app app running prev ≡ true)
  unfolding current_deployment
  prev-In = latest-In (is_app app running) s.deployments prev cur

  next-IsHistory : IsHistory next_store
  next-IsHistory =
      record_deployment-IsHistory d (set_status prev.id retired s)
        (set_status-IsHistory prev.id retired s hist)

  retires : with_status prev.id retired prev ≡ record prev { status = retired }
  retires = ground arith

  -- A row of the app that still runs after the retirement did not exist.
  no_other :
      (x : Deployment)
      → In x s.deployments
      → is_app app running (with_status prev.id retired x) ≡ true
      → ⊥
  no_other x i t = elim (Retired-of prev.id x) [
    | it q e ↦ absurd (ground (arith, t, e))
    | other ne e ↦
        let running_x : is_app app running x ≡ true = rw e at t in
        ne (
          omega (
            arith,
            settled.top x prev i prev-In.0 running_x (inl prev-In.1),
            settled.top prev x prev-In.0 i prev-In.1 (inl running_x),
          ))
  ]

  ids_fall :
      (x : Deployment)
      → In x (map (with_status prev.id retired) s.deployments)
      → x.id < suc s.last_id
  unfolding record_deployment set_status
  ids_fall x j = All-In (λ e. e.id < suc s.last_id) j next-IsHistory.descending.0

  current_next : current_deployment app next_store ≡ some (record d { id = suc s.last_id })
  unfolding current_deployment record_deployment set_status
  current_next =
      latest_head (is_app app running) (record d { id = suc s.last_id })
        (map (with_status prev.id retired) s.deployments) next-IsHistory.descending starts

  older_retired :
      (x : Deployment) → In x next_store.deployments → is_app app retired x ≡ true → x.id ≤ prev.id
  unfolding record_deployment set_status
  older_retired x here t = absurd (not_both app d starts t)
  older_retired x (there j) t =
      let (y, k, e) = map-In (with_status prev.id retired) s.deployments j in
      elim (Retired-of prev.id y) [
        | it q f ↦
            omega (arith, ap (λ (z : Deployment). z.id) e, with_status-id prev.id retired y, q)
        | other ne f ↦
            let same : y ≡ x = sym f ∙ e in
            rw (← same) (
              settled.top prev y prev-In.0 k prev-In.1
                (inr (subst (λ z. is_app app retired z ≡ true) (sym same) t)))
      ]

  was_retired : is_app app retired (record prev { status = retired }) ≡ true
  was_retired = ground (arith, prev-In.1)

  previous_next : previous_deployment app next_store ≡ some (record prev { status = retired })
  unfolding previous_deployment record_deployment set_status
  previous_next =
      latest_of (is_app app retired)
        (record d { id = suc s.last_id } ∷ map (with_status prev.id retired) s.deployments)
        (record prev { status = retired }) next-IsHistory.descending
        (there (
          subst (λ z. In z (map (with_status prev.id retired) s.deployments)) retires
            (In-map (with_status prev.id retired) prev-In.0)))
        was_retired older_retired

  next_top :
      (x y : Deployment)
      → In x next_store.deployments
      → In y next_store.deployments
      → is_app app running x ≡ true
      → y.id ≤ x.id
  unfolding record_deployment set_status
  next_top x y here here t = omega arith
  next_top x y here (there j) t = omega (arith, ids_fall y j)
  next_top x y (there i) j t =
      let (z, k, e) = map-In (with_status prev.id retired) s.deployments i in
      absurd (no_other z k (subst (λ v. is_app app running v ≡ true) (sym e) t))

  -- From a settled history in order, the hand-over to a running row makes that row the app's
  -- current deployment and the row that was current the one that a rollback restores; the history
  -- stays in order and settled.
  pub hand_over :
      (current_deployment app next_store ≡ some (record d { id = suc s.last_id }))
      × (previous_deployment app next_store ≡ some (record prev { status = retired }))
      × IsHistory next_store
      × IsSettled app next_store
  hand_over = (
    current_next,
    previous_next,
    next-IsHistory,
    record { top = λ x y i j t h. next_top x y i j t },
  )

module _ (app : String) (d : Deployment) (s : Store) where
  -- The row of a failed attempt changes the current deployment of no app.
  pub current-record_failed :
      d.status ≡ failed
      → current_deployment app (record_deployment d s).0 ≡ current_deployment app s
  unfolding current_deployment record_deployment latest
  current-record_failed h = ground (arith, h)

  live_of :
      (x : Deployment)
      → In x (record_deployment d s).0.deployments
      → d.status ≡ failed
      → (is_app app running x ≡ true) ⊎ (is_app app retired x ≡ true)
      → In x s.deployments
  unfolding record_deployment
  live_of x here f h = absurd (ground (arith, f, h))
  live_of x (there i) f h = i

  pub IsSettled-record_failed :
      d.status ≡ failed → IsSettled app s → IsSettled app (record_deployment d s).0
  IsSettled-record_failed f h = record {
    top = λ x y i j t l. h.top x y (live_of x i f (inl t)) (live_of y j f l) t l;
  }
