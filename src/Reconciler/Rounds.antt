-- ===== src/Reconciler/Rounds.antt =====
-- The rounds of the health gate's polls.
use lwd.Base.{
  Bool, Bool-cases, Error, Result, String, [], arith, eq_iff, err, false, if◌then◌else◌, inl, inr,
  ltb, not, ok, refl, str_eq, subst, suc, sym, true, zero, ℕ, ◌+◌, ◌<◌, ◌≡◌, ◌≢◌, ◌≤◌,
}
use lwd.Reconciler.World.{
  M, Outside, World, ask_result, attempt, pure, raise, wrapped, wrapping, ◌>>=◌,
}
use lwd.Reconciler.Rules.{Outcome, Runs, Runs-bind}
use lwd.Reconciler.Probes.{
  check_docker_health, check_health, check_health_path, check_liveness, context_error, health_of,
  is_2xx, not_ready, out_of_rounds, poll_liveness, reaches_app, timeout_of, wait_or_deadline,
}
use lwd.Spec.{App}

module _ (out : Outside) (d : ℕ) where
  abbrev InTime : Error → World → Type 0
  InTime e u = e ≢ out_of_rounds

  abbrev Anything : {A : Type 0} → A → World → Type 0
  Anything a u = Unit {0}

  -- What is known after a wait: it stops if the clock has passed the deadline, and a question was asked.
  abbrev Waited : World → Bool → World → Type 0
  Waited v done u = (ltb d (out.now v.tick) ≡ true → done ≡ true) × (suc v.tick ≤ u.tick)

  gone-Runs :
      (v u : World) (gone : Bool)
      → ltb d (out.now v.tick) ≡ false
      → suc v.tick ≤ u.tick
      → Outcome (Waited v) InTime ((if gone then raise context_error else pure false) u)
  gone-Runs v u true no_deadline le =
      λ e. absurd (ground (arith, e, eq_iff "context canceled" "out of rounds"))
  gone-Runs v u false no_deadline le = ((λ e. absurd (ground (arith, e, no_deadline))), le)

  wait-Runs : (v : World) → Runs (Waited v) InTime (wait_or_deadline out d) v
  unfolding wait_or_deadline ◌>>=◌
  wait-Runs v = elim (Bool-cases (ltb d (out.now v.tick))) [
    | inl e ↦ record { holds = rw e ((λ _. refl), omega arith) }
    | inr e ↦ record {
      holds = rw e (
          gone-Runs v (record v { tick = suc (suc v.tick) }) (out.cancelled (suc v.tick)) e
            (omega arith));
    }
  ]

  -- Each time from tick `t` on is past the deadline.
  abbrev pub IsLateFrom : ℕ → Type 0
  IsLateFrom t = (s : ℕ) → t ≤ s → ltb d (out.now s) ≡ true

  probed-Runs :
      (host path : String) (v : World)
      → Runs
          (λ _ u. u.tick ≡ suc v.tick)
          InTime
          (attempt (ask_result (λ t. out.probe t host path)))
          v
  unfolding attempt ask_result
  probed-Runs host path v = record { holds = refl }

  Runs-test :
      {A : Type 0} (b : Bool) (m n : M A) (v : World)
      → Runs Anything InTime m v
      → (b ≡ false → Runs Anything InTime n v)
      → Runs Anything InTime (if b then m else n) v
  Runs-test true m n v h k = h
  Runs-test false m n v h k = k refl

  not_ready-ne : (host path : String) (r : Result ℕ) → not_ready out host path r ≢ out_of_rounds
  not_ready-ne host path (ok s) h = cc
  not_ready-ne host path (err e) h = cc

  -- What follows a wait in the last round, and in a round before it.
  last :
      {A : Type 0} (m : M A) (v v₁ v₂ : World) (done : Bool)
      → IsLateFrom (v.tick + 1)
      → v.tick < v₁.tick
      → Waited v₁ done v₂
      → done ≡ false
      → Runs Anything InTime m v₂
  last m v v₁ v₂ done late t (stops, le) goes_on =
      absurd (ground (arith, goes_on, stops (late v₁.tick (omega (arith, t)))))

  sooner :
      (k : ℕ) (v v₁ v₂ : World) (done : Bool)
      → IsLateFrom (v.tick + suc k)
      → v.tick < v₁.tick
      → Waited v₁ done v₂
      → IsLateFrom (v₂.tick + k)
  sooner k v v₁ v₂ done late t (stops, le) = λ s far. late s (omega (arith, t, le, far))

  path-Runs :
      (host path : String) (k : ℕ) (v : World)
      → IsLateFrom (v.tick + suc k)
      → Runs Anything InTime (check_health_path out (suc k) d host path) v
  unfolding check_health_path
  path-Runs host path zero v late =
      Runs-bind (λ _ u. u.tick ≡ suc v.tick) InTime Anything _ _ v (probed-Runs host path v)
        λ answer v₁ t₁.
          Runs-test (is_2xx answer) _ _ v₁ (record { holds = tt })
            λ _. Runs-bind (Waited v₁) InTime Anything _ _ v₁ (wait-Runs v₁) λ done v₂ waited.
              Runs-test done _ _ v₂ (record { holds = not_ready-ne host path answer })
                λ goes_on. last _ v v₁ v₂ done late (omega (arith, t₁)) waited goes_on
  path-Runs host path (suc k) v late =
      Runs-bind (λ _ u. u.tick ≡ suc v.tick) InTime Anything _ _ v (probed-Runs host path v)
        λ answer v₁ t₁.
          Runs-test (is_2xx answer) _ _ v₁ (record { holds = tt })
            λ _. Runs-bind (Waited v₁) InTime Anything _ _ v₁ (wait-Runs v₁) λ done v₂ waited.
              Runs-test done _ _ v₂ (record { holds = not_ready-ne host path answer })
                λ goes_on.
                  path-Runs host path k v₂
                    (sooner (suc k) v v₁ v₂ done late (omega (arith, t₁)) waited)

  health_answer :
      (v : World) (r : Result (String × String))
      → Outcome
          (λ _ u. u.tick ≡ suc v.tick)
          InTime
          (wrapped "container health: %w" [] (r, record v { tick = suc v.tick }))
  health_answer v (ok a) = refl
  health_answer v (err e) = λ h. cc

  health-Runs :
      (node id : String) (v : World)
      → Runs (λ _ u. u.tick ≡ suc v.tick) InTime (health_of out node id) v
  unfolding wrapping ask_result
  health-Runs node id v = record { holds = health_answer v (out.container_health v.tick node id) }

  docker-Runs :
      (node id : String) (k : ℕ) (v : World)
      → IsLateFrom (v.tick + suc k)
      → Runs Anything InTime (check_docker_health out (suc k) d node id) v
  unfolding check_docker_health
  docker-Runs node id zero v late =
      Runs-bind (λ _ u. u.tick ≡ suc v.tick) InTime Anything _ _ v (health-Runs node id v)
        λ (state, h) v₁ t₁.
          Runs-test (str_eq h "healthy") _ _ v₁ (record { holds = tt })
            λ _.
              Runs-test (str_eq h "unhealthy") _ _ v₁ (record { holds = λ e. cc })
                λ _. Runs-bind (Waited v₁) InTime Anything _ _ v₁ (wait-Runs v₁) λ done v₂ waited.
                  Runs-test done _ _ v₂ (record { holds = λ e. cc })
                    λ goes_on. last _ v v₁ v₂ done late (omega (arith, t₁)) waited goes_on
  docker-Runs node id (suc k) v late =
      Runs-bind (λ _ u. u.tick ≡ suc v.tick) InTime Anything _ _ v (health-Runs node id v)
        λ (state, h) v₁ t₁.
          Runs-test (str_eq h "healthy") _ _ v₁ (record { holds = tt })
            λ _.
              Runs-test (str_eq h "unhealthy") _ _ v₁ (record { holds = λ e. cc })
                λ _. Runs-bind (Waited v₁) InTime Anything _ _ v₁ (wait-Runs v₁) λ done v₂ waited.
                  Runs-test done _ _ v₂ (record { holds = λ e. cc })
                    λ goes_on.
                      docker-Runs node id k v₂
                        (sooner (suc k) v v₁ v₂ done late (omega (arith, t₁)) waited)

  liveness-Runs :
      (node host id : String) (k : ℕ) (v : World)
      → IsLateFrom (v.tick + suc k)
      → Runs Anything InTime (poll_liveness out (suc k) d node host id) v
  unfolding poll_liveness
  liveness-Runs node host id zero v late =
      Runs-bind (λ _ u. u.tick ≡ suc v.tick) InTime Anything _ _ v (health-Runs node id v)
        λ (state, h) v₀ t₀.
          Runs-test (not (str_eq state "running")) _ _ v₀ (record { holds = λ e. cc })
            λ _.
              Runs-bind (λ _ u. u.tick ≡ suc v₀.tick) InTime Anything _ _ v₀
                (probed-Runs host "/" v₀)
                λ answer v₁ t₁.
                  Runs-test (reaches_app answer) _ _ v₁ (record { holds = tt })
                    λ _.
                      Runs-bind (Waited v₁) InTime Anything _ _ v₁ (wait-Runs v₁) λ done v₂ waited.
                        Runs-test done _ _ v₂ (record { holds = λ e. cc })
                          λ goes_on. last _ v v₁ v₂ done late (omega (arith, t₀, t₁)) waited goes_on
  liveness-Runs node host id (suc k) v late =
      Runs-bind (λ _ u. u.tick ≡ suc v.tick) InTime Anything _ _ v (health-Runs node id v)
        λ (state, h) v₀ t₀.
          Runs-test (not (str_eq state "running")) _ _ v₀ (record { holds = λ e. cc })
            λ _.
              Runs-bind (λ _ u. u.tick ≡ suc v₀.tick) InTime Anything _ _ v₀
                (probed-Runs host "/" v₀)
                λ answer v₁ t₁.
                  Runs-test (reaches_app answer) _ _ v₁ (record { holds = tt })
                    λ _.
                      Runs-bind (Waited v₁) InTime Anything _ _ v₁ (wait-Runs v₁) λ done v₂ waited.
                        Runs-test done _ _ v₂ (record { holds = λ e. cc })
                          λ goes_on.
                            liveness-Runs node host id k v₂
                              (sooner (suc k) v v₁ v₂ done late (omega (arith, t₀, t₁)) waited)

  check_liveness-Runs :
      (node host id : String) (k : ℕ) (v : World)
      → out.poll_rounds ≡ suc k
      → IsLateFrom (v.tick + suc k)
      → Runs Anything InTime (check_liveness out d node host id) v
  unfolding check_liveness
  check_liveness-Runs node host id k v rounds late =
      Runs-bind (λ _ u. u.tick ≡ suc v.tick) InTime Anything _ _ v (record { holds = refl })
        λ gone v₁ t₁.
          Runs-test gone _ _ v₁
            (record {
              holds = λ e. absurd (ground (arith, e, eq_iff "context canceled" "out of rounds"));
            })
            λ _.
              subst (λ n. Runs Anything InTime (poll_liveness out n d node host id) v₁) (sym rounds)
                (liveness-Runs node host id k v₁ (λ s far. late s (omega (arith, far, t₁))))

ended :
    (x : Result (Unit {0}) × World)
    → Outcome (λ _ _. Unit {0}) (λ e _. e ≢ out_of_rounds) x
    → x.0 ≢ err out_of_rounds
ended (ok a, u) h e = cc
ended (err c, u) h e = h (ground (arith, e))

gate-Runs :
    (out : Outside) (d : ℕ) (app : App) (node host id : String) (k : ℕ) (v : World)
    → out.poll_rounds ≡ suc k
    → IsLateFrom out d (v.tick + suc k)
    → Runs
        (Anything out d)
        (InTime out d)
        (if not (str_eq app.health.path "")
          then check_health_path out out.poll_rounds d host app.health.path
          else (health_of out node id >>= λ h.
              if not (str_eq h.1 "")
              then check_docker_health out out.poll_rounds d node id
              else check_liveness out d node host id))
        v
gate-Runs out d app node host id k v rounds late =
    Runs-test out d (not (str_eq app.health.path "")) _ _ v
      (subst
        (λ n.
          Runs (Anything out d) (InTime out d) (check_health_path out n d host app.health.path) v)
        (sym rounds) (path-Runs out d host app.health.path k v late))
      λ _.
        Runs-bind (λ _ u. u.tick ≡ suc v.tick) (InTime out d) (Anything out d) _ _ v
          (health-Runs out d node id v)
          λ h v₁ t₁.
            Runs-test out d (not (str_eq h.1 "")) _ _ v₁
              (subst
                (λ n. Runs (Anything out d) (InTime out d) (check_docker_health out n d node id) v₁)
                (sym rounds)
                (docker-Runs out d node id k v₁ (λ s far. late s (omega (arith, far, t₁)))))
              λ _.
                check_liveness-Runs out d node host id k v₁ rounds
                  (λ s far. late s (omega (arith, far, t₁)))

health_check-Runs :
    (out : Outside) (app : App) (node host id : String) (k : ℕ) (v : World)
    → out.poll_rounds ≡ suc k
    → IsLateFrom out (out.now v.tick + timeout_of app) (v.tick + suc k)
    → Runs (Anything out 0) (InTime out 0) (check_health out app node host id) v
unfolding check_health
health_check-Runs out app node host id k v rounds late =
    Runs-bind (λ now u. (u.tick ≡ suc v.tick) × (now ≡ out.now v.tick)) (InTime out 0)
      (Anything out 0) _ _ v (record { holds = (refl, refl) })
      λ now v₁ (t₁, same). rw same (
        gate-Runs out (out.now v.tick + timeout_of app) app node host id k v₁ rounds
          (λ s far. late s (omega (arith, far, t₁))))

-- If the model's polls have `k + 1` rounds, and the clock is past the deadline of a health check at each
-- time that is at least `k + 1` questions ahead, then the check does not run out of rounds.
pub check_health-ends :
    (out : Outside) (app : App) (node host id : String) (k : ℕ) (w : World)
    → out.poll_rounds ≡ suc k
    → IsLateFrom out (out.now w.tick + timeout_of app) (w.tick + suc k)
    → (check_health out app node host id w).0 ≢ err out_of_rounds
check_health-ends out app node host id k w rounds late =
    ended (check_health out app node host id w)
      (health_check-Runs out app node host id k w rounds late).holds
