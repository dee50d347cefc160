-- ===== src/Reconciler/Probes.antt =====
-- internal/reconciler/reconciler.go: the health gate of a deploy. A poll waits in `wait_or_deadline`
-- only; `poll_rounds` bounds the rounds of each loop, and times are in nanoseconds.
use lwd.Base.{
  Bool, Error, Result, String, [], err, errorf, external, false, if◌then◌else◌, leb, ltb, ltb_ℤ,
  not, num, ok, pos, pos_part, str, str_eq, suc, true, wrapf, zero, ℕ, ◌&&◌, ◌+◌, ◌==◌, ◌∷◌,
}
use lwd.Spec.{App}
use lwd.Reconciler.World.{M, Outside, ask, ask_result, attempt, pure, raise, wrapping, ◌>>=◌}

abbrev pub default_health_timeout : ℕ
default_health_timeout = 30000000000

abbrev pub context_error : Error
context_error = external "context canceled"

-- The error of a poll that used all its rounds, which no source line returns.
abbrev pub out_of_rounds : Error
out_of_rounds = external "out of rounds"

abbrev pub is_2xx : Result ℕ → Bool
is_2xx (ok status) = leb 200 status && ltb status 300
is_2xx (err e) = false

-- `perr == nil && status != 502 && status != 503`
abbrev pub reaches_app : Result ℕ → Bool
reaches_app (ok status) = not (status == 502) && not (status == 503)
reaches_app (err e) = false

abbrev pub timeout_of : App → ℕ
timeout_of app =
    if ltb_ℤ (pos 0) app.health.timeout then pos_part app.health.timeout else default_health_timeout

module _ (out : Outside) where
  -- Whether to stop, or the context's error.
  unfoldable pub wait_or_deadline : ℕ → M Bool
  wait_or_deadline deadline = do
    now ← ask out.now
    if ltb deadline now
        then pure true
        else (do gone ← ask out.cancelled; if gone then raise context_error else pure false)

  abbrev pub not_ready : String → String → Result ℕ → Error
  not_ready host path (ok status) =
      errorf "health probe %s%s did not become ready: timed out (last status %d)"
        (str host ∷ str path ∷ num status ∷ [])
  not_ready host path (err e) =
      wrapf "health probe %s%s did not become ready: %w (last status %d)"
        (str host ∷ str path ∷ num 0 ∷ []) e

  unfoldable pub check_health_path : ℕ → ℕ → String → String → M (Unit {0})
  check_health_path zero deadline host path = raise out_of_rounds
  check_health_path (suc k) deadline host path =
      let again = check_health_path k deadline host path in
      do
        answer ← attempt (ask_result (λ t. out.probe t host path))
        if is_2xx answer then pure tt else do
          done ← wait_or_deadline deadline
          if done then raise (not_ready host path answer) else again

  abbrev pub health_of : String → String → M (String × String)
  health_of node id =
      wrapping "container health: %w" [] (ask_result (λ t. out.container_health t node id))

  unfoldable pub check_docker_health : ℕ → ℕ → String → String → M (Unit {0})
  check_docker_health zero deadline node id = raise out_of_rounds
  check_docker_health (suc k) deadline node id =
      let again = check_docker_health k deadline node id in
      do
        (state, h) ← health_of node id
        if str_eq h "healthy"
            then pure tt
            else if str_eq h "unhealthy"
            then raise (errorf "container reported unhealthy" [])
            else do
              done ← wait_or_deadline deadline
              if done
                  then raise (
                      errorf "docker healthcheck did not become healthy: timed out (last=%q)"
                        (str h ∷ []))
                  else again

  abbrev pub last_status : Result ℕ → ℕ
  last_status (ok status) = status
  last_status (err e) = 0

  unfoldable pub poll_liveness : ℕ → ℕ → String → String → String → M (Unit {0})
  poll_liveness zero deadline node host id = raise out_of_rounds
  poll_liveness (suc k) deadline node host id =
      let again = poll_liveness k deadline node host id in
      do
        (state, h) ← health_of node id
        if not (str_eq state "running")
            then raise (errorf "container is not running (state=%q)" (str state ∷ []))
            else do
              answer ← attempt (ask_result (λ t. out.probe t host "/"))
              if reaches_app answer then pure tt else do
                done ← wait_or_deadline deadline
                if done
                    then raise (
                        errorf "liveness check timed out: state=%q last probe status=%d"
                          (str state ∷ num (last_status answer) ∷ []))
                    else again

  -- The settle window, then the polls.
  unfoldable pub check_liveness : ℕ → String → String → String → M (Unit {0})
  check_liveness deadline node host id = do
    gone ← ask out.cancelled
    if gone then raise context_error else poll_liveness out.poll_rounds deadline node host id

  unfoldable pub check_health : App → String → String → String → M (Unit {0})
  check_health app node host id = do
    now ← ask out.now
    if not (str_eq app.health.path "")
        then check_health_path out.poll_rounds (now + timeout_of app) host app.health.path
        else do
          (state, docker) ← health_of node id
          if not (str_eq docker "")
              then check_docker_health out.poll_rounds (now + timeout_of app) node id
              else check_liveness (now + timeout_of app) node host id
