-- ===== src/Reconciler/Heal.antt =====
-- internal/reconciler/reconcile.go: self-healing, with its backoff and its count of attempts.
use lwd.Base.{
  Error, Option, Result, String, [], err, errorf, if◌then◌else◌, leb, ltb, ltb_ℤ, negsuc, none, not,
  ok, pos, pos_part, some, str_eq, suc, wrapf, ℕ, ℤ, ◌%◌, ◌*◌, ◌+◌, ◌-◌, ◌==◌, ◌^◌, ◌||◌,
}
use lwd.Reconciler.World.{
  HealState, M, Outside, World, ask, attempt, modify, pure, query, ◌>>=◌, ◌>>◌,
}
use lwd.Reconciler.Rollout.{reset_heal}
use lwd.Store.{Deployment, current_deployment}
use lwd.Reconciler.Health.{
  AppHealth, SurfaceState, surface_degraded, surface_failed, surface_healthy,
}

abbrev pub backoff_base : ℕ
backoff_base = 15000000000

abbrev pub backoff_max : ℕ
backoff_max = 300000000000

-- A 64-bit word read as an int64.
abbrev pub int64_of : ℕ → ℤ
int64_of n = if ltb n 9223372036854775808 then pos n else negsuc (18446744073709551615 - n)

-- `if d > healBackoffMax || d <= 0 { return healBackoffMax }; return d`
abbrev pub capped : ℤ → ℤ
capped d = if ltb_ℤ (pos backoff_max) d || not (ltb_ℤ (pos 0) d) then pos backoff_max else d

-- `healBackoffBase << (attempts - 1)` wraps around at 64 bits.
unfoldable pub heal_backoff : ℕ → ℤ
heal_backoff attempts =
    let n = if ltb attempts 1 then 1 else attempts in
    capped (int64_of ((backoff_base * 2 ^ (n - 1)) % 18446744073709551616))

-- r.heal[app] = hs
unfoldable pub set_heal : String → HealState → World → World
set_heal app hs w = record w { heal = λ a. if str_eq a app then some hs else w.heal a }

abbrev pub state_or_new : Option HealState → HealState
state_or_new none = record { attempts = 0; next_eligible = 0 }
state_or_new (some hs) = hs

-- `hs := r.heal[app]`, which is made if it is not there
unfoldable pub open_heal : String → M HealState
open_heal app w = (ok (state_or_new (w.heal app)), set_heal app (state_or_new (w.heal app)) w)

abbrev pub deferred : ℕ → Option HealState → Option HealState
deferred t none = none
deferred t (some hs) = some (record hs { next_eligible = t })

-- hs.nextEligible = t, of the state that the map holds
unfoldable pub defer_heal : String → ℕ → World → World
defer_heal app t w = record w {
  heal = λ a. if str_eq a app then deferred t (w.heal a) else w.heal a;
}

-- The number of consecutive attempts.
abbrev pub attempts_in : Option HealState → ℕ
attempts_in none = 0
attempts_in (some hs) = hs.attempts

unfoldable pub heal_attempts : String → World → ℕ
heal_attempts app w = attempts_in (w.heal app)

module _ (out : Outside) (app : String) (heal_fn : Deployment → M Deployment) where
  abbrev pub report : SurfaceState → Option Error → ℕ → ℕ → M (Option AppHealth)
  report state e n now = pure (
      some
        (record { app = app; state = state; last_error = e; heal_attempts = n; updated_at = now }))

  abbrev pub healed : ℕ → ℕ → Result Deployment → M (Option AppHealth)
  healed n now (err e) = do
    modify (defer_heal app (now + pos_part (heal_backoff n)))
    report surface_failed (some e) n now
  healed n now (ok d) = do modify (reset_heal app); report surface_healthy none 0 now

  unfoldable pub heal_open : Deployment → HealState → ℕ → M (Option AppHealth)
  heal_open fresh hs now =
      if leb out.heal_max_attempts hs.attempts
      then report surface_failed (some (errorf "gave up after max heal attempts" [])) hs.attempts
          now
      else if ltb now hs.next_eligible
      then report surface_degraded (some (errorf "waiting for heal backoff" [])) hs.attempts now
      else do
        modify (set_heal app (record hs { attempts = suc hs.attempts }))
        r ← attempt (heal_fn fresh)
        healed (suc hs.attempts) now r

  abbrev pub rechecked : Deployment → Result (Option Deployment) → M (Option AppHealth)
  rechecked cur (err e) = do
    now ← ask out.now
    report surface_degraded (some (wrapf "recheck current deployment: %w" [] e)) 0 now
  rechecked cur (ok none) = pure none
  rechecked cur (ok (some fresh)) =
      if not (fresh.id == cur.id)
      then pure none
      else do hs ← open_heal app; now ← ask out.now; heal_open fresh hs now

  unfoldable pub try_heal_with : Deployment → M (Option AppHealth)
  try_heal_with cur = do fresh ← attempt (query out (current_deployment app)); rechecked cur fresh
