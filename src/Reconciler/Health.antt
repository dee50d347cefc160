-- ===== src/Reconciler/Health.antt =====
-- internal/reconciler/health.go: what a pass of the reconciler observed. A `LastError` is the error
-- whose text it is.
use lwd.Base.{Bool, Error, List, Option, String, [], false, ℕ}
use lwd.Scheduler.{Capacity}

pub data SurfaceState : Type 0 where
  surface_healthy surface_degraded surface_healing surface_failed : SurfaceState

pub record AppHealth : Type 0 where
  pub app : String
  pub state : SurfaceState
  pub last_error : Option Error
  pub heal_attempts : ℕ
  pub updated_at : ℕ

pub record NodeHealth : Type 0 where
  pub name : String
  pub transport : String
  pub reachable : Bool
  pub updated_at : ℕ
  pub capacity : Capacity
  pub cordoned : Bool

pub record EdgeHealth : Type 0 where
  pub reachable : Bool
  pub updated_at : ℕ

pub record Health : Type 0 where
  pub nodes : List NodeHealth
  pub edge : EdgeHealth
  pub apps : List AppHealth

abbrev pub no_health : Health
no_health = record { nodes = []; edge = record { reachable = false; updated_at = 0 }; apps = [] }
