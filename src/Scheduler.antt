-- ===== src/Scheduler.antt =====
-- internal/scheduler/scheduler.go, and `Capacity` of internal/node/capacity.go.
pub mod Order
pub mod Choice
pub mod Tests
use lwd.Base.{
  Bool, Float64, List, Result, String, [], eqb_ℤ, err, errorf, false, if◌then◌else◌, keep, ltb_ℤ,
  not, ok, pos, str, str_eq, str_ltb, true, ℤ, ◌&&◌, ◌∷◌,
}
use lwd.Base.Sort.{sort_stable}

pub record Capacity : Type 0 where
  pub cpu_cores : ℤ
  pub cpu_used : ℤ  -- float64
  pub mem_total : ℤ
  pub mem_available : ℤ
  pub disk_total : ℤ
  pub disk_free : ℤ
  pub known : Bool

-- Go's zero value
abbrev pub no_capacity : Capacity
no_capacity = record {
  cpu_cores = pos 0;
  cpu_used = pos 0;
  mem_total = pos 0;
  mem_available = pos 0;
  disk_total = pos 0;
  disk_free = pos 0;
  known = false;
}

pub record NodeInfo : Type 0 where
  pub name : String
  pub pool : String
  pub reachable : Bool
  pub schedulable : Bool
  pub cap : Capacity

pub record Requirements : Type 0 where
  pub cpu_cores : ℤ  -- float64
  pub mem_bytes : ℤ

unfoldable pub free_mem : NodeInfo → ℤ
free_mem c = if c.cap.known then c.cap.mem_available else c.cap.mem_total

-- `if pool == "" { pool = "default" }`
unfoldable pub default_pool : String → String
default_pool pool = if str_eq pool "" then "default" else pool

-- The first loop's test.
unfoldable pub in_pool : String → NodeInfo → Bool
in_pool pool c = c.reachable && (c.schedulable && str_eq c.pool pool)

-- `fitting[0].Name`, behind the two checks that the lists are not empty.
unfoldable pub first_name : String → Requirements → List NodeInfo → Result String
first_name pool req [] =
    err (errorf "no node in pool %q has capacity (need cpu=%.2g memory=%d bytes)" (str pool ∷ []))
first_name pool req (best ∷ rest) = ok best.name

module _ (fl : Float64) where
  unfoldable pub free_cpu : NodeInfo → ℤ
  free_cpu c =
      if c.cap.known
      then fl.sub (fl.of_int c.cap.cpu_cores) c.cap.cpu_used
      else fl.of_int c.cap.cpu_cores

  unfoldable pub fits : Requirements → NodeInfo → Bool
  fits req c =
      if not c.cap.known
      then true
      else if not (eqb_ℤ req.mem_bytes (pos 0)) && ltb_ℤ c.cap.mem_available req.mem_bytes
      then false
      else if not (eqb_ℤ req.cpu_cores (pos 0))
          && ltb_ℤ (fl.sub (fl.of_int c.cap.cpu_cores) c.cap.cpu_used) req.cpu_cores
      then false
      else true

  -- The comparison that `sort.SliceStable` is given.
  unfoldable pub ranks_before : NodeInfo → NodeInfo → Bool
  unfolding free_mem free_cpu
  ranks_before a b =
      if not (eqb_ℤ (free_mem a) (free_mem b))
      then ltb_ℤ (free_mem b) (free_mem a)
      else if not (eqb_ℤ (free_cpu a) (free_cpu b))
      then ltb_ℤ (free_cpu b) (free_cpu a)
      else str_ltb a.name b.name

  unfoldable pub pick : String → Requirements → List NodeInfo → Result String
  unfolding first_name
  pick pool req [] = err (errorf "no schedulable node in pool %q" (str pool ∷ []))
  pick pool req (c ∷ cs) = first_name pool req (sort_stable ranks_before (keep (fits req) (c ∷ cs)))

  unfoldable pub place : List NodeInfo → String → Requirements → Result String
  unfolding pick
  place candidates pool req =
      pick (default_pool pool) req (keep (in_pool (default_pool pool)) candidates)

abbrev pub requirements : ℤ → ℤ → Requirements
requirements cpu mem = record { cpu_cores = cpu; mem_bytes = mem }
