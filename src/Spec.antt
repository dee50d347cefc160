-- ===== src/Spec.antt =====
-- internal/spec/spec.go: an app as `lwd.toml` declares it. TOML decoding itself is BurntSushi's.
pub mod Size
pub mod Names
pub mod Paths
pub mod Transports
pub mod Accepted
pub mod Validate
pub mod Tests
use lwd.Base.{
  List, Option, Result, String, [], eqb_ℤ, err, if◌then◌else◌, none, ok, pos, some, str, str_eq,
  wrapf, ℤ, ◌∷◌,
}

pub record Git : Type 0 where
  pub url : String
  pub ref : String
  pub path : String

-- A map of strings as its pairs, without a key twice.
abbrev pub Env : Type 0
Env = List (String × String)

pub record Service : Type 0 where
  pub name : String
  pub image : String
  pub command : String
  pub env : Env
  pub secrets : List String
  pub volume : String

pub record Health : Type 0 where
  pub path : String
  pub timeout : ℤ  -- time.Duration, in nanoseconds
  pub raw_timeout : String

pub record Build : Type 0 where
  pub context : String
  pub dockerfile : String

pub record Requirements : Type 0 where
  pub cpu : ℤ  -- float64
  pub memory : String

pub record App : Type 0 where
  pub name : String
  pub image : String
  pub domain : String
  pub port : ℤ
  pub node : String
  pub pool : String
  pub env : Env
  pub secrets : List String
  pub health : Health
  pub replicas : ℤ
  pub requirements : Option Requirements
  pub compose : String
  pub service : String
  pub git : Option Git
  pub services : List Service
  pub build : Option Build
  pub surfaces : List String

-- The defaults that `Parse` applies to a decoded document. `parse_duration` is Go's.
unfoldable pub default_ref : Option Git → Option Git
default_ref none = none
default_ref (some g) = some (if str_eq g.ref "" then record g { ref = "main" } else g)

unfoldable pub default_timeout : ℤ → ℤ
default_timeout t = if eqb_ℤ t (pos 0) then pos 30000000000 else t

abbrev pub with_timeout : Health → Result ℤ → Result Health
with_timeout h (ok d) = ok (record h { timeout = default_timeout d })
with_timeout h (err e) = err (wrapf "health.timeout %q: %w" (str h.raw_timeout ∷ []) e)

module _ (parse_duration : String → Result ℤ) where
  unfoldable pub parse_health : Health → Result Health
  unfolding default_timeout
  parse_health h =
      if str_eq h.raw_timeout ""
      then with_timeout h (ok h.timeout)
      else with_timeout h (parse_duration h.raw_timeout)

  abbrev with_health : App → Result Health → Result App
  with_health a (err e) = err e
  with_health a (ok h) = ok (record a {
    git = default_ref a.git;
    health = h;
    replicas = if eqb_ℤ a.replicas (pos 0) then pos 1 else a.replicas;
  })

  unfoldable pub parse : App → Result App
  unfolding parse_health default_ref
  parse a = with_health a (parse_health a.health)
