-- ===== src/Router.antt =====
-- internal/router/router.go and caddyfile.go: the routes that Caddy serves.
pub mod Tables
pub mod Replay
pub mod Tests
use lwd.Base.{
  Bool, Error, List, Option, String, [], codes, if◌then◌else◌, none, not, some, some_entry, str_eq,
  true, wrapf, ℕ, ℤ, ◌==◌, ◌||◌, ◌∷◌,
}
use lwd.Spec.Names.{codes_eq}

pub record Upstream : Type 0 where
  pub host : String
  pub port : ℤ

pub record Route : Type 0 where
  pub domain : String
  pub upstreams : List Upstream
  pub tls_internal : Bool

-- A map from a domain or a host to its route.
abbrev pub Table : Type 0
Table = List (String × Route)

unfoldable pub find_route : String → Table → Option Route
find_route k [] = none
find_route k ((j, r) ∷ m) = let rest = find_route k m in if str_eq j k then some r else rest

-- m[k] = r, delete(m, k)
unfoldable pub put_route : String → Route → Table → Table
put_route k r [] = (k, r) ∷ []
put_route k r ((j, q) ∷ m) =
    let rest = put_route k r m in if str_eq j k then (k, r) ∷ m else (j, q) ∷ rest

unfoldable pub drop_route : String → Table → Table
drop_route k [] = []
drop_route k ((j, r) ∷ m) = let rest = drop_route k m in if str_eq j k then rest else (j, r) ∷ rest

-- The committed maps of `CaddyRouter`.
pub record Router : Type 0 where
  pub routes : Table
  pub staging : Table

-- What happens in `applyConfig`: Caddy refuses the post, or takes it, and then the directory or the
-- Caddyfile cannot be written, or all is done. A router without a data directory writes no file.
pub data Applied : Type 0 where
  refused : Error → Applied
  no_dir : Error → Applied
  unwritten : Error → Applied
  saved : Applied

-- What `applyConfig` returns.
unfoldable pub apply_config : Applied → Option Error
apply_config (refused e) = some (wrapf "router: reload caddy: %w" [] e)
apply_config (no_dir e) = some (wrapf "router: create data dir: %w" [] e)
apply_config (unwritten e) = some (wrapf "router: write caddyfile: %w" [] e)
apply_config saved = none

-- The candidate maps are committed only if `applyConfig` returns no error for them; `outcome` is what
-- it returned.
abbrev pub commit : Option Error → Router → Router → Router × Option Error
commit none candidate c = (candidate, none)
commit (some e) candidate c = (c, some e)

unfoldable pub set_route : Route → Option Error → Router → Router × Option Error
set_route r outcome c = commit outcome (record c { routes = put_route r.domain r c.routes }) c

unfoldable pub remove_route : String → Option Error → Router → Router × Option Error
remove_route domain outcome c = commit outcome (record c { routes = drop_route domain c.routes }) c

unfoldable pub set_staging : String → List Upstream → Option Error → Router → Router × Option Error
set_staging host ups outcome c =
    commit outcome
      (record c {
        staging =
            put_route host (record { domain = host; upstreams = ups; tls_internal = true })
              c.staging;
      })
      c

unfoldable pub remove_staging : String → Option Error → Router → Router × Option Error
remove_staging host outcome c = commit outcome (record c { staging = drop_route host c.staging }) c

unfoldable pub seed_table : Table → List Route → Table
seed_table m [] = m
seed_table m (r ∷ rs) = seed_table (put_route r.domain r m) rs

unfoldable pub seed_routes : List Route → Router → Router
unfolding seed_table
seed_routes rs c = record c { routes = seed_table [] rs }

-- strings.HasSuffix
unfoldable pub has_suffix : List ℕ → List ℕ → Bool
unfolding codes_eq
has_suffix p [] = codes_eq p []
has_suffix p (c ∷ cs) = codes_eq p (c ∷ cs) || has_suffix p cs

unfoldable pub use_internal_tls : String → Bool
unfolding has_suffix
use_internal_tls domain =
    if str_eq domain ""
    then true
    else if has_suffix (codes ".localhost") (codes domain) || str_eq domain "localhost"
    then true
    else not (some_entry (λ c. c == b'.') (codes domain))
