-- ===== src/Router/Replay.antt =====
-- A sequence of calls of the router against the two maps that it stands for, and what Caddy was given
-- to serve: the maps of the last configuration that it took.
use lwd.Base.{
  Error, List, Option, String, [], ap, if◌then◌else◌, none, refl, some, str_eq, true, ◌∙◌, ◌∷◌, ◌≡◌,
}
use mathlib.Core.Path.{fun_ext}
use lwd.Router.{
  Applied, Route, Router, Table, Upstream, apply_config, find_route, no_dir, put_route, refused,
  remove_route, remove_staging, saved, seed_routes, seed_table, set_route, set_staging, unwritten,
}
use lwd.Router.Tables.{find-drop, find-put}

-- The calls that post a configuration to Caddy.
pub data Change : Type 0 where
  routes_set : Route → Change
  routes_remove : String → Change
  staging_set : String → List Upstream → Change
  staging_remove : String → Change
  reloads : Change

pub data Call : Type 0 where
  posts : Change → Applied → Call
  seeds : List Route → Call

-- The router's committed maps, and the maps of the configuration that Caddy took last.
pub record Edge : Type 0 where
  pub maps : Router
  pub taken : Router

-- The maps that a call leaves if `applyConfig` returns this; a reload changes none.
unfoldable pub run_change : Change → Option Error → Router → Router
run_change (routes_set r) outcome c = (set_route r outcome c).0
run_change (routes_remove d) outcome c = (remove_route d outcome c).0
run_change (staging_set host ups) outcome c = (set_staging host ups outcome c).0
run_change (staging_remove host) outcome c = (remove_staging host outcome c).0
run_change reloads outcome c = c

-- What Caddy has after a post of these maps.
abbrev pub post : Applied → Router → Router → Router
post (refused e) candidate old = old
post (no_dir e) candidate old = candidate
post (unwritten e) candidate old = candidate
post saved candidate old = candidate

unfoldable pub run_call : Call → Edge → Edge
run_call (posts change a) k = record {
  maps = run_change change (apply_config a) k.maps;
  taken = post a (run_change change none k.maps) k.taken;
}
run_call (seeds rs) k = record k { maps = seed_routes rs k.maps }

unfoldable pub run_calls : List Call → Edge → Edge
run_calls [] k = k
run_calls (call ∷ calls) k = run_calls calls (run_call call k)

-- The route of each domain, and of each staging host.
pub record View : Type 0 where
  pub live : String → Option Route
  pub staged : String → Option Route

abbrev view_of : (String → Option Route) → (String → Option Route) → View
view_of f g = record { live = f; staged = g }

abbrev pub view : Router → View
view c = view_of (λ d. find_route d c.routes) (λ h. find_route h c.staging)

abbrev pub update : String → Option Route → (String → Option Route) → String → Option Route
update k r f j = if str_eq k j then r else f j

abbrev pub changed : Change → View → View
changed (routes_set r) v = record v { live = update r.domain (some r) v.live }
changed (routes_remove d) v = record v { live = update d none v.live }
changed (staging_set host ups) v = record v {
  staged =
      update host (some (record { domain = host; upstreams = ups; tls_internal = true })) v.staged;
}
changed (staging_remove host) v = record v { staged = update host none v.staged }
changed reloads v = v

abbrev pub unless_error : Option Error → View → View → View
unless_error none new old = new
unless_error (some e) new old = old

-- Each route under its domain, the last one of a domain.
abbrev pub seeded : List Route → (String → Option Route) → String → Option Route
seeded [] f = f
seeded (r ∷ rs) f = seeded rs (update r.domain (some r) f)

abbrev pub replay_call : Call → View → View
replay_call (posts change a) v = unless_error (apply_config a) (changed change v) v
replay_call (seeds rs) v = record v { live = seeded rs (λ d. none) }

abbrev pub replay : List Call → View → View
replay [] v = v
replay (call ∷ calls) v = replay calls (replay_call call v)

module _ (f g h : String → Option Route) (same : (k : String) → f k ≡ g k) where
  live_path : view_of f h ≡ view_of g h
  live_path = ap (λ x. view_of x h) (fun_ext same)

  staged_path : view_of h f ≡ view_of h g
  staged_path = ap (view_of h) (fun_ext same)

seed_path :
    (rs : List Route) (m : Table)
    → (λ d. find_route d (seed_table m rs)) ≡ seeded rs (λ d. find_route d m)
unfolding seed_table
seed_path [] m = refl
seed_path (r ∷ rs) m =
    seed_path rs (put_route r.domain r m) ∙ ap (seeded rs) (fun_ext (λ k. find-put r.domain k r m))

view-run_change :
    (change : Change) (outcome : Option Error) (c : Router)
    → view (run_change change outcome c) ≡ unless_error outcome (changed change (view c)) (view c)
unfolding run_change set_route remove_route set_staging remove_staging
view-run_change (routes_set r) none c = live_path _ _ _ (λ k. find-put r.domain k r c.routes)
view-run_change (routes_set r) (some e) c = refl
view-run_change (routes_remove d) none c = live_path _ _ _ (λ k. find-drop d k c.routes)
view-run_change (routes_remove d) (some e) c = refl
view-run_change (staging_set host ups) none c = staged_path _ _ _ (λ k. find-put host k _ c.staging)
view-run_change (staging_set host ups) (some e) c = refl
view-run_change (staging_remove host) none c = staged_path _ _ _ (λ k. find-drop host k c.staging)
view-run_change (staging_remove host) (some e) c = refl
view-run_change reloads none c = refl
view-run_change reloads (some e) c = refl

view-run_call :
    (call : Call) (k : Edge) → view (run_call call k).maps ≡ replay_call call (view k.maps)
unfolding run_call seed_routes find_route
view-run_call (posts change a) k = view-run_change change (apply_config a) k.maps
view-run_call (seeds rs) k =
    ap (λ f. view_of f (λ h. find_route h k.maps.staging)) (seed_path rs [])

-- After any sequence of calls of SetRoute, RemoveRoute, SetStaging, RemoveStaging, Reload and
-- SeedRoutes, whatever `applyConfig` returns to each, the committed maps have for each domain and
-- each staging host the route that is left if the calls for which it returned no error are done in
-- turn, and each seeding replaces all live routes by its own.
pub view-run_calls :
    (calls : List Call) (k : Edge) → view (run_calls calls k).maps ≡ replay calls (view k.maps)
unfolding run_calls
view-run_calls [] k = refl
view-run_calls (call ∷ calls) k =
    view-run_calls calls (run_call call k) ∙ ap (replay calls) (view-run_call call k)

-- If, after any sequence of calls of SetRoute, RemoveRoute, SetStaging, RemoveStaging, Reload and
-- SeedRoutes and whatever Caddy took in it, one more that posts to Caddy returns no error, then the
-- maps whose configuration Caddy took last have the routes that are left if, from the maps
-- committed at the start, the calls that returned no error and the seedings are done in turn, and
-- then that one.
pub view-taken :
    (calls : List Call) (change : Change) (k : Edge)
    → view (run_call (posts change saved) (run_calls calls k)).taken
      ≡ changed change (replay calls (view k.maps))
unfolding run_call
view-taken calls change k =
    view-run_change change none (run_calls calls k).maps
    ∙ ap (changed change) (view-run_calls calls k)
