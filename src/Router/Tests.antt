-- ===== src/Router/Tests.antt =====
-- Instances for the router.
use lwd.Base.{List, [], external, false, none, pos, refl, some, ◌∷◌, ◌≡◌}
use lwd.Router.{
  Route, Router, apply_config, find_route, put_route, refused, saved, set_route, unwritten,
}
use lwd.Router.Replay.{
  Call, Edge, changed, posts, replay, routes_remove, routes_set, run_call, run_calls, run_change,
  seeds, view, view-run_calls, view-taken,
}

abbrev site : Route
site = record {
  domain = "a.example.com";
  upstreams = record { host = "c1"; port = pos 80 } ∷ [];
  tls_internal = false;
}

abbrev serving : Router
serving = record { routes = ("a.example.com", site) ∷ []; staging = [] }

abbrev other : Route
other = record site { domain = "b" }

abbrev edge : Edge
edge = record { maps = serving; taken = serving }

-- A change whose Caddyfile is not written after Caddy took it, one that Caddy refuses, and a seeding.
abbrev calls : List Call
calls =
    posts (routes_set other) (unwritten (external "disk full"))
    ∷ posts (routes_remove "a.example.com") (refused (external "refused"))
    ∷ seeds (other ∷ [])
    ∷ []

view-run_calls_example : view (run_calls calls edge).maps ≡ replay calls (view serving)
view-run_calls_example = view-run_calls calls edge

view-taken_example :
    view (run_call (posts (routes_set site) saved) (run_calls calls edge)).taken
    ≡ changed (routes_set site) (replay calls (view serving))
view-taken_example = view-taken calls (routes_set site) edge

-- Caddy has the route of a change whose file could not be written, and the committed maps do not.
unwritten_taken :
    (find_route "b"
        (run_call (posts (routes_set other) (unwritten (external "disk full"))) edge).taken.routes
      ≡ some other)
    × (find_route "b"
          (run_call (posts (routes_set other) (unwritten (external "disk full"))) edge).maps.routes
        ≡ none)
unfolding run_call run_change apply_config set_route put_route find_route
unwritten_taken = (refl, refl)
