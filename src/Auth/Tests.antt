-- ===== src/Auth/Tests.antt =====
-- A daemon that listens on all interfaces with a token, and an agent.
use lwd.Base.{Result, String, false, none, ok, refl, some, ◌≡◌, ◌⊎◌}
use lwd.Auth.{
  Request, after_prefix, api_listen_allowed, auth_middleware, bearer_middleware, bearer_token,
  is_loopback_addr,
}
use lwd.Auth.Bearer.{Carries, auth_middleware-Carries, bearer_middleware-Carries}
use lwd.Spec.Names.{codes_eq}

abbrev split : String → Result (String × String)
split addr = ok ("", "8077")

abbrev request : Request
request = record { path = "/apps"; authorization = "Bearer sesame" }

abbrev page : Request → String
page r = r.path

allowed_run : api_listen_allowed split ":8077" "sesame" ≡ none
unfolding api_listen_allowed is_loopback_addr
allowed_run = refl

remote_run : is_loopback_addr split ":8077" ≡ false
unfolding is_loopback_addr
remote_run = refl

answer_run : bearer_middleware "sesame" page request ≡ some "/apps"
unfolding bearer_middleware bearer_token after_prefix codes_eq
answer_run = refl

agent_run : auth_middleware "sesame" page request ≡ some "/apps"
unfolding auth_middleware bearer_token after_prefix codes_eq
agent_run = refl

bearer_middleware-Carries_example : Carries "sesame" request
bearer_middleware-Carries_example =
    bearer_middleware-Carries split ":8077" "sesame" page request "/apps" allowed_run (λ e. cc)
      remote_run answer_run

auth_middleware-Carries_example : (request.path ≡ "/healthz") ⊎ Carries "sesame" request
auth_middleware-Carries_example = auth_middleware-Carries "sesame" page request "/apps" agent_run
