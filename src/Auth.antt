-- ===== src/Auth.antt =====
-- internal/cli/apiauth.go and internal/agent/auth.go: who may reach the API of the controller and
-- that of an agent. A handler is a function of the request; a refused request has no answer of its.
pub mod Bearer
pub mod Tests
use lwd.Base.{
  Bool, Error, List, Option, Result, String, [], codes, err, errorf, false, if◌then◌else◌, none,
  not, ok, some, str, str_eq, ℕ, ◌&&◌, ◌==◌, ◌||◌, ◌∷◌,
}
use lwd.Spec.Names.{codes_eq}

-- What these checks read of a request.
pub record Request : Type 0 where
  pub path : String
  pub authorization : String

-- The rest of a text after a prefix, if it has it.
unfoldable pub after_prefix : List ℕ → List ℕ → Option (List ℕ)
after_prefix [] s = some s
after_prefix (p ∷ ps) [] = none
after_prefix (p ∷ ps) (c ∷ cs) = let rest = after_prefix ps cs in if p == c then rest else none

abbrev pub or_empty : Option (List ℕ) → List ℕ
or_empty none = []
or_empty (some s) = s

unfoldable pub bearer_token : Request → List ℕ
bearer_token r = or_empty (after_prefix (codes "Bearer ") (codes r.authorization))

-- subtle.ConstantTimeCompare, of the texts of two tokens.
abbrev pub check_token : List ℕ → List ℕ → Bool
check_token configured [] = false
check_token [] (c ∷ cs) = false
check_token (d ∷ ds) (c ∷ cs) = codes_eq (d ∷ ds) (c ∷ cs)

-- `split_host_port` is net.SplitHostPort.
module _ (split_host_port : String → Result (String × String)) where
  abbrev pub is_loopback_host : Result (String × String) → Bool
  is_loopback_host (err e) = false
  is_loopback_host (ok (host, port)) =
      str_eq host "127.0.0.1" || (str_eq host "::1" || str_eq host "localhost")

  unfoldable pub is_loopback_addr : String → Bool
  is_loopback_addr addr = is_loopback_host (split_host_port addr)

  unfoldable pub api_listen_allowed : String → String → Option Error
  api_listen_allowed addr token =
      if str_eq addr ""
      then none
      else if not (is_loopback_addr addr) && str_eq token ""
      then some (
          errorf
            "LWD_ADDR %q binds a non-loopback interface but LWD_API_TOKEN is unset — refusing to expose an unauthenticated control plane"
            (str addr ∷ []))
      else none

module _ {A : Type 0} where
  -- The answer, or none for 401.
  unfoldable pub bearer_middleware : String → (Request → A) → Request → Option A
  bearer_middleware token h r =
      if str_eq token ""
      then some (h r)
      else if check_token (codes token) (bearer_token r)
      then some (h r)
      else none

  unfoldable pub auth_middleware : String → (Request → A) → Request → Option A
  auth_middleware token h r =
      if str_eq r.path "/healthz"
      then some (h r)
      else if check_token (codes token) (bearer_token r)
      then some (h r)
      else none
