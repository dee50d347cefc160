-- ===== src/Spec/Accepted.antt =====
-- What a spec that passes `Validate` satisfies.
use lwd.Base.{
  All, Float64, List, String, [], arith, false, none, pos, some_entry, str_eq, true, ◌∷◌, ◌≡◌, ◌≤ℤ◌,
}
use lwd.Spec.{App, Service}
use lwd.Spec.Names.{name_re, secret_name_re, service_name_re}
use lwd.Spec.Validate.{check_replicas, check_secrets, check_services, is_nil, validate}

check_secrets-All :
    (ns : List String) → check_secrets ns ≡ none → All (λ n. secret_name_re n ≡ true) ns
unfolding check_secrets
check_secrets-All [] h = tt
check_secrets-All (n ∷ ns) h =
    let parts : (secret_name_re n ≡ true) × (check_secrets ns ≡ none) = ground (arith, h) in
    (parts.0, check_secrets-All ns parts.1)

-- A service has a valid name that none before it has, an image and valid secret names.
abbrev pub IsServices : List String → List Service → Type 0
IsServices seen [] = Unit
IsServices seen (svc ∷ rest) =
    (service_name_re svc.name ≡ true)
    × (some_entry (λ n. str_eq n svc.name) seen ≡ false)
    × (str_eq svc.image "" ≡ false)
    × All (λ n. secret_name_re n ≡ true) svc.secrets
    × IsServices (svc.name ∷ seen) rest

check_services-IsServices :
    (seen : List String) (ss : List Service) → check_services seen ss ≡ none → IsServices seen ss
unfolding check_services
check_services-IsServices seen [] h = tt
check_services-IsServices seen (svc ∷ rest) h =
    let parts : (service_name_re svc.name ≡ true)
        × (some_entry (λ n. str_eq n svc.name) seen ≡ false)
        × (str_eq svc.image "" ≡ false)
        × (check_secrets svc.secrets ≡ none)
        × (check_services (svc.name ∷ seen) rest ≡ none) =
      ground (arith, h) in
    (
      parts.0,
      parts.1,
      parts.2,
      check_secrets-All svc.secrets parts.3,
      check_services-IsServices (svc.name ∷ seen) rest parts.4,
    )

pub record IsAccepted (a : App) : Type 0 where
  pub named : name_re a.name ≡ true
  pub secret_names : All (λ n. secret_name_re n ≡ true) a.secrets
  pub some_replicas : pos 0 ≤ℤ a.replicas
  pub few_replicas : a.replicas ≤ℤ pos 50
  pub one_if_compose : str_eq a.compose "" ≡ false → a.replicas ≤ℤ pos 1
  pub one_if_services : is_nil a.services ≡ false → a.replicas ≤ℤ pos 1
  pub services_apart : is_nil a.services ≡ false → str_eq a.compose "" ≡ true
  pub services : IsServices [] a.services

few :
    (a : App)
    → check_replicas a ≡ none
    → (pos 0 ≤ℤ a.replicas)
      × (a.replicas ≤ℤ pos 50)
      × (str_eq a.compose "" ≡ false → a.replicas ≤ℤ pos 1)
      × (is_nil a.services ≡ false → a.replicas ≤ℤ pos 1)
unfolding check_replicas
few a h =
    (ground (arith, h), ground (arith, h), (λ e. ground (arith, h, e)), (λ e. ground (arith, h, e)))

-- A spec that passes the checks has a valid name and valid secret names, between 0 and 50 replicas,
-- at most one if it is a compose app or has backing services, no services if it is a compose app,
-- and services with valid, different names, images and valid secret names.
pub validate-IsAccepted : (fl : Float64) (a : App) → validate fl a ≡ none → IsAccepted a
unfolding validate
validate-IsAccepted fl a h =
    let parts : (name_re a.name ≡ true)
        × (check_secrets a.secrets ≡ none)
        × (check_replicas a ≡ none)
        × ((is_nil a.services ≡ false) → (str_eq a.compose "" ≡ true))
        × (check_services [] a.services ≡ none) =
      ground (arith, h) in
    let counts = few a parts.2 in
    record {
      named = parts.0;
      secret_names = check_secrets-All a.secrets parts.1;
      some_replicas = counts.0;
      few_replicas = counts.1;
      one_if_compose = counts.2;
      one_if_services = counts.3;
      services_apart = parts.3;
      services = check_services-IsServices [] a.services parts.4;
    }
