-- ===== src/Spec/Validate.antt =====
-- `Validate`: the checks in the order of the source, and what a spec that passes them satisfies.
use lwd.Base.{
  Arg, Bool, Error, Float64, List, Option, String, [], eqb_ℤ, err, errorf, false, if◌then◌else◌,
  ltb_ℤ, none, not, ok, pos, some, some_entry, str, str_eq, true, wrapf, ◌&&◌, ◌∷◌,
}
use lwd.Spec.{App, Build, Git, Requirements, Service}
use lwd.Spec.Size.{parse_size}
use lwd.Spec.Names.{
  name_re, pool_name_re, secret_name_re, service_name_re, validate_git_ref, validate_git_url,
}
use lwd.Spec.Paths.{validate_relative_no_traversal}

-- `if test { return fmt.Errorf(...) }`
abbrev pub refuse : Bool → String → List Arg → Option Error
refuse test f args = if test then some (errorf f args) else none

-- The checks of a block one after the other: the first error is returned.
infixr 3 ◌>>◌
abbrev pub ◌>>◌ : Option Error → Option Error → Option Error
none >> k = k
some e >> k = some e

unfoldable pub check_secrets : List String → Option Error
unfolding secret_name_re
check_secrets [] = none
check_secrets (n ∷ ns) =
    refuse (not (secret_name_re n)) "secret name %q is invalid: must match [A-Za-z_][A-Za-z0-9_]*"
      (str n ∷ [])
    >> check_secrets ns

module _ (fl : Float64) where
  unfoldable pub check_requirements : Option Requirements → Option Error
  check_requirements none = none
  check_requirements (some r) =
      refuse (ltb_ℤ r.cpu (pos 0)) "requirements.cpu %v is invalid: must not be negative" []
      >> elim (parse_size fl r.memory) [
        | ok b ↦ none
        | err e ↦ some (wrapf "requirements.memory: %w" [] e)
      ]

unfoldable pub check_build : Option Build → Option Error
check_build none = some (errorf "build is required for git apps" [])
check_build (some b) =
    validate_relative_no_traversal "build context" b.context
    >> validate_relative_no_traversal "build dockerfile" b.dockerfile

abbrev pub is_some : {A : Type 0} → Option A → Bool
is_some none = false
is_some (some x) = true

unfoldable pub check_git : Git → App → Option Error
unfolding check_build
check_git g a =
    refuse (str_eq g.url "") "git url is required" []
    >> validate_git_url g.url
    >> validate_git_ref g.ref
    >> validate_relative_no_traversal "git path" g.path
    >> check_build a.build
    >> refuse (not (str_eq a.image "")) "cannot mix git and image" []
    >> refuse (not (str_eq a.compose "")) "cannot mix git and compose" []
    >> refuse (str_eq a.domain "") "domain is required for git apps" []
    >> refuse (eqb_ℤ a.port (pos 0)) "port is required for git apps" []

unfoldable pub check_compose : App → Option Error
check_compose a =
    refuse (str_eq a.service "") "service is required for compose apps" []
    >> refuse (str_eq a.domain "") "domain is required for compose apps" []
    >> refuse (eqb_ℤ a.port (pos 0)) "port is required for compose apps" []
    >> refuse (not (str_eq a.image "")) "cannot mix compose and image" []
    >> refuse (is_some a.build) "cannot mix compose and build" []
    >> refuse (not (str_eq a.node "") && not (str_eq a.node "local"))
        "compose apps on remote nodes are not supported yet (place on local, or use image/git apps with [[services]])"
        []

unfoldable pub check_single : App → Option Error
check_single a =
    refuse (is_some a.build) "build-from-source is not supported yet" []
    >> refuse (str_eq a.image "") "image is required" []
    >> refuse (eqb_ℤ a.port (pos 0)) "port is required" []

unfoldable pub check_shape : App → Option Git → Option Error
unfolding check_git check_compose check_single
check_shape a (some g) = check_git g a
check_shape a none = if not (str_eq a.compose "") then check_compose a else check_single a

abbrev pub is_nil {ℓ} : {A : Type ℓ} → List A → Bool
is_nil [] = true
is_nil (x ∷ xs) = false

unfoldable pub check_replicas : App → Option Error
check_replicas a =
    refuse (ltb_ℤ a.replicas (pos 0)) "replicas must be >= 0" []
    >> refuse (ltb_ℤ (pos 50) a.replicas) "replicas must be <= 50" []
    >> refuse (ltb_ℤ (pos 1) a.replicas && not (str_eq a.compose ""))
        "replicas not supported for compose apps" []
    >> refuse (ltb_ℤ (pos 1) a.replicas && not (is_nil a.services))
        "replicas not supported with backing [[services]] (backing runs on a single node; use replicas=1)"
        []

-- The loop over the services, with the names seen so far.
unfoldable pub check_services : List String → List Service → Option Error
unfolding check_secrets service_name_re
check_services seen [] = none
check_services seen (svc ∷ rest) =
    refuse (str_eq svc.name "") "service name is required" []
    >> refuse (not (service_name_re svc.name))
        "service name %q is invalid: must match [a-z0-9][a-z0-9-]*" (str svc.name ∷ [])
    >> refuse (some_entry (λ n. str_eq n svc.name) seen) "duplicate service name %q"
        (str svc.name ∷ [])
    >> refuse (str_eq svc.image "") "service %q requires an image" (str svc.name ∷ [])
    >> check_secrets svc.secrets
    >> check_services (svc.name ∷ seen) rest

module _ (fl : Float64) where
  unfoldable pub validate : App → Option Error
  validate a =
      refuse (str_eq a.name "") "name is required" []
      >> refuse (not (name_re a.name)) "name %q is invalid: must match [a-zA-Z0-9][a-zA-Z0-9_.-]*"
          (str a.name ∷ [])
      >> check_secrets a.secrets
      >> refuse (not (is_nil a.surfaces)) "surfaces are not supported yet" []
      >> refuse (not (str_eq a.pool "") && not (pool_name_re a.pool))
          "pool %q is invalid: must match [A-Za-z0-9][A-Za-z0-9_-]*" (str a.pool ∷ [])
      >> check_requirements fl a.requirements
      >> check_shape a a.git
      >> check_replicas a
      >> refuse (not (is_nil a.services) && not (str_eq a.compose ""))
          "services are not allowed on compose apps" []
      >> check_services [] a.services
