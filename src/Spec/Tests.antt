-- ===== src/Spec/Tests.antt =====
-- Runs and instances for specs.
use lwd.Base.{
  Float64, [], codes, false, none, ok, pos, refl, some, str_eq, true, ◌↔◌, ◌∷◌, ◌≡◌, ◌⊎◌,
}
use lwd.Spec.{App}
use lwd.Spec.Names.{
  allowed_scheme, before, codes_eq, contains, has_prefix, matches, name_re, pool_name_re,
  secret_name_re, service_name_re, validate_git_url,
}
use lwd.Spec.Size.{after_letter, after_whole, factor_of, magnitude, size_match, skip_spaces, span}
use lwd.Spec.Transports.{transport, validate_git_url_safe}
use lwd.Spec.Validate.{
  check_replicas, check_requirements, check_secrets, check_services, check_shape, check_single,
  validate,
}
use lwd.Spec.Accepted.{IsAccepted, validate-IsAccepted}
use lwd.Spec.Paths.{
  clean_from, segments, stays_inside, validate_path_exact, validate_relative_no_traversal,
}

abbrev site : App
site = record {
  name = "site";
  image = "nginx";
  domain = "site.example.com";
  port = pos 80;
  node = "";
  pool = "";
  env = [];
  secrets = "API_KEY" ∷ [];
  health = record { path = "/up"; timeout = pos 0; raw_timeout = "" };
  replicas = pos 1;
  requirements = none;
  compose = "";
  service = "";
  git = none;
  services =
      record { name = "db"; image = "postgres"; command = ""; env = []; secrets = []; volume = "" }
      ∷ [];
  build = none;
  surfaces = [];
}

abbrev floats : Float64
floats = record {
  of_int = λ n. n;
  sub = λ a b. a;
  mul = λ a b. a;
  to_int64 = λ a. a;
  parse = λ s. ok (pos 0);
}

site_valid : validate floats site ≡ none
unfolding validate check_secrets check_requirements check_shape check_single check_replicas
    check_services name_re service_name_re secret_name_re pool_name_re matches
site_valid = refl

validate-IsAccepted_example : IsAccepted site
validate-IsAccepted_example = validate-IsAccepted floats site site_valid

url_valid : validate_git_url "https://example.com/site.git" ≡ none
unfolding validate_git_url before has_prefix contains allowed_scheme codes_eq
url_valid = refl

validate_git_url_safe_example :
    (has_prefix (b'-' ∷ []) (codes "https://example.com/site.git") ≡ false)
    × (contains (codes "::") (transport "https://example.com/site.git") ≡ false)
validate_git_url_safe_example = validate_git_url_safe "https://example.com/site.git" url_valid

-- `a/../../b` climbs out of the clone.
validate_path_exact_example : (validate_relative_no_traversal "git path" "a/../../b" ≡ none) ↔ (
    (str_eq "a/../../b" "" ≡ true)
    ⊎ ((has_prefix (b'/' ∷ []) (codes "a/../../b") ≡ false)
        × (stays_inside 0 (segments (codes "a/../../b")) ≡ true)))
validate_path_exact_example = validate_path_exact "git path" "a/../../b"

-- `a/../b` stays in it.
inner_path : validate_relative_no_traversal "git path" "a/../b" ≡ none
unfolding validate_relative_no_traversal has_prefix segments clean_from codes_eq
inner_path = refl

-- U+0130 is lowered to `i`.
dotted_scheme : validate_git_url "gİt://example.com/site.git" ≡ none
unfolding validate_git_url before has_prefix contains allowed_scheme codes_eq
dotted_scheme = refl

kelvin_size : size_match (codes "5K") ≡ some (codes "5", 1024)
unfolding size_match skip_spaces magnitude factor_of after_letter span after_whole
kelvin_size = refl

dotted_size : size_match (codes "5kİ") ≡ none
unfolding size_match skip_spaces magnitude factor_of after_letter span after_whole
dotted_size = refl
