-- ===== src/Spec/Names.antt =====
-- The name patterns of spec.go, and the checks on git urls and refs.
use lwd.Base.{
  Bool, Error, List, Option, String, [], codes, errorf, every, false, if◌then◌else◌, leb, map, none,
  not, some, some_entry, str, str_eq, true, ℕ, ◌&&◌, ◌==◌, ◌||◌, ◌∷◌,
}
use lwd.Spec.Size.{is_digit, span, to_lower}

abbrev pub is_alpha : ℕ → Bool
is_alpha c = (leb b'a' c && leb c b'z') || (leb b'A' c && leb c b'Z')

abbrev pub is_alnum : ℕ → Bool
is_alnum c = is_alpha c || is_digit c

-- `^[first][rest]*$`
unfoldable pub matches : (ℕ → Bool) → (ℕ → Bool) → List ℕ → Bool
matches first rest [] = false
matches first rest (c ∷ cs) = first c && every rest cs

-- [a-zA-Z0-9][a-zA-Z0-9_.-]*
unfoldable pub name_re : String → Bool
unfolding matches
name_re s = matches is_alnum (λ c. is_alnum c || (c == b'_' || (c == b'.' || c == b'-'))) (codes s)

-- [a-z0-9][a-z0-9-]*
unfoldable pub service_name_re : String → Bool
unfolding matches
service_name_re s =
    matches (λ c. (leb b'a' c && leb c b'z') || is_digit c)
      (λ c. (leb b'a' c && leb c b'z') || (is_digit c || c == b'-')) (codes s)

-- [A-Za-z_][A-Za-z0-9_]*
unfoldable pub secret_name_re : String → Bool
unfolding matches
secret_name_re s = matches (λ c. is_alpha c || c == b'_') (λ c. is_alnum c || c == b'_') (codes s)

-- [A-Za-z0-9][A-Za-z0-9_-]*
unfoldable pub pool_name_re : String → Bool
unfolding matches
pool_name_re s = matches is_alnum (λ c. is_alnum c || (c == b'_' || c == b'-')) (codes s)

-- [A-Za-z0-9][A-Za-z0-9._/-]*
unfoldable pub git_ref_re : String → Bool
unfolding matches
git_ref_re s =
    matches is_alnum (λ c. is_alnum c || (c == b'.' || (c == b'_' || (c == b'/' || c == b'-'))))
      (codes s)

-- strings.HasPrefix, strings.Contains
unfoldable pub has_prefix : List ℕ → List ℕ → Bool
has_prefix [] s = true
has_prefix (p ∷ ps) [] = false
has_prefix (p ∷ ps) (c ∷ cs) = p == c && has_prefix ps cs

unfoldable pub contains : List ℕ → List ℕ → Bool
unfolding has_prefix
contains p [] = has_prefix p []
contains p (c ∷ cs) = has_prefix p (c ∷ cs) || contains p cs

-- What stands before the first occurrence of `p`, as `url[:strings.Index(url, p)]`.
unfoldable pub before : List ℕ → List ℕ → Option (List ℕ)
unfolding has_prefix
before p [] = if has_prefix p [] then some [] else none
before p (c ∷ cs) =
    let rest = before p cs in
    if has_prefix p (c ∷ cs) then some [] else elim rest [ none ↦ none | some l ↦ some (c ∷ l) ]

unfoldable pub codes_eq : List ℕ → List ℕ → Bool
codes_eq [] [] = true
codes_eq [] (d ∷ ds) = false
codes_eq (c ∷ cs) [] = false
codes_eq (c ∷ cs) (d ∷ ds) = c == d && codes_eq cs ds

abbrev pub git_allowed_schemes : List String
git_allowed_schemes = "http" ∷ "https" ∷ "git" ∷ "ssh" ∷ "file" ∷ []

abbrev scp_class : ℕ → Bool
scp_class c = is_alnum c || (c == b'_' || (c == b'.' || c == b'-'))

-- [A-Za-z0-9_.-]+@[A-Za-z0-9_.-]+:[^:].*, from its end to its start
unfoldable pub scp_path : List ℕ → Bool
scp_path [] = false
scp_path (c ∷ cs) = not (c == b':') && every (λ d. not (d == 10)) cs

unfoldable pub scp_host : List ℕ × List ℕ → Bool
unfolding scp_path
scp_host ([], rest) = false
scp_host (host, []) = false
scp_host (host, c ∷ cs) = c == b':' && scp_path cs

unfoldable pub scp_user : List ℕ × List ℕ → Bool
unfolding scp_host span
scp_user ([], rest) = false
scp_user (user, []) = false
scp_user (user, c ∷ cs) = c == b'@' && scp_host (span scp_class cs)

unfoldable pub git_scp_like_re : List ℕ → Bool
unfolding scp_user span
git_scp_like_re s = scp_user (span scp_class s)

-- The scheme of a url is one of those that lwd permits.
unfoldable pub allowed_scheme : List ℕ → Bool
unfolding codes_eq
allowed_scheme s = some_entry (λ a. codes_eq (codes a) (map to_lower s)) git_allowed_schemes

unfoldable pub validate_git_url : String → Option Error
validate_git_url url =
    let s = codes url in
    if has_prefix (b'-' ∷ []) s
    then some (errorf "git url %q is invalid: must not start with -" (str url ∷ []))
    else elim (before (codes "://") s) [
      | some scheme ↦
          if allowed_scheme scheme
          then none
          else some (
              errorf
                "git url %q is invalid: unsupported scheme %q (allowed: http, https, git, ssh, file, or scp-like user@host:path)"
                (str url ∷ []))
      | none ↦
          if contains (codes "::") s
          then some (
              errorf "git url %q is invalid: command-executing transports are not allowed"
                (str url ∷ []))
          else if git_scp_like_re s
          then none
          else some (
              errorf
                "git url %q is invalid: must be a scheme://... URL (http, https, git, ssh, file) or scp-like user@host:path"
                (str url ∷ []))
    ]

unfoldable pub validate_git_ref : String → Option Error
unfolding git_ref_re
validate_git_ref ref =
    if str_eq ref ""
    then none
    else if git_ref_re ref
    then none
    else some
        (errorf "git ref %q is invalid: must match [A-Za-z0-9][A-Za-z0-9._/-]*" (str ref ∷ []))
