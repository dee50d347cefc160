-- ===== src/Reconciler/Backing.antt =====
-- internal/reconciler/backing.go: the compose document of an app's backing services, and its quoting.
use lwd.Base.{
  Bool, List, Option, String, [], codes, decimal, if◌then◌else◌, ltb, map, none, some, some_entry,
  str_eq, str_ltb, ℕ, ◌%◌, ◌&&◌, ◌+++◌, ◌++◌, ◌/◌, ◌==◌, ◌||◌, ◌∷◌,
}
use lwd.Spec.Names.{contains, is_alnum, is_alpha, matches}
use lwd.Spec.{Env, Service}
use lwd.Store.{insert_distinct}
use Prim.Native.Char.{code}
use lwd.Spec.Validate.{is_nil}
use lwd.Base.Sort.{sort_stable}

-- [A-Za-z_][A-Za-z0-9_]*
unfoldable pub is_env_ident : String → Bool
is_env_ident name =
    matches (λ c. is_alpha c || c == b'_') (λ c. is_alnum c || c == b'_') (codes name)

-- strings.ReplaceAll of one character
unfoldable pub replace_all : ℕ → String → String → String
replace_all old new String.[] = ""
replace_all old new (String.◌∷◌ c s) =
    let rest = replace_all old new s in if code c == old then new +++ rest else String.◌∷◌ c rest

abbrev hex : ℕ → String
hex n =
    if ltb n 10
    then decimal n
    else if n == 10
    then "a"
    else if n == 11
    then "b"
    else if n == 12
    then "c"
    else if n == 13
    then "d"
    else if n == 14
    then "e"
    else "f"

-- `\u%04x` for the control characters that are left
unfoldable pub escape_controls : String → String
escape_controls String.[] = ""
escape_controls (String.◌∷◌ c s) =
    let rest = escape_controls s in
    if ltb (code c) 32
    then "\\u00" +++ (hex (code c / 16) +++ (hex (code c % 16) +++ rest))
    else String.◌∷◌ c rest

unfoldable pub yaml_quote : String → String
yaml_quote s =
    let a = replace_all b'\\' "\\\\" s in
    let b = replace_all b'"' "\\\"" a in
    let c = replace_all 10 "\\n" b in
    let d = replace_all 13 "\\r" c in
    let e = replace_all 9 "\\t" d in "\"" +++ (replace_all b'$' "$$" (escape_controls e) +++ "\"")

-- What stands before the first `c`.
unfoldable pub cut : ℕ → String → Option String
cut old String.[] = none
cut old (String.◌∷◌ c s) =
    let rest = cut old s in
    if code c == old then some "" else elim rest [ none ↦ none | some l ↦ some (String.◌∷◌ c l) ]

unfoldable pub named_volume_of : String → String
named_volume_of volume = elim (cut b':' volume) [
  | none ↦ ""
  | some name ↦ if str_eq name "" || contains (codes "/") (codes name) then "" else name
]

-- The keys of a map, sorted.
unfoldable pub sorted_keys : List String → List String
sorted_keys [] = []
sorted_keys (k ∷ ks) = insert_distinct k (sorted_keys ks)

unfoldable pub env_get : Env → String → String
env_get [] k = ""
env_get ((name, value) ∷ env) k = let rest = env_get env k in if str_eq name k then value else rest

-- A secret is a reference, an entry of the environment a literal.
unfoldable pub env_line : Service → String → String
env_line svc k =
    if some_entry (λ n. str_eq n k) svc.secrets
    then (if is_env_ident k
        then "      " +++ (yaml_quote k +++ (": \"${" +++ (k +++ "}\"\n")))
        else "")
    else "      " +++ (yaml_quote k +++ (": " +++ (yaml_quote (env_get svc.env k) +++ "\n")))

unfoldable pub concat_map {ℓ} : {A : Type ℓ} → (A → String) → List A → String
concat_map f [] = ""
concat_map f (x ∷ xs) = f x +++ concat_map f xs

unfoldable pub render_service : String → Service → String
render_service network svc =
    "  "
    +++ (yaml_quote svc.name
        +++ (":\n"
            +++ ("    image: "
                +++ (yaml_quote svc.image
                    +++ ("\n"
                        +++ ((if str_eq svc.command ""
                              then ""
                              else "    command: " +++ (yaml_quote svc.command +++ "\n"))
                            +++ ((if is_nil svc.env && is_nil svc.secrets
                                  then ""
                                  else "    environment:\n"
                                    +++ concat_map (env_line svc)
                                        (sorted_keys (map (λ e. e.0) svc.env ++ svc.secrets)))
                                +++ ((if str_eq svc.volume ""
                                      then ""
                                      else "    volumes:\n      - "
                                        +++ (yaml_quote svc.volume +++ "\n"))
                                    +++ ("    networks:\n      - "
                                        +++ (yaml_quote network
                                            +++ ("\n" +++ "    restart: unless-stopped\n")))))))))))

unfoldable pub named_volumes : List Service → List String
named_volumes [] = []
named_volumes (svc ∷ rest) =
    let volumes = named_volumes rest in
    if str_eq (named_volume_of svc.volume) ""
    then volumes
    else insert_distinct (named_volume_of svc.volume) volumes

unfoldable pub render_volumes : List String → String
render_volumes [] = ""
render_volumes (v ∷ vs) =
    "volumes:\n" +++ concat_map (λ name. "  " +++ (yaml_quote name +++ ":\n")) (v ∷ vs)

-- The document and the network's name.
unfoldable pub render_backing_compose : String → List Service → String × String
render_backing_compose app [] = ("", "")
render_backing_compose app (svc ∷ services) =
    let network = "lwd-" +++ app in
    let sorted = sort_stable (λ a b. str_ltb a.name b.name) (svc ∷ services) in
    (
      "networks:\n  "
          +++ (yaml_quote network
              +++ (":\n"
                  +++ (render_volumes (named_volumes sorted)
                      +++ ("services:\n" +++ concat_map (render_service network) sorted)))),
      network,
    )
