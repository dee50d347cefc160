-- ===== src/Store/Vault.antt =====
-- The table of secrets: what a lookup returns after each change.
use lwd.Base.{List, String, [], arith, eq_iff, if◌then◌else◌, some, str_eq, ℕ, ◌&&◌, ◌∷◌, ◌≡◌}
use lwd.Store.{SecretRow, Store, find_secret, get_secret, set_secret, upsert_secret}

find-upsert_secret :
    (a k b j : String) (v : List ℕ) (rs : List SecretRow)
    → find_secret b j (upsert_secret a k v rs)
      ≡ (if str_eq a b && str_eq k j then some v else find_secret b j rs)
unfolding find_secret upsert_secret
find-upsert_secret a k b j v [] = ground arith
find-upsert_secret a k b j v (r ∷ rs) = ground (
  arith,
  eq_iff r.app a,
  eq_iff r.key k,
  eq_iff r.app b,
  eq_iff r.key j,
  eq_iff a b,
  eq_iff k j,
  find-upsert_secret a k b j v rs,
)

-- A lookup after `SetSecret` finds the value that was set under its app and name, and elsewhere
-- what it found before.
pub get_secret-set_secret :
    (a k b j : String) (v : List ℕ) (s : Store)
    → get_secret b j (set_secret a k v s)
      ≡ (if str_eq a b && str_eq k j then some v else get_secret b j s)
unfolding get_secret set_secret
get_secret-set_secret a k b j v s = find-upsert_secret a k b j v s.secrets
