-- ===== src/Secrets.antt =====
-- internal/secrets/store.go: the values of an app's secrets, encrypted in the table of the store. The
-- cipher is a parameter: internal/secrets/cipher.go calls Go's AES-GCM with a random nonce.
pub mod Resolved
pub mod Kept
pub mod Tests
use lwd.Base.{List, Option, Result, String, [], err, errorf, none, ok, some, str, wrapf, ℕ, ◌∷◌}
use lwd.Reconciler.World.{
  M, Outside, ask_result, exec, lift, pure, query, raise, wrapping, ◌>>=◌, ◌>>◌,
}
use lwd.Reconciler.Rollout.{merge_env}
use lwd.Spec.{Env}
use lwd.Store.{delete_secret, get_secret, list_secret_keys, set_secret}

-- `encrypt` has a nonce for each question.
pub record Cipher : Type 0 where
  pub encrypt : ℕ → String → Result (List ℕ)
  pub decrypt : List ℕ → Result String

module _ (out : Outside) (cipher : Cipher) where
  unfoldable pub set : String → String → String → M (Unit {0})
  set app key value = do
    enc ← wrapping "encrypt: %w" [] (ask_result (λ t. cipher.encrypt t value))
    exec out (set_secret app key enc)

  abbrev pub decoded : String → String → Result String → Result (Option String)
  decoded app key (ok value) = ok (some value)
  decoded app key (err e) = err (wrapf "decrypt %s/%s: %w" (str app ∷ str key ∷ []) e)

  abbrev pub plain : String → String → Option (List ℕ) → Result (Option String)
  plain app key none = ok none
  plain app key (some enc) = decoded app key (cipher.decrypt enc)

  -- The value, or none if it is not set.
  unfoldable pub get : String → String → M (Option String)
  get app key = do enc ← query out (get_secret app key); lift (plain app key enc)

  unfoldable pub list : String → M (List String)
  list app = query out (list_secret_keys app)

  unfoldable pub delete : String → String → M (Unit {0})
  delete app key = exec out (delete_secret app key)

  abbrev pub required : String → String → Option String → M String
  required app name none =
      raise (errorf "secret %q is not set for app %q" (str name ∷ str app ∷ []))
  required app name (some value) = pure value

  -- The loop over the names, with the values found so far.
  unfoldable pub resolve_from : String → List String → Env → M Env
  resolve_from app [] env = pure env
  resolve_from app (name ∷ names) env = do
    found ← get app name
    value ← required app name found
    resolve_from app names (merge_env env ((name, value) ∷ []))

  unfoldable pub resolve : String → List String → M Env
  resolve app names = resolve_from app names []
