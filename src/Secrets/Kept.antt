-- ===== src/Secrets/Kept.antt =====
-- The value that a secret has once it is set.
use lwd.Base.{
  Arg, Error, List, Option, Result, String, ap, arith, eq_iff, err, none, ok, refl, some, ℕ, ◌∙◌,
  ◌≡◌, ◌≢◌,
}
use lwd.Reconciler.World.{Outside, World, ask_result, exec, stored, wrapped, wrapping}
use lwd.Reconciler.Rules.{Outcome, Runs-bind}
use lwd.Secrets.{Cipher, set}
use lwd.Secrets.Resolved.{IsStored}
use lwd.Store.{Store, get_secret, set_secret}
use lwd.Store.Vault.{get_secret-set_secret}

same_secret :
    (app key : String) (enc : List ℕ) (s : Store)
    → get_secret app key (set_secret app key enc s) ≡ some enc
same_secret app key enc s =
    get_secret-set_secret app key app key enc s
    ∙ rw ((eq_iff app app).1 refl, (eq_iff key key).1 refl) refl

other_secret :
    (app key n : String) (enc : List ℕ) (s : Store)
    → key ≢ n
    → get_secret app n (set_secret app key enc s) ≡ get_secret app n s
other_secret app key n enc s h =
    ground (arith, eq_iff key n, get_secret-set_secret app key app n enc s)

module _ (out : Outside) (cipher : Cipher) (app key value : String) where
  -- The store before and after.
  abbrev pub IsKept : Store → Store → Type 0
  IsKept s r =
      IsStored out cipher app r key value
      × ((n : String) → key ≢ n → get_secret app n r ≡ get_secret app n s)

  module _ (w : World) where
    abbrev Encrypted : List ℕ → World → Type 0
    Encrypted enc v = (v.store ≡ w.store) × (cipher.decrypt enc ≡ ok value)

    abbrev Unset : Error → World → Type 0
    Unset e v = v.store ≡ w.store

    encrypted_lem :
        (f : String) (args : List Arg) (o : Result (List ℕ)) (v : World)
        → ((enc : List ℕ) → o ≡ ok enc → cipher.decrypt enc ≡ ok value)
        → v.store ≡ w.store
        → Outcome Encrypted Unset (wrapped f args (o, v))
    encrypted_lem f args (ok enc) v h p = (p, h enc refl)
    encrypted_lem f args (err e) v h p = p

    stored_lem :
        (enc : List ℕ) (v : World) (o : Option Error)
        → Encrypted enc v
        → Outcome (λ a u. IsKept w.store u.store) Unset (stored (set_secret app key enc) v o)
    stored_lem enc v (some e) (p, h) = p
    stored_lem enc v none (p, h) = (
      (enc, same_secret app key enc v.store, h),
      λ n d. other_secret app key n enc v.store d ∙ ap (get_secret app n) p,
    )

  -- If the cipher decrypts what it encrypts this value to, then `Set` either fails and changes no
  -- table, or it returns, and then the stored secret of this name decrypts to the value and each
  -- other secret of the app is as before.
  pub set-IsKept :
      (w : World)
      → ((t : ℕ) (enc : List ℕ) → cipher.encrypt t value ≡ ok enc → cipher.decrypt enc ≡ ok value)
      → Outcome
          (λ a u. IsKept w.store u.store)
          (λ e u. u.store ≡ w.store)
          (set out cipher app key value w)
  unfolding set wrapping ask_result exec
  set-IsKept w h =
      (Runs-bind (Encrypted w) (Unset w) (λ a u. IsKept w.store u.store) _ _ w
        (record { holds = encrypted_lem w _ _ (cipher.encrypt w.tick value) _ (h w.tick) refl })
        λ enc v k. record { holds = stored_lem w enc v (out.db_error v.tick) k }).holds
