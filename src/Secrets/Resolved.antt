-- ===== src/Secrets/Resolved.antt =====
-- What `Resolve` returns, and the value that a secret has once it is set.
use lwd.Base.{
  All, Bool-cases, Error, List, Option, Result, String, [], ap, arith, eq_iff, err, if◌then◌else◌,
  inl, inr, keep, none, not, ok, refl, some, str_eq, subst, sym, ℕ, ◌++◌, ◌∙◌, ◌∷◌, ◌≡◌,
}
use lwd.Reconciler.World.{Outside, World, query, read_of}
use lwd.Reconciler.Rules.{Outcome, Runs, Runs-bind, Runs-weaken}
use lwd.Reconciler.Backing.{env_get}
use lwd.Reconciler.Rollout.{merge_env}
use lwd.Secrets.{Cipher, decoded, get, plain, required, resolve, resolve_from}
use lwd.Spec.{Env}
use lwd.Store.{Store, get_secret}

get-snoc :
    (k j v : String) (env : Env)
    → env_get (keep (λ e. not (str_eq e.0 k)) env ++ (k, v) ∷ []) j
      ≡ (if str_eq k j then v else env_get env j)
unfolding env_get
get-snoc k j v [] = refl
get-snoc k j v ((i, x) ∷ env) =
    ground (arith, eq_iff k j, eq_iff i k, eq_iff i j, get-snoc k j v env)

get-merge :
    (k j v : String) (env : Env)
    → env_get (merge_env env ((k, v) ∷ [])) j ≡ (if str_eq k j then v else env_get env j)
unfolding merge_env
get-merge k j v env = get-snoc k j v env

module _ (out : Outside) (cipher : Cipher) (app : String) where
  -- The secret's stored value decrypts to this text.
  abbrev pub IsStored : Store → String → String → Type 0
  IsStored s name v =
      (enc : List ℕ) × (get_secret app name s ≡ some enc) × (cipher.decrypt enc ≡ ok v)

  module _ (s : Store) where
    abbrev Found : String → Option String → World → Type 0
    Found name a v = (v.store ≡ s) × ((x : String) → a ≡ some x → IsStored s name x)

    decoded_of :
        (name : String) (enc : List ℕ) (d : Result String) (u : World)
        → get_secret app name s ≡ some enc
        → cipher.decrypt enc ≡ d
        → u.store ≡ s
        → Outcome (Found name) (λ _ _. Unit {0}) (decoded out cipher app name d, u)
    decoded_of name enc (ok v) u e k h =
        (h, λ x q. (enc, e, subst (λ y. cipher.decrypt enc ≡ ok y) (ground (arith, q)) k))
    decoded_of name enc (err f) u e k h = tt

    plain_of :
        (name : String) (o : Option (List ℕ)) (u : World)
        → get_secret app name s ≡ o
        → u.store ≡ s
        → Outcome (Found name) (λ _ _. Unit {0}) (plain out cipher app name o, u)
    plain_of name none u e h = (h, λ x k. absurd (ground (arith, k)))
    plain_of name (some enc) u e h = decoded_of name enc (cipher.decrypt enc) u e refl h

    queried_of :
        (name : String) (v : World) (e : Option Error)
        → v.store ≡ s
        → Outcome
            (λ o u. (u.store ≡ s) × (get_secret app name s ≡ o))
            (λ _ _. Unit {0})
            (read_of out (get_secret app name) v e)
    queried_of name v none h = (h, ap (get_secret app name) (sym h))
    queried_of name v (some e) h = tt

    get-Runs :
        (name : String) (v : World)
        → v.store ≡ s
        → Runs (Found name) (λ _ _. Unit {0}) (get out cipher app name) v
    unfolding get query
    get-Runs name v h =
        Runs-bind (λ o u. (u.store ≡ s) × (get_secret app name s ≡ o)) (λ _ _. Unit {0})
          (Found name) _ _ v (record { holds = queried_of name v (out.db_error v.tick) h })
          λ o u (k, e). record { holds = plain_of name o u e k }

    abbrev Holds : Env → String → Type 0
    Holds env n = (x : String) × IsStored s n x × (env_get env n ≡ x)

    Holds-merge_same :
        (env : Env) (name value : String)
        → IsStored s name value
        → Holds (merge_env env ((name, value) ∷ [])) name
    Holds-merge_same env name value st =
        (value, st, get-merge name name value env ∙ rw ((eq_iff name name).1 refl) refl)

    Holds-merge :
        (env : Env) (name value n : String)
        → IsStored s name value
        → Holds env n
        → Holds (merge_env env ((name, value) ∷ [])) n
    Holds-merge env name value n st (x, k, e) = elim (Bool-cases (str_eq name n)) [
      | inl t ↦
          subst (Holds (merge_env env ((name, value) ∷ []))) ((eq_iff name n).0 t)
            (Holds-merge_same env name value st)
      | inr f ↦ (x, k, get-merge name n value env ∙ rw f e)
    ]

    -- All that held still holds, and each name does.
    abbrev Resolved : List String → Env → Env → World → Type 0
    Resolved names env₀ env u =
        (u.store ≡ s) × ((n : String) → Holds env₀ n → Holds env n) × All (Holds env) names

    required-Runs :
        (name : String) (found : Option String) (v : World)
        → Found name found v
        → Runs
            (λ x u. (u.store ≡ s) × IsStored s name x)
            (λ _ _. Unit {0})
            (required out cipher app name found)
            v
    required-Runs name none v h = record { holds = tt }
    required-Runs name (some x) v (h, k) = record { holds = (h, k x refl) }

    resolve-Runs :
        (names : List String) (env : Env) (v : World)
        → v.store ≡ s
        → Runs (Resolved names env) (λ _ _. Unit {0}) (resolve_from out cipher app names env) v
    unfolding resolve_from
    resolve-Runs [] env v h = record { holds = (h, (λ n k. k), tt) }
    resolve-Runs (name ∷ names) env v h =
        Runs-bind (Found name) (λ _ _. Unit {0}) (Resolved (name ∷ names) env) _ _ v
          (get-Runs name v h)
          λ found v₁ k₁.
            Runs-bind (λ x u. (u.store ≡ s) × IsStored s name x) (λ _ _. Unit {0})
              (Resolved (name ∷ names) env) _ _ v₁ (required-Runs name found v₁ k₁)
              λ value v₂ (h₂, st).
                Runs-weaken (Resolved names (merge_env env ((name, value) ∷ [])))
                  (Resolved (name ∷ names) env) (λ _ _. Unit {0}) (λ _ _. Unit {0}) _ v₂
                  (resolve-Runs names (merge_env env ((name, value) ∷ [])) v₂ h₂)
                  (λ e u (h₃, keeps, all). (
                    h₃,
                    (λ n k. keeps n (Holds-merge env name value n st k)),
                    (keeps name (Holds-merge_same env name value st), all),
                  ))
                  (λ e u t. t)

  -- If `Resolve` returns, then the store is unchanged, and each name has the value that its stored
  -- secret decrypts to: no name is missing.
  pub resolve-IsStored :
      (names : List String) (env : Env) (w u : World)
      → resolve out cipher app names w ≡ (ok env, u)
      → (u.store ≡ w.store)
        × All (λ n. (x : String) × IsStored w.store n x × (env_get env n ≡ x)) names
  unfolding resolve
  resolve-IsStored names env w u h =
      let (same, keeps, all) =
        subst (Outcome (Resolved w.store names []) (λ _ _. Unit {0})) h
          (resolve-Runs w.store names [] w refl).holds in
      (same, all)
