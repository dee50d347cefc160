-- ===== src/Secrets/Tests.antt =====
-- A site with two secrets, whose cipher keeps the text's code points.
use lwd.Base.{All, List, String, [], codes, ok, refl, true, ◌∷◌, ◌≡◌}
use lwd.Reconciler.World.{World, query, ◌>>=◌}
use lwd.Reconciler.Tests.{docker, idle}
use lwd.Reconciler.Backing.{env_get}
use lwd.Reconciler.Rollout.{merge_env}
use lwd.Secrets.Kept.{IsKept, set-IsKept}
use lwd.Reconciler.Rules.{Outcome}
use lwd.Secrets.Resolved.{IsStored, resolve-IsStored}
use lwd.Spec.{Env}
use lwd.Store.{find_secret, get_secret}
use lwd.Secrets.{Cipher, get, resolve, resolve_from, set}

abbrev plain_cipher : Cipher
plain_cipher = record { encrypt = λ t v. ok (codes v); decrypt = λ enc. ok "hunter2" }

abbrev kept : World
kept = record idle {
  store = record idle.store {
    secrets =
        record { app = "site"; key = "TOKEN"; value = 1 ∷ [] }
        ∷ record { app = "site"; key = "KEY"; value = 2 ∷ [] }
        ∷ [];
  };
}

abbrev both : List String
both = "KEY" ∷ "TOKEN" ∷ []

abbrev read : World
read = (resolve (docker true) plain_cipher "site" both kept).1

abbrev found : Env
found = ("KEY", "hunter2") ∷ ("TOKEN", "hunter2") ∷ []

secrets_run : resolve (docker true) plain_cipher "site" both kept ≡ (ok found, read)
unfolding ◌>>=◌ query get resolve resolve_from find_secret get_secret merge_env
secrets_run = refl

resolve-IsStored_example :
    (read.store ≡ kept.store)
    × All
        (λ n.
          (x : String) × IsStored (docker true) plain_cipher "site" kept.store n x
          × (env_get found n ≡ x))
        both
resolve-IsStored_example =
    resolve-IsStored (docker true) plain_cipher "site" both found kept read secrets_run

set-IsKept_example :
    Outcome
      (λ a u. IsKept (docker true) plain_cipher "site" "TOKEN" "hunter2" kept.store u.store)
      (λ e u. u.store ≡ kept.store)
      (set (docker true) plain_cipher "site" "TOKEN" "hunter2" kept)
set-IsKept_example =
    set-IsKept (docker true) plain_cipher "site" "TOKEN" "hunter2" kept λ t enc h. refl
