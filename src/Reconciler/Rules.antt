-- ===== src/Reconciler/Rules.antt =====
-- Outcomes of methods: what holds of the state if a method returns and if it fails, with one rule
-- for each way to build a method.
use lwd.Base.{Error, Result, err, ok}
use lwd.Reconciler.World.{M, World, continue, ◌>>=◌}

abbrev pub Outcome :
    {A : Type 0} → (A → World → Type 0) → (Error → World → Type 0) → Result A × World → Type 0
Outcome P E (ok a, w) = P a w
Outcome P E (err e, w) = E e w

-- From `w`, `m` returns with P or fails with E.
pub record Runs {A : Type 0} (P : A → World → Type 0) (E : Error → World → Type 0) (m : M A)
    (w : World) : Type 0 where
  pub holds : Outcome P E (m w)

module _ {A B : Type 0} (P : A → World → Type 0) (E : Error → World → Type 0)
    (Q : B → World → Type 0) where
  continue-Outcome :
      (x : Result A × World) (f : A → M B)
      → Outcome P E x
      → ((a : A) (v : World) → P a v → Runs Q E (f a) v)
      → Outcome Q E (continue f x)
  continue-Outcome (ok a, v) f h k = (k a v h).holds
  continue-Outcome (err e, v) f h k = h

  pub Runs-bind :
      (m : M A) (f : A → M B) (w : World)
      → Runs P E m w
      → ((a : A) (v : World) → P a v → Runs Q E (f a) v)
      → Runs Q E (m >>= f) w
  unfolding ◌>>=◌
  Runs-bind m f w h k = record { holds = continue-Outcome (m w) f h.holds k }

module _ {A : Type 0} (P Q : A → World → Type 0) (E F : Error → World → Type 0) where
  weaken-Outcome :
      (x : Result A × World)
      → Outcome P E x
      → ((a : A) (u : World) → P a u → Q a u)
      → ((e : Error) (u : World) → E e u → F e u)
      → Outcome Q F x
  weaken-Outcome (ok a, u) h p e = p a u h
  weaken-Outcome (err c, u) h p e = e c u h

  pub Runs-weaken :
      (m : M A) (v : World)
      → Runs P E m v
      → ((a : A) (u : World) → P a u → Q a u)
      → ((e : Error) (u : World) → E e u → F e u)
      → Runs Q F m v
  Runs-weaken m v h p e = record { holds = weaken-Outcome (m v) h.holds p e }

module _ {A : Type 0} (P Q : A → World → Type 0) (E F : Error → World → Type 0) where
  both-Outcome :
      (x : Result A × World)
      → Outcome P E x
      → Outcome Q F x
      → Outcome (λ a u. P a u × Q a u) (λ e u. E e u × F e u) x
  both-Outcome (ok a, u) h k = (h, k)
  both-Outcome (err c, u) h k = (h, k)

  pub Runs-both :
      (m : M A) (v : World)
      → Runs P E m v
      → Runs Q F m v
      → Runs (λ a u. P a u × Q a u) (λ e u. E e u × F e u) m v
  Runs-both m v h k = record { holds = both-Outcome (m v) h.holds k.holds }
