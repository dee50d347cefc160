-- ===== src/Reconciler/Staging.antt =====
-- All that a deploy does before the route's flip keeps each invariant that does not read the tick, the
-- log or the staging routes, and that a failed attempt's row keeps.
use lwd.Base.{Arg, List, String, [], false, refl, suc, ℕ, ◌++◌, ◌∷◌}
use lwd.Reconciler.World.{Container, M, Outside, World, ask, call_router, ignore, wrapping}
use lwd.Reconciler.Keeps.{
  Keeps, Keeps-ask, Keeps-bind, Keeps-ignore, Keeps-or_undo, Keeps-pure, Keeps-wrapping,
}
use lwd.Reconciler.Questions.{check_health-Keeps}
use lwd.Reconciler.Untouched.{
  IsQuiet, insert_row-Keeps, remove_all-Keeps, remove_staging-Keeps, run_container-Keeps,
  set_staging-Keeps,
}
use lwd.Reconciler.Asked.{connect-Keeps, image_for-Keeps}
use lwd.Reconciler.Deploy.{
  check_all, connect, guarded, image_for, insert_row, record_failed_replica_set, remove_all,
  stage_set, start_all, start_replica,
}
use lwd.Store.{failed}
use lwd.Reconciler.Rollout.{Rollout, Started, Target, first_id, no_start, set_of, staging_host}
use lwd.Router.{remove_staging}

module _ (out : Outside) (I : World → Type 0) (quiet : IsQuiet I) (q : Rollout) where
  pub undone-Keeps :
      (host : String) (ts : List Target) (cs : List Container)
      → Keeps I (record_failed_replica_set out q host ts cs)
  unfolding record_failed_replica_set
  undone-Keeps host ts cs =
      Keeps-bind I (ignore (call_router out (remove_staging host))) _
        (Keeps-ignore I (call_router out (remove_staging host))
          (remove_staging-Keeps out I quiet host))
        λ _. Keeps-bind I (remove_all out ts cs) _ (remove_all-Keeps out I quiet ts cs) λ _.
          Keeps-bind I (ask out.now) _ (Keeps-ask I quiet.ticks out.now) λ now.
            Keeps-ignore I
              (insert_row out (record (set_of q (first_id cs) failed now []) { scheduled = false }))
              (insert_row-Keeps out I quiet
                (record (set_of q (first_id cs) failed now []) { scheduled = false }) refl)

  guarded-Keeps :
      {A : Type 0} (host : String) (ts : List Target) (cs : List Container) (f : String)
      (args : List Arg) (m : M A)
      → Keeps I m
      → Keeps I (guarded out q host ts cs f args m)
  guarded-Keeps host ts cs f args m k =
      Keeps-or_undo I (wrapping f args m) (record_failed_replica_set out q host ts cs)
        (Keeps-wrapping I f args m k) (undone-Keeps host ts cs)

  start_replica-Keeps :
      (id : ℕ) (host : String) (ts : List Target) (i : ℕ) (t : Target) (st : Started)
      → Keeps I (start_replica out q id host ts i t st)
  unfolding start_replica
  start_replica-Keeps id host ts i t st =
      Keeps-bind I _ _
        (guarded-Keeps host ts st.containers _ _ (image_for out q i t)
          (image_for-Keeps out I quiet.ticks q i t))
        λ _.
          Keeps-bind I _ _
            (guarded-Keeps host ts st.containers _ _ _ (run_container-Keeps out I quiet t.name _))
            λ c.
              Keeps-bind I _ _
                (guarded-Keeps host ts (st.containers ++ c ∷ []) _ _ (connect out q t c)
                  (connect-Keeps out I quiet.ticks q t c))
                λ _. Keeps-pure I _

  start_all-Keeps :
      (id : ℕ) (host : String) (ts : List Target) (i : ℕ) (rest : List Target) (st : Started)
      → Keeps I (start_all out q id host ts i rest st)
  unfolding start_all
  start_all-Keeps id host ts i [] st = Keeps-pure I st
  start_all-Keeps id host ts i (t ∷ rest) st =
      Keeps-bind I (start_replica out q id host ts i t st) _ (start_replica-Keeps id host ts i t st)
        (start_all-Keeps id host ts (suc i) rest)

  check_all-Keeps :
      (host : String) (ts : List Target) (cs : List Container) (i : ℕ) (rest : List Target)
      (ds : List Container)
      → Keeps I (check_all out q host ts cs i rest ds)
  unfolding check_all
  check_all-Keeps host ts cs i [] ds = Keeps-pure I tt
  check_all-Keeps host ts cs i (t ∷ rest) [] = Keeps-pure I tt
  check_all-Keeps host ts cs i (t ∷ rest) (d ∷ ds) =
      Keeps-bind I _ _
        (guarded-Keeps host ts cs _ _ _
          (check_health-Keeps out I quiet.ticks q.app t.name host d.id))
        λ _. check_all-Keeps host ts cs (suc i) rest ds

  pub stage_set-Keeps : (id : ℕ) (ts : List Target) → Keeps I (stage_set out q id ts)
  unfolding stage_set
  stage_set-Keeps id ts =
      Keeps-bind I _ _ (start_all-Keeps id (staging_host id) ts 0 ts no_start) λ st.
        Keeps-bind I _ _
          (guarded-Keeps (staging_host id) ts st.containers _ _ _
            (set_staging-Keeps out I quiet (staging_host id) st.upstreams))
          λ _.
            Keeps-bind I _ _ (check_all-Keeps (staging_host id) ts st.containers 0 ts st.containers)
              λ _. Keeps-pure I st
