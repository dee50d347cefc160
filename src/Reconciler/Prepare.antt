-- ===== src/Reconciler/Prepare.antt =====
-- internal/reconciler/reconciler.go: the steps that applyImage, applyGit and rollbackGitLocked share
-- before the deploy of a set of replicas, and the row of an attempt that failed.
use lwd.Base.{
  Arg, Bool, List, Option, String, [], false, if◌then◌else◌, none, some, str, str_eq, suc, zero, ℕ,
  ◌+++◌, ◌/◌, ◌∷◌,
}
use lwd.Reconciler.World.{
  M, Meta, Outside, ask, ask_error, ask_result, ignore, or_undo, pure, wrapping, ◌>>=◌, ◌>>◌,
}
use lwd.Reconciler.Rollout.{Rollout, lwd_network, merge_env}
use lwd.Reconciler.Deploy.{insert_row}
use lwd.Store.{Deployment, failed}
use lwd.Spec.{App, Build, Env}
use lwd.Reconciler.Services.{ensure_backing}

-- What the row of a failed attempt tells.
pub record Attempt : Type 0 where
  pub app : String
  pub image : String
  pub container_id : String
  pub spec : String
  pub compose : String

abbrev pub failed_row : Attempt → ℕ → Deployment
failed_row a now = record {
  id = 0;
  app = a.app;
  image = a.image;
  container_id = a.container_id;
  status = failed;
  created_at = now / 1000000000;
  spec = a.spec;
  compose = a.compose;
  scheduled = false;
  replicas = [];
}

abbrev pub attempt_of : App → String → String → String → Attempt
attempt_of app image spec compose = record {
  app = app.name;
  image = image;
  container_id = "";
  spec = spec;
  compose = compose;
}

unfoldable pub first_codes : ℕ → String → String
first_codes zero s = ""
first_codes (suc k) String.[] = ""
first_codes (suc k) (String.◌∷◌ c s) = String.◌∷◌ c (first_codes k s)

-- The first 12 bytes of a commit's sha, which is ASCII.
unfoldable pub short_sha : String → String
short_sha sha = first_codes 12 sha

abbrev pub image_tag : App → String → String
image_tag app sha = "lwd-build/" +++ (app.name +++ (":" +++ short_sha sha))

abbrev pub dockerfile_of : Option Build → String
dockerfile_of none = "Dockerfile"
dockerfile_of (some b) = if str_eq b.dockerfile "" then "Dockerfile" else b.dockerfile

abbrev pub or_given : Bool → Option Bool → Bool
or_given b none = b
or_given b (some o) = o

-- Where the app runs, and the environment and backing services that its containers get.
pub record Ground : Type 0 where
  pub meta : Meta
  pub env : Env
  pub network : String
  pub compose : String

abbrev pub rollout_of : App → String → Ground → String → Bool → Rollout
rollout_of app image g spec scheduled = record {
  app = app;
  image = image;
  env = g.env;
  backing_network = g.network;
  compose = g.compose;
  spec_json = spec;
  is_local = g.meta.is_local;
  mesh_addr = g.meta.mesh_addr;
  scheduled = scheduled;
}

module _ (out : Outside) where
  unfoldable pub record_failed : Attempt → M (Unit {0})
  record_failed a = do now ← ask out.now; ignore (insert_row out (failed_row a now))

  -- `if err != nil { _, _ = r.store.RecordDeployment(...); return nil, fmt.Errorf(format, args, err) }`
  abbrev pub recording : {A : Type 0} → Attempt → String → List Arg → M A → M A
  recording a format args m = or_undo (wrapping format args m) (record_failed a)

  -- The node, the router and the shared network.
  unfoldable pub open_node : Attempt → App → M Meta
  open_node a app = do
    m ←
        recording a "resolve node %q: %w" (str app.node ∷ [])
          (ask_result (λ t. out.resolve_meta t app.node))
    wrapping "ensure router: %w" [] (ask_error out.router_up_error)
    wrapping "ensure network: %w" [] (ask_error (λ t. out.ensure_network t app.node lwd_network))
    pure m

  abbrev pub settled : App → Meta → Env → String × String → Ground
  settled app m secret_vals backing = record {
    meta = m;
    env = merge_env app.env secret_vals;
    network = backing.0;
    compose = backing.1;
  }

  -- The secrets and the backing services.
  unfoldable pub settle : Attempt → App → Meta → M Ground
  settle a app m = do
    secret_vals ←
        recording a "resolve secrets: %w" []
          (ask_result (λ t. out.resolve_secrets t app.name app.secrets))
    backing ←
        recording a "ensure backing: %w" []
          (ensure_backing out app.node app (merge_env app.env secret_vals) m.docker_host)
    pure (settled app m secret_vals backing)
