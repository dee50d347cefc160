-- ===== src/Reconciler/World.antt =====
-- The state that the reconciler reads and writes, what it asks of code outside, and its methods as
-- functions from a state to a result and a state. `r.mu` is held across each method, so a method
-- is one step; contexts are not modelled, but for their cancellation during health polls.
use lwd.Base.{
  Arg, Bool, Error, Float64, List, Option, Result, String, err, none, ok, some, suc, true, wrap, ℕ,
  ℤ, ◌∷◌,
}
use lwd.Spec.{App, Env}
use lwd.Scheduler.{Capacity}
use lwd.Router.{Router}
use lwd.Store.{Store}
use lwd.Reconciler.Health.{Health}

pub record HealState : Type 0 where
  pub attempts : ℕ
  pub next_eligible : ℕ

-- What was asked of the containers of a node: started with this id, told to remove it.
pub data Effect : Type 0 where
  ran : String → String → Effect
  removed : String → String → Effect

-- `nudged` is whether a wake-up waits in the channel of the loop. `tick` counts the questions asked
-- so far: two questions may have different answers.
pub record World : Type 0 where
  pub store : Store
  pub router : Router
  pub heal : String → Option HealState
  pub unreachable_since : String → Option ℕ
  pub nudged : Bool
  pub health : Health
  pub log : List Effect
  pub tick : ℕ

-- node.Resolver's answer for a name: the handle is the name itself.
pub record Meta : Type 0 where
  pub mesh_addr : String
  pub docker_host : String
  pub is_local : Bool

pub record PortMapping : Type 0 where
  pub host_ip : String
  pub host_port : ℤ
  pub container_port : ℤ

pub record RunSpec : Type 0 where
  pub name : String
  pub image : String
  pub env : Env
  pub labels : List (String × String)
  pub port : ℤ
  pub network : String
  pub publish : List PortMapping
  pub cpus : ℤ
  pub memory_bytes : ℤ

pub record Container : Type 0 where
  pub id : String
  pub host_port : ℤ

-- What the reconciler does not decide itself: the database's, Caddy's, Docker's and the network's
-- answers, each as a function of the tick at which it is asked, and the encoding of a spec.
pub record Outside : Type 0 where
  pub float : Float64
  pub marshal : App → Result String
  pub unmarshal : String → Result App
  pub now : ℕ → ℕ
  pub cancelled : ℕ → Bool
  pub db_error : ℕ → Option Error
  pub caddy_error : ℕ → Option Error
  pub router_up_error : ℕ → Option Error
  pub resolve_meta : ℕ → String → Result Meta
  pub reach : Option (ℕ → String → Bool)
  pub transport : ℕ → String → String
  pub caddy_healthy : ℕ → Bool
  pub capacity : ℕ → String → Result Capacity
  pub ensure_network : ℕ → String → String → Option Error
  pub ensure_image : ℕ → String → String → Option Error
  pub image_present : ℕ → String → String → Result Bool
  pub save_image : ℕ → String → String → Option Error
  pub load_image : ℕ → String → String → Option Error
  pub run_container : ℕ → String → RunSpec → Result Container
  pub remove_error : ℕ → String → String → Option Error
  pub container_health : ℕ → String → String → Result (String × String)
  pub connect_error : ℕ → String → String → String → Option Error
  pub probe : ℕ → String → String → Result ℕ
  pub resolve_secrets : ℕ → String → List String → Result Env
  pub compose_up_error : ℕ → String → String → Env → Option Error
  pub compose_down_error : ℕ → String → String → Env → Option Error
  pub service_container : ℕ → String → String → Result (String × String)
  pub list_containers : ℕ → String → String → Result (List String)
  pub read_file : ℕ → String → Result String
  pub create_temp : ℕ → Result String
  pub write_error : ℕ → String → String → Option Error
  pub close_error : ℕ → String → Option Error
  pub make_temp_dir : ℕ → Result String
  pub join_path : String → String → String
  pub clone : ℕ → String → String → String → Result String
  pub image_exists : ℕ → String → Result Bool
  pub build_error : ℕ → String → String → String → Option Error
  pub poll_rounds : ℕ
  pub heal_max_attempts : ℕ
  pub failover_grace : ℕ

abbrev pub M : Type 0 → Type 0
M A = World → Result A × World

module _ {A : Type 0} where
  abbrev pub pure : A → M A
  pure a w = (ok a, w)

  abbrev pub raise : Error → M A
  raise e w = (err e, w)

  abbrev pub lift : Result A → M A
  lift r w = (r, w)

  -- A question to the outside.
  abbrev pub ask : (ℕ → A) → M A
  ask f w = (ok (f w.tick), record w { tick = suc w.tick })

  abbrev pub gets : (World → A) → M A
  gets f w = (ok (f w), w)

abbrev pub modify : (World → World) → M (Unit {0})
modify f w = (ok tt, f w)

module _ {A B : Type 0} where
  abbrev pub continue : (A → M B) → Result A × World → Result B × World
  continue f (ok a, w) = f a w
  continue f (err e, w) = (err e, w)

  infixl 5 ◌>>=◌ ◌>>◌
  unfoldable pub ◌>>=◌ : M A → (A → M B) → M B
  ◌>>=◌ m f w = continue f (m w)

  abbrev pub ◌>>◌ : M A → M B → M B
  m >> k = m >>= λ _. k

  abbrev pub after_failure : M B → Result A × World → Result A × World
  after_failure undo (ok a, w) = (ok a, w)
  after_failure undo (err e, w) = (err e, (undo w).1)

  -- `if err != nil { undo(); return nil, err }`: what `undo` returns is ignored.
  unfoldable pub or_undo : M A → M B → M A
  or_undo m undo w = after_failure undo (m w)

module _ {A : Type 0} where
  -- `fmt.Errorf(format, args..., err)`
  abbrev pub wrapped : String → List Arg → Result A × World → Result A × World
  wrapped f args (r, w) = (wrap f args r, w)

  unfoldable pub wrapping : String → List Arg → M A → M A
  wrapping f args m w = wrapped f args (m w)

  abbrev pub forget : Result A × World → Result (Unit {0}) × World
  forget (r, w) = (ok tt, w)

  -- `_ = call()`
  unfoldable pub ignore : M A → M (Unit {0})
  ignore m w = forget (m w)

module _ {A : Type 0} where
  abbrev pub answered : Result A × World → Result (Result A) × World
  answered (r, w) = (ok r, w)

  -- `v, err := call()`, with what follows for both.
  unfoldable pub attempt : M A → M (Result A)
  attempt m w = answered (m w)

-- An answer that is an error, or a value.
abbrev pub failing : Option Error → Result (Unit {0})
failing none = ok tt
failing (some e) = err e

module _ {A : Type 0} where
  -- A question whose answer may be an error.
  unfoldable pub ask_result : (ℕ → Result A) → M A
  ask_result f w = (f w.tick, record w { tick = suc w.tick })

unfoldable pub ask_error : (ℕ → Option Error) → M (Unit {0})
ask_error f w = (failing (f w.tick), record w { tick = suc w.tick })

-- A statement that changes the store, unless the database refuses it.
abbrev pub stored : (Store → Store) → World → Option Error → Result (Unit {0}) × World
stored f w none = (ok tt, record w { store = f w.store; tick = suc w.tick })
stored f w (some e) = (err e, record w { tick = suc w.tick })

-- A change of the router's maps, with what `applyConfig` returns for it.
abbrev pub routed : World → Router × Option Error → Result (Unit {0}) × World
routed w (c, e) = (failing e, record w { router = c; tick = suc w.tick })

module _ (out : Outside) where
  -- A statement that reads the store.
  abbrev pub read_of : {A : Type 0} → (Store → A) → World → Option Error → Result A × World
  read_of f w none = (ok (f w.store), record w { tick = suc w.tick })
  read_of f w (some e) = (err e, record w { tick = suc w.tick })

  unfoldable pub query : {A : Type 0} → (Store → A) → M A
  query f w = read_of f w (out.db_error w.tick)

  unfoldable pub exec : (Store → Store) → M (Unit {0})
  exec f w = stored f w (out.db_error w.tick)

  unfoldable pub call_router : (Option Error → Router → Router × Option Error) → M (Unit {0})
  call_router f w = routed w (f (out.caddy_error w.tick) w.router)

  -- RunContainer and RemoveContainer on a node, with the log of what was asked.
  abbrev pub ran_on : String → World → Result Container → Result Container × World
  ran_on node w (ok c) = (ok c, record w { log = ran node c.id ∷ w.log; tick = suc w.tick })
  ran_on node w (err e) = (err e, record w { tick = suc w.tick })

  unfoldable pub run_container : String → RunSpec → M Container
  run_container node spec w = ran_on node w (out.run_container w.tick node spec)

  unfoldable pub remove_container : String → String → M (Unit {0})
  remove_container node id w = (
    failing (out.remove_error w.tick node id),
    record w { log = removed node id ∷ w.log; tick = suc w.tick },
  )

  -- Of a reconciler without a Reachability, each node is taken to be reachable.
  unfoldable pub is_reachable : String → M Bool
  is_reachable name = elim out.reach [ none ↦ pure true | some f ↦ ask (λ t. f t name) ]
