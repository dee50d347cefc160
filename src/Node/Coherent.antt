-- ===== src/Node/Coherent.antt =====
-- The resolver's cache and the registry of nodes: no entry outlives the row that it was built from.
use lwd.Base.{
  Bool, Bool-cases, Error, Option, Result, String, [], ap, arith, eq_iff, err, errorf, false,
  if◌then◌else◌, inl, inr, none, ok, refl, some, str, str_eq, subst, suc, sym, true, wrapf, ℕ,
  ◌+++◌, ◌∙◌, ◌∷◌, ◌≡◌, ◌≢◌, ◌⊎◌,
}
use lwd.Node.{
  Built, Fleet, Links, Meta, Node, RemoteEntry, agent, asked, build_transport, dial, entry_of,
  from_cache, is_local_name, local_meta, lookup, meta_of, or_error, over_agent, over_ssh,
  ping_built, ping_ok, reach_entry, reach_row, reachable, remember, resolve_meta, ssh,
}
use lwd.Store.{NodeRow, Store, get_node}

module _ {A : Type 0} where
  put_cases :
      (b : Bool) (x y : A) (o : Option A)
      → (if b then some x else o) ≡ some y
      → ((b ≡ true) × (x ≡ y)) ⊎ (o ≡ some y)
  put_cases true x y o h = inl (refl, ground (arith, h))
  put_cases false x y o h = inr h

module _ (links : Links) where
  -- The agent, if the row has one, or Docker over ssh.
  abbrev pub Uses : NodeRow → Node → String → Type 0
  Uses row n transport =
      ((n ≡ agent row.agent_url links.token) × (transport ≡ "agent") × (row.agent_url ≢ ""))
      ⊎ ((n ≡ ssh row.ssh_host) × (transport ≡ "ssh"))

  abbrev pub Describes : NodeRow → RemoteEntry → Type 0
  Describes row e =
      (e.mesh_addr ≡ row.mesh_addr)
      × (e.docker_host ≡ "ssh://" +++ row.ssh_host)
      × Uses row e.node e.transport

  abbrev pub Registered : Store → String → RemoteEntry → Type 0
  Registered s name e = (row : NodeRow) × (get_node name s ≡ some row) × Describes row e

  abbrev pub IsCoherent : Fleet → Type 0
  IsCoherent f =
      (name : String) (e : RemoteEntry) → f.remotes name ≡ some e → Registered f.store name e

  abbrev pub Alike : Fleet → Fleet → Type 0
  Alike f u = (u.store ≡ f.store) × (u.remotes ≡ f.remotes)

  pub Alike-IsCoherent : (f u : Fleet) → Alike f u → IsCoherent f → IsCoherent u
  Alike-IsCoherent f u (p, q) c name e h =
      subst (λ s. Registered s name e) (sym p) (c name e (ap (λ r. r name) (sym q) ∙ h))

  -- There is no agent to use: the row has none, or it did not answer the ping at that tick.
  abbrev pub NoAgent : NodeRow → ℕ → Type 0
  NoAgent row t = (row.agent_url ≡ "") ⊎ (links.ping t (agent row.agent_url links.token) ≡ false)

  -- The tick at which an ssh client is built, if the choice of a transport begins at `t`.
  abbrev pub ssh_tick : NodeRow → ℕ → ℕ
  ssh_tick row t = if str_eq row.agent_url "" then t else suc t

  -- What was built for a row from the tick `s` on, the ssh client at the tick `t`.
  abbrev BuiltAt : NodeRow → Fleet → ℕ → ℕ → Built links → Type 0
  BuiltAt row f s t ((ok n, transport), u) = Uses row n transport × Alike f u
  BuiltAt row f s t ((err x, transport), u) =
      ((links.ssh_error t row.ssh_host ≡ some x) × NoAgent row s) × Alike f u

  over_ssh_lem :
      (row : NodeRow) (f u : Fleet) (s : ℕ)
      → Alike f u
      → NoAgent row s
      → BuiltAt row f s u.tick (over_ssh links row.ssh_host u)
  over_ssh_lem row f u s a k = by_answer (links.ssh_error u.tick row.ssh_host) refl
    where
      by_answer :
          (o : Option Error)
          → links.ssh_error u.tick row.ssh_host ≡ o
          → BuiltAt row f s u.tick ((or_error (ssh row.ssh_host) o, "ssh"), asked u)
      by_answer none h = (inr (refl, refl), a)
      by_answer (some x) h = ((h, k), a)

  over_agent_lem :
      (row : NodeRow) (f u : Fleet) (s : ℕ) (b : Bool)
      → row.agent_url ≢ ""
      → Alike f u
      → links.ping s (agent row.agent_url links.token) ≡ b
      → BuiltAt row f s u.tick (over_agent links row.ssh_host row.agent_url (b, u))
  over_agent_lem row f u s true h a k = (inl (refl, refl, h), a)
  over_agent_lem row f u s false h a k = over_ssh_lem row f u s a (inr k)

  build_transport_lem :
      (row : NodeRow) (f u : Fleet)
      → Alike f u
      → BuiltAt row f u.tick
          (ssh_tick row u.tick)
          (build_transport links row.ssh_host row.agent_url u)
  unfolding build_transport ping_ok
  build_transport_lem row f u a = elim (Bool-cases (str_eq row.agent_url "")) [
    | inl e ↦ rw e (over_ssh_lem row f u u.tick a (inl ((eq_iff row.agent_url "").0 e)))
    | inr e ↦ rw e (
        over_agent_lem row f (asked u) u.tick (links.ping u.tick (agent row.agent_url links.token))
          (λ q. ground (arith, e, q, eq_iff row.agent_url "")) a refl)
  ]

  -- Why `ResolveMeta` fails from a state: its own lookup of the name fails, finds no row, or finds a
  -- row to which no transport is built.
  abbrev pub LookupFails : Fleet → String → Error → Type 0
  LookupFails f name e =
      (x : Error) × (links.db_error f.tick ≡ some x)
      × (e ≡ wrapf "look up node %q: %w" (str name ∷ []) x)

  abbrev pub Unregistered : Fleet → String → Error → Type 0
  Unregistered f name e =
      (get_node name f.store ≡ none) × (e ≡ errorf "unknown node %q" (str name ∷ []))

  abbrev pub Unconnected : Fleet → String → Error → Type 0
  Unconnected f name e =
      (row : NodeRow) × (x : Error) × (get_node name f.store ≡ some row)
      × ((links.ssh_error (ssh_tick row (suc f.tick)) row.ssh_host ≡ some x)
          × NoAgent row (suc f.tick))
      × (e ≡ wrapf "connect to node %q (ssh://%s): %w" (str name ∷ str row.ssh_host ∷ []) x)

  -- What the answer of `ResolveMeta` for a remote node says.
  abbrev pub Remote : Fleet → String → Result Meta → Type 0
  Remote f name (ok m) = (e : RemoteEntry) × (m ≡ meta_of e) × Registered f.store name e
  Remote f name (err e) =
      (f.remotes name ≡ none)
      × (LookupFails f name e ⊎ (Unregistered f name e ⊎ Unconnected f name e))

  abbrev pub Answers : Fleet → String → Result Meta → Type 0
  Answers f name r =
      ((is_local_name name ≡ true) × (r ≡ ok local_meta))
      ⊎ ((is_local_name name ≡ false) × Remote f name r)

  abbrev Resolves : String → Fleet → Result Meta × Fleet → Type 0
  Resolves name f (r, u) = Remote f name r × (u.store ≡ f.store) × IsCoherent u

  abbrev pub Resolved : String → Fleet → Result Meta × Fleet → Type 0
  Resolved name f (r, u) = Answers f name r × (u.store ≡ f.store) × IsCoherent u

  remember_lem :
      (name : String) (row : NodeRow) (f : Fleet) (b : Built links)
      → IsCoherent f
      → f.remotes name ≡ none
      → get_node name f.store ≡ some row
      → BuiltAt row f (suc f.tick) (ssh_tick row (suc f.tick)) b
      → Resolves name f (remember links name row b)
  remember_lem name row f ((err x, t), u) c new h (k, a) =
      ((new, inr (inr (row, x, h, k, refl))), a.0, Alike-IsCoherent f u a c)
  remember_lem name row f ((ok n, t), u) c new h (k, (p, q)) =
      let e = entry_of row n t in
      let found : Registered f.store name e = (row, h, (refl, refl, k)) in
      (
        (e, refl, found),
        p,
        λ m x g. elim (put_cases (str_eq name m) e x (u.remotes m) g) [
          | inl (same, made) ↦
              subst (λ s. Registered s m x) (sym p)
                (subst (Registered f.store m) made
                  (subst (λ y. Registered f.store y e) ((eq_iff name m).0 same) found))
          | inr old ↦ Alike-IsCoherent f u (p, q) c m x old
        ],
      )

  dial_lem :
      (name : String) (f : Fleet) (row : Option NodeRow) (o : Option Error)
      → IsCoherent f
      → f.remotes name ≡ none
      → get_node name f.store ≡ row
      → links.db_error f.tick ≡ o
      → Resolves name f (dial links name (or_error row o, asked f))
  dial_lem name f row (some x) c new h k = ((new, inl (x, k, refl)), refl, c)
  dial_lem name f none none c new h k = ((new, inr (inl (h, refl))), refl, c)
  dial_lem name f (some row) none c new h k =
      remember_lem name row f (build_transport links row.ssh_host row.agent_url (asked f)) c new h
        (build_transport_lem row f (asked f) (refl, refl))

  from_cache_lem :
      (name : String) (f : Fleet) (o : Option RemoteEntry)
      → IsCoherent f
      → f.remotes name ≡ o
      → Resolves name f (from_cache links name o f)
  unfolding lookup
  from_cache_lem name f (some e) c h = ((e, refl, c name e h), refl, c)
  from_cache_lem name f none c h =
      dial_lem name f (get_node name f.store) (links.db_error f.tick) c h refl refl

  pub resolve_meta_lem :
      (name : String) (f : Fleet) → IsCoherent f → Resolved name f (resolve_meta links name f)
  unfolding resolve_meta
  resolve_meta_lem name f c = elim (Bool-cases (is_local_name name)) [
    | inl e ↦ rw e (inl (refl, refl), refl, c)
    | inr e ↦
        let (k, p, u) = from_cache_lem name f (f.remotes name) c refl in rw e (inr (refl, k), p, u)
  ]

  ping_built_lem :
      (row : NodeRow) (f : Fleet) (s t : ℕ) (b : Built links)
      → BuiltAt row f s t b
      → Alike f (ping_built links b).1
  unfolding ping_ok
  ping_built_lem row f s t' ((ok n, t), u) (k, a) = a
  ping_built_lem row f s t' ((err e, t), u) (k, a) = a

  reach_row_lem :
      (row : Option NodeRow) (o : Option Error) (f u : Fleet)
      → Alike f u
      → Alike f (reach_row links (or_error row o, u)).1
  reach_row_lem row (some e) f u a = a
  reach_row_lem none none f u a = a
  reach_row_lem (some row) none f u a =
      ping_built_lem row f u.tick (ssh_tick row u.tick)
        (build_transport links row.ssh_host row.agent_url u) (build_transport_lem row f u a)

  reach_entry_lem :
      (name : String) (o : Option RemoteEntry) (f : Fleet) → Alike f (reach_entry links name o f).1
  unfolding ping_ok lookup
  reach_entry_lem name (some e) f = (refl, refl)
  reach_entry_lem name none f =
      reach_row_lem (get_node name f.store) (links.db_error f.tick) f (asked f) (refl, refl)

  pub reachable-keeps : (name : String) (f : Fleet) → Alike f (reachable links name f).1
  unfolding reachable
  reachable-keeps name f = elim (Bool-cases (is_local_name name)) [
    | inl e ↦ rw e (refl, refl)
    | inr e ↦ rw e (reach_entry_lem name (f.remotes name) f)
  ]
