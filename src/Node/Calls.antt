-- ===== src/Node/Calls.antt =====
-- Calls of the resolver and of the registry's handlers, in any order.
use lwd.Base.{
  Bool, Bool-cases, Error, List, Option, Result, String, [], arith, eq_iff, err, false,
  if◌then◌else◌, inl, inr, keep, map, none, not, ok, refl, some, str_eq, true, ◌∙◌, ◌∷◌, ◌≡◌,
}
use lwd.Node.{Fleet, Links, RemoteEntry, asked, invalidate, reachable, resolve_meta}
use lwd.Node.Handlers.{
  Answer, NodeRequest, add_checked, changed, check_cordon_target, check_node, cordon,
  handle_node_add, handle_node_delete, row_of, with_store,
}
use lwd.Node.Coherent.{
  Alike-IsCoherent, Answers, Describes, IsCoherent, reachable-keeps, resolve_meta_lem,
}
use lwd.Store.Registry.{get_node-add_node}
use lwd.Store.{
  NodeRow, Store, add_node, delete_node, find_node, get_node, set_schedulable, with_schedulable,
}

-- A drain's change of the registry is `cordons name false`.
pub data Call : Type 0 where
  adds : Result NodeRequest → Call
  deletes : String → Call
  cordons : String → Bool → Call
  resolves : String → Call
  reaches : String → Call

find-keep :
    (name m : String) (rs : List NodeRow)
    → str_eq name m ≡ false
    → find_node m (keep (λ r. not (str_eq r.name name)) rs) ≡ find_node m rs
unfolding find_node
find-keep name m [] h = refl
find-keep name m (r ∷ rs) h =
    ground (arith, eq_iff r.name name, eq_iff r.name m, eq_iff name m, find-keep name m rs h)

abbrev cordoned : String → Bool → Option NodeRow → Option NodeRow
cordoned name b none = none
cordoned name b (some r) = some (with_schedulable name b r)

find-cordon :
    (name m : String) (b : Bool) (rs : List NodeRow)
    → find_node m (map (with_schedulable name b) rs) ≡ cordoned name b (find_node m rs)
unfolding find_node
find-cordon name m b [] = refl
find-cordon name m b (r ∷ rs) =
    ground (arith, eq_iff r.name name, eq_iff r.name m, find-cordon name m b rs)

module _ {A : Type 0} where
  drop_cases :
      (b : Bool) (y : A) (o : Option A)
      → (if b then none else o) ≡ some y
      → (b ≡ false) × (o ≡ some y)
  drop_cases true y o h = absurd (ground (arith, h))
  drop_cases false y o h = (refl, h)

module _ (links : Links) where
  unfoldable pub perform : Call → Fleet → Fleet
  perform (adds req) f = (handle_node_add links req f).1
  perform (deletes name) f = (handle_node_delete links name f).1
  perform (cordons name b) f = (cordon links name b (check_cordon_target links name f)).1
  perform (resolves name) f = (resolve_meta links name f).1
  perform (reaches name) f = (reachable links name f).1

  unfoldable pub perform_all : List Call → Fleet → Fleet
  perform_all [] f = f
  perform_all (c ∷ cs) f = perform_all cs (perform c f)

  -- A change of the registry that leaves the rows of all other names.
  invalidate-IsCoherent :
      (name : String) (f : Fleet) (change : Store → Store)
      → ((m : String) → str_eq name m ≡ false → get_node m (change f.store) ≡ get_node m f.store)
      → IsCoherent links f
      → IsCoherent links (invalidate name (with_store links change f))
  unfolding invalidate
  invalidate-IsCoherent name f change other c m e h =
      let (differs, kept) = drop_cases (str_eq name m) e (f.remotes m) h in
      let (row, found, d) = c m e kept in (row, other m differs ∙ found, d)

  execute-IsCoherent :
      (change : Store → Store) (after : Fleet → Fleet) (f : Fleet) (o : Option Error)
      → IsCoherent links f
      → IsCoherent links (after (with_store links change f))
      → IsCoherent links (changed links o change after f).1
  execute-IsCoherent change after f none c k = k
  execute-IsCoherent change after f (some e) c k = c

  add-IsCoherent :
      (req : NodeRequest) (f : Fleet) (o : Option Error)
      → IsCoherent links f
      → IsCoherent links (add_checked links req o f).1
  add-IsCoherent req f (some e) c = c
  add-IsCoherent req f none c =
      let row = row_of links req (links.now f.tick) in
      execute-IsCoherent (add_node row) (invalidate req.name) (asked f) (links.db_error f.tick) c (
        invalidate-IsCoherent req.name (asked f) (add_node row)
          (λ m h. get_node-add_node row m f.store ∙ rw h refl) c)

  delete-other :
      (name m : String) (s : Store)
      → str_eq name m ≡ false
      → get_node m (delete_node name s) ≡ get_node m s
  unfolding get_node delete_node
  delete-other name m s h = find-keep name m s.nodes h

  Describes-cordon :
      (name : String) (b t : Bool) (row : NodeRow) (e : RemoteEntry)
      → Describes links row e
      → Describes links (if t then record row { schedulable = b } else row) e
  Describes-cordon name b true row e d = d
  Describes-cordon name b false row e d = d

  cordoned-IsCoherent :
      (name : String) (b : Bool) (f : Fleet)
      → IsCoherent links f
      → IsCoherent links (with_store links (set_schedulable name b) f)
  unfolding get_node set_schedulable
  cordoned-IsCoherent name b f c m e h =
      let (row, found, d) = c m e h in
      (
        with_schedulable name b row,
        find-cordon name m b f.store.nodes ∙ rw found refl,
        Describes-cordon name b (str_eq row.name name) row e d,
      )

  cordon-IsCoherent :
      (name : String) (b : Bool) (o : Option Answer) (f : Fleet)
      → IsCoherent links f
      → IsCoherent links (cordon links name b (o, f)).1
  cordon-IsCoherent name b (some a) f c = c
  cordon-IsCoherent name b none f c =
      execute-IsCoherent (set_schedulable name b) (λ u. u) (asked f) (links.db_error f.tick) c
        (cordoned-IsCoherent name b (asked f) c)

  checked-IsCoherent :
      (name : String) (b : Bool) (f : Fleet)
      → IsCoherent links f
      → IsCoherent links (cordon links name b (check_cordon_target links name f)).1
  unfolding check_cordon_target
  checked-IsCoherent name b f c = elim (Bool-cases (str_eq name "local")) [
    | inl e ↦ rw e c
    | inr e ↦ rw e (cordon-IsCoherent name b _ (asked f) c)
  ]

  handle_node_add-IsCoherent :
      (body : Result NodeRequest) (f : Fleet)
      → IsCoherent links f
      → IsCoherent links (handle_node_add links body f).1
  unfolding handle_node_add
  handle_node_add-IsCoherent (err e) f c = c
  handle_node_add-IsCoherent (ok req) f c = add-IsCoherent req f (check_node links req) c

  handle_node_delete-IsCoherent :
      (name : String) (f : Fleet)
      → IsCoherent links f
      → IsCoherent links (handle_node_delete links name f).1
  unfolding handle_node_delete
  handle_node_delete-IsCoherent name f c =
      execute-IsCoherent (delete_node name) (invalidate name) (asked f) (links.db_error f.tick) c (
        invalidate-IsCoherent name (asked f) (delete_node name)
          (λ m h. delete-other name m f.store h) c)

  perform-IsCoherent :
      (call : Call) (f : Fleet) → IsCoherent links f → IsCoherent links (perform call f)
  unfolding perform
  perform-IsCoherent (adds body) f c = handle_node_add-IsCoherent body f c
  perform-IsCoherent (deletes name) f c = handle_node_delete-IsCoherent name f c
  perform-IsCoherent (cordons name b) f c = checked-IsCoherent name b f c
  perform-IsCoherent (resolves name) f c = let (k, p, u) = resolve_meta_lem links name f c in u
  perform-IsCoherent (reaches name) f c =
      Alike-IsCoherent links f (reachable links name f).1 (reachable-keeps links name f) c

  perform_all-IsCoherent :
      (calls : List Call) (f : Fleet) → IsCoherent links f → IsCoherent links (perform_all calls f)
  unfolding perform_all
  perform_all-IsCoherent [] f c = c
  perform_all-IsCoherent (call ∷ calls) f c =
      perform_all-IsCoherent calls (perform call f) (perform-IsCoherent call f c)

  fresh-IsCoherent : (f : Fleet) → ((name : String) → f.remotes name ≡ none) → IsCoherent links f
  fresh-IsCoherent f h name e k = absurd (ground (arith, h name, k))

  -- After any calls of the resolver and of the handlers that add, delete and cordon nodes, from an
  -- empty cache, `ResolveMeta` returns the local node for its two names, and else the addresses and a
  -- client of the row that is registered at that time. It fails only for a name that is not cached,
  -- with the error of its own lookup in the database, for a name with no row, or with the error of its
  -- own attempt to build an ssh client for the row's host, made because the row has no agent or the
  -- agent did not answer its ping.
  pub resolve_meta-current :
      (calls : List Call) (f : Fleet) (name : String)
      → ((n : String) → f.remotes n ≡ none)
      → Answers links (perform_all calls f) name (resolve_meta links name (perform_all calls f)).0
  resolve_meta-current calls f name h =
      (resolve_meta_lem links name (perform_all calls f)
        (perform_all-IsCoherent calls f (fresh-IsCoherent f h))).0
