-- ===== src/Reconciler/Sturdy/Removes.antt =====
-- Remove keeps every sturdy invariant.
use lwd.Base.{Bool, List, Option, Result, String, [], err, none, ok, some, ◌∷◌}
use lwd.Reconciler.World.{Meta, Outside, World}
use lwd.Reconciler.Keeps.{Keeps, Keeps-bind, keeps_rules}
use lwd.Reconciler.Sturdy.{IsSturdy, sturdy-IsQuiet, sturdy_rules}
use lwd.Reconciler.Preparing.{write_temp-Keeps}
use lwd.Reconciler.Remove.{
  clear_nodes, clear_resolved, down_anchor, remove, remove_compose, remove_current, remove_listed,
  remove_single_service, retire_current,
}
use lwd.Store.{Deployment}
use lwd.Reconciler.Services.{down_backing}

module _ (out : Outside) (I : World → Type 0) (sturdy : IsSturdy I) where
  remove_listed-Keeps : (node : String) (ids : List String) → Keeps I (remove_listed out node ids)
  unfolding remove_listed
  remove_listed-Keeps node [] = search keeps_rules
  remove_listed-Keeps node (id ∷ ids) =
      Keeps-bind I _ _ (search sturdy_rules) λ _. remove_listed-Keeps node ids

  down_anchor-Keeps :
      (name : String) (cur : Option Deployment) (b : Bool) (host : String)
      → Keeps I (down_anchor out name cur b host)
  unfolding down_backing
  down_anchor-Keeps name none b host = search keeps_rules
  down_anchor-Keeps name (some cur) b host =
      search (keeps_rules, sturdy.ticks, write_temp-Keeps out I (sturdy-IsQuiet I sturdy))

  clear_resolved-Keeps :
      (name : String) (cur : Option Deployment) (anchor_node node : String) (r : Result Meta)
      → Keeps I (clear_resolved out name cur anchor_node node r)
  clear_resolved-Keeps name cur anchor_node node (err e) = search keeps_rules
  clear_resolved-Keeps name cur anchor_node node (ok m) =
      search (keeps_rules, sturdy.ticks, remove_listed-Keeps, down_anchor-Keeps) depth 14

  clear_nodes-Keeps :
      (name : String) (cur : Option Deployment) (anchor_node : String) (nodes : List String)
      → Keeps I (clear_nodes out name cur anchor_node nodes)
  unfolding clear_nodes
  clear_nodes-Keeps name cur anchor_node [] = search keeps_rules
  clear_nodes-Keeps name cur anchor_node (node ∷ nodes) =
      Keeps-bind I _ _ (search (keeps_rules, sturdy.ticks)) λ m.
        Keeps-bind I _ _ (clear_resolved-Keeps name cur anchor_node node m)
          λ _. clear_nodes-Keeps name cur anchor_node nodes

  retire_current-Keeps : (cur : Option Deployment) → Keeps I (retire_current out cur)
  retire_current-Keeps none = search keeps_rules
  retire_current-Keeps (some cur) = search sturdy_rules

  remove_compose-Keeps : (name : String) (cur : Deployment) → Keeps I (remove_compose out name cur)
  unfolding remove_compose
  remove_compose-Keeps name cur =
      search (sturdy_rules, sturdy.ticks, write_temp-Keeps out I (sturdy-IsQuiet I sturdy)) depth 14

  remove_current-Keeps :
      (name : String) (cur : Option Deployment) → Keeps I (remove_current out name cur)
  unfolding remove_single_service
  remove_current-Keeps name none = search (keeps_rules, clear_nodes-Keeps)
  remove_current-Keeps name (some cur) =
      search (keeps_rules, remove_compose-Keeps, clear_nodes-Keeps, retire_current-Keeps)

  pub remove-Keeps : (name : String) → Keeps I (remove out name)
  unfolding remove
  remove-Keeps name = search (keeps_rules, sturdy.ticks, remove_current-Keeps)
