-- ===== src/Scheduler/Tests.antt =====
-- Runs and instances for the scheduler.
use lwd.Base.{
  Float64, In, List, String, [], err, here, length, ok, pos, pos_part, refl, str_ltb, there, true,
  ℕ, ◌*◌, ◌-◌, ◌↔◌, ◌∷◌, ◌≡◌,
}
use lwd.Base.Sort.{sort_stable}
use lwd.Scheduler.{
  NodeInfo, Requirements, default_pool, fits, in_pool, no_capacity, pick, place, ranks_before,
}
use lwd.Scheduler.Choice.{
  IsBest, IsCandidate, IsOffered, no_node, place-IsBest, place-exact, place-no_node,
  place_same_nodes,
}

-- `float64` arithmetic over whole numbers of cores.
abbrev pub whole : Float64
whole = record {
  of_int = λ n. n;
  sub = λ a b. pos (pos_part a - pos_part b);
  mul = λ a b. pos (pos_part a * pos_part b);
  to_int64 = λ a. a;
  parse = λ digits. ok (pos (length digits));
}

abbrev box : String → String → ℕ → NodeInfo
box name pool mem = record {
  name = name;
  pool = pool;
  reachable = true;
  schedulable = true;
  cap = record no_capacity { cpu_cores = pos 4; mem_available = pos mem; known = true };
}

abbrev fleet : List NodeInfo
fleet =
    box "alpha" "default" 100
    ∷ box "beta" "default" 300
    ∷ box "gamma" "gpu" 900
    ∷ box "aleph" "default" 300
    ∷ []

abbrev small : Requirements
small = record { cpu_cores = pos 2; mem_bytes = pos 200 }

-- The two roomiest nodes tie, and the name decides.
fleet_choice : place whole fleet "" small ≡ ok "aleph"
unfolding place ranks_before str_ltb fits in_pool default_pool sort_stable pick
fleet_choice = refl

place-IsBest_example : (c : NodeInfo) × (c.name ≡ "aleph") × IsBest whole fleet "" small c
place-IsBest_example = place-IsBest whole fleet "" small "aleph" fleet_choice

place-exact_example :
    ((c : NodeInfo) × In c fleet × IsCandidate whole "" small c)
    ↔ ((name : String) × (place whole fleet "" small ≡ ok name))
place-exact_example = place-exact whole fleet "" small

place-no_node_example :
    (place whole fleet "edge" small ≡ err (no_node (default_pool "edge")))
    ↔ ((c : NodeInfo) → In c fleet → ¬ IsOffered "edge" c)
place-no_node_example = place-no_node whole fleet "edge" small

abbrev turned : List NodeInfo
turned = box "aleph" "default" 300 ∷ box "alpha" "default" 100 ∷ []

abbrev unturned : List NodeInfo
unturned = box "alpha" "default" 100 ∷ box "aleph" "default" 300 ∷ []

swapped : (x y c : NodeInfo) → In c (x ∷ y ∷ []) → In c (y ∷ x ∷ [])
swapped x y c here = there here
swapped x y c (there here) = here
swapped x y c (there (there i)) = elim i [ ]

turned_choice : place whole turned "" small ≡ ok "aleph"
unfolding place ranks_before str_ltb fits in_pool default_pool sort_stable pick
turned_choice = refl

place_same_nodes_example : place whole unturned "" small ≡ ok "aleph"
place_same_nodes_example =
    place_same_nodes whole turned unturned "" small "aleph"
      (λ c. (
        swapped (box "aleph" "default" 300) (box "alpha" "default" 100) c,
        swapped (box "alpha" "default" 100) (box "aleph" "default" 300) c,
      ))
      turned_choice
