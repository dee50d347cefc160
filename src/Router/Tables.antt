-- ===== src/Router/Tables.antt =====
-- Maps of routes: what a lookup finds after each change.
use lwd.Base.{String, [], arith, eq_iff, if◌then◌else◌, none, refl, some, str_eq, ◌∷◌, ◌≡◌}
use lwd.Router.{Route, Table, drop_route, find_route, put_route}

pub find-put :
    (k j : String) (r : Route) (m : Table)
    → find_route j (put_route k r m) ≡ (if str_eq k j then some r else find_route j m)
unfolding find_route put_route
find-put k j r [] = refl
find-put k j r ((i, q) ∷ m) = ground (arith, eq_iff k j, eq_iff i k, eq_iff i j, find-put k j r m)

pub find-drop :
    (k j : String) (m : Table)
    → find_route j (drop_route k m) ≡ (if str_eq k j then none else find_route j m)
unfolding find_route drop_route
find-drop k j [] = ground arith
find-drop k j ((i, q) ∷ m) = ground (arith, eq_iff k j, eq_iff i k, eq_iff i j, find-drop k j m)
