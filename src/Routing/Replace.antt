-- ===== src/Routing/Replace.antt =====
-- routersim/routing.py, `set_routes` with `del_routes`: a protocol replaces its whole table.
pub mod Result
use router_sim.Base.{
  ℕ, zero, suc, ◌+◌, Bool, true, false, ◌||◌, List, [], ◌∷◌, ◌++◌, Option, none, some,
  if◌then◌else◌, Hashable, ◌==◌, get, keys, length, get_elem?, map,
}
use router_sim.Base.Outcome.{Outcome, ok, err, ◌>>=◌}
use router_sim.Routing.{Route, Table, RouteEvent, routes_of, is_member, add_route, del_route}

module _ {P : Type 0} ⦃e : Hashable P⦄ where
  -- `del_routes` on a list of its own
  unfoldable pub del_routes :
      List (Route P) → Table P → List (RouteEvent P) → Outcome (Table P × List (RouteEvent P))
  del_routes [] t log = ok (t, log)
  del_routes (r ∷ rs) t log = do (t', log') ← del_route r t log; del_routes rs t' log'

  -- `del_routes(table[p])`: the loop goes by index through the list that `del_route` shortens. The
  -- index passes the end of the list within as many rounds as the list had routes.
  unfoldable pub del_routes_live :
      ℕ → ℕ → P → Table P → List (RouteEvent P) → Outcome (Table P × List (RouteEvent P))
  del_routes_live zero i p t log = ok (t, log)
  del_routes_live (suc rounds) i p t log = elim (get_elem? (routes_of t p) i) [
    | none ↦ ok (t, log)
    | some r ↦ del_route r t log >>= λ s. del_routes_live rounds (i + 1) p s.0 s.1
  ]

  -- one round of the loop over `routes`
  unfoldable pub visit :
      Bool → Route P → Table P → List (RouteEvent P) → Outcome (Table P × List (RouteEvent P))
  unfolding del_routes_live
  visit is_mpls r t log = elim (get t r.prefix) [
    | none ↦ ok (add_route is_mpls r t log)
    | some rs ↦
        if is_member r rs
        then ok (t, log)
        else del_routes_live (length rs) 0 r.prefix t log >>= λ s. ok (add_route is_mpls r s.0 s.1)
  ]

  unfoldable pub visit_all :
      Bool
      → List (Route P)
      → Table P
      → List (RouteEvent P)
      → Outcome (Table P × List (RouteEvent P))
  unfolding visit
  visit_all is_mpls [] t log = ok (t, log)
  visit_all is_mpls (r ∷ rs) t log = visit is_mpls r t log >>= λ s. visit_all is_mpls rs s.0 s.1

  unfoldable pub is_visited : P → List (Route P) → Bool
  is_visited p [] = false
  is_visited p (r ∷ rs) = r.prefix == p || is_visited p rs

  -- the last loop, over the prefixes that the table has then
  unfoldable pub delete_unvisited :
      List P
      → List (Route P)
      → Table P
      → List (RouteEvent P)
      → Outcome (Table P × List (RouteEvent P))
  unfolding del_routes is_visited
  delete_unvisited [] routes t log = ok (t, log)
  delete_unvisited (p ∷ ps) routes t log = elim (is_visited p routes) [
    | true ↦ delete_unvisited ps routes t log
    | false ↦ del_routes (routes_of t p) t log >>= λ s. delete_unvisited ps routes s.0 s.1
  ]

  -- The table is cleared first, whatever it held.
  unfoldable pub set_routes :
      Bool
      → List (Route P)
      → Table P
      → List (RouteEvent P)
      → Outcome (Table P × List (RouteEvent P))
  unfolding visit_all delete_unvisited
  set_routes is_mpls routes t log =
      visit_all is_mpls routes [] log >>= λ s. delete_unvisited (keys s.0) routes s.0 s.1
