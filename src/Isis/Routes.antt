-- ===== src/Isis/Routes.antt =====
-- routersim/isis/process.py, `update_routing_table`: the routes that are made of the paths.
pub mod FirstHop
use router_sim.Base.{
  ℕ, Bool, true, false, List, [], ◌∷◌, ◌++◌, Option, none, some, nat_eq, Dict, get, keys,
}
use router_sim.Base.Outcome.{Outcome, ok, err, or_raise, ◌>>=◌, key_error, attribute_error}
use router_sim.Net.{Network, net_eq}
use router_sim.Routing.{Route, Table, RouteEvent, RouteType, named, new_route}
use router_sim.Routing.Replace.{set_routes}
use router_sim.Isis.{LinkStatePdu}

-- What `update_routing_table` reads of a neighbour: the interface that the adjacency is on, the
-- address that a hello had, an attribute that is missing before, and the address that an LSP had.
pub record Adjacent : Type 0 where
  pub interface_name : ℕ
  pub address : Option ℕ
  pub iface_address : Option ℕ

-- `known` says of which systems there are LSPs, and `interfaces` which are enabled.
pub record Surroundings : Type 0 where
  pub neighbors : Dict ℕ Adjacent
  pub known : Dict ℕ LinkStatePdu
  pub interfaces : Dict ℕ Bool

-- The body of the loop of `update_routing_table`: nothing for a path of no hops or to an unknown
-- neighbour. The metric is that of the type, and the distance is only read.
unfoldable pub route_to :
    Surroundings → Dict Network ℕ → Network → List ℕ → Outcome (List (Route Network))
unfolding new_route
route_to x distances n [] = ok []
route_to x distances n (hop ∷ path) = elim (get x.neighbors hop) [
  | none ↦ ok []
  | some a ↦ do
    lsp ← or_raise key_error (get x.known hop)
    address ← or_raise attribute_error a.address
    metric ← or_raise key_error (get distances n)
    enabled ← or_raise key_error (get x.interfaces a.interface_name)
    r ← new_route n named (some a.interface_name) a.iface_address (some 15)
    ok (r ∷ [])
]

-- the loop over the prefixes of the paths
unfoldable pub routes_to :
    Surroundings
    → Dict Network ℕ
    → Dict Network (List ℕ)
    → List Network
    → Outcome (List (Route Network))
unfolding route_to
routes_to x distances paths [] = ok []
routes_to x distances paths (n ∷ ns) = do
  path ← or_raise key_error (get paths n)
  r ← route_to x distances n path
  rest ← routes_to x distances paths ns
  ok (r ++ rest)

-- `update_routing_table`, without paths before the first run
unfoldable pub update_routing_table :
    Surroundings
    → Dict Network ℕ
    → Option (Dict Network (List ℕ))
    → Table Network
    → List (RouteEvent Network)
    → Outcome (Table Network × List (RouteEvent Network))
unfolding routes_to set_routes
update_routing_table x distances none t log = ok (t, log)
update_routing_table x distances (some paths) t log = do
  routes ← routes_to x distances paths (keys paths)
  set_routes false routes t log
