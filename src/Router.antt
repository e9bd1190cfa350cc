-- ===== src/Router.antt =====
-- routersim/router.py: a router, whose forwarding table follows the route tables. What a route's change
-- is told to is the listener that installs the forwarding table anew. Its interfaces are logical ones.
pub mod Fresh
use router_sim.Base.{
  ℕ, Bool, true, false, List, [], ◌∷◌, ◌++◌, Option, none, some, if◌then◌else◌, ◌==◌, nat_eq, Dict,
  get, set, has,
}
use router_sim.Base.Outcome.{Outcome, ok, err, or_raise, ◌>>=◌, key_error}
use router_sim.Net.{Network, net_eq}
use router_sim.Routing.{Route, Table, RouteEvent, static, new_route, add_route, del_route}
use router_sim.Routing.Select.{RoutingTables, ForwardingTables, forwarding_table}
use router_sim.Host.{Address, connected_route, local_route}

-- The route tables with their events, the installed forwarding table, and whether interfaces are up.
pub record Router : Type 0 where
  pub routing : RoutingTables
  pub route_log : List (RouteEvent Network)
  pub fib : Option ForwardingTables
  pub states : Dict ℕ Bool

-- `interface.is_up()`
abbrev pub working : Router → ℕ → Bool
working s i = elim (get s.states i) [ none ↦ false | some b ↦ b ]

-- `self._forwarding.set_fib(self.routing.forwarding_table())`
unfoldable pub install : Router → Outcome Router
unfolding forwarding_table
install s = forwarding_table s.routing (working s) >>= λ f. ok (record s { fib = some f })

-- the router with another `direct` table and further events
abbrev pub with_direct : Table Network × List (RouteEvent Network) → Router → Router
with_direct (t, log) s = record s { routing = record s.routing { direct = t }; route_log = log }

-- `routing.add_route(…, 'direct')` with the listener to `ROUTE_CHANGE`, an event of new prefixes only
unfoldable pub add_direct : Route Network → Router → Outcome Router
unfolding install
add_direct r s =
    let s' = with_direct (add_route false r s.routing.direct s.route_log) s in
    if has s.routing.direct r.prefix then ok s' else install s'

-- `routing.del_route(…, 'direct')`, an event unless the prefix has no routes
unfoldable pub del_direct : Route Network → Router → Outcome Router
unfolding install
del_direct r s = do
  left ← del_route r s.routing.direct s.route_log
  let s' = with_direct left s
  if has s.routing.direct r.prefix then install s' else ok s'

-- `RouteTableUpdater.observe`, of an interface without an address too
unfoldable pub update_routes : ℕ → Bool → Option Address → Router → Outcome Router
unfolding add_direct del_direct install connected_route local_route
update_routes i true address s = do
  a ← or_raise key_error address
  t ← add_direct (connected_route i a) s
  add_direct (local_route i a) t
update_routes i false address s = do
  a ← or_raise key_error address
  t ← del_direct (connected_route i a) s
  u ← del_direct (local_route i a) t
  install u

-- `LogicalInterface.up` and `down` with the listener
unfoldable pub set_link : ℕ → Bool → Option Address → Router → Outcome Router
unfolding update_routes
set_link i up address s = update_routes i up address (record s { states = set s.states i up })

-- `Router.static_route`
unfoldable pub static_route : Network → ℕ → Router → Outcome Router
unfolding install
static_route n i s = do
  face ← or_raise key_error (get s.states i)
  r ← new_route n static (some i) none (some 5)
  let added = add_route false r s.routing.static s.route_log
  let s' = record s { routing = record s.routing { static = added.0 }; route_log = added.1 }
  if has s.routing.static n then ok s' else install s'
