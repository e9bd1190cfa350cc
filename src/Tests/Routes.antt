-- ===== src/Tests/Routes.antt =====
-- routersim/routing.py and routersim/forwarding.py on tables of a few routes.
use router_sim.Base.{
  ℕ, ◌≡◌, refl, true, false, List, [], ◌∷◌, none, some, arith, get, set, delete, keys, All, nat_eq,
}
use router_sim.Base.Outcome.{ok}
use router_sim.Mpls.{forward, control, reject}
use router_sim.Net.{Network, net_eq, IsNetwork, default_network}
use router_sim.Routing.{
  Route, RouteType, local, connected, isis, Table, RouteEvent, deleted, add_route, del_route,
  route_eq, remove,
}
use router_sim.Routing.Metric.{IsTable, add_route-IsTable}
use router_sim.Routing.Undo.{better_route_unannounced}
use router_sim.Routing.Replace.{set_routes}
use router_sim.Routing.Replace.Result.{winner, single, set_routes_result}
use router_sim.Routing.Order.{all_prefixes, search_order, contains_net}
use router_sim.Routing.Select.{
  RoutingTables, inet, ForwardingEntry, ForwardingTables, entry, forwarding_table, chain_get,
}
use router_sim.Forwarding.{lookup_ip}
use router_sim.Forwarding.Match.{LongestMatch, lookup_ip-LongestMatch, lookup_ip_total}

abbrev net : ℕ → ℕ → Network
net a l = record { network_address = a; prefixlen = l }

abbrev route : Network → RouteType → ℕ → ℕ → Route Network
route p t i m = record {
  prefix = p;
  type = t;
  interface = some i;
  next_hop_ip = none;
  metric = m;
  recursive = none;
  bypass = none;
  action = forward;
  protocol_next_hop = none;
}

-- 10.0.0.0/8, 10.1.0.0/16 and 10.1.2.3/32
abbrev wide : Network
wide = net 167772160 8

abbrev near : Network
near = net 167837696 16

abbrev own : Network
own = net 167838211 32

abbrev far_route : Route Network
far_route = route wide isis 2 15

abbrev near_route : Route Network
near_route = route near connected 1 1

abbrev better_route : Route Network
better_route = route wide isis 3 7

abbrev table : Table Network
table = (wide, far_route ∷ []) ∷ (near, near_route ∷ []) ∷ []

table-IsTable : IsTable table
unfolding get
table-IsTable p rs g = ground (arith, g)

add_route-IsTable_example : IsTable (add_route false better_route table []).0
add_route-IsTable_example = add_route-IsTable false better_route table [] table-IsTable

del_route_runs :
    del_route far_route table [] ≡ ok ((near, near_route ∷ []) ∷ [], deleted far_route ∷ [])
unfolding del_route remove get delete route_eq
del_route_runs = refl

better_route_unannounced_example :
    (get (add_route false better_route table []).0 wide ≡ some (better_route ∷ far_route ∷ []))
    × ((add_route false better_route table []).1 ≡ [])
unfolding get
better_route_unannounced_example =
    better_route_unannounced false better_route table [] (far_route ∷ []) table-IsTable refl
      (omega arith)

set_routes_result_example :
    (t : Table Network) × (log : List (RouteEvent Network)) × (set_routes false
        (far_route ∷ better_route ∷ near_route ∷ [])
        table
        []
      ≡ ok (t, log))
    × ((p : Network)
        → get t p ≡ single (winner p (far_route ∷ better_route ∷ near_route ∷ []) none))
set_routes_result_example =
    set_routes_result false (far_route ∷ better_route ∷ near_route ∷ []) table []

abbrev tables : RoutingTables
tables = record {
  direct = (near, near_route ∷ []) ∷ (own, route own local 1 1 ∷ []) ∷ [];
  static = [];
  isis = (wide, far_route ∷ []) ∷ [];
  bgp_table = [];
  rsvp_table = [];
  mpls_table = [];
}

abbrev fib : ForwardingTables
fib = record {
  ipv4 =
      (own, entry own (some 1) control none)
      ∷ (near, entry near (some 1) forward none)
      ∷ (wide, entry wide (some 2) forward none)
      ∷ (net 0 0, entry (net 0 0) none reject none)
      ∷ [];
  mplsu = [];
}

fib_runs : forwarding_table tables (λ i. true) ≡ ok fib
unfolding forwarding_table chain_get get set all_prefixes search_order default_network contains_net
fib_runs = refl

tables-IsNetwork : All IsNetwork (all_prefixes [] (inet tables))
unfolding all_prefixes contains_net
tables-IsNetwork = ground arith

lookup_ip-LongestMatch_example :
    LongestMatch 167838212 (keys fib.ipv4) (lookup_ip (some fib) 167838212)
lookup_ip-LongestMatch_example =
    lookup_ip-LongestMatch tables (λ i. true) fib 167838212 tables-IsNetwork fib_runs

no_default : contains_net default_network (search_order (all_prefixes [] (inet tables))) ≡ false
unfolding contains_net search_order all_prefixes default_network
no_default = refl

lookup_ip_total_example : (f : ForwardingEntry Network) × (lookup_ip (some fib) 134744072 ≡ some f)
lookup_ip_total_example =
    lookup_ip_total tables (λ i. true) fib 134744072 tables-IsNetwork fib_runs no_default
      (omega arith)
