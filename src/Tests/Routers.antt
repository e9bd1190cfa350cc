-- ===== src/Tests/Routers.antt =====
-- routersim/router.py: an interface of a router with a route from IS-IS goes up.
use router_sim.Base.{
  ℕ, ◌≡◌, ◌≢◌, refl, ap, true, false, [], ◌∷◌, some, none, get, set, has, keys, All, nat_eq, arith,
}
use router_sim.Base.Outcome.{ok}
use router_sim.Mpls.{forward}
use router_sim.Net.{Network, net_eq, host, IsNetwork, default_network}
use router_sim.Routing.{Route, isis, add_route}
use router_sim.Routing.Order.{all_prefixes, search_order, contains_net}
use router_sim.Routing.Select.{ForwardingTables, forwarding_table, chain_get, inet}
use router_sim.Forwarding.{lookup_ip}
use router_sim.Forwarding.Match.{LongestMatch}
use router_sim.Host.{Address, connected_route, local_route}
use router_sim.Router.{Router, working, set_link}
use router_sim.Router.Fresh.{set_link-LongestMatch}

-- 10.1.2.3 in 10.1.0.0/16, and 10.0.0.0/8
abbrev address : Address
address = record {
  ip = 167838211;
  network = record { network_address = 167837696; prefixlen = 16 };
}

abbrev wide : Network
wide = record { network_address = 167772160; prefixlen = 8 }

abbrev far_route : Route Network
far_route = record {
  prefix = wide;
  type = isis;
  interface = some 2;
  next_hop_ip = some 9;
  metric = 15;
  recursive = none;
  bypass = none;
  action = forward;
  protocol_next_hop = none;
}

abbrev waiting : Router
waiting = record {
  routing = record {
    direct = [];
    static = [];
    isis = (wide, far_route ∷ []) ∷ [];
    bgp_table = [];
    rsvp_table = [];
    mpls_table = [];
  };
  route_log = [];
  fib = none;
  states = (1, false) ∷ (2, true) ∷ [];
}

abbrev linked : Router
linked = elim (set_link 1 true (some address) waiting) [ ok t ↦ t | _ ↦ waiting ]

linked_runs : set_link 1 true (some address) waiting ≡ ok linked
unfolding set_link forwarding_table chain_get get set has all_prefixes search_order default_network
    contains_net connected_route local_route host add_route
linked_runs = refl

apart : address.network ≢ host address.ip
unfolding host
apart h = absurd (ground (arith, ap (λ n. n.prefixlen) h))

set_link-LongestMatch_example :
    (f : ForwardingTables) × (linked.fib ≡ some f)
    × (forwarding_table linked.routing (working linked) ≡ ok f)
    × ((d : ℕ)
        → All IsNetwork (all_prefixes [] (inet linked.routing))
        → LongestMatch d (keys f.ipv4) (lookup_ip linked.fib d))
unfolding get
set_link-LongestMatch_example =
    set_link-LongestMatch 1 true address waiting linked linked_runs (λ up. (refl, apart))
