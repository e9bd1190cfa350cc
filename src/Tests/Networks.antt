-- ===== src/Tests/Networks.antt =====
-- routersim/topology.py: two routers are added and linked.
use router_sim.Base.{ℕ, ◌≡◌, ◌==◌, refl, Bool, inl, [], ◌∷◌, get, set, nat_eq, arith}
use router_sim.Base.Outcome.{ok}
use router_sim.Net.{Network, first_host, host_count}
use router_sim.Topology.{Topology, add_router, link_router_pair, new_topology}
use router_sim.Topology.Assigned.{IsApart, IsAssigned, initial, added, linked, Reachable-IsAssigned}

-- 10.0.0.0/24 for the loopbacks
abbrev loopbacks : Network
loopbacks = record { network_address = 167772160; prefixlen = 24 }

abbrev is_lo : ℕ → Bool
is_lo i = i == 0

abbrev one : Topology
one = elim (add_router 1 0 is_lo 100 [] (new_topology loopbacks)) [
  | ok t ↦ t
  | _ ↦ new_topology loopbacks
]

abbrev two : Topology
two = elim (add_router 1 0 is_lo 200 (2 ∷ []) one) [ ok t ↦ t | _ ↦ one ]

abbrev pair : Topology
pair = elim (link_router_pair 100 200 two) [ ok t ↦ t | _ ↦ two ]

one_runs : add_router 1 0 is_lo 100 [] (new_topology loopbacks) ≡ ok one
unfolding add_router get set first_host host_count
one_runs = refl

two_runs : add_router 1 0 is_lo 200 (2 ∷ []) one ≡ ok two
unfolding add_router get set first_host host_count
two_runs = refl

pair_runs : link_router_pair 100 200 two ≡ ok pair
unfolding add_router link_router_pair get set first_host host_count
pair_runs = refl

all_assigned : pair.assigned ≡ 1681981441 ∷ 1681981440 ∷ 167772162 ∷ 167772161 ∷ []
unfolding add_router link_router_pair get set first_host host_count
all_assigned = refl

loopbacks-IsApart : IsApart loopbacks
unfolding first_host host_count
loopbacks-IsApart = inl (omega arith)

Reachable-IsAssigned_example : IsAssigned loopbacks pair
Reachable-IsAssigned_example =
    Reachable-IsAssigned 1 0 is_lo loopbacks pair loopbacks-IsApart
      (linked 100 200 (added 200 (2 ∷ []) (added 100 [] initial one_runs) two_runs) pair_runs)
