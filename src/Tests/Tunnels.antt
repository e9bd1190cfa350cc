-- ===== src/Tests/Tunnels.antt =====
-- routersim/rsvp/process.py: three routers, of which the first reaches the third directly and through
-- the second; and a reservation at the second.
use mathlib.Core.List.{reverse}
use router_sim.Base.{
  ℕ, false, ◌++◌, ◌<◌, ◌≡◌, ◌≢◌, refl, true, List, [], ◌∷◌, Option, none, some, get, set, has,
  nat_eq,
}
use router_sim.Base.Outcome.{Ended, ok, err, attribute_error}
use router_sim.Net.{Network, net_eq, host}
use router_sim.Mpls.{forward, IpPacket, pos, cons, push, pushed, ip, apply_all}
use router_sim.Isis.{
  ExtendedIsReachability, interface_address, neighbor_address, up, neighbor_ip, local_ip,
}
use router_sim.Isis.Spf.{State, done, maxsize}
use router_sim.Isis.Spf.Graph.{dist}
use router_sim.Isis.Spf.Shortest.{IsShortest}
use router_sim.Isis.Paths.Trail.{Trail}
use router_sim.Routing.{Route, connected}
use router_sim.Routing.Order.{all_prefixes, search_order, contains_net, first_overlap}
use router_sim.Routing.Select.{chain_get, lookup_ip}
use router_sim.Rsvp.Cspf.{Lsp, Ted, dbvalues, distances, explicit_route, shortest_path}
use router_sim.Rsvp.Cspf.Topology.{topology}
use router_sim.Rsvp.Cspf.Filed.{IsConverged}
use router_sim.Rsvp.Cspf.Nearest.{distances-IsShortest}
use router_sim.Rsvp.Cspf.Route.{LeavesState, shortest_path-ends}
use router_sim.Rsvp.Reservation.{PathState, Resv, RsvpProcess, process_resv}
use router_sim.Rsvp.Reservation.Switched.{transit_actions, seen, reserved_path_carries}
use router_sim.Rsvp.Reservation.Labels.{IsLabelled, Labelled, process_resv-IsLabelled}

-- a link to a system, with the addresses of its ends
abbrev link : ℕ → ℕ → ℕ → ℕ → ExtendedIsReachability
link i m near far = record {
  system_id = i;
  metric = m;
  tlvs = interface_address near up ∷ neighbor_address far ∷ [];
}

abbrev lsp : ℕ → ℕ → List ExtendedIsReachability → Lsp
lsp i r ns = record { source_address = i; routerid = r; neighbors = ns; addresses = [] }

abbrev first : Lsp
first = lsp 1 201 (link 2 1 12 21 ∷ link 3 1 13 31 ∷ [])

abbrev third : Lsp
third = lsp 3 203 (link 1 1 31 13 ∷ link 2 2 32 23 ∷ [])

abbrev routers : Ted
routers = (1, first) ∷ (2, lsp 2 202 (link 1 1 21 12 ∷ link 3 2 23 32 ∷ [])) ∷ (3, third) ∷ []

routers-IsConverged : IsConverged routers
unfolding has dbvalues
routers-IsConverged = record {
  named = ((refl, (refl, tt)), ((refl, (refl, tt)), ((refl, (refl, tt)), tt)));
  distinct = (refl, (refl, (refl, tt)));
}

distances-IsShortest_example :
    (ted : Ted) × (s : State) × (distances routers 201 (some 31) ≡ done (ted, s))
    × IsShortest (topology routers 201 (some 31) ted) 201 s
distances-IsShortest_example = distances-IsShortest routers 201 (some 31) routers-IsConverged

around : shortest_path routers 201 (some 31) 203 ≡ done (some (some 21 ∷ some 32 ∷ []))
unfolding shortest_path get set has dbvalues neighbor_ip local_ip maxsize
around = refl

direct : shortest_path routers 201 none 203 ≡ done (some (some 31 ∷ []))
unfolding shortest_path get set has dbvalues neighbor_ip local_ip maxsize
direct = refl

-- Where only the link with the excluded address leads to a router, the path goes over that link.
over_excluded :
    shortest_path
      ((1, lsp 1 201 (link 2 1 12 21 ∷ [])) ∷ (2, lsp 2 202 (link 1 1 21 12 ∷ [])) ∷ [])
      201
      (some 21)
      202
    ≡ done (some (some 21 ∷ []))
unfolding shortest_path get set has dbvalues neighbor_ip local_ip maxsize
over_excluded = refl

shortest_path-ends_example :
    (ted : Ted) × (s : State) × (ero : List (Option ℕ)) × (back : List ℕ) × LeavesState routers 201
      (some 31)
      ted
      s
    × (shortest_path routers 201 (some 31) 203 ≡ done (some ero))
    × (explicit_route routers 201 (some 31) ted 201 (reverse back) 203 ≡ done ero)
    × (◌≢◌ {A = ℕ} 203 201
        → dist s.system_distance 203 < maxsize
        → Trail
            (topology routers 201 (some 31) ted)
            201
            (203 ∷ back)
            203
            (dist s.system_distance 203))
unfolding get
shortest_path-ends_example =
    shortest_path-ends routers 201 (some 31) 1 3 first third routers-IsConverged refl refl refl

abbrev path : PathState
path = record {
  hop = 12;
  sender_address = 201;
  sender_lsp_id = 2;
  dest_ip = 203;
  tunnel_id = 1;
  local_repair = true;
  is_standard = true;
  bypassed = none;
  label = none;
  route = none;
}

abbrev to_first : Route Network
to_first = record {
  prefix = host 12;
  type = connected;
  interface = some 5;
  next_hop_ip = none;
  metric = 1;
  recursive = none;
  bypass = none;
  action = forward;
  protocol_next_hop = none;
}

abbrev packet : IpPacket
packet = record { dst = 203; src = 201; ttl = pos 64; alert = false; payload = 7 }

abbrev second : RsvpProcess
second = record {
  source_ip = 202;
  current_label = 300;
  path_state = (9, path) ∷ [];
  resv_state = [];
  routing = record {
    direct = (host 12, to_first ∷ []) ∷ [];
    static = [];
    isis = [];
    bgp_table = [];
    rsvp_table = [];
    mpls_table = [];
  };
  route_log = [];
  label_log = [];
  interfaces = (5, some 21) ∷ (6, some 23) ∷ [];
  queue = [];
}

abbrev resv : Resv
resv = record {
  key = 4;
  dest_ip = 203;
  tunnel_id = 1;
  filter_address = 201;
  filter_lsp_id = 2;
  label = 3;
  hop = 32;
  record_route = [];
}

abbrev reserved : RsvpProcess × Ended
reserved = process_resv 6 resv second

-- the label 300 is given out, and told to nobody
reserved_runs : (reserved.0.current_label ≡ 310) × (reserved.1 ≡ err attribute_error)
unfolding process_resv get set has lookup_ip chain_get all_prefixes search_order contains_net
    first_overlap host
reserved_runs = (refl, refl)

-- at the path's start, the bypass of the next router's address is queued
bypass_queued : (process_resv 6 resv (record second { source_ip = 201 })).0.queue ≡ 32 ∷ []
unfolding process_resv get set has lookup_ip chain_get all_prefixes search_order contains_net
    first_overlap host
bypass_queued = refl

second-IsLabelled : IsLabelled second
unfolding has
second-IsLabelled l h = absurd (cc h)

process_resv-IsLabelled_example : IsLabelled reserved.0 × Labelled 6 resv second reserved
process_resv-IsLabelled_example = process_resv-IsLabelled 6 resv second second-IsLabelled

reserved_path_carries_example :
    apply_all (cons (push 300) (transit_actions ((310 ∷ 320 ∷ []) ++ 3 ∷ []))) (ip packet) []
    ≡ ok (ip packet, ([] ++ pushed 300 ∷ []) ++ seen 300 (310 ∷ 320 ∷ []))
reserved_path_carries_example =
    reserved_path_carries packet 300 (310 ∷ 320 ∷ []) [] (refl, (refl, tt))
