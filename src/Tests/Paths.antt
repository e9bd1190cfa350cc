-- ===== src/Tests/Paths.antt =====
-- routersim/isis/process.py, the shortest path run among three systems.
use router_sim.Base.{ℕ, ◌+◌, ◌≡◌, refl, List, [], ◌∷◌, none, some, get, set, has, In, nat_eq}
use mathlib.Core.List.{reverse}
use router_sim.Base.{◌⊎◌, ◌<◌, Dict, true, arith}
use router_sim.Base.Outcome.{ok}
use router_sim.Mpls.{forward}
use router_sim.Net.{Network, net_eq}
use router_sim.Routing.{Route, added, named, add_route}
use router_sim.Isis.Paths.{Result, address_paths, run_full_dijkstra}
use router_sim.Isis.Paths.Trail.{Trail}
use router_sim.Isis.Paths.Prefixes.{address_paths_lem, run_full_dijkstra-ends}
use router_sim.Isis.Routes.{Adjacent, Surroundings, update_routing_table}
use router_sim.Isis.Routes.FirstHop.{routes_on_shortest_paths}
use router_sim.Isis.{
  LinkStatePdu, ExtendedIpReachability, Tlv, is_reachability, ip_reachability, up, is_tlvs, ip_tlvs,
}
use router_sim.Isis.Spf.{Database, State, done, unconverged, shortest_paths, maxsize}
use router_sim.Isis.Spf.Graph.{IsKeyed, Edge, dist}
use router_sim.Isis.Spf.Address.{AtMost}
use router_sim.Isis.Spf.Shortest.{Promises, shortest_paths-Promises, shortest_paths-prefixes}

abbrev neighbor : ℕ → ℕ → Tlv
neighbor i m = is_reachability (record { system_id = i; metric = m; tlvs = [] })

abbrev lan : Network
lan = record { network_address = 167837696; prefixlen = 16 }

abbrev attached : ℕ → Tlv
attached m = ip_reachability (record { prefix = lan; metric = m; state = up })

abbrev lsp : ℕ → List Tlv → LinkStatePdu
lsp i ts = record { source_address = i; lsp_id = i; seq_no = 1; tlvs = ts }

-- 1 reaches 3 at 10 directly and at 3 through 2; both 2 and 3 have the LAN.
abbrev triangle : Database
triangle =
    (1, lsp 1 (neighbor 2 1 ∷ neighbor 3 10 ∷ []))
    ∷ (2, lsp 2 (neighbor 1 1 ∷ neighbor 3 2 ∷ attached 9 ∷ []))
    ∷ (3, lsp 3 (neighbor 1 10 ∷ neighbor 2 2 ∷ attached 1 ∷ []))
    ∷ []

triangle-IsKeyed : IsKeyed triangle
triangle-IsKeyed = (refl, (refl, (refl, tt)))

abbrev settled : State
settled = record {
  distance = (lan, 4) ∷ [];
  prev = (lan, 3) ∷ [];
  system_distance = (1, 0) ∷ (2, 1) ∷ (3, 3) ∷ [];
  prev_system = (1, none) ∷ (2, some 1) ∷ (3, some 2) ∷ [];
}

triangle_runs : shortest_paths 1 triangle ≡ done settled
unfolding shortest_paths get set has is_tlvs ip_tlvs maxsize
triangle_runs = refl

shortest_paths-Promises_example : Promises triangle 1 (shortest_paths 1 triangle)
shortest_paths-Promises_example = shortest_paths-Promises triangle 1 triangle-IsKeyed

shortest_paths-prefixes_example :
    ((u : ℕ) (p : LinkStatePdu) (a : ExtendedIpReachability)
      → get triangle u ≡ some p
      → In a (ip_tlvs p.tlvs)
      → a.state ≡ up
      → AtMost (dist settled.system_distance u + a.metric) (get settled.distance a.prefix))
    × ((n : Network) (e : ℕ)
        → get settled.distance n ≡ some e
        → (u : ℕ) × (p : LinkStatePdu) × (a : ExtendedIpReachability) × ((get triangle u ≡ some p)
            × In a (ip_tlvs p.tlvs)
            × (a.state ≡ up)
            × (a.prefix ≡ n)
            × (e ≡ dist settled.system_distance u + a.metric)
            × (get settled.prev n ≡ some u)))
shortest_paths-prefixes_example =
    shortest_paths-prefixes triangle 1 settled triangle-IsKeyed triangle_runs

abbrev ways : Dict Network (List ℕ)
ways = (lan, 2 ∷ 3 ∷ []) ∷ []

ways_run : address_paths 1 triangle settled ≡ done ways
unfolding address_paths get set
ways_run = refl

address_paths_lem_example :
    (paths : Dict Network (List ℕ)) × (address_paths 1 triangle settled ≡ done paths)
    × ((n : Network) (e : ℕ)
        → get settled.distance n ≡ some e
        → e < maxsize
        → (u : ℕ) × (path : List ℕ) × (p : LinkStatePdu) × (a : ExtendedIpReachability) × (get paths
              n
            ≡ some (reverse path))
          × Trail triangle 1 path u (dist settled.system_distance u)
          × (get triangle u ≡ some p)
          × In a (ip_tlvs p.tlvs)
          × (a.state ≡ up)
          × (a.prefix ≡ n)
          × (e ≡ dist settled.system_distance u + a.metric))
address_paths_lem_example = address_paths_lem triangle 1 settled triangle-IsKeyed triangle_runs

abbrev around : Surroundings
around = record {
  neighbors = (2, record { interface_name = 12; address = some 20; iface_address = some 22 }) ∷ [];
  known = triangle;
  interfaces = (12, true) ∷ [];
}

abbrev installed : Route Network
installed = record {
  prefix = lan;
  type = named;
  interface = some 12;
  next_hop_ip = some 22;
  metric = 15;
  recursive = none;
  bypass = none;
  action = forward;
  protocol_next_hop = none;
}

table_runs :
    update_routing_table around settled.distance (some ways) [] []
    ≡ ok ((lan, installed ∷ []) ∷ [], added installed ∷ [])
unfolding update_routing_table get set add_route
table_runs = refl

lan_at : get settled.distance lan ≡ some 4
unfolding get
lan_at = refl

lan-installed : get ((lan, installed ∷ []) ∷ []) lan ≡ some (installed ∷ [])
unfolding get
lan-installed = refl

routes_on_shortest_paths_example :
    (hop : ℕ) × (a : Adjacent) × (w : ℕ) × (u : ℕ) × (back rest : List ℕ) × (p : LinkStatePdu)
    × (z : ExtendedIpReachability) × (get around.neighbors hop ≡ some a)
    × (installed.interface ≡ some a.interface_name)
    × (installed.next_hop_ip ≡ a.iface_address)
    × Edge triangle 1 hop w
    × (reverse back ≡ hop ∷ rest)
    × Trail triangle 1 back u (dist settled.system_distance u)
    × (get triangle u ≡ some p)
    × In z (ip_tlvs p.tlvs)
    × (z.state ≡ up)
    × (z.prefix ≡ lan)
    × (4 ≡ dist settled.system_distance u + z.metric)
unfolding maxsize
routes_on_shortest_paths_example =
    routes_on_shortest_paths around triangle 1 settled ways [] ((lan, installed ∷ []) ∷ []) []
      (added installed ∷ []) lan 4 installed [] triangle-IsKeyed triangle_runs ways_run table_runs
      lan_at (omega arith) lan-installed

run_full_dijkstra-ends_example :
    (run_full_dijkstra 1 triangle ≡ unconverged)
    ⊎ ((r : Result) × (run_full_dijkstra 1 triangle ≡ done r))
run_full_dijkstra-ends_example = run_full_dijkstra-ends 1 triangle triangle-IsKeyed (λ e. cc)
