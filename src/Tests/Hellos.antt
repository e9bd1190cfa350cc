-- ===== src/Tests/Hellos.antt =====
-- routersim/isis/process.py: two systems on a link, of which one has not heard of the other, and the
-- other lost it.
use router_sim.Base.{
  ℕ, ◌+◌, ◌≡◌, refl, Bool, true, [], ◌∷◌, none, some, Dict, get, has, nat_eq, arith,
}
use router_sim.Base.{false, ◌++◌, ◌⊎◌, inl, inr, In}
use router_sim.Base.Outcome.{ok, err, Fault}
use router_sim.Isis.{
  ip_tlvs, ExtendedIsReachability, is_reachability, ConnectionState, initializing, adjacent, down,
}
use router_sim.Isis.Update.{Wrapper, Neighbor, Interface, Process}
use router_sim.Isis.Local.{Refresh, refresh_neighbor, update_neighbor}
use router_sim.Net.{first_host}
use router_sim.Isis.Local.Kept.{IsReady, refresh_local-IsReady}
use router_sim.Isis.Local.Prefixes.{Advertises}
use router_sim.Isis.Local.Advertised.{Agrees, refresh_local-Advertises}
use router_sim.Isis.Local.Unannounced.{refresh_neighbor-unannounced}
use router_sim.Isis.Adjacency.End.{IsEnd}
use router_sim.Isis.Adjacency.{process_hello, send_hello}
use router_sim.Isis.Adjacency.Heard.{hello_from, process_hello-ends}
use router_sim.Isis.Adjacency.Greeting.{IsDue, send_hello-raises}

abbrev face : Bool → ℕ → ℕ → Interface
face on a n = record {
  active = on;
  point_to_point = true;
  metric = 10;
  is_up = true;
  state = ConnectionState.up;
  ip = a;
  network = record { network_address = n; prefixlen = 30 };
}

abbrev system : ℕ → ℕ → ℕ → Dict ℕ Neighbor → Process
system me i a ns = record {
  system_id = me;
  area_id = 49;
  hostname = me;
  started = true;
  database = [];
  interfaces = (0, face true (me + 64) (me + 64)) ∷ (i, face true a 16) ∷ [];
  adjacencies = (0, []) ∷ (i, ns) ∷ [];
  neighbors = [];
  spf_runs = 0;
  csnps = [];
  events = [];
}

abbrev west : Process
west = system 1 4 17 []

abbrev lost : Neighbor
lost = record { state = down; address = none; iface_address = none }

abbrev east : Process
east = system 2 5 18 ((1, lost) ∷ [])

west-IsReady : IsReady 4 west
unfolding has
west-IsReady = record {
  loopback_enabled = refl;
  enabled = λ j x at. ground (arith, at);
  up = λ x at. ground (arith, at);
}

east-IsReady : IsReady 5 east
unfolding has
east-IsReady = record {
  loopback_enabled = refl;
  enabled = λ j x at. ground (arith, at);
  up = λ x at. ground (arith, at);
}

east-IsEnd : IsEnd 2 5 1 (some down) east
unfolding get
east-IsEnd = record {
  own = refl;
  ready = east-IsReady;
  neighbor = some lost;
  adjacencies = refl;
  state = refl;
}

-- It says that it is initializing, and then that it is up.
process_hello-ends_example :
    (t u : Process) × (process_hello 5 (hello_from 1 2 49 65 initializing) east ≡ ok t)
    × (process_hello 5 (hello_from 1 2 49 65 adjacent) t ≡ ok u)
    × IsEnd 2 5 1 (some adjacent) u
process_hello-ends_example =
    process_hello-ends 2 5 1 49 65 65 initializing adjacent (some down) east (inl refl) (inr refl)
      east-IsEnd

-- A hello is due on the loopback interface already, with a neighbour or without.
send_hello-raises_example :
    (((i : ℕ) (x : Interface) → In (i, x) west.interfaces → ¬ IsDue x)
      × (send_hello west.interfaces west ≡ (west, ok tt)))
    ⊎ ((i : ℕ) × (x : Interface) × In (i, x) west.interfaces
        × IsDue x
        × (e : Fault) × ((send_hello west.interfaces west).1 ≡ err e))
send_hello-raises_example = send_hello-raises west.interfaces west

-- the state after a refresh
abbrev west_after : Process
west_after = (refresh_local-IsReady 4 west west-IsReady).0

west-Agrees : Agrees (face true 17 16) west.interfaces
west-Agrees j y at network = ground (arith, at, network)

refresh_local-Advertises_example :
    (v : Wrapper) × (get west_after.database 1 ≡ some v)
    × Advertises (face true 17 16).network 10 ConnectionState.up (ip_tlvs v.pdu.tlvs)
refresh_local-Advertises_example =
    refresh_local-Advertises west west_after 4 (face true 17 16) refl
      (refresh_local-IsReady 4 west west-IsReady).1 (inr (inl refl)) west-Agrees

abbrev blank : Refresh
blank = record { tlvs = []; changed = false; up_interfaces = []; events = [] }

abbrev heard_of : Neighbor
heard_of = record { state = adjacent; address = none; iface_address = none }

refresh_neighbor-unannounced_example :
    (t : ExtendedIsReachability) × (t.system_id ≡ 1)
    × (t.metric ≡ 10)
    × ((refresh_neighbor 5 (face true 18 16) 1 heard_of blank).1.tlvs
        ≡ [] ++ is_reachability t ∷ [])
    × ((refresh_neighbor 5 (face true 18 16) 1 heard_of blank).1.changed ≡ false)
unfolding update_neighbor first_host
refresh_neighbor-unannounced_example =
    refresh_neighbor-unannounced 5 (face true 18 16) 1 heard_of blank refl refl refl (λ e. cc e)
