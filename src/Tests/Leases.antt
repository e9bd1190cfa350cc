-- ===== src/Tests/Leases.antt =====
-- routersim/dhcp.py: a server on the default subnet, and a client that takes what it is offered.
use router_sim.Base.{
  ℕ, ◌≤◌, ◌≡◌, ◌≢◌, refl, Bool, true, [], ◌∷◌, ◌++◌, some, get, set, delete, has, nat_eq, Option,
  none, sym, ◌∙◌, ap,
}
use router_sim.Base.Outcome.{ok}
use router_sim.Dhcp.First.{LeastHost, find_address-LeastHost}
use router_sim.Base.{arith}
use router_sim.Dhcp.{find_address}
use router_sim.Dhcp.{
  Server, Subnet, Message, Iface, Hold, discover, request, subnet_mask, router, process_msg,
  new_server, acked, bind_and_ack, known_options, subnet_of,
}
use router_sim.Dhcp.Lease.{IsServer, IsComplete}
use router_sim.Dhcp.Sessions.{
  Reachable, initial, handled, Reachable-IsServer, process_msg-IsServer, leases_apart,
  bind_and_ack-unchecked,
}

-- 192.168.1.0/24, of which .100 to .200 are leased out
abbrev pub lan : Subnet
lan = record {
  gw = 3232235777;
  range_from = 3232235876;
  range_to = 3232235976;
  network = record { network_address = 3232235776; prefixlen = 24 };
}

abbrev pub port : Iface
port = record { name = 10; parent = 1; address = 3232235777 }

abbrev client : ℕ
client = 51

abbrev discovery : Message
discovery = record {
  chaddr = 51;
  xid = 9;
  types = discover ∷ [];
  param_req_lists = (subnet_mask ∷ router ∷ []) ∷ [];
  requested_addrs = [];
}

abbrev acceptance : Message
acceptance = record discovery {
  types = request ∷ [];
  param_req_lists = [];
  requested_addrs = 3232235876 ∷ [];
}

abbrev after : Message → Server → Server
after m s = elim (process_msg port m s) [ ok (t, b) ↦ t | _ ↦ s ]

abbrev fresh : Server
fresh = new_server 1 lan

abbrev offering : Server
offering = after discovery fresh

abbrev serving : Server
serving = after acceptance offering

offering_runs : process_msg port discovery fresh ≡ ok (offering, true)
unfolding process_msg get set has
offering_runs = refl

offered_first :
    get offering.holds 51
    ≡ some (record { offer = 3232235876; param_req_list = subnet_mask ∷ router ∷ []; xid = 9 })
unfolding process_msg get set has
offered_first = refl

serving_runs : process_msg port acceptance offering ≡ ok (serving, true)
unfolding process_msg get set has delete
serving_runs = refl

leased_first : get serving.leases 51 ≡ some 3232235876
unfolding process_msg get set has delete
leased_first = refl

offer_or : Option Hold → ℕ
offer_or none = 0
offer_or (some h) = h.offer

offering-honest : (h : Hold) → get offering.holds 51 ≡ some h → 3232235876 ≡ h.offer
unfolding offer_or
offering-honest h k = ap (λ o. offer_or o) (sym offered_first ∙ k)

fresh-IsComplete : IsComplete port discovery fresh
unfolding subnet_of
fresh-IsComplete = record { interface = refl; follows = (subnet_mask ∷ router ∷ [], refl) }

offering-IsComplete : IsComplete port acceptance offering
unfolding subnet_of process_msg get set has
offering-IsComplete = record { interface = refl; follows = (3232235876, refl, offering-honest) }

serving-Reachable : Reachable 1 lan serving
serving-Reachable =
    handled port acceptance (handled port discovery initial fresh-IsComplete offering_runs)
      offering-IsComplete serving_runs

process_msg-IsServer_example :
    (t : Server) × (b : Bool) × (process_msg port acceptance offering ≡ ok (t, b)) × IsServer t
process_msg-IsServer_example =
    process_msg-IsServer port acceptance offering
      (Reachable-IsServer 1 lan offering
        (handled port discovery initial fresh-IsComplete offering_runs))
      offering-IsComplete

leases_apart_example :
    (client ≡ client)
    × (serving.subnet.range_from ≤ 3232235876)
    × (3232235876 ≤ serving.subnet.range_to)
leases_apart_example =
    leases_apart 1 lan serving 51 51 3232235876 serving-Reachable leased_first leased_first

abbrev theft : Message
theft = record acceptance { requested_addrs = 3232235900 ∷ [] }

held_first : get offering.held 3232235876 ≡ some 51
unfolding process_msg get set has
held_first = refl

bind_and_ack-unchecked_example :
    (t : Server) × (bind_and_ack port theft offering ≡ ok t)
    × (get t.leases 51 ≡ some 3232235900)
    × ((c : ℕ) → c ≢ 51 → get t.leases c ≡ get offering.leases c)
    × (t.sent
        ≡ offering.sent
          ++ acked 51 9 3232235876 3232235777 (known_options (subnet_mask ∷ router ∷ [])) ∷ [])
bind_and_ack-unchecked_example =
    bind_and_ack-unchecked port theft
      (record { offer = 3232235876; param_req_list = subnet_mask ∷ router ∷ []; xid = 9 })
      3232235900 offering offered_first held_first refl

find_address-LeastHost_example : LeastHost fresh (find_address 51 fresh)
unfolding get
find_address-LeastHost_example = find_address-LeastHost 51 fresh refl (omega arith)
