-- ===== src/Tests/Hosts.antt =====
-- routersim/server.py and routersim/netdevice.py: a host on 10.0.0.0/8 whose address is 10.1.2.3.
use router_sim.Base.{
  ◌+◌, ◌≡◌, ◌≢◌, refl, ap, true, false, [], ◌∷◌, ◌++◌, none, some, get, nat_eq, arith,
}
use router_sim.Base.Outcome.{ok}
use router_sim.Net.{Network, net_eq, host}
use router_sim.Mpls.{IpPacket, pos}
use router_sim.Arp.{ArpPacket, reply, asked, released, answers, lookup}
use router_sim.Routing.{is_member}
use router_sim.Routing.Metric.{IsTable}
use router_sim.Routing.Order.{all_prefixes, search_order, contains_net, first_overlap}
use router_sim.Routing.Select.{RoutingTables, chain_get, lookup_ip}
use router_sim.Host.{
  Address, Logical, Host, port, logical, sent, connected_route, local_route, set_state,
  add_ip_address,
}
use router_sim.Host.Updates.{set_state-set_state}
use router_sim.Host.Duplicates.{add_ip_address-set_state}
use router_sim.Host.Sending.{
  other_payload, arp_packet, arp_face, logical_of, send_ip, process_frame,
}
use router_sim.Host.Sending.Resolved.{send_ip-process_frame}

abbrev address : Address
address = record { ip = 167838211; network = record { network_address = 167772160; prefixlen = 8 } }

abbrev face : Logical
face = record { name = 11; parent = 1; hw_address = 51; is_up = false; address = some address }

abbrev no_routes : RoutingTables
no_routes = record {
  direct = [];
  static = [];
  isis = [];
  bgp_table = [];
  rsvp_table = [];
  mpls_table = [];
}

abbrev pub cabled : Host
cabled = record {
  interfaces = (1, port 51 true) ∷ [];
  routing = no_routes;
  route_log = [];
  arp = record { cache = []; send_q = []; log = []; sent = [] };
  udp = [];
  done = [];
}

empty-IsTable : IsTable {P = Network} []
unfolding get
empty-IsTable = λ p rs h. absurd (cc h)

wide : address.network ≢ host address.ip
unfolding host
wide h = absurd (ground (arith, ap (λ n. n.prefixlen) h))

set_state-set_state_example :
    (g g' : Host) × (set_state true face cabled ≡ ok g)
    × (set_state false face g ≡ ok g')
    × ((q : Network) → get g'.routing.direct q ≡ get cabled.routing.direct q)
unfolding get is_member
set_state-set_state_example =
    set_state-set_state face address cabled refl empty-IsTable refl refl wide

add_ip_address-set_state_example :
    (g g' : Host) × (add_ip_address (λ p. p + 10) 1 address cabled ≡ ok g)
    × (get g.routing.direct address.network
        ≡ some (connected_route 11 address ∷ connected_route 11 address ∷ []))
    × (get g.routing.direct (host address.ip)
        ≡ some (local_route 11 address ∷ local_route 11 address ∷ []))
    × (set_state false (record face { is_up = true }) g ≡ ok g')
    × (get g'.routing.direct address.network ≡ some (connected_route 11 address ∷ []))
    × (get g'.routing.direct (host address.ip) ≡ some (local_route 11 address ∷ []))
unfolding get host
add_ip_address-set_state_example =
    add_ip_address-set_state (λ p. p + 10) 1 51 address cabled refl refl refl refl wide

-- The interface is up, and the routes are there.
abbrev sending : Host
sending = record cabled {
  interfaces = (1, port 51 true) ∷ (11, logical (record face { is_up = true })) ∷ [];
  routing = record no_routes {
    direct =
        (address.network, connected_route 11 address ∷ [])
        ∷ (host address.ip, local_route 11 address ∷ [])
        ∷ [];
  };
}

abbrev packet : IpPacket
packet = record { dst = 167838212; src = 167838211; ttl = pos 64; alert = false; payload = 7 }

abbrev here_i_am : ArpPacket
here_i_am = record { op = reply; hwsrc = 99; psrc = 167838212; pdst = 167838211 }

send_ip-process_frame_example :
    (g g' : Host) × (send_ip 0 none packet sending ≡ ok g)
    × (g.done ≡ [])
    × (process_frame 0
          (λ x. other_payload)
          (λ x. x)
          255
          51
          (arp_packet here_i_am)
          (record face { is_up = true })
          3
          g
        ≡ ok g')
    × (g'.arp.sent
        ≡ (([] ++ asked 11 167838212 167838211 ∷ [])
            ++ answers here_i_am (arp_face (record face { is_up = true })))
          ++ released 11 99 packet ∷ [])
    × (send_ip 0 none packet g' ≡ ok (record g' { done = g'.done ++ sent 11 99 packet ∷ [] }))
unfolding lookup_ip chain_get get all_prefixes search_order contains_net connected_route local_route
    host logical_of lookup first_overlap
send_ip-process_frame_example =
    send_ip-process_frame 0 (λ x. other_payload) (λ x. x) 255 3 none packet sending
      (connected_route 11 address) (record face { is_up = true }) (record face { is_up = true })
      address here_i_am refl refl refl refl refl refl
