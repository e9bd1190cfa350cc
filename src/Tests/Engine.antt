-- ===== src/Tests/Engine.antt =====
-- routersim/forwarding.py: a packet is routed to a next hop whose hardware address is known.
use router_sim.Base.{◌≡◌, refl, false, [], ◌∷◌, none, some, nat_eq, get, inl}
use router_sim.Base.Outcome.{ok, err, Fault}
use router_sim.Net.{Network, net_eq, host, overlaps}
use router_sim.Mpls.{pos, pred, IpPacket, MplsPacket, forward, pop, popped, pop_last, apply}
use router_sim.Arp.{lookup}
use router_sim.Routing.Order.{first_overlap}
use router_sim.Forwarding.{lookup_ip, lookup_label}
use router_sim.Forwarding.Engine.{ipv4, mplsu, send, observed, Engine, process_frame}
use router_sim.Forwarding.Engine.Sent.{
  carried, given, IsForwarded, process_frame-send, process_frame-label,
}

abbrev lan : Network
lan = record { network_address = 256; prefixlen = 24 }

abbrev engine : Engine
engine = record {
  forwarding = some (record {
    ipv4 =
        (lan, record { prefix = lan; interface = some 3; action = forward; next_hop_ip = some 50 })
        ∷ [];
    mplsu =
        (100, record { prefix = 100; interface = some 3; action = pop; next_hop_ip = none }) ∷ [];
  });
  arp_handler = record {
    cache = (50, record { l2address = 9; last_used = 0 }) ∷ [];
    send_q = [];
    log = [];
    sent = [];
  };
  networks = [];
}

-- Its time to live is 0 already.
abbrev packet : IpPacket
packet = record { dst = 300; src = 10; ttl = pos 0; alert = false; payload = 1 }

abbrev passed : IpPacket
passed = record packet { ttl = pred (pos 0) }

packet_runs : process_frame engine (some 1) false none (ipv4 packet) ≡ ok (send 3 9 passed ∷ [])
unfolding process_frame get lookup lookup_ip first_overlap host overlaps
packet_runs = refl

process_frame-send_example :
    (p : IpPacket) × (carried (ipv4 packet) ≡ some p)
    × IsForwarded engine (given none (ipv4 packet)) p 3 9 passed
process_frame-send_example =
    process_frame-send engine (some 1) false none (ipv4 packet) (send 3 9 passed ∷ []) 3 9 passed
      packet_runs (inl refl)

abbrev labelled : MplsPacket
labelled = record { encapsulated = some packet; label_stack = 7 ∷ 100 ∷ []; ttl = pos 4 }

process_frame-label_example :
    (x : Fault) × (process_frame engine (some 1) false none (mplsu labelled) ≡ err x)
unfolding pop_last lookup_label get
process_frame-label_example =
    process_frame-label engine (some 1) false none labelled packet (7 ∷ []) 100
      (record { prefix = 100; interface = some 3; action = pop; next_hop_ip = none }) refl refl refl

-- Without a packet in it, a label is popped and nothing else happens.
abbrev empty : MplsPacket
empty = record { encapsulated = none; label_stack = 100 ∷ []; ttl = pos 4 }

empty_runs :
    process_frame engine (some 1) false none (mplsu empty) ≡ ok (observed (popped 100) ∷ [])
unfolding process_frame pop_last lookup_label get apply
empty_runs = refl
