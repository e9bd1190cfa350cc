-- ===== src/Host/Sending.antt =====
-- routersim/server.py and routersim/netdevice.py: `send_ip`, `process_frame` and `process_packet`.
pub mod Resolved
use router_sim.Base.{
  ℕ, Bool, true, false, ◌&&◌, ◌||◌, not, List, [], ◌∷◌, ◌++◌, Option, none, some, if◌then◌else◌,
  ◌==◌, nat_eq, Dict, get, set,
}
use router_sim.Base.Outcome.{Outcome, ok, err, or_raise, ◌>>=◌, key_error, raised, attribute_error}
use router_sim.Net.{Network, net_eq, host, overlaps}
use router_sim.Mpls.{ℤ, pos, IpPacket}
use router_sim.Arp.{ArpHandler, ArpPacket, lookup, enqueue, ask, process}
use router_sim.Routing.{Route}
use router_sim.Routing.Select.{inet, lookup_ip}
use router_sim.Host.{
  Address, Logical, Interface, port, logical, Host, Done, sent, handed, observed, Socket, socket_eq,
}

abbrev pub address_ip : Option Address → Option ℕ
address_ip none = none
address_ip (some a) = some a.ip

-- A logical interface as `ArpHandler` sees it.
abbrev pub arp_face : Logical → router_sim.Arp.Interface
arp_face l = record { name = l.name; address = address_ip l.address }

-- The logical interface of a name. A port, and no interface, have no `address`.
unfoldable pub logical_of : Option ℕ → Host → Outcome Logical
logical_of none h = err attribute_error
logical_of (some i) h = elim (get h.interfaces i) [
  | some (logical l) ↦ ok l
  | _ ↦ err attribute_error
]

-- What scapy makes of a payload: echo requests and replies, other ICMP, UDP to a port.
pub data Payload : Type 0 where
  echo_request : (body : ℕ) → Payload
  echo_reply : (body : ℕ) → Payload
  other_icmp : Payload
  udp_to : (dport : ℕ) → Payload
  other_payload : Payload

-- A frame: its destination and what it holds.
pub data Content : Type 0 where
  arp_packet : ArpPacket → Content
  ipv4 : IpPacket → Content
  other_content : Content

-- The address to look up: the destination itself, if it is in the interface's network. `none_text` is
-- the number of the text "None", under which a packet without a next hop waits.
abbrev pub lookup_addr : ℕ → Network → Route Network → ℕ → ℕ
lookup_addr none_text n r dst =
    if overlaps n (host dst) then dst else elim r.next_hop_ip [ none ↦ none_text | some a ↦ a ]

-- the end of `send_ip`
unfoldable pub send_to : ℕ → Logical → IpPacket → Host → Host
unfolding lookup enqueue ask
send_to a l p h = elim (lookup a h.arp) [
  | none ↦ record h { arp = ask a (arp_face l) (enqueue a p (arp_face l) h.arp) }
  | some hw ↦ record h { done = h.done ++ sent l.name hw p ∷ [] }
]

abbrev pub given_or : Option ℕ → Option ℕ → Option ℕ
given_or none i = i
given_or (some j) i = some j

unfoldable pub send_ip : ℕ → Option ℕ → IpPacket → Host → Outcome Host
unfolding lookup_ip logical_of send_to
send_ip none_text source p h = do
  found ← lookup_ip (inet h.routing) p.dst
  r ← or_raise raised found
  l ← logical_of (given_or source r.interface) h
  a ← or_raise attribute_error l.address
  ok (send_to (lookup_addr none_text a.network r p.dst) l p h)

-- `payload_of` and `reply_to` are scapy's, which takes payloads apart and makes an echo reply.
module _ (none_text : ℕ) (payload_of : ℕ → Payload) (reply_to : ℕ → ℕ) where
  -- `NetworkDevice.process_packet`: of ICMP, an echo request is answered. The branch of the other types names
  -- a member that the enum lacks.
  unfoldable pub process_icmp : IpPacket → Host → Outcome (Host × Bool)
  unfolding send_ip
  process_icmp p h = elim (payload_of p.payload) [
    | echo_request body ↦
        send_ip none_text none
          (record {
            dst = p.src;
            src = p.dst;
            ttl = pos 64;
            alert = false;
            payload = reply_to body;
          })
          h
        >>= λ g. ok (g, true)
    | echo_reply body ↦ ok (record h { done = h.done ++ observed p ∷ [] }, true)
    | other_icmp ↦ err attribute_error
    | _ ↦ ok (h, false)
  ]

  -- the listener of a port, at the address and then at any
  abbrev pub listener_of : ℕ → ℕ → Host → Option ℕ
  listener_of dst dport h = elim (get h.udp (record { address = dst; port = dport })) [
    | some f ↦ some f
    | none ↦ get h.udp (record { address = 0; port = dport })
  ]

  -- `Server.process_packet`
  unfoldable pub process_packet : ℕ → IpPacket → Host → Outcome (Host × Bool)
  unfolding process_icmp
  process_packet i p h = do
    (g, handled) ← process_icmp p h
    if handled then ok (g, true) else (elim (payload_of p.payload) [
      | udp_to dport ↦ elim (listener_of p.dst dport g) [
        | none ↦ ok (g, false)
        | some f ↦ ok (record g { done = g.done ++ handed f i p ∷ [] }, true)
      ]
      | _ ↦ ok (g, false)
    ])

  -- `process_frame`, for the broadcast address or the interface's own
  unfoldable pub process_frame : ℕ → ℕ → Content → Logical → ℕ → Host → Outcome Host
  unfolding process_packet process
  process_frame broadcast dst c l now h =
      if dst == broadcast || dst == l.hw_address
      then (elim c [
        | arp_packet p ↦ ok (record h { arp = process now p (arp_face l) h.arp })
        | ipv4 p ↦ process_packet l.name p h >>= λ x. ok x.0
        | other_content ↦ ok h
      ])
      else ok h

-- `listen_udp`, at any address
unfoldable pub listen_udp : ℕ → ℕ → Host → Host
listen_udp p f h = record h { udp = set h.udp (record { address = 0; port = p }) f }
