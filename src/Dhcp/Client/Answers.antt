-- ===== src/Dhcp/Client/Answers.antt =====
-- routersim/dhcp.py: what the server makes of a client's messages, and its answers as the client reads them.
use router_sim.Base.{
  ℕ, ◌≡◌, refl, sym, ap, subst, true, List, [], ◌∷◌, ◌++◌, none, some, nat_eq, get, get-set, arith,
}
use router_sim.Base.Outcome.{ok}
use router_sim.Net.{Network, net_eq, default_network}
use router_sim.Mpls.{forward}
use router_sim.Routing.{Route, static}
use router_sim.Dhcp.{
  Parameter, subnet_mask, router, other, Subnet, Hold, Answer, offered, acked, Server, Iface,
  subnet_of, find_address, reserve, known_options, all_options, offer, lease, ack, process_types,
  process_msg,
}
use router_sim.Dhcp.Lease.{bound, bind_and_ack-bound}
use router_sim.Dhcp.Client.{ReplyType, Reply, discover_message, request_message}
use router_sim.Host.{Logical}

-- The values of the options that the server puts into its answers.
unfoldable pub masks_of : Subnet → List Parameter → List Network
masks_of s [] = []
masks_of s (subnet_mask ∷ ps) = s.network ∷ masks_of s ps
masks_of s (router ∷ ps) = masks_of s ps
masks_of s (other ∷ ps) = masks_of s ps

unfoldable pub routers_of : Subnet → List Parameter → List ℕ
routers_of s [] = []
routers_of s (subnet_mask ∷ ps) = routers_of s ps
routers_of s (router ∷ ps) = s.gw ∷ routers_of s ps
routers_of s (other ∷ ps) = routers_of s ps

-- The server's packet as the client reads it.
unfoldable pub answer_reply : Subnet → Answer → Reply
unfolding masks_of routers_of
answer_reply s (offered chaddr xid yiaddr siaddr ps) = record {
  chaddr = chaddr;
  yiaddr = yiaddr;
  siaddr = siaddr;
  types = ReplyType.offer ∷ [];
  subnet_masks = masks_of s ps;
  routers = routers_of s ps;
}
answer_reply s (acked chaddr xid yiaddr siaddr ps) = record {
  chaddr = chaddr;
  yiaddr = yiaddr;
  siaddr = siaddr;
  types = ReplyType.ack ∷ [];
  subnet_masks = masks_of s ps;
  routers = routers_of s ps;
}

-- The interface that `iface.logical()` makes for a port.
abbrev pub blank : (ℕ → ℕ) → ℕ → ℕ → Logical
blank dot_zero p hw = record {
  name = dot_zero p;
  parent = p;
  hw_address = hw;
  is_up = true;
  address = none;
}

abbrev pub both : List Parameter
both = subnet_mask ∷ router ∷ []

-- The default route over the gateway.
abbrev pub gateway_route : ℕ → ℕ → Route Network
gateway_route i gw = record {
  prefix = default_network;
  type = static;
  interface = some i;
  next_hop_ip = some gw;
  metric = 5;
  recursive = none;
  bypass = none;
  action = forward;
  protocol_next_hop = none;
}

pub discover_served :
    (x a : ℕ) (l : Logical) (i : Iface) (s : Server)
    → subnet_of i s ≡ some s.subnet
    → find_address l.hw_address s ≡ some a
    → (t : Server) × (process_msg i (discover_message x l) s ≡ ok (t, true))
      × (t.sent ≡ s.sent ++ offered l.hw_address x a i.address both ∷ [])
      × (t.subnet ≡ s.subnet)
      × (get t.held a ≡ some l.hw_address)
      × (get t.holds l.hw_address
          ≡ some (record {
            offer = a;
            param_req_list = subnet_mask ∷ router ∷ other ∷ other ∷ other ∷ [];
            xid = x;
          }))
unfolding process_msg process_types offer reserve discover_message all_options known_options
discover_served x a l i s here found =
    let ps = subnet_mask ∷ router ∷ other ∷ other ∷ other ∷ [] in
    (
      reserve i (discover_message x l) a ps s,
      rw (here, found) refl,
      refl,
      refl,
      ground (arith, get-set s.held a a l.hw_address),
      ground (
        arith,
        get-set s.holds l.hw_address l.hw_address
            (record { offer = a; param_req_list = ps; xid = x }),
      ),
    )

pub request_served :
    (x a : ℕ) (l : Logical) (i : Iface) (h : Hold) (s : Server)
    → get s.holds l.hw_address ≡ some h
    → get s.held a ≡ some l.hw_address
    → h.offer ≡ a
    → (t : Server) × (process_msg i (request_message x a l) s ≡ ok (t, true))
      × (t.sent
          ≡ s.sent ++ acked l.hw_address h.xid a i.address (known_options h.param_req_list) ∷ [])
      × (get t.leases l.hw_address ≡ some a)
unfolding process_msg process_types lease ack request_message
request_served x a l i h s at held same = (
  bound i l.hw_address h a s,
  rw
      (bind_and_ack-bound i (request_message x a l) h a s at
        (subst (λ b. get s.held b ≡ some l.hw_address) (sym same) held) refl)
      refl,
  ap (λ b. s.sent ++ acked l.hw_address h.xid b i.address (known_options h.param_req_list) ∷ [])
      same,
  ground (arith, get-set s.leases l.hw_address l.hw_address a),
)
