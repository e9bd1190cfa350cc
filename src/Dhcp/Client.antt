-- ===== src/Dhcp/Client.antt =====
-- routersim/dhcp.py: the DHCP client, on a host. What it takes with `iface.logical()` is given as the
-- logical interface; the random transaction ids are arguments.
pub mod Answers
pub mod Configured
use router_sim.Base.{
  ℕ, ◌-◌, ◌%◌, ◌^◌, Bool, true, List, [], ◌∷◌, ◌++◌, Option, none, some, if◌then◌else◌, ◌==◌,
  nat_eq,
}
use router_sim.Base.Outcome.{Outcome, ok, or_raise, ◌>>=◌, index_error}
use router_sim.Net.{Network, default_network}
use router_sim.Arp.{lookup, ask}
use router_sim.Dhcp.{Parameter, subnet_mask, router, other, Message, discover, request, head?}
use router_sim.Host.{Address, Logical, Host, add_ip_address, static_route}
use router_sim.Host.Sending.{arp_face, listen_udp}

-- The type of a server's message.
pub data ReplyType : Type 0 where
  offer ack another : ReplyType

-- What the client reads of a packet: fields of `BOOTP`, and the options of a kind in their order.
pub record Reply : Type 0 where
  pub chaddr : ℕ
  pub yiaddr : ℕ
  pub siaddr : ℕ
  pub types : List ReplyType
  pub subnet_masks : List Network
  pub routers : List ℕ

-- `check_and_request` in the global queue, with what it closes over
pub record Check : Type 0 where
  pub offered_address : ℕ
  pub iface : Logical
  pub siaddr : ℕ

-- The client with its host, the messages that it has broadcast on interfaces, and the queued checks.
pub record Client : Type 0 where
  pub host : Host
  pub sent : List (ℕ × Message)
  pub queue : List Check

-- `DHCPClient.discover`; `listener` is the number of the client's `process_msg`.
unfoldable pub discover_message : ℕ → Logical → Message
discover_message xid l = record {
  chaddr = l.hw_address;
  xid = xid;
  types = discover ∷ [];
  param_req_lists = (subnet_mask ∷ router ∷ other ∷ other ∷ other ∷ []) ∷ [];
  requested_addrs = [];
}

unfoldable pub start_discover : ℕ → ℕ → Logical → Client → Client
unfolding listen_udp discover_message
start_discover listener xid l c = record c {
  host = listen_udp 68 listener c.host;
  sent = c.sent ++ (l.name, discover_message xid l) ∷ [];
}

-- `_do_request`
unfoldable pub request_message : ℕ → ℕ → Logical → Message
request_message xid offered l = record {
  chaddr = l.hw_address;
  xid = xid;
  types = request ∷ [];
  param_req_lists = [];
  requested_addrs = offered ∷ [];
}

unfoldable pub do_request : ℕ → ℕ → Logical → Client → Client
unfolding request_message
do_request xid offered l c = record c {
  sent = c.sent ++ (l.name, request_message xid offered l) ∷ [];
}

-- `request`: asks whether a station has the address, and checks after 100 ms
unfoldable pub probe : Logical → Reply → Client → Client
unfolding ask
probe l r c = record c {
  host = record c.host { arp = ask r.yiaddr (arp_face l) c.host.arp };
  queue = c.queue ++ (record { offered_address = r.yiaddr; iface = l; siaddr = r.siaddr }) ∷ [];
}

unfoldable pub check_and_request : ℕ → Check → Client → Client
unfolding lookup do_request
check_and_request xid k c = elim (lookup k.offered_address c.host.arp) [
  | none ↦ do_request xid k.offered_address k.iface c
  | some hw ↦ c
]

-- The check that was queued first runs; the global queue takes tasks in the order of their times.
unfoldable pub run_check : ℕ → Client → Client
unfolding check_and_request
run_check xid c = elim c.queue [
  | [] ↦ c
  | k ∷ ks ↦ check_and_request xid k (record c { queue = ks })
]

-- `ip_interface(f"{address}/{prefixlen}")`
unfoldable pub ip_interface : ℕ → ℕ → Address
ip_interface a prefixlen = record {
  ip = a;
  network = record { network_address = a - a % 2 ^ (32 - prefixlen); prefixlen = prefixlen };
}

module _ (dot_zero : ℕ → ℕ) where
  unfoldable pub apply_config : Logical → Reply → Client → Outcome Client
  unfolding ip_interface add_ip_address static_route
  apply_config l r c = do
    network ← or_raise index_error (head? r.subnet_masks)
    h ← add_ip_address dot_zero l.parent (ip_interface r.yiaddr network.prefixlen) c.host
    gw ← or_raise index_error (head? r.routers)
    h' ← static_route default_network (some gw) l.name h
    ok (record c { host = h' })

  -- `process_msg`: the first option that is an offer or an ack counts
  unfoldable pub hear_types : List ReplyType → Logical → Reply → Client → Outcome Client
  unfolding probe apply_config
  hear_types [] l r c = ok c
  hear_types (offer ∷ ts) l r c = ok (probe l r c)
  hear_types (ack ∷ ts) l r c = apply_config l r c
  hear_types (another ∷ ts) l r c = hear_types ts l r c

  unfoldable pub process_reply : Logical → Reply → Client → Outcome Client
  unfolding hear_types
  process_reply l r c = if r.chaddr == l.hw_address then hear_types r.types l r c else ok c
