-- ===== src/Dhcp/Sessions.antt =====
-- The server of routersim/dhcp.py over any sequence of packets, and one that it should refuse.
use router_sim.Base.{
  ℕ, ◌≤◌, ◌≡◌, ◌≢◌, refl, sym, ◌∙◌, ap, Bool, [], ◌∷◌, ◌++◌, some, nat_eq, get, get-set, arith,
  subst,
}
use router_sim.Base.Outcome.{Outcome, ok, err, ok-injective}
use router_sim.Dhcp.{
  Server, Message, Hold, Iface, Subnet, head?, lease, ack, bind_and_ack, process_types, process_msg,
  known_options, acked, new_server,
}
use router_sim.Dhcp.Lease.{
  IsServer, IsComplete, Good, bound, bind_and_ack-bound, process_types-Good,
}

-- The server handles every complete packet over its interface, of a client that requests what it was
-- offered, without an exception, and its leases stay apart, in the range and noted.
pub process_msg-IsServer :
    (i : Iface) (m : Message) (s : Server)
    → IsServer s
    → IsComplete i m s
    → (s' : Server) × (b : Bool) × (process_msg i m s ≡ ok (s', b)) × IsServer s'
unfolding process_msg
process_msg-IsServer i m s w whole =
    ended (process_types m.types i m s)
      (process_types-Good i m s w whole.interface m.types whole.follows)
  where
    ended :
        (o : Outcome (Server × Bool))
        → Good o
        → (s' : Server) × (b : Bool) × (o ≡ ok (s', b)) × IsServer s'
    ended (ok (s', b)) good = (s', b, refl, good)
    ended (err e) good = absurd good

-- The states that packets of such clients lead to.
pub data Reachable (main : ℕ) (subnet : Subnet) : Server → Type 0 where
  initial : Reachable main subnet (new_server main subnet)
  handled :
      {s s' : Server} {b : Bool} (i : Iface) (m : Message)
      → Reachable main subnet s
      → IsComplete i m s
      → process_msg i m s ≡ ok (s', b)
      → Reachable main subnet s'

new_server-IsServer : (main : ℕ) (subnet : Subnet) → IsServer (new_server main subnet)
unfolding get
new_server-IsServer main subnet = ground arith

pub Reachable-IsServer :
    (main : ℕ) (subnet : Subnet) (s : Server) → Reachable main subnet s → IsServer s
Reachable-IsServer main subnet s initial = new_server-IsServer main subnet
Reachable-IsServer main subnet s (handled {s = before} {b = b} i m r whole step) =
    let (s', b', e, w) =
      process_msg-IsServer i m before (Reachable-IsServer main subnet before r) whole in
    subst IsServer (ap (λ x. x.0) (ok-injective (sym e ∙ step))) w

-- From a new server on, as long as clients request what they were offered, no two clients are leased
-- the same address, and every leased address lies in the range.
pub leases_apart :
    (main : ℕ) (subnet : Subnet) (s : Server) (c d a : ℕ)
    → Reachable main subnet s
    → get s.leases c ≡ some a
    → get s.leases d ≡ some a
    → (c ≡ d) × (s.subnet.range_from ≤ a) × (a ≤ s.subnet.range_to)
leases_apart main subnet s c d a r k l =
    let w = Reachable-IsServer main subnet s r in
    let (low, high) = w.lease_range c a k in (w.unique c d a k l, low, high)

-- A client with a hold that requests any address is leased that address, whoever has it, while the
-- answer tells it the address that was offered.
pub bind_and_ack-unchecked :
    (i : Iface) (m : Message) (h : Hold) (a : ℕ) (s : Server)
    → get s.holds m.chaddr ≡ some h
    → get s.held h.offer ≡ some m.chaddr
    → head? m.requested_addrs ≡ some a
    → (s' : Server) × (bind_and_ack i m s ≡ ok s')
      × (get s'.leases m.chaddr ≡ some a)
      × ((c : ℕ) → c ≢ m.chaddr → get s'.leases c ≡ get s.leases c)
      × (s'.sent
          ≡ s.sent ++ acked m.chaddr h.xid h.offer i.address (known_options h.param_req_list) ∷ [])
unfolding lease ack
bind_and_ack-unchecked i m h a s at held asked = (
  bound i m.chaddr h a s,
  bind_and_ack-bound i m h a s at held asked,
  ground (arith, get-set s.leases m.chaddr m.chaddr a),
  λ c other. ground (arith, other, get-set s.leases m.chaddr c a),
  refl,
)
