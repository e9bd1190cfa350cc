-- ===== src/Dhcp.antt =====
-- routersim/dhcp.py: the DHCP server on its one subnet. MAC addresses, IP addresses and interface names
-- are numbers. The source keeps a hold under the client and under the address in one dictionary; the
-- keys are of two types that never equal, so here they are two dictionaries.
pub mod Lease
pub mod First
pub mod Sessions
pub mod Client
use router_sim.Base.{
  ℕ, zero, suc, ◌+◌, ◌^◌, ◌-◌, Bool, true, false, not, ◌&&◌, ◌||◌, List, [], ◌∷◌, ◌++◌, Option,
  none, some, if◌then◌else◌, ltb, leb, ◌==◌, nat_eq, Dict, get, set, delete, has,
}
use router_sim.Base.Outcome.{
  Outcome, ok, err, or_raise, ◌>>=◌, key_error, index_error, type_error, attribute_error,
}
use router_sim.Net.{Network, first_host, host_count}

-- A request's parameter, or an option of an answer, that the server knows.
pub data Parameter : Type 0 where
  subnet_mask router other : Parameter

pub record Subnet : Type 0 where
  pub gw : ℕ
  pub range_from : ℕ
  pub range_to : ℕ
  pub network : Network

-- What `holds[client]` is: `hold_info`.
pub record Hold : Type 0 where
  pub offer : ℕ
  pub param_req_list : List Parameter
  pub xid : ℕ

pub data DhcpEvent : Type 0 where
  reserved cleared leased_ip : ℕ → ℕ → DhcpEvent

-- The part of the `BOOTP` packet that the answers fill in; `options` are those asked for.
pub data Answer : Type 0 where
  offered acked : (chaddr xid yiaddr siaddr : ℕ) → List Parameter → Answer

pub record Server : Type 0 where
  pub main_interface : ℕ
  pub subnet : Subnet
  -- `leases[network]`, from client to address
  pub leases : Dict ℕ ℕ
  -- `leased`, the addresses that were ever leased
  pub leased : Dict ℕ Bool
  -- `holds` at addresses and at clients
  pub held : Dict ℕ ℕ
  pub holds : Dict ℕ Hold
  pub log : List DhcpEvent
  pub sent : List Answer

-- A message's type, as its option says.
pub data MessageType : Type 0 where
  discover request another : MessageType

-- What the server reads of a packet: fields of `BOOTP`, and the options of a kind in their order.
pub record Message : Type 0 where
  pub chaddr : ℕ
  pub xid : ℕ
  pub types : List MessageType
  pub param_req_lists : List (List Parameter)
  pub requested_addrs : List ℕ

-- A logical interface: its name, its port's name and its address.
pub record Iface : Type 0 where
  pub name : ℕ
  pub parent : ℕ
  pub address : ℕ

-- `subnets.get(iface.name)`, and then that of the parent
unfoldable pub subnet_of : Iface → Server → Option Subnet
subnet_of i s =
    if i.name == s.main_interface || i.parent == s.main_interface then some s.subnet else none

-- Whether the loop may offer an address.
unfoldable pub is_free : Server → ℕ → Bool
is_free s a =
    leb s.subnet.range_from a
    && (leb a s.subnet.range_to && (not (has s.held a) && not (has s.leased a)))

-- the loop over the hosts, of which the first free one is taken
unfoldable pub find_free : ℕ → ℕ → Server → Option ℕ
unfolding is_free
find_free zero a s = none
find_free (suc n) a s = let rest = find_free n (a + 1) s in if is_free s a then some a else rest

-- `_find_addres_for_offer`
unfoldable pub find_address : ℕ → Server → Option ℕ
unfolding find_free first_host host_count
find_address client s = elim (get s.leases client) [
  | some a ↦ some a
  | none ↦ find_free (host_count s.subnet.network) (first_host s.subnet.network) s
]

abbrev pub head? : {A : Type 0} → List A → Option A
head? [] = none
head? (x ∷ xs) = some x

-- The requested options that the server answers.
unfoldable pub known_options : List Parameter → List Parameter
known_options [] = []
known_options (subnet_mask ∷ ps) = subnet_mask ∷ known_options ps
known_options (router ∷ ps) = router ∷ known_options ps
known_options (other ∷ ps) = known_options ps

unfoldable pub all_options : List (List Parameter) → List Parameter
unfolding known_options
all_options [] = []
all_options (ps ∷ pss) = known_options ps ++ all_options pss

-- the reservation and the answer of `offer`
unfoldable pub reserve : Iface → Message → ℕ → List Parameter → Server → Server
unfolding all_options
reserve i m a params s = record s {
  held = set s.held a m.chaddr;
  holds = set s.holds m.chaddr (record { offer = a; param_req_list = params; xid = m.xid });
  log = s.log ++ reserved m.chaddr a ∷ [];
  sent = s.sent ++ offered m.chaddr m.xid a i.address (all_options m.param_req_lists) ∷ [];
}

unfoldable pub offer : Iface → Message → Server → Outcome Server
unfolding subnet_of find_address reserve
offer i m s = do
  subnet ← or_raise type_error (subnet_of i s)
  elim (find_address m.chaddr s) [
    | none ↦ ok s
    | some a ↦ do
      params ← or_raise index_error (head? m.param_req_lists)
      ok (reserve i m a params s)
  ]

-- `_lease`
unfoldable pub lease : ℕ → ℕ → Server → Server
lease client a s = record s {
  leases = set s.leases client a;
  leased = set s.leased a true;
  log = s.log ++ leased_ip client a ∷ [];
}

-- `ack`, which sends the address that was offered
unfoldable pub ack : Iface → ℕ → Hold → Server → Server
unfolding known_options
ack i client h s = record s {
  sent = s.sent ++ acked client h.xid h.offer i.address (known_options h.param_req_list) ∷ [];
}

-- `bind_and_ack` clears the client's hold first; `del` raises where the key is missing.
unfoldable pub clear_hold : ℕ → Option Hold → Server → Outcome Server
clear_hold client none s = ok s
clear_hold client (some h) s =
    if has s.held h.offer
    then ok (record s {
      held = delete s.held h.offer;
      holds = delete s.holds client;
      log = s.log ++ cleared client h.offer ∷ [];
    })
    else err key_error

-- The lease goes to the address that the request names. That the request may be to another server
-- is only logged.
unfoldable pub bind_and_ack : Iface → Message → Server → Outcome Server
unfolding clear_hold lease ack
bind_and_ack i m s = do
  s' ← clear_hold m.chaddr (get s.holds m.chaddr) s
  a ← or_raise index_error (head? m.requested_addrs)
  elim (get s.holds m.chaddr) [
    | none ↦ ok s'
    | some h ↦ ok (ack i m.chaddr h (lease m.chaddr a s'))
  ]

-- `process_msg`: the first option that is a discover or a request counts
unfoldable pub process_types : List MessageType → Iface → Message → Server → Outcome (Server × Bool)
unfolding offer bind_and_ack
process_types [] i m s = ok (s, false)
process_types (discover ∷ ts) i m s = offer i m s >>= λ s'. ok (s', true)
process_types (request ∷ ts) i m s = bind_and_ack i m s >>= λ s'. ok (s', true)
process_types (another ∷ ts) i m s = process_types ts i m s

unfoldable pub process_msg : Iface → Message → Server → Outcome (Server × Bool)
unfolding process_types
process_msg i m s = process_types m.types i m s

-- A new server.
abbrev pub new_server : ℕ → Subnet → Server
new_server main subnet = record {
  main_interface = main;
  subnet = subnet;
  leases = [];
  leased = [];
  held = [];
  holds = [];
  log = [];
  sent = [];
}
