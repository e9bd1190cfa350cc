-- ===== src/Host.antt =====
-- routersim/server.py and routersim/netdevice.py: a host with its interfaces, its routes and what it
-- sends. Interface names are numbers; `dot_zero` is the number of a name with ".0" after it.
pub mod Updates
pub mod Duplicates
pub mod Sending
use router_sim.Base.{
  ℕ, ◌≡◌, ◌↔◌, arith, Hashable, Bool, true, false, ◌&&◌, List, [], ◌∷◌, ◌++◌, Option, none, some,
  if◌then◌else◌, ◌==◌, nat_eq, Dict, get, set,
}
use router_sim.Base.Outcome.{Outcome, ok, err, or_raise, ◌>>=◌, key_error, raised, attribute_error}
use router_sim.Net.{Network, net_eq, host}
use router_sim.Mpls.{IpPacket, forward}
use router_sim.Arp.{ArpHandler}
use router_sim.Routing.{
  Route, RouteEvent, connected, local, static, new_route, add_route, del_route,
}
use router_sim.Routing.Select.{RoutingTables}

-- `ip_interface`: an address with its network
pub record Address : Type 0 where
  pub ip : ℕ
  pub network : Network

-- A logical interface, with the name of its port.
pub record Logical : Type 0 where
  pub name : ℕ
  pub parent : ℕ
  pub hw_address : ℕ
  pub is_up : Bool
  pub address : Option Address

-- What `interfaces` has: a port with its hardware address and whether it is up, or a logical interface.
pub data Interface : Type 0 where
  port : (hw_address : ℕ) → Bool → Interface
  logical : Logical → Interface

-- What the host does: an IP packet goes to a hardware address, a packet is handed to a listener, an
-- echo reply is observed.
pub data Done : Type 0 where
  sent : (interface hw : ℕ) → IpPacket → Done
  handed : (listener interface : ℕ) → IpPacket → Done
  observed : IpPacket → Done

-- `SocketDef` of a UDP socket without a remote end
pub record Socket : Type 0 where
  pub address : ℕ
  pub port : ℕ

abbrev pub socket_beq : Socket → Socket → Bool
socket_beq a b = a.address == b.address && a.port == b.port

pub socket_beq_iff : (a b : Socket) → (socket_beq a b ≡ true) ↔ (a ≡ b)
socket_beq_iff a b = ground arith

instance abbrev pub socket_eq : Hashable Socket
socket_eq = record { eqv = socket_beq; eqv_iff = socket_beq_iff }

pub record Host : Type 0 where
  pub interfaces : Dict ℕ Interface
  pub routing : RoutingTables
  pub route_log : List (RouteEvent Network)
  pub arp : ArpHandler
  pub udp : Dict Socket ℕ
  pub done : List Done

-- a route of the `direct` table
unfoldable pub add_direct : Route Network → Host → Host
add_direct r h =
    let added = add_route false r h.routing.direct h.route_log in
    record h { routing = record h.routing { direct = added.0 }; route_log = added.1 }

unfoldable pub del_direct : Route Network → Host → Outcome Host
del_direct r h = do
  (t, log) ← del_route r h.routing.direct h.route_log
  ok (record h { routing = record h.routing { direct = t }; route_log = log })

-- `Route(…, RouteType.CONNECTED, …)` and `Route(…, RouteType.LOCAL, …)`
unfoldable pub connected_route : ℕ → Address → Route Network
connected_route i a = record {
  prefix = a.network;
  type = connected;
  interface = some i;
  next_hop_ip = none;
  metric = 1;
  recursive = none;
  bypass = none;
  action = forward;
  protocol_next_hop = none;
}

unfoldable pub local_route : ℕ → Address → Route Network
unfolding connected_route host
local_route i a = record (connected_route i a) { prefix = host a.ip; type = local }

-- `add_connected_route`
unfoldable pub add_connected_route : ℕ → Address → Host → Host
unfolding add_direct connected_route local_route
add_connected_route i a h = add_direct (local_route i a) (add_direct (connected_route i a) h)

unfoldable pub del_connected_route : ℕ → Address → Host → Outcome Host
unfolding del_direct connected_route local_route
del_connected_route i a h =
    del_direct (connected_route i a) h >>= λ g. del_direct (local_route i a) g

-- `RouteTableUpdater.observe`, of an event whose source is an interface
unfoldable pub update_routes : Interface → Host → Outcome Host
unfolding add_connected_route del_connected_route
update_routes (port hw up) h = ok h
update_routes (logical l) h = elim l.is_up [
  | true ↦ elim l.address [ none ↦ ok h | some a ↦ ok (add_connected_route l.name a h) ]
  | false ↦ do a ← or_raise key_error l.address; del_connected_route l.name a h
]

-- `LogicalInterface.up` and `down`, with the observers of `LINK_STATE`
unfoldable pub set_state : Bool → Logical → Host → Outcome Host
unfolding update_routes
set_state up l h =
    let l' = logical (record l { is_up = up }) in
    update_routes l' (record h { interfaces = set h.interfaces l.name l' })

-- `static_route`
unfoldable pub static_route : Network → Option ℕ → ℕ → Host → Outcome Host
static_route n gw i h = do
  face ← or_raise key_error (get h.interfaces i)
  r ← new_route n static (some i) gw (some 5)
  let added = add_route false r h.routing.static h.route_log
  ok (record h { routing = record h.routing { static = added.0 }; route_log = added.1 })

module _ (dot_zero : ℕ → ℕ) where
  -- `add_logical_interface`: an interface of a port that is up comes up at once
  unfoldable pub add_logical_interface : ℕ → ℕ → Bool → Address → Host → Outcome (Logical × Host)
  unfolding set_state
  add_logical_interface p hw up a h =
      let l : Logical = record {
        name = dot_zero p;
        parent = p;
        hw_address = hw;
        is_up = up;
        address = some a;
      } in
      let h' = record h { interfaces = set h.interfaces (dot_zero p) (logical l) } in
      if up then (update_routes (logical l) h' >>= λ g. ok (l, g)) else ok (l, h')

  -- `add_ip_address`, with the observers of `INTERFACE_STATE`
  unfoldable pub add_ip_address : ℕ → Address → Host → Outcome Host
  unfolding add_logical_interface update_routes
  add_ip_address p a h = do
    face ← or_raise raised (get h.interfaces p)
    (l, g) ← elim face [
      | logical l ↦
          let l' = record l { address = some a } in
          ok (l', record h { interfaces = set h.interfaces p (logical l') })
      | port hw up ↦ elim (get h.interfaces (dot_zero p)) [
        | none ↦ add_logical_interface p hw up a h
        | some (port hw' up') ↦ err attribute_error
        | some (logical l) ↦
            let l' = record l { address = some a } in
            ok (l', record h { interfaces = set h.interfaces (dot_zero p) (logical l') })
      ]
    ]
    update_routes (logical l) g
