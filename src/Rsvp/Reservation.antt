-- ===== src/Rsvp/Reservation.antt =====
-- routersim/rsvp/process.py, `_process_resv`: a reservation with its label comes back along a path.
-- The texts of `key()` are numbers.
pub mod Labels
pub mod Switched
use router_sim.Base.{
  ℕ, ◌+◌, Bool, true, false, ◌&&◌, ◌||◌, List, [], ◌∷◌, ◌++◌, Option, none, some, if◌then◌else◌,
  ◌==◌, nat_eq, Dict, get, set, has,
}
use router_sim.Base.Outcome.{Outcome, Ended, ok, or_raise, err, ◌>>=◌, raised, attribute_error}
use router_sim.Net.{Network, net_eq, host}
use router_sim.Mpls.{Action, push, pop, replace}
use router_sim.Routing.{Route, Table, RouteEvent, Bypass, rsvp, option_beq, add_route}
use router_sim.Routing.Select.{RoutingTables, inet, lookup_ip}

-- `PathStateBlock`; of its route, what a bypass takes
pub record PathState : Type 0 where
  pub hop : ℕ
  pub sender_address : ℕ
  pub sender_lsp_id : ℕ
  pub dest_ip : ℕ
  pub tunnel_id : ℕ
  pub local_repair : Bool
  pub is_standard : Bool
  pub bypassed : Option ℕ
  pub label : Option ℕ
  pub route : Option Bypass

-- `Resv`
pub record Resv : Type 0 where
  pub key : ℕ
  pub dest_ip : ℕ
  pub tunnel_id : ℕ
  pub filter_address : ℕ
  pub filter_lsp_id : ℕ
  pub label : ℕ
  pub hop : ℕ
  pub record_route : List ℕ

-- A reservation that should go on to a router, over an interface.
pub record Onward : Type 0 where
  pub dst : ℕ
  pub src : ℕ
  pub interface : Option ℕ
  pub resv : Resv

-- The process with the router's tables and logical interfaces, and the addresses whose bypass is queued.
pub record RsvpProcess : Type 0 where
  pub source_ip : ℕ
  pub current_label : ℕ
  pub path_state : Dict ℕ PathState
  pub resv_state : Dict ℕ ℕ
  pub routing : RoutingTables
  pub route_log : List (RouteEvent Network)
  pub label_log : List (RouteEvent ℕ)
  pub interfaces : Dict ℕ (Option ℕ)
  pub queue : List ℕ

abbrev pub is_path_of : Resv → PathState → Bool
is_path_of r p =
    p.dest_ip == r.dest_ip
    && (p.tunnel_id == r.tunnel_id
        && (p.sender_address == r.filter_address && p.sender_lsp_id == r.filter_lsp_id))

-- `for key in self.path_state`, up to the reservation's path
unfoldable pub find_path : Resv → Dict ℕ PathState → Option (ℕ × PathState)
find_path r [] = none
find_path r ((k, p) ∷ m) = let rest = find_path r m in if is_path_of r p then some (k, p) else rest

-- `interface.address().ip`
unfoldable pub address_ip : Option ℕ → RsvpProcess → Outcome ℕ
address_ip none s = err attribute_error
address_ip (some i) s =
    or_raise attribute_error (get s.interfaces i) >>= λ a. or_raise attribute_error a

-- `RSVPRoute`
unfoldable pub rsvp_route : {P : Type 0} → P → ℕ → ℕ → Action → ℕ → Option Bypass → Route P
rsvp_route p i nh action metric b = record {
  prefix = p;
  type = rsvp;
  interface = some i;
  next_hop_ip = some nh;
  metric = metric;
  recursive = none;
  bypass = b;
  action = action;
  protocol_next_hop = none;
}

-- `route.bypass = newroute`, for the routes over an address
unfoldable pub protect : {P : Type 0} → Option ℕ → Bypass → List (Route P) → List (Route P)
protect a b [] = []
protect a b (r ∷ rs) =
    (if option_beq r.next_hop_ip a then record r { bypass = some b } else r) ∷ protect a b rs

unfoldable pub protect_table : {P : Type 0} → Option ℕ → Bypass → Table P → Table P
unfolding protect
protect_table a b [] = []
protect_table a b ((p, rs) ∷ t) = (p, protect a b rs) ∷ protect_table a b t

-- `for psbinfo in self.path_state.values()`: the last bypass of an address
unfoldable pub bypass_of : ℕ → Dict ℕ PathState → Option Bypass → Option Bypass
bypass_of nh [] b = b
bypass_of nh ((k, p) ∷ m) b =
    bypass_of nh m (if option_beq (some nh) p.bypassed then p.route else b)

-- The reservation is back where the path began.
unfoldable pub reserve_ingress : ℕ → Resv → ℕ → PathState → RsvpProcess → RsvpProcess
unfolding rsvp_route protect_table
reserve_ingress i r k p s =
    let b : Bypass = record { interface = i; action = push r.label } in
    let s' = record s { path_state = set s.path_state k (record p { route = some b }) } in
    if p.is_standard
    then (let added =
          add_route false (rsvp_route (host p.dest_ip) i r.hop (push r.label) 7 none)
            s.routing.rsvp_table s.route_log in
        record s' { routing = record s.routing { rsvp_table = added.0 }; route_log = added.1 })
    else record s' {
      routing = record s.routing {
        rsvp_table = protect_table p.bypassed b s.routing.rsvp_table;
        mpls_table = protect_table p.bypassed b s.routing.mpls_table;
      };
    }

-- `PopStackOperation()` for the implicit null label
abbrev pub label_action : ℕ → Action
label_action l = if l == 3 then pop else replace l

-- A router on the way gives out a label of its own.
unfoldable pub reserve_transit : ℕ → Resv → RsvpProcess → RsvpProcess
unfolding rsvp_route bypass_of
reserve_transit i r s =
    let b = bypass_of r.hop s.path_state none in
    let added =
      add_route true (rsvp_route s.current_label i r.hop (label_action r.label) 7 b)
        s.routing.mpls_table s.label_log in
    record s {
      current_label = s.current_label + 10;
      routing = record s.routing { mpls_table = added.0 };
      label_log = added.1;
    }

-- Whether a logical interface has the address; one without any raises.
unfoldable pub owns_address : ℕ → Dict ℕ (Option ℕ) → Outcome Bool
owns_address a [] = ok false
owns_address a ((i, none) ∷ m) = err attribute_error
owns_address a ((i, some b) ∷ m) = let rest = owns_address a m in if b == a then ok true else rest

-- the end of the function, for a path with link protection
unfoldable pub queue_bypass : Bool → ℕ → RsvpProcess → RsvpProcess × Ended
unfolding owns_address
queue_bypass false hop s = (s, ok tt)
queue_bypass true hop s = elim (owns_address hop s.interfaces) [
  | err e ↦ (s, err e)
  | ok own ↦ (if own then s else record s { queue = s.queue ++ hop ∷ [] }, ok tt)
]

-- `resv` as it should go on, with its packet's addresses
abbrev pub onward : Resv → ℕ → Option ℕ → ℕ → ℕ → ℕ → Onward
onward r hop back our_ip here label = record {
  dst = hop;
  src = our_ip;
  interface = back;
  resv = record r { label = label; hop = our_ip; record_route = r.record_route ++ here ∷ [] };
}

-- The packet that it should go on in is `IP(..., protocol=...)`, and scapy's `IP` has no such field.
unfoldable pub forward_resv : Onward → Ended
forward_resv o = err attribute_error

-- `_process_resv` from where the path, the interface back along it and the two addresses are known
unfoldable pub reserve :
    ℕ → Resv → ℕ → PathState → ℕ → Option ℕ → ℕ → ℕ → RsvpProcess → RsvpProcess × Ended
unfolding reserve_ingress reserve_transit queue_bypass forward_resv
reserve i r k p rsb_hop back our_ip here s =
    if r.filter_address == s.source_ip
    then queue_bypass p.local_repair rsb_hop (reserve_ingress i r k p s)
    else (if our_ip == p.hop then (s, err raised) else (
      reserve_transit i r s,
      forward_resv (onward r p.hop back our_ip here s.current_label),
    ))

-- the interface back along the path, with its address and the hop of the reservation's state
unfoldable pub way_back : Resv → PathState → Dict ℕ ℕ → RsvpProcess → Outcome (Option ℕ × ℕ × ℕ)
unfolding address_ip lookup_ip
way_back r p known s = do
  found ← lookup_ip (inet s.routing) p.hop
  route ← or_raise attribute_error found
  our_ip ← address_ip route.interface s
  rsb_hop ← or_raise raised (get known r.key)
  ok (route.interface, our_ip, rsb_hop)

-- `_process_resv` of a packet with its reservation as `pdu`, with what it changed before an exception.
-- The address of the interface is read for the log before the path keeps the label.
unfoldable pub process_resv : ℕ → Resv → RsvpProcess → RsvpProcess × Ended
unfolding find_path address_ip reserve way_back
process_resv i r s =
    let known = if has s.resv_state r.key then s.resv_state else set s.resv_state r.key r.hop in
    let s₁ = record s { resv_state = known } in
    elim (find_path r s.path_state) [
      | none ↦ (s₁, ok tt)
      | some (k, p) ↦ elim (address_ip (some i) s) [
        | err e ↦ (s₁, err e)
        | ok here ↦
            let p' = record p { label = some r.label } in
            let s₂ = record s₁ { path_state = set s.path_state k p' } in
            elim (way_back r p' known s) [
              | err e ↦ (s₂, err e)
              | ok (back, our_ip, rsb_hop) ↦ reserve i r k p' rsb_hop back our_ip here s₂
            ]
      ]
    ]
