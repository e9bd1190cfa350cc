-- ===== src/Forwarding/Engine.antt =====
-- routersim/forwarding.py: `PacketForwardingEngine`. Interfaces are numbers. What it calls of other
-- parts is a list of effects in their order. `PhysicalInterface` has no `send` and `LogicalInterface`
-- no `send_ip`, so a call of one of them raises.
pub mod Encapsulated
pub mod Sent
use router_sim.Base.{
  ℕ, zero, suc, Bool, true, false, not, ◌&&◌, List, [], ◌∷◌, ◌++◌, Option, none, some,
  if◌then◌else◌, ◌==◌, nat_eq, Dict, get,
}
use router_sim.Base.Outcome.{
  Outcome, ok, err, Fault, or_raise, ◌>>=◌, key_error, index_error, attribute_error, raised,
}
use router_sim.Mpls.{
  ℤ, pred, IpPacket, MplsPacket, Pdu, ip, mpls, nothing, Action, forward, control, reject,
  LabelEvent, Log, pop_last, pop_label, apply,
}
use router_sim.Net.{Network, host, overlaps}
use router_sim.Arp.{ArpHandler, lookup}
use router_sim.Routing.Select.{ForwardingEntry}
use router_sim.Forwarding.{ForwardingTable, lookup_ip, lookup_label}

-- What a frame holds as its `pdu`; an ARP packet and an IS-IS PDU are only handed on. A frame of scapy's
-- `Ether` has none.
pub data Frame : Type 0 where
  ipv4 : IpPacket → Frame
  arp : ℕ → Frame
  clns : ℕ → Frame
  mplsu : MplsPacket → Frame
  ether : Frame

-- `router.process_packet`, `router.process_arp`, the IS-IS process, `arp.request`, `interface.send`, and
-- the events of label stack operations
pub data Effect : Type 0 where
  process_packet : Option ℕ → IpPacket → Effect
  process_arp : Option ℕ → ℕ → Effect
  process_isis : Option ℕ → ℕ → Effect
  request : (next_hop interface : ℕ) → Effect
  send : (interface hw_address : ℕ) → IpPacket → Effect
  observed : LabelEvent → Effect

-- The engine, with the IPv4 networks of the interfaces.
pub record Engine : Type 0 where
  pub forwarding : ForwardingTable
  pub arp_handler : ArpHandler
  pub networks : Dict ℕ Network

unfoldable pub observe_all : Log → List Effect
observe_all [] = []
observe_all (x ∷ log) = observed x ∷ observe_all log

-- `send_encapsulated`, from where the next hop is known. Without a hardware address the packet is
-- dropped.
unfoldable pub send_to : Engine → ℕ → IpPacket → ℕ → List Effect
unfolding lookup
send_to e next_hop p i = elim (lookup next_hop e.arp_handler) [
  | none ↦ request next_hop i ∷ []
  | some hw ↦ send i hw p ∷ []
]

unfoldable pub send_encapsulated : Engine → Option ℕ → IpPacket → Option ℕ → Outcome (List Effect)
unfolding send_to
send_encapsulated e next_hop p none = err attribute_error
send_encapsulated e (some next_hop) p (some i) = ok (send_to e next_hop p i)
send_encapsulated e none p (some i) = do
  net ← or_raise attribute_error (get e.networks i)
  if overlaps net (host p.dst) then ok (send_to e p.dst p i) else err raised

-- `if dest_interface is None`
abbrev pub or_else : Option ℕ → Option ℕ → Option ℕ
or_else none i = i
or_else (some d) i = some d

-- An action that is a label stack operation: an MPLS packet would go out by the missing `send`.
unfoldable pub push_labels : Action → IpPacket → Outcome (List Effect)
unfolding observe_all
push_labels a p = do
  (q, log) ← apply a (ip p) []
  elim q [ mpls m ↦ err attribute_error | _ ↦ ok (observe_all log) ]

-- the part of `process_ip` with an entry found
unfoldable pub forward_ip :
    Engine → Option ℕ → Bool → Option ℕ → ForwardingEntry Network → IpPacket → Outcome (List Effect)
unfolding send_encapsulated push_labels
forward_ip e source from_self dest f p = elim f.action [
  | forward ↦ send_encapsulated e f.next_hop_ip p (or_else dest f.interface)
  | control ↦ elim dest [
    | some d ↦ send_encapsulated e f.next_hop_ip p (some d)
    | none ↦ if from_self then err raised else ok (process_packet source p ∷ [])
  ]
  | reject ↦ elim dest [
    | some d ↦ send_encapsulated e f.next_hop_ip p (some d)
    | none ↦ elim source [ none ↦ ok [] | some i ↦ err attribute_error ]
  ]
  | a ↦ push_labels a p
]

-- `process_ip`
unfoldable pub process_ip : Engine → Option ℕ → Bool → Option ℕ → IpPacket → Outcome (List Effect)
unfolding forward_ip
process_ip e source from_self dest p =
    if p.alert && not from_self
    then ok (process_packet source p ∷ [])
    else (elim (lookup_ip e.forwarding p.dst) [
      | none ↦ ok []
      | some f ↦ forward_ip e source from_self dest f (record p { ttl = pred p.ttl })
    ])

-- the top of the label stack, and its bottom
abbrev pub top_label : MplsPacket → Outcome ℕ
top_label m =
    or_raise index_error (elim (pop_last m.label_stack) [ none ↦ none | some x ↦ some x.1 ])

abbrev pub bottom_label : MplsPacket → Outcome ℕ
bottom_label m = or_raise index_error (elim m.label_stack [ [] ↦ none | l ∷ ls ↦ some l ])

-- the entry of the top label, with an exception of the lookup as `none`
unfoldable pub find_label : Engine → MplsPacket → Option (Option (ForwardingEntry ℕ))
unfolding lookup_label
find_label e m = elim (top_label m >>= lookup_label e.forwarding) [ err x ↦ none | ok f ↦ some f ]

-- the handler of the exception: the label 3 at the bottom is popped. Where that leaves no IP packet, the
-- log names the bottom label, which may be gone.
unfoldable pub explicit_null : Engine → Option ℕ → Bool → MplsPacket → Outcome (List Effect)
unfolding process_ip pop_label observe_all
explicit_null e source from_self m = do
  l ← bottom_label m
  if l == 3
      then (do
        (q, log) ← pop_label (mpls m) []
        elim q [
          | mpls n ↦ ok (observe_all log)
          | ip p ↦ process_ip e source from_self none p >>= λ more. ok (observe_all log ++ more)
          | nothing ↦ err index_error
        ])
      else ok []

-- an entry's operation: a packet that is left has no way out, and nothing is only printed
unfoldable pub switch_label : ForwardingEntry ℕ → MplsPacket → Outcome (List Effect)
unfolding observe_all
switch_label f m = do
  (q, log) ← apply f.action (mpls m) []
  elim q [
    | mpls n ↦ err attribute_error
    | ip p ↦ err attribute_error
    | nothing ↦ ok (observe_all log)
  ]

unfoldable pub process_mpls : Engine → Option ℕ → Bool → MplsPacket → Outcome (List Effect)
unfolding find_label explicit_null switch_label
process_mpls e source from_self m = elim (find_label e m) [
  | none ↦ explicit_null e source from_self m
  | some none ↦ bottom_label m >>= λ l. ok []
  | some (some f) ↦ switch_label f m
]

-- `process_frame`
unfoldable pub process_frame : Engine → Option ℕ → Bool → Option ℕ → Frame → Outcome (List Effect)
unfolding process_ip process_mpls
process_frame e source from_self dest (ipv4 p) = process_ip e source from_self dest p
process_frame e source from_self dest (arp p) = ok (process_arp source p ∷ [])
process_frame e source from_self dest (clns p) = ok (process_isis source p ∷ [])
process_frame e source from_self dest ether = err attribute_error
process_frame e source from_self dest (mplsu m) = process_mpls e source from_self m

-- `accept_frame`, for frames of the router itself
unfoldable pub accept_frame : Engine → Option ℕ → Frame → Outcome (List Effect)
unfolding process_frame
accept_frame e dest frame = process_frame e none true dest frame
