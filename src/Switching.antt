-- ===== src/Switching.antt =====
-- routersim/switching/bridging.py: a learning bridge. MAC addresses, physical interfaces (ports) and
-- logical interfaces are numbers, and the clock counts milliseconds.
pub mod Learning
pub mod Flooding
use router_sim.Base.{
  ℕ, ◌+◌, ◌*◌, Bool, true, false, ◌&&◌, List, [], ◌∷◌, ◌++◌, Option, none, some, if◌then◌else◌, ltb,
  ◌==◌, nat_eq, Dict, get, set, delete,
}

-- `BridgeEntry`, under its MAC address
pub record BridgeEntry : Type 0 where
  pub interface : ℕ
  pub last_seen : ℕ

abbrev pub BridgingTable : Type 0
BridgingTable = Dict ℕ BridgeEntry

-- `DEFAULT_MAC_AGING_TIME_SECONDS`
unfoldable pub default_aging : ℕ
default_aging = 300

-- `is_expired`: `last_seen < now - 1000 * aging`, whose right side may be negative in the source
unfoldable pub is_expired : ℕ → ℕ → BridgeEntry → Bool
is_expired aging now e = ltb (e.last_seen + 1000 * aging) now

unfoldable pub learn : ℕ → ℕ → ℕ → BridgingTable → BridgingTable
learn now mac i t = elim (get t mac) [
  | none ↦ set t mac (record { interface = i; last_seen = now })
  | some e ↦
      if e.interface == i
      then set t mac (record e { last_seen = now })
      else set t mac (record { interface = i; last_seen = now })
]

-- `lookup_mac`: the interface, and the table, from which an expired entry goes
unfoldable pub lookup_mac : ℕ → ℕ → ℕ → BridgingTable → Option ℕ × BridgingTable
unfolding is_expired
lookup_mac aging now mac t = elim (get t mac) [
  | none ↦ (none, t)
  | some e ↦ if is_expired aging now e then (none, delete t mac) else (some e.interface, t)
]

pub record Frame : Type 0 where
  pub dst : ℕ
  pub src : ℕ

-- A physical interface with its logical ones; these have its hardware address.
pub record Port : Type 0 where
  pub name : ℕ
  pub hw_address : ℕ
  pub logical : List ℕ

-- What becomes of a frame: given to the switch itself as from a logical interface, sent on a logical
-- interface, or sent on a port.
pub data Delivery : Type 0 where
  accept forward flood : ℕ → Delivery

-- `broadcast_frame`
unfoldable pub broadcast_frame : List ℕ → ℕ → List Delivery
broadcast_frame [] source = []
broadcast_frame (p ∷ ps) source =
    let rest = broadcast_frame ps source in if p == source then rest else flood p ∷ rest

-- the loop that looks for the frame's destination among the port's logical interfaces
unfoldable pub accept_own : Frame → ℕ → List ℕ → List Delivery
accept_own f hw [] = []
accept_own f hw (l ∷ ls) =
    let rest = accept_own f hw ls in if f.dst == hw then accept l ∷ rest else rest

-- The port's first logical interface learns the source.
unfoldable pub learn_first : ℕ → ℕ → List ℕ → BridgingTable → BridgingTable
unfolding learn
learn_first now mac [] t = t
learn_first now mac (l ∷ ls) t = learn now mac l t

-- What is delivered once the destination has been looked up.
unfoldable pub deliver : List ℕ → Frame → Port → Option ℕ → List Delivery
unfolding accept_own broadcast_frame
deliver ports f source (some l) = forward l ∷ []
deliver ports f source none = elim (accept_own f source.hw_address source.logical) [
  | [] ↦ broadcast_frame ports source.name
  | d ∷ ds ↦ d ∷ ds
]

-- The broadcast address is not looked up.
unfoldable pub destination : ℕ → ℕ → ℕ → Frame → BridgingTable → Option ℕ × BridgingTable
unfolding lookup_mac
destination broadcast aging now f t =
    if f.dst == broadcast then (none, t) else lookup_mac aging now f.dst t

-- `process_frame`, with the names of the switch's interfaces
unfoldable pub process_frame :
    ℕ → List ℕ → ℕ → ℕ → Frame → Port → BridgingTable → List Delivery × BridgingTable
unfolding destination learn_first deliver
process_frame broadcast ports aging now f source t =
    let (out, t') = destination broadcast aging now f t in
    (deliver ports f source out, learn_first now f.src source.logical t')
