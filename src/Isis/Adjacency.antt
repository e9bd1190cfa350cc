-- ===== src/Isis/Adjacency.antt =====
-- routersim/isis/process.py, hellos: `__send_hello`, less the queueing of its next run, and
-- `process_hello`.
pub mod End
pub mod Hearing
pub mod Heard
pub mod Greeting
use router_sim.Base.{
  ℕ, Bool, true, false, ◌&&◌, List, [], ◌∷◌, ◌++◌, Option, none, some, if◌then◌else◌, ◌==◌, nat_eq,
  Dict, get, set,
}
use router_sim.Base.Outcome.{Outcome, Ended, ok, err, ◌>>=◌, key_error, name_error, raised}
use router_sim.Isis.{
  NeighborState, new, initializing, adjacent, down, Tlv, p2p_adjacency, area_address, ip_address,
}
use router_sim.Isis.Update.{Neighbor, Interface, Process, adj_change}
use router_sim.Isis.Local.{loopback, refresh_local}

-- `P2PHelloPDU`
pub record Hello : Type 0 where
  pub source_address : ℕ
  pub tlvs : List Tlv

-- the state in which a hello names a neighbour
abbrev pub greeted : NeighborState → NeighborState
greeted new = initializing
greeted down = initializing
greeted st = st

abbrev pub greet_neighbor : Neighbor → Neighbor
greet_neighbor n = record n { state = greeted n.state }

-- `for neighbor_id in self.adjacencies[ifacename]`: the neighbours after, and the TLVs
unfoldable pub greet_neighbors : Dict ℕ Neighbor → Dict ℕ Neighbor × List Tlv
greet_neighbors [] = ([], [])
greet_neighbors ((k, n) ∷ ns) =
    let rest = greet_neighbors ns in
    ((k, greet_neighbor n) ∷ rest.0, p2p_adjacency k (greeted n.state) ∷ rest.1)

-- `send_clns` of a logical interface: the name `Frame`, which it calls, has no definition
unfoldable pub send_clns : {P : Type 0} → P → Ended
send_clns pdu = err name_error

abbrev pub hello_of : Process → ℕ → List Tlv → Hello
hello_of s a ts = record {
  source_address = s.system_id;
  tlvs = area_address s.area_id ∷ ip_address a ∷ ts;
}

-- `for ifacename in self.interfaces`, the body, with what it changed before an exception
unfoldable pub greet : ℕ → Interface → Process → Process × Ended
unfolding greet_neighbors send_clns
greet i x s =
    if x.active && (x.is_up && x.point_to_point)
    then (elim (get s.interfaces loopback) [
      | none ↦ (s, err key_error)
      | some lo ↦ elim (get s.adjacencies i) [
        | none ↦ (s, err key_error)
        | some ns ↦ (
          record s { adjacencies = set s.adjacencies i (greet_neighbors ns).0 },
          send_clns (hello_of s lo.ip (greet_neighbors ns).1),
        )
      ]
    ])
    else (s, ok tt)

-- `__send_hello`
unfoldable pub send_hello : Dict ℕ Interface → Process → Process × Ended
unfolding greet
send_hello [] s = (s, ok tt)
send_hello ((i, x) ∷ m) s =
    let first = greet i x s in
    let rest = send_hello m first.0 in elim first.1 [ ok u ↦ rest | err e ↦ (first.0, err e) ]

-- `Neighbor(addr, iface_name)` in the state NEW
abbrev pub new_neighbor : Neighbor
new_neighbor = record { state = new; address = none; iface_address = none }

-- a change to the object of a neighbour that is known
unfoldable pub put_neighbor : ℕ → ℕ → Neighbor → Process → Process
put_neighbor i k n s = elim (get s.adjacencies i) [
  | none ↦ s
  | some ns ↦ record s { adjacencies = set s.adjacencies i (set ns k n) }
]

-- `__neighbor`: nothing where IS-IS is not enabled on the interface
unfoldable pub neighbor_of : ℕ → ℕ → Process → Option (Neighbor × Process)
unfolding put_neighbor
neighbor_of i k s = elim (get s.adjacencies i) [
  | none ↦ none
  | some ns ↦ elim (get ns k) [
    | some n ↦ some (n, s)
    | none ↦
        some (
          new_neighbor,
          record (put_neighbor i k new_neighbor s) { neighbors = set s.neighbors k i },
        )
  ]
]

-- the last of the IP address TLVs
unfoldable pub last_address : List Tlv → Option ℕ → Option ℕ
last_address [] a = a
last_address (ip_address b ∷ ts) a = last_address ts (some b)
last_address (t ∷ ts) a = last_address ts a

-- a state in which the sender has heard this system
abbrev pub has_heard : NeighborState → Bool
has_heard adjacent = true
has_heard initializing = true
has_heard _ = false

-- an adjacency TLV with this system in such a state, by the state that the neighbour is in here
unfoldable pub advance : ℕ → ℕ → Neighbor → Process → Outcome Process
unfolding put_neighbor
advance i k n s = elim n.state [
  | adjacent ↦ ok s
  | new ↦
      let t = put_neighbor i k (record n { state = initializing }) s in
      ok (record t { events = t.events ++ adj_change k initializing ∷ [] })
  | _ ↦
      let t = put_neighbor i k (record n { state = adjacent }) s in
      refresh_local (record t {
        neighbors = set t.neighbors k i;
        events = t.events ++ adj_change k adjacent ∷ [];
      })
      >>= λ u. ok (record u { csnps = u.csnps ++ i ∷ [] })
]

-- `for tlv in adj_tlvs`
unfoldable pub hear_tlvs : ℕ → ℕ → List Tlv → Process → Outcome Process
unfolding advance neighbor_of
hear_tlvs i k [] s = ok s
hear_tlvs i k (p2p_adjacency j st ∷ ts) s = elim (j == s.system_id && has_heard st) [
  | false ↦ hear_tlvs i k ts s
  | true ↦ elim (neighbor_of i k s) [
    | none ↦ ok s
    | some (n, t) ↦ advance i k n t >>= λ u. hear_tlvs i k ts u
  ]
]
hear_tlvs i k (t ∷ ts) s = hear_tlvs i k ts s

-- `process_hello`: without an IP address TLV, `adj_tlvs` is a variable without a value
unfoldable pub process_hello : ℕ → Hello → Process → Outcome Process
unfolding neighbor_of put_neighbor last_address hear_tlvs
process_hello i h s = elim (neighbor_of i h.source_address s) [
  | none ↦ ok s
  | some (n, t) ↦ elim (last_address h.tlvs none) [
    | none ↦ err raised
    | some a ↦
        hear_tlvs i h.source_address h.tlvs
          (put_neighbor i h.source_address (record n { address = some a }) t)
  ]
]
