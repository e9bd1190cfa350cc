-- ===== src/Isis/Spf.antt =====
-- routersim/isis/process.py, `run_full_dijkstra`: the shortest paths from this system. The
-- dictionaries of the function are the fields of a record; `sys.maxsize` stands for no path.
pub mod Graph
pub mod Scan
pub mod Relax
pub mod Address
pub mod Round
pub mod Start
pub mod Tree
pub mod Shortest
use router_sim.Base.{
  ℕ, zero, suc, ◌+◌, ◌-◌, ◌^◌, Bool, true, false, List, [], ◌∷◌, ◌++◌, Option, none, some,
  if◌then◌else◌, ltb, Hashable, ◌==◌, nat_eq, Dict, get, set, has, length,
}
use router_sim.Base.Outcome.{Fault, key_error, index_error}
use router_sim.Base.Sorting.{sort_by}
use router_sim.Net.{Network, net_eq}
use router_sim.Isis.{
  LinkStatePdu, ExtendedIsReachability, ExtendedIpReachability, ConnectionState, is_tlvs, ip_tlvs,
  up, down,
}

-- The run ends with a value, or returns early as a neighbour's LSP is missing, or raises.
pub data Run (A : Type 0) : Type 0 where
  done : A → Run A
  unconverged : Run A
  fault : Fault → Run A
  out_of_fuel : Run A

infixl 5 ◌>>=◌
abbrev pub ◌>>=◌ : {A B : Type 0} → Run A → (A → Run B) → Run B
done a >>= f = f a
unconverged >>= f = unconverged
fault e >>= f = fault e
out_of_fuel >>= f = out_of_fuel

abbrev pub subscript : {A : Type 0} → Fault → Option A → Run A
subscript e none = fault e
subscript e (some a) = done a

-- `sys.maxsize`
unfoldable pub maxsize : ℕ
maxsize = 2 ^ 63 - 1

-- The database as this function reads it: the PDU under each LSP id.
abbrev pub Database : Type 0
Database = Dict ℕ LinkStatePdu

pub record State : Type 0 where
  pub distance : Dict Network ℕ
  pub prev : Dict Network ℕ
  pub system_distance : Dict ℕ ℕ
  pub prev_system : Dict ℕ (Option ℕ)

-- `database.values()`, sorted by the source address
unfoldable pub values : Database → List LinkStatePdu
values [] = []
values ((k, p) ∷ m) = p ∷ values m

abbrev pub source_of : LinkStatePdu → ℕ
source_of p = p.source_address

-- the first loop, which fills the queue too
unfoldable pub init_systems : List LinkStatePdu → State → List ℕ → State × List ℕ
init_systems [] s queue = (s, queue)
init_systems (p ∷ ps) s queue =
    init_systems ps
      (record s {
        system_distance = set s.system_distance p.source_address maxsize;
        prev_system = set s.prev_system p.source_address none;
      })
      (queue ++ p.source_address ∷ [])

abbrev pub blank : State
blank = record { distance = []; prev = []; system_distance = []; prev_system = [] }

-- The state and the queue before the first round, of the given LSPs.
unfoldable pub begin : ℕ → List LinkStatePdu → State × List ℕ
unfolding init_systems
begin self ps =
    let (s, queue) = init_systems ps blank [] in
    (record s { system_distance = set s.system_distance self 0 }, queue)

unfoldable pub start : ℕ → Database → State × List ℕ
unfolding begin values sort_by
start self db = begin self (sort_by source_of (values db))

-- `for i in range(len(queue))`: the index and distance of the first nearest system
unfoldable pub scan_min : Dict ℕ ℕ → List ℕ → ℕ → ℕ → ℕ → Run (ℕ × ℕ)
scan_min sd [] i min_idx min_dist = done (min_idx, min_dist)
scan_min sd (q ∷ qs) i min_idx min_dist = elim (get sd q) [
  | none ↦ fault key_error
  | some d ↦
      scan_min sd qs (i + 1) (if ltb d min_dist then i else min_idx)
        (if ltb d min_dist then d else min_dist)
]

-- `queue.pop(i)`
unfoldable pub pop_at : ℕ → List ℕ → Option (ℕ × List ℕ)
pop_at i [] = none
pop_at zero (q ∷ qs) = some (q, qs)
pop_at (suc i) (q ∷ qs) = elim (pop_at i qs) [ none ↦ none | some (n, r) ↦ some (n, q ∷ r) ]

-- the body of `for neigh in neighbors`, `source` being the LSP's source address
unfoldable pub relax : ℕ → ℕ → ExtendedIsReachability → State → Run State
relax node source n s = elim (has s.system_distance n.system_id) [
  | false ↦ unconverged
  | true ↦ do
    d ← subscript key_error (get s.system_distance node)
    old ← subscript key_error (get s.system_distance n.system_id)
    done (
        if ltb (d + n.metric) old
        then record s {
          system_distance = set s.system_distance n.system_id (d + n.metric);
          prev_system = set s.prev_system n.system_id (some source);
        }
        else s)
]

unfoldable pub relax_all : ℕ → ℕ → List ExtendedIsReachability → State → Run State
unfolding relax
relax_all node source [] s = done s
relax_all node source (n ∷ ns) s = relax node source n s >>= relax_all node source ns

-- whether a prefix's distance is to be written
abbrev pub improves : ℕ → Option ℕ → Bool
improves d none = true
improves d (some old) = ltb d old

abbrev pub offer : ℕ → ℕ → Network → State → State
offer source d p s =
    if improves d (get s.distance p)
    then record s { distance = set s.distance p d; prev = set s.prev p source }
    else s

-- the body of `for network in lsp.addresses`
unfoldable pub reach_address : ℕ → ℕ → ExtendedIpReachability → State → Run State
reach_address node source a s = elim a.state [
  | down ↦ done s
  | up ↦ do
    d ← subscript key_error (get s.system_distance node)
    done (offer source (d + a.metric) a.prefix s)
]

unfoldable pub reach_addresses : ℕ → ℕ → List ExtendedIpReachability → State → Run State
unfolding reach_address
reach_addresses node source [] s = done s
reach_addresses node source (a ∷ ns) s =
    reach_address node source a s >>= reach_addresses node source ns

-- What a round does once it has taken `node` from the queue.
unfoldable pub settle : Database → ℕ → State → Run State
unfolding relax_all reach_addresses
settle db node s = do
  lsp ← subscript key_error (get db node)
  s' ← relax_all node lsp.source_address (is_tlvs lsp.tlvs) s
  reach_addresses node lsp.source_address (ip_tlvs lsp.tlvs) s'

-- the nearest system of the queue, and the queue without it
unfoldable pub take_nearest : State → List ℕ → Run (ℕ × List ℕ)
unfolding scan_min pop_at
take_nearest s queue = do
  (i, d) ← scan_min s.system_distance queue 0 0 maxsize
  subscript index_error (pop_at i queue)

-- `while len(queue) > 0`: each round takes one system from the queue, so its length is enough fuel
unfoldable pub loop : Database → ℕ → State → List ℕ → Run State
unfolding take_nearest settle
loop db fuel s [] = done s
loop db zero s (q ∷ qs) = out_of_fuel
loop db (suc fuel) s (q ∷ qs) =
    take_nearest s (q ∷ qs) >>= λ t. settle db t.0 s >>= λ s'. loop db fuel s' t.1

unfoldable pub shortest_paths : ℕ → Database → Run State
unfolding loop start
shortest_paths self db = let (s, queue) = start self db in loop db (length queue) s queue
