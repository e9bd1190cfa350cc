-- ===== src/Topology.antt =====
-- routersim/topology.py: routers are added and linked, and get addresses from two networks. Names of routers
-- and of ports are numbers; `et1` and `lo` are the ports that every router has.
pub mod Assigned
use router_sim.Base.{
  ℕ, suc, ◌+◌, ◌*◌, Bool, true, false, not, ◌&&◌, List, [], ◌∷◌, Option, none, some, if◌then◌else◌,
  ltb, ◌==◌, nat_eq, Dict, get, set,
}
use router_sim.Base.Outcome.{Outcome, ok, or_raise, ◌>>=◌, key_error, attribute_error, raised}
use router_sim.Net.{Network, first_host, host_count}

-- What linking asks of a physical interface.
pub record Port : Type 0 where
  pub is_loopback : Bool
  pub is_linked : Bool

-- The topology: how much is taken of the two iterators, each router's ports in their order, and the
-- addresses that were given to interfaces, the last one first.
pub record Topology : Type 0 where
  pub loopback_network : Network
  pub loopbacks : ℕ
  pub pairs : ℕ
  pub routers : Dict ℕ (Dict ℕ Port)
  pub assigned : List ℕ

-- `next(self._loopback_iter)`
unfoldable pub next_loopback : Topology → Option ℕ
next_loopback t =
    if ltb t.loopbacks (host_count t.loopback_network)
    then some (first_host t.loopback_network + t.loopbacks)
    else none

-- 100.65.0.0, and how many networks of two addresses 100.65.0.0/16 has
abbrev pub point_to_point : ℕ
point_to_point = 1681981440

abbrev pub pair_count : ℕ
pair_count = 32768

-- `next(self._p2p_iter)`: the first address of the next of these networks, whose other one comes after it
unfoldable pub next_pair : Topology → Option ℕ
next_pair t = if ltb t.pairs pair_count then some (point_to_point + 2 * t.pairs) else none

-- the first port that is not linked and no loopback
unfoldable pub first_free : Dict ℕ Port → Option ℕ
first_free [] = none
first_free ((i, p) ∷ m) =
    let rest = first_free m in if not p.is_linked && not p.is_loopback then some i else rest

-- A port is linked, of a router that there is.
unfoldable pub mark : ℕ → ℕ → Dict ℕ (Dict ℕ Port) → Dict ℕ (Dict ℕ Port)
mark r i systems = elim (get systems r) [
  | none ↦ systems
  | some ports ↦ elim (get ports i) [
    | none ↦ systems
    | some p ↦ set systems r (set ports i (record p { is_linked = true }))
  ]
]

-- `link_router_pair`
unfoldable pub link_router_pair : ℕ → ℕ → Topology → Outcome Topology
unfolding next_pair first_free mark
link_router_pair r1 r2 t = do
  host1 ← or_raise raised (next_pair t)
  ports1 ← or_raise key_error (get t.routers r1)
  ports2 ← or_raise key_error (get t.routers r2)
  i1 ← or_raise attribute_error (first_free ports1)
  i2 ← or_raise attribute_error (first_free ports2)
  ok (record t {
    pairs = t.pairs + 1;
    routers = mark r2 i2 (mark r1 i1 t.routers);
    assigned = suc host1 ∷ host1 ∷ t.assigned;
  })

-- `is_lo` says which names have "lo" in them.
module _ (et1 lo : ℕ) (is_lo : ℕ → Bool) where
  -- `add_physical_interface`, for each name
  unfoldable pub add_ports : List ℕ → Dict ℕ Port → Dict ℕ Port
  add_ports [] ports = ports
  add_ports (i ∷ is) ports =
      add_ports is (set ports i (record { is_loopback = is_lo i; is_linked = false }))

  -- `add_router`
  unfoldable pub add_router : ℕ → List ℕ → Topology → Outcome Topology
  unfolding next_loopback add_ports
  add_router name interfaces t = do
    loopback ← or_raise raised (next_loopback t)
    ok (record t {
      loopbacks = t.loopbacks + 1;
      routers = set t.routers name (add_ports (et1 ∷ lo ∷ interfaces) []);
      assigned = loopback ∷ t.assigned;
    })

-- A new topology.
abbrev pub new_topology : Network → Topology
new_topology n = record {
  loopback_network = n;
  loopbacks = 0;
  pairs = 0;
  routers = [];
  assigned = [];
}
