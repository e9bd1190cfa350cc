-- ===== src/Isis/Local.antt =====
-- routersim/isis/process.py, `__refresh_local`: the process's own LSP follows its interfaces and
-- adjacencies. Each interface has an IPv4 address.
pub mod Kept
pub mod Reachability
pub mod Prefixes
pub mod Advertised
pub mod Unannounced
use router_sim.Base.{
  ℕ, zero, suc, ◌+◌, Bool, true, false, ◌||◌, not, List, [], ◌∷◌, ◌++◌, Option, none, some,
  if◌then◌else◌, ltb, ◌==◌, nat_eq, Dict, get, set,
}
use router_sim.Base.Outcome.{Outcome, ok, err, or_raise, ◌>>=◌, key_error}
use router_sim.Net.{Network, net_eq, first_host, host_count}
use router_sim.Isis.{
  ConnectionState, NeighborState, down, Tlv, is_reachability, ip_reachability, dynamic_hostname,
  te_router, interface_address, neighbor_address, LinkStatePdu, SubTlv, remove_neighbor,
}
use router_sim.Isis.Update.{
  Wrapper, wrap, set_srm, Neighbor, Interface, Process, IsisEvent, adj_change,
}

-- the name `lo.0`
abbrev pub loopback : ℕ
loopback = 0

-- The variables of `__refresh_local`: the LSP's TLVs, `changed`, `up_interfaces` and observed events.
pub record Refresh : Type 0 where
  pub tlvs : List Tlv
  pub changed : Bool
  pub up_interfaces : List ℕ
  pub events : List IsisEvent

abbrev pub is_down : NeighborState → Bool
is_down down = true
is_down _ = false

abbrev pub state_eq : ConnectionState → ConnectionState → Bool
state_eq ConnectionState.up ConnectionState.up = true
state_eq ConnectionState.down ConnectionState.down = true
state_eq _ _ = false

-- the loop over `lsp.neighbors`: whether the system is found, and whether its metric changed
unfoldable pub update_neighbor : ℕ → ℕ → List Tlv → List Tlv × (Bool × Bool)
update_neighbor i m [] = ([], (false, false))
update_neighbor i m (is_reachability r ∷ ts) =
    let rest = update_neighbor i m ts in
    if r.system_id == i
    then (
      is_reachability (record r { metric = m }) ∷ rest.0,
      (true, not (r.metric == m) || rest.1.1),
    )
    else (is_reachability r ∷ rest.0, rest.1)
update_neighbor i m (t ∷ ts) = let rest = update_neighbor i m ts in (t ∷ rest.0, rest.1)

-- the loop over `lsp.addresses`
unfoldable pub update_prefix : Network → ℕ → ConnectionState → List Tlv → List Tlv × (Bool × Bool)
update_prefix n m c [] = ([], (false, false))
update_prefix n m c (ip_reachability r ∷ ts) =
    let rest = update_prefix n m c ts in
    if r.prefix == n
    then (
      ip_reachability (record r { metric = m; state = c }) ∷ rest.0,
      (true, not (r.metric == m) || (not (state_eq r.state c) || rest.1.1)),
    )
    else (ip_reachability r ∷ rest.0, rest.1)
update_prefix n m c (t ∷ ts) = let rest = update_prefix n m c ts in (t ∷ rest.0, rest.1)

-- `for ip in net.hosts()`: the first address that is not the interface's own, and whether the own one
-- came before it, which sets `changed`
unfoldable pub other_host : ℕ → ℕ → ℕ → Option ℕ × Bool
other_host zero a own = (none, false)
other_host (suc k) a own =
    let rest = other_host k (suc a) own in if a == own then (rest.0, true) else (some a, false)

unfoldable pub other_address : Option ℕ → List SubTlv
other_address none = []
other_address (some a) = neighbor_address a ∷ []

-- a neighbour of an interface that is not up goes down
unfoldable pub mark_down : ℕ → Interface → ℕ → Neighbor → Refresh → Neighbor × Refresh
mark_down i x k n r =
    if x.is_up
    then (n, record r { up_interfaces = r.up_interfaces ++ i ∷ [] })
    else (if is_down n.state
        then (n, r)
        else (record n { state = down }, record r { events = r.events ++ adj_change k down ∷ [] }))

unfoldable pub withdraw : ℕ → Refresh → Refresh
withdraw k r =
    let rest = remove_neighbor k r.tlvs in record r { tlvs = rest.0; changed = r.changed || rest.1 }

unfoldable pub advertise : Interface → ℕ → Refresh → Refresh
unfolding update_neighbor other_host other_address
advertise x k r =
    let seen = update_neighbor k x.metric r.tlvs in
    let other = other_host (host_count x.network) (first_host x.network) x.ip in
    if seen.1.0 then record r { tlvs = seen.0; changed = r.changed || seen.1.1 } else record r {
      tlvs =
          r.tlvs
          ++ is_reachability (record {
            system_id = k;
            metric = x.metric;
            tlvs = interface_address x.ip x.state ∷ other_address other.0;
          })
            ∷ [];
      changed = r.changed || other.1;
    }

-- the loop over the neighbours of an interface
unfoldable pub refresh_neighbor : ℕ → Interface → ℕ → Neighbor → Refresh → Neighbor × Refresh
unfolding mark_down withdraw advertise
refresh_neighbor i x k n r =
    let marked = mark_down i x k n r in
    (marked.0, if is_down marked.0.state then withdraw k marked.1 else advertise x k marked.1)

unfoldable pub refresh_neighbors :
    ℕ → Interface → Dict ℕ Neighbor → Refresh → Dict ℕ Neighbor × Refresh
unfolding refresh_neighbor
refresh_neighbors i x [] r = ([], r)
refresh_neighbors i x ((k, n) ∷ ns) r =
    let first = refresh_neighbor i x k n r in
    let rest = refresh_neighbors i x ns first.1 in ((k, first.0) ∷ rest.0, rest.1)

-- the interface's own network; a new one does not set `changed`
unfoldable pub advertise_prefix : Interface → Refresh → Refresh
unfolding update_prefix
advertise_prefix x r =
    let seen = update_prefix x.network x.metric x.state r.tlvs in
    if seen.1.0 then record r { tlvs = seen.0; changed = r.changed || seen.1.1 } else record r {
      tlvs =
          r.tlvs
          ++ ip_reachability (record { prefix = x.network; metric = x.metric; state = x.state })
            ∷ [];
    }

-- `for ifacename in self.interfaces`
unfoldable pub refresh_interfaces :
    Dict ℕ Interface
    → Dict ℕ (Dict ℕ Neighbor)
    → Refresh
    → Outcome (Dict ℕ (Dict ℕ Neighbor) × Refresh)
unfolding refresh_neighbors advertise_prefix
refresh_interfaces [] adjacencies r = ok (adjacencies, r)
refresh_interfaces ((i, x) ∷ m) adjacencies r = do
  ns ← or_raise key_error (get adjacencies i)
  refresh_interfaces m (set adjacencies i (refresh_neighbors i x ns r).0)
      (advertise_prefix x (refresh_neighbors i x ns r).1)

-- the process's first LSP, with its name and its loopback address
unfoldable pub first_wrapper : Process → Interface → Wrapper
unfolding wrap
first_wrapper s lo = wrap (record {
  source_address = s.system_id;
  lsp_id = s.system_id;
  seq_no = 1;
  tlvs = dynamic_hostname s.hostname ∷ te_router lo.ip ∷ [];
})

-- the process's LSP
unfoldable pub local_wrapper : Process → Outcome Wrapper
unfolding first_wrapper
local_wrapper s = elim (get s.database s.system_id) [
  | some w ↦ ok w
  | none ↦ do lo ← or_raise key_error (get s.interfaces loopback); ok (first_wrapper s lo)
]

unfoldable pub set_srms : List ℕ → Wrapper → Wrapper
unfolding set_srm
set_srms [] w = w
set_srms (i ∷ is) w = set_srms is (set_srm i w)

-- the end: a changed LSP gets a new number and is to be sent
unfoldable pub announce : Wrapper → Dict ℕ (Dict ℕ Neighbor) → Refresh → Process → Process
unfolding set_srms
announce w adjacencies r s =
    let p = record w.pdu { tlvs = r.tlvs } in
    let next = record w { pdu = record p { seq_no = p.seq_no + 1 } } in
    record s {
      database =
          set s.database s.system_id
            (if r.changed then set_srms r.up_interfaces next else record w { pdu = p });
      adjacencies = adjacencies;
      spf_runs = if r.changed then s.spf_runs + 1 else s.spf_runs;
      events = r.events;
    }

-- `__refresh_local`, which does nothing before the process has started
unfoldable pub refresh_local : Process → Outcome Process
unfolding local_wrapper refresh_interfaces announce
refresh_local s =
    if s.started
    then (local_wrapper s >>= λ w.
        refresh_interfaces s.interfaces s.adjacencies
          (record { tlvs = w.pdu.tlvs; changed = false; up_interfaces = []; events = s.events })
        >>= λ y. ok (announce w y.0 y.1 s))
    else ok s
