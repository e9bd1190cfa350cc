-- ===== src/Isis/Update.antt =====
-- routersim/isis/process.py, the link state database: `process_lsp` and `process_snp`, with the
-- flags on which LSPs are to be sent or asked for. Interface names and system ids are numbers.
pub mod Sequence
pub mod Flags
use router_sim.Base.{
  ℕ, ◌+◌, Bool, true, false, ◌&&◌, not, List, [], ◌∷◌, ◌++◌, Option, none, some, if◌then◌else◌, ltb,
  Hashable, ◌==◌, nat_eq, Dict, get, set, delete, has,
}
use router_sim.Base.Outcome.{Outcome, ok, err, or_raise, ◌>>=◌, key_error, value_error}
use router_sim.Net.{Network, contains}
use router_sim.Isis.{
  ConnectionState, LinkStatePdu, ExtendedIsReachability, NeighborState, new, initializing, adjacent,
  down, local_ip, is_tlvs,
}

-- `LinkStatePacketWrapper`: an LSP with the interfaces that its SRM and SSN flags are set for
pub record Wrapper : Type 0 where
  pub pdu : LinkStatePdu
  pub srms : Dict ℕ Bool
  pub ssns : Dict ℕ Bool

unfoldable pub wrap : LinkStatePdu → Wrapper
wrap p = record { pdu = p; srms = []; ssns = [] }

unfoldable pub set_srm : ℕ → Wrapper → Wrapper
set_srm i w = record w { srms = set w.srms i true }

unfoldable pub clear_srm : ℕ → Wrapper → Wrapper
clear_srm i w = record w { srms = delete w.srms i }

unfoldable pub set_ssn : ℕ → Wrapper → Wrapper
set_ssn i w = record w { ssns = set w.ssns i true }

unfoldable pub clear_ssn : ℕ → Wrapper → Wrapper
clear_ssn i w = record w { ssns = delete w.ssns i }

-- `Neighbor`: its state, and the addresses that a hello and an LSP had. Its interface is the one under
-- which `adjacencies` has it.
pub record Neighbor : Type 0 where
  pub state : NeighborState
  pub address : Option ℕ
  pub iface_address : Option ℕ

-- An interface that IS-IS is enabled on, with what the code asks of the interface's object.
pub record Interface : Type 0 where
  pub active : Bool
  pub point_to_point : Bool
  pub metric : ℕ
  pub is_up : Bool
  pub state : ConnectionState
  pub ip : ℕ
  pub network : Network

-- `EventType.ISIS`: an LSP came into the database, an interface was enabled, active or not, and a
-- neighbour's state changed
pub data IsisEvent : Type 0 where
  lsp_added : (lsp_id seq_no : ℕ) → IsisEvent
  interface_add : ℕ → Bool → IsisEvent
  adj_change : ℕ → NeighborState → IsisEvent

-- The process: `neighbors` refers to the object that
-- `adjacencies` has for a system on an interface; `spf_runs` counts the runs put in the queue,
-- and `csnps` has the interfaces that complete sequence numbers are queued for.
pub record Process : Type 0 where
  pub system_id : ℕ
  pub area_id : ℕ
  pub hostname : ℕ
  pub started : Bool
  pub database : Dict ℕ Wrapper
  pub interfaces : Dict ℕ Interface
  pub adjacencies : Dict ℕ (Dict ℕ Neighbor)
  pub neighbors : Dict ℕ ℕ
  pub spf_runs : ℕ
  pub csnps : List ℕ
  pub events : List IsisEvent

-- The receiving interface: its name and its IPv4 network.
pub record Receiver : Type 0 where
  pub name : ℕ
  pub network : Network

abbrev pub is_adjacent : NeighborState → Bool
is_adjacent adjacent = true
is_adjacent _ = false

-- whether some neighbour of an interface is up
unfoldable pub any_adjacent : Dict ℕ Neighbor → Bool
any_adjacent [] = false
any_adjacent ((k, n) ∷ m) = if is_adjacent n.state then true else any_adjacent m

-- the loop over the reachability TLVs: the last local address inside the network counts
unfoldable pub find_address : Network → List ExtendedIsReachability → Option ℕ → Outcome (Option ℕ)
find_address net [] found = ok found
find_address net (r ∷ rs) found = do
  a ← or_raise value_error (local_ip r.tlvs)
  find_address net rs (if contains net a then some a else found)

unfoldable pub put_address : ℕ → ℕ → Option ℕ → Process → Process
put_address i n none s = s
put_address i n (some a) s = elim (get s.adjacencies i) [
  | none ↦ s
  | some ns ↦ elim (get ns n) [
    | none ↦ s
    | some x ↦ record s {
      adjacencies = set s.adjacencies i (set ns n (record x { iface_address = some a }));
    }
  ]
]

-- `neigh.iface_address = …`, if the PDU's source is a neighbour
unfoldable pub learn_address : Receiver → LinkStatePdu → Process → Outcome Process
unfolding find_address put_address
learn_address recv p s = elim (get s.neighbors p.source_address) [
  | none ↦ ok s
  | some i ↦ find_address recv.network (is_tlvs p.tlvs) none >>= λ found.
      ok (put_address i p.source_address found s)
]

-- `for ifacename in self.interfaces`: an active interface is to send the new LSP on
unfoldable pub flag_interfaces : Dict ℕ Interface → ℕ → Wrapper → Wrapper
unfolding set_srm clear_ssn
flag_interfaces [] recv w = w
flag_interfaces ((i, x) ∷ m) recv w =
    flag_interfaces m recv
      (if x.active then (if i == recv then set_srm i w else clear_ssn i (set_srm i w)) else w)

-- what becomes of the wrapper, by the sequence numbers
unfoldable pub adopt : Process → ℕ → LinkStatePdu → Wrapper
unfolding flag_interfaces wrap
adopt s recv p = set_ssn recv (clear_srm recv (flag_interfaces s.interfaces recv (wrap p)))

unfoldable pub install : ℕ → LinkStatePdu → Process → Process
unfolding adopt
install recv p s = record s {
  database = set s.database p.lsp_id (adopt s recv p);
  spf_runs = s.spf_runs + 1;
  events = s.events ++ lsp_added p.lsp_id p.seq_no ∷ [];
}

unfoldable pub store : ℕ → Wrapper → Process → Process
store k w s = record s { database = set s.database k w }

unfoldable pub compare_lsp : ℕ → LinkStatePdu → Process → Process
unfolding install store
compare_lsp recv p s = elim (get s.database p.lsp_id) [
  | none ↦ install recv p s
  | some w ↦
      if ltb w.pdu.seq_no p.seq_no
      then install recv p s
      else (if w.pdu.seq_no == p.seq_no
          then store p.lsp_id (set_ssn recv (clear_srm recv w)) s
          else store p.lsp_id (clear_ssn recv (set_srm recv w)) s)
]

-- `process_lsp`: without a neighbour that is up on the interface the PDU is ignored
unfoldable pub process_lsp : Receiver → LinkStatePdu → Process → Outcome Process
unfolding any_adjacent learn_address compare_lsp
process_lsp recv p s = do
  ns ← or_raise key_error (get s.adjacencies recv.name)
  if any_adjacent ns
      then (learn_address recv p s >>= λ s'. ok (compare_lsp recv.name p s'))
      else ok s

-- one entry, an LSP id with a sequence number, of `process_snp`
unfoldable pub process_entry : ℕ → ℕ → ℕ → Process → Process
process_entry recv k seq s = elim (get s.database k) [
  | none ↦
      store k
        (clear_srm recv
          (set_ssn recv (wrap (record { source_address = k; lsp_id = k; seq_no = 0; tlvs = [] }))))
        s
  | some w ↦
      if w.pdu.seq_no == seq
      then store k (clear_srm recv w) s
      else (if ltb seq w.pdu.seq_no
          then store k (clear_ssn recv (set_srm recv w)) s
          else store k (clear_srm recv (set_ssn recv w)) s)
]

unfoldable pub process_snp : ℕ → List (ℕ × ℕ) → Process → Process
unfolding process_entry
process_snp recv [] s = s
process_snp recv ((k, seq) ∷ es) s = process_snp recv es (process_entry recv k seq s)

-- `enable_interface`: there are no adjacencies on it
unfoldable pub enable_interface : ℕ → Interface → Process → Process
enable_interface name x s = record s {
  interfaces = set s.interfaces name x;
  adjacencies = set s.adjacencies name [];
  events = s.events ++ interface_add name x.active ∷ [];
}
