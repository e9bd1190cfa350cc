-- ===== src/Tests/Update.antt =====
-- routersim/isis/process.py: a newer LSP comes in from a neighbour that is up.
use router_sim.Base.{
  ℕ, ◌≡◌, ◌≢◌, refl, Bool, true, [], ◌∷◌, none, Dict, get, set, delete, has, nat_eq, arith,
}
use router_sim.Base.Outcome.{ok, err, Fault, name_error}
use router_sim.Isis.{LinkStatePdu, adjacent, is_tlvs, ConnectionState}
use router_sim.Isis.Update.{
  Process, Receiver, Interface, Neighbor, lsp_added, process_lsp, any_adjacent, set_ssn, clear_srm,
}
use router_sim.Isis.Update.Flags.{IsExclusive, process_lsp-IsExclusive}
use router_sim.Isis.Sync.{send_partial_snps}
use router_sim.Isis.Sync.Asked.{IsClear, IsAsked}
use router_sim.Isis.Sync.Cleared.{IsLost, send_partial_snps-IsClear}
use router_sim.Base.{In, ◌⊎◌}
use router_sim.Base.Sorting.{sort_by}
use router_sim.Isis.Update.Sequence.{Newest, process_lsp-Newest}

abbrev lsp : ℕ → ℕ → LinkStatePdu
lsp i n = record { source_address = i; lsp_id = i; seq_no = n; tlvs = [] }

abbrev peer : Dict ℕ Neighbor
peer = (2, record { state = adjacent; address = none; iface_address = none }) ∷ []

abbrev ethernet : Bool → ℕ → ℕ → Interface
ethernet on a n = record {
  active = on;
  point_to_point = true;
  metric = 10;
  is_up = true;
  state = ConnectionState.up;
  ip = a;
  network = record { network_address = n; prefixlen = 30 };
}

abbrev router : Process
router = record {
  system_id = 1;
  area_id = 49;
  hostname = 7;
  started = true;
  database = (2, record { pdu = lsp 2 1; srms = []; ssns = (5, true) ∷ [] }) ∷ [];
  interfaces = (4, ethernet true 17 16) ∷ (5, ethernet true 33 32) ∷ [];
  adjacencies = (4, peer) ∷ (5, []) ∷ [];
  neighbors = (2, 4) ∷ [];
  spf_runs = 0;
  csnps = [];
  events = [];
}

abbrev receiver : Receiver
receiver = record { name = 4; network = record { network_address = 16; prefixlen = 30 } }

abbrev updated : Process
updated = record router {
  database = (2, record { pdu = lsp 2 7; srms = (5, true) ∷ []; ssns = (4, true) ∷ [] }) ∷ [];
  spf_runs = 1;
  events = lsp_added 2 7 ∷ [];
}

process_runs : process_lsp receiver (lsp 2 7) router ≡ ok updated
unfolding process_lsp get set delete is_tlvs set_ssn clear_srm
process_runs = refl

process-IsExclusive : IsExclusive router
unfolding get has
process-IsExclusive k w g i = ground (arith, g)

process_lsp-IsExclusive_example : IsExclusive updated
process_lsp-IsExclusive_example =
    process_lsp-IsExclusive receiver (lsp 2 7) router updated process-IsExclusive process_runs

process_lsp-Newest_example :
    Newest (lsp 2 7) (get router.database 2) (get updated.database 2)
    × ((k : ℕ) → k ≢ 2 → get updated.database k ≡ get router.database k)
unfolding get any_adjacent
process_lsp-Newest_example =
    process_lsp-Newest receiver (lsp 2 7) router updated process_runs peer refl refl

-- The neighbour is asked for the LSP, and the flag for that is cleared.
abbrev quiet : Process
quiet = record updated {
  database = (2, record { pdu = lsp 2 7; srms = (5, true) ∷ []; ssns = [] }) ∷ [];
}

-- The interface is up, so the request raises, with the flag cleared.
send_partial_snps_runs : send_partial_snps updated ≡ (quiet, err name_error)
unfolding send_partial_snps has any_adjacent get delete sort_by
send_partial_snps_runs = refl

send_partial_snps-IsClear_example :
    (((send_partial_snps updated).1 ≡ ok tt)
      × ((i : ℕ) (ns : Dict ℕ Neighbor)
          → In (i, ns) updated.adjacencies
          → any_adjacent ns ≡ true
          → IsClear i (send_partial_snps updated).0.database))
    ⊎ ((i : ℕ) × (ns : Dict ℕ Neighbor) × In (i, ns) updated.adjacencies
        × (any_adjacent ns ≡ true)
        × IsAsked i updated.database
        × IsLost i updated
        × IsClear i (send_partial_snps updated).0.database
        × (e : Fault) × ((send_partial_snps updated).1 ≡ err e))
send_partial_snps-IsClear_example = send_partial_snps-IsClear updated
