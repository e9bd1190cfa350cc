-- ===== src/Isis/Sync.antt =====
-- routersim/isis/process.py, the database's exchange: `__send_complete_snp`, `__send_partial_snps` and
-- `__send_lsps`. The sends end as `send_clns` of routersim/interface.py does.
pub mod Asked
pub mod Cleared
use router_sim.Base.{
  ℕ, Bool, true, false, ◌&&◌, List, [], ◌∷◌, ◌++◌, Option, none, some, if◌then◌else◌, ◌==◌, nat_eq,
  Dict, get, has,
}
use router_sim.Base.Outcome.{Ended, ok, err, or_raise, ◌>>=◌, key_error}
use router_sim.Base.Sorting.{sort_by}
use router_sim.Isis.{LinkStatePdu}
use router_sim.Isis.Adjacency.{send_clns}
use router_sim.Isis.Update.{Wrapper, Neighbor, Interface, Process, clear_ssn, any_adjacent}

-- the entry of an LSP: its id and its number
abbrev pub entry : Wrapper → ℕ × ℕ
entry w = (w.pdu.lsp_id, w.pdu.seq_no)

abbrev pub by_id : ℕ × ℕ → ℕ
by_id e = e.0

-- `append` and `sort`
unfoldable pub add_entry : List (ℕ × ℕ) → Wrapper → List (ℕ × ℕ)
add_entry es w = sort_by by_id (es ++ entry w ∷ [])

unfoldable pub all_entries : Dict ℕ Wrapper → List (ℕ × ℕ) → List (ℕ × ℕ)
unfolding add_entry
all_entries [] es = es
all_entries ((k, w) ∷ m) es = all_entries m (add_entry es w)

abbrev pub is_for : Option ℕ → ℕ → Bool
is_for none i = true
is_for (some j) i = i == j

-- the interfaces that the complete sequence numbers are for
unfoldable pub send_to_active : Option ℕ → Dict ℕ Interface → List (ℕ × ℕ) → Ended
unfolding send_clns
send_to_active name [] es = ok tt
send_to_active name ((i, x) ∷ m) es =
    let rest = send_to_active name m es in
    if is_for name i && (x.active && x.is_up) then (send_clns es >>= λ u. rest) else rest

-- `__send_complete_snp`, on one interface or on all
unfoldable pub send_complete_snp : Option ℕ → Process → Ended
unfolding all_entries send_to_active
send_complete_snp name s = send_to_active name s.interfaces (all_entries s.database [])

-- `candidateids`: the LSPs that are to be asked for on an interface
unfoldable pub asked : ℕ → Dict ℕ Wrapper → List (ℕ × ℕ) → List (ℕ × ℕ)
unfolding add_entry
asked i [] es = es
asked i ((k, w) ∷ m) es = asked i m (if has w.ssns i then add_entry es w else es)

-- they are no longer to be asked for
unfoldable pub clear_asked : ℕ → Dict ℕ Wrapper → Dict ℕ Wrapper
unfolding clear_ssn
clear_asked i [] = []
clear_asked i ((k, w) ∷ m) = (k, if has w.ssns i then clear_ssn i w else w) ∷ clear_asked i m

-- the body of the loop: the flags are cleared before the interface is looked up
unfoldable pub send_partial : ℕ → Process → Process × Ended
unfolding asked clear_asked send_clns
send_partial i s = elim (asked i s.database []) [
  | [] ↦ (s, ok tt)
  | e ∷ es ↦ (
    record s { database = clear_asked i s.database },
    or_raise key_error (get s.interfaces i) >>= λ x. if x.is_up then send_clns (e ∷ es) else ok tt,
  )
]

-- `for ifacename in self.adjacencies`
unfoldable pub send_partials : Dict ℕ (Dict ℕ Neighbor) → Process → Process × Ended
unfolding send_partial any_adjacent
send_partials [] s = (s, ok tt)
send_partials ((i, ns) ∷ m) s =
    let first = if any_adjacent ns then send_partial i s else (s, ok tt) in
    let rest = send_partials m first.0 in elim first.1 [ ok u ↦ rest | err e ↦ (first.0, err e) ]

-- `__send_partial_snps`
unfoldable pub send_partial_snps : Process → Process × Ended
unfolding send_partials
send_partial_snps s = send_partials s.adjacencies s

-- `for ifacename in lsp.srms`
unfoldable pub send_on : Process → LinkStatePdu → Dict ℕ Bool → Ended
unfolding any_adjacent send_clns
send_on s p [] = ok tt
send_on s p ((i, on) ∷ m) = do
  ns ← or_raise key_error (get s.adjacencies i)
  u ←
      if any_adjacent ns
      then (or_raise key_error (get s.interfaces i) >>= λ x. if x.is_up then send_clns p else ok tt)
      else ok tt
  send_on s p m

-- `__send_lsps`
unfoldable pub send_lsps : Process → Dict ℕ Wrapper → Ended
unfolding send_on
send_lsps s [] = ok tt
send_lsps s ((k, w) ∷ m) = do u ← send_on s w.pdu w.srms; send_lsps s m
