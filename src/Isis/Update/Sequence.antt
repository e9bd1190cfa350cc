-- ===== src/Isis/Update/Sequence.antt =====
-- Which LSP `process_lsp` and `process_snp` of routersim/isis/process.py keep.
use router_sim.Base.{
  ℕ, ◌≤◌, ◌≡◌, ◌≢◌, refl, sym, ◌∙◌, ap, true, [], ◌∷◌, Option, none, some, ltb, ◌==◌, nat_eq, Dict,
  get, set, get-set, beq_refl, arith, Option-cases, Bool-cases, inl, inr, ◌⊎◌, subst,
}
use router_sim.Base.Outcome.{ok, >>=-eq-ok, ok-injective}
use router_sim.Isis.{LinkStatePdu}
use router_sim.Isis.Update.{
  Wrapper, Process, Receiver, Neighbor, Interface, wrap, set_srm, clear_srm, set_ssn, clear_ssn,
  flag_interfaces, adopt, install, store, compare_lsp, process_lsp, any_adjacent, learn_address,
}
use router_sim.Isis.Update.Flags.{database-learn_address}

pdu-flag_interfaces :
    (m : Dict ℕ Interface) (recv : ℕ) (w : Wrapper) → (flag_interfaces m recv w).pdu ≡ w.pdu
unfolding flag_interfaces set_srm clear_ssn
pdu-flag_interfaces [] recv w = refl
pdu-flag_interfaces ((j, x) ∷ m) recv w = elim (Bool-cases x.active) [
  | inr off ↦ rw (flag_interfaces, off) (pdu-flag_interfaces m recv w)
  | inl on ↦ elim (Bool-cases (j == recv)) [
    | inl here ↦ rw (flag_interfaces, on, here) (pdu-flag_interfaces m recv (set_srm j w))
    | inr away ↦
        rw (flag_interfaces, on, away) (pdu-flag_interfaces m recv (clear_ssn j (set_srm j w)))
  ]
]

pdu-adopt : (s : Process) (recv : ℕ) (p : LinkStatePdu) → (adopt s recv p).pdu ≡ p
unfolding adopt wrap set_ssn clear_srm
pdu-adopt s recv p = pdu-flag_interfaces s.interfaces recv (wrap p)

-- The newer of a PDU and of what the database had: it is one of them, and no older than either.
abbrev pub Newest : LinkStatePdu → Option Wrapper → Option Wrapper → Type 0
Newest p before none = ⊥
Newest p none (some w) = w.pdu ≡ p
Newest p (some old) (some w) =
    (p.seq_no ≤ w.pdu.seq_no) × (old.pdu.seq_no ≤ w.pdu.seq_no) × ((w.pdu ≡ p) ⊎ (w.pdu ≡ old.pdu))

compare_lsp-Newest :
    (recv : ℕ) (p : LinkStatePdu) (s : Process)
    → (w : Wrapper) × ((compare_lsp recv p s).database ≡ set s.database p.lsp_id w)
      × Newest p (get s.database p.lsp_id) (some w)
unfolding compare_lsp install store set_ssn clear_srm clear_ssn set_srm
compare_lsp-Newest recv p s = elim (Option-cases (get s.database p.lsp_id)) [
  | inl missing ↦ (adopt s recv p, rw (compare_lsp, missing) refl, rw missing (pdu-adopt s recv p))
  | inr (w, old) ↦ elim (Bool-cases (ltb w.pdu.seq_no p.seq_no)) [
    | inl less ↦ (
      adopt s recv p,
      rw (compare_lsp, old, less) refl,
      rw old (rw (pdu-adopt s recv p) (omega arith, ground (arith, less), inl refl)),
    )
    | inr more ↦ elim (Bool-cases (w.pdu.seq_no == p.seq_no)) [
      | inl even ↦ (
        set_ssn recv (clear_srm recv w),
        rw (compare_lsp, old, more, even) refl,
        rw old (ground (arith, even), omega arith, inr refl),
      )
      | inr odd ↦ (
        clear_ssn recv (set_srm recv w),
        rw (compare_lsp, old, more, odd) refl,
        rw old (ground (arith, more), omega arith, inr refl),
      )
    ]
  ]
]

-- Once a link state PDU came in from an interface with a neighbour that is up, the database has the
-- newer of it and of what was there under its id, and the other ids are as they were.
pub process_lsp-Newest :
    (recv : Receiver) (p : LinkStatePdu) (s s' : Process)
    → process_lsp recv p s ≡ ok s'
    → (ns : Dict ℕ Neighbor) → get s.adjacencies recv.name ≡ some ns
    → any_adjacent ns ≡ true
    → Newest p (get s.database p.lsp_id) (get s'.database p.lsp_id)
      × ((k : ℕ) → k ≢ p.lsp_id → get s'.database k ≡ get s.database k)
unfolding process_lsp
process_lsp-Newest recv p s s' e ns there heard =
    let (t, learned, e₂) =
      >>=-eq-ok (learn_address recv p s) _ (rw (process_lsp, there, heard) at e) in
    let same = database-learn_address recv p s t learned in
    let result : compare_lsp recv.name p t ≡ s' = ok-injective e₂ in
    let (w, put, newest) = compare_lsp-Newest recv.name p t in
    let stored : s'.database ≡ set s.database p.lsp_id w =
      ap (λ x. x.database) (sym result) ∙ put ∙ ap (λ d. set d p.lsp_id w) same in
    (
      rw (stored, get-set, beq_refl p.lsp_id)
          (subst (λ d. Newest p (get d p.lsp_id) (some w)) same newest),
      λ k away. rw stored (ground (arith, get-set s.database p.lsp_id k w, away)),
    )
