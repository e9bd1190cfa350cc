-- ===== src/Isis/Update/Flags.antt =====
-- The flags of LSPs in routersim/isis/process.py.
use router_sim.Base.{
  ℕ, ◌≡◌, refl, sym, ap, ◌∙◌, true, false, ◌&&◌, List, [], ◌∷◌, Option, none, some, ltb, ◌==◌,
  nat_eq, Dict, get, set, has, has-set, has-delete, get-set, beq_refl, arith, Option-cases,
  Bool-cases, inl, inr, subst,
}
use router_sim.Base.Outcome.{ok, or_raise, >>=-eq-ok, ok-injective, key_error}
use router_sim.Isis.{LinkStatePdu, is_tlvs}
use router_sim.Isis.Update.{
  Wrapper, Process, Receiver, Interface, wrap, set_srm, clear_srm, set_ssn, clear_ssn,
  flag_interfaces, adopt, install, store, compare_lsp, process_lsp, process_entry, process_snp,
  enable_interface, any_adjacent, learn_address, put_address, find_address,
}

-- No interface is both to send an LSP and to ask for it.
abbrev pub IsSingle : Wrapper → Type 0
IsSingle w = (i : ℕ) → (has w.srms i && has w.ssns i) ≡ false

abbrev pub IsExclusive : Process → Type 0
IsExclusive s = (k : ℕ) (w : Wrapper) → get s.database k ≡ some w → IsSingle w

wrap-IsSingle : (p : LinkStatePdu) → IsSingle (wrap p)
unfolding wrap has
wrap-IsSingle p i = refl

clear_srm-IsSingle : (r : ℕ) (w : Wrapper) → IsSingle w → IsSingle (clear_srm r w)
unfolding clear_srm
clear_srm-IsSingle r w h i = ground (arith, has-delete w.srms r i, h i)

ask-IsSingle : (r : ℕ) (w : Wrapper) → IsSingle w → IsSingle (clear_srm r (set_ssn r w))
unfolding clear_srm set_ssn
ask-IsSingle r w h i = ground (arith, has-delete w.srms r i, has-set w.ssns r i true, h i)

acknowledge-IsSingle : (r : ℕ) (w : Wrapper) → IsSingle w → IsSingle (set_ssn r (clear_srm r w))
unfolding clear_srm set_ssn
acknowledge-IsSingle r w h i = ground (arith, has-delete w.srms r i, has-set w.ssns r i true, h i)

send-IsSingle : (r : ℕ) (w : Wrapper) → IsSingle w → IsSingle (clear_ssn r (set_srm r w))
unfolding clear_ssn set_srm
send-IsSingle r w h i = ground (arith, has-set w.srms r i true, has-delete w.ssns r i, h i)

-- Flagging the interfaces asks for nothing.
abbrev IsUnasked : Wrapper → Type 0
IsUnasked w = (i : ℕ) → has w.ssns i ≡ false

flag_interfaces-IsUnasked :
    (m : Dict ℕ Interface) (recv : ℕ) (w : Wrapper)
    → IsUnasked w
    → IsUnasked (flag_interfaces m recv w)
unfolding flag_interfaces set_srm clear_ssn
flag_interfaces-IsUnasked [] recv w h = h
flag_interfaces-IsUnasked ((j, x) ∷ m) recv w h = elim (Bool-cases x.active) [
  | inr off ↦ rw (flag_interfaces, off) (flag_interfaces-IsUnasked m recv w h)
  | inl on ↦ elim (Bool-cases (j == recv)) [
    | inl here ↦ rw (flag_interfaces, on, here) (flag_interfaces-IsUnasked m recv (set_srm j w) h)
    | inr away ↦
        rw (flag_interfaces, on, away)
          (flag_interfaces-IsUnasked m recv (clear_ssn j (set_srm j w))
            (λ i. ground (arith, has-delete w.ssns j i, h i)))
  ]
]

adopt-IsSingle : (s : Process) (recv : ℕ) (p : LinkStatePdu) → IsSingle (adopt s recv p)
unfolding adopt wrap has
adopt-IsSingle s recv p =
    acknowledge-IsSingle recv (flag_interfaces s.interfaces recv (wrap p))
      (λ i. ground (arith, flag_interfaces-IsUnasked s.interfaces recv (wrap p) (λ j. refl) i))

put-IsExclusive :
    (k : ℕ) (w : Wrapper) (m : Dict ℕ Wrapper)
    → ((j : ℕ) (v : Wrapper) → get m j ≡ some v → IsSingle v)
    → IsSingle w
    → (j : ℕ) (v : Wrapper) → get (set m k w) j ≡ some v
    → IsSingle v
put-IsExclusive k w m h e j v g = elim (Bool-cases (k == j)) [
  | inl here ↦ let same : w ≡ v = ground (arith, get-set m k j w, g, here) in subst IsSingle same e
  | inr away ↦ h j v (ground (arith, get-set m k j w, g, away))
]

process_entry-IsExclusive :
    (recv k seq : ℕ) (s : Process) → IsExclusive s → IsExclusive (process_entry recv k seq s)
unfolding store process_entry
process_entry-IsExclusive recv k seq s h = elim (Option-cases (get s.database k)) [
  | inl missing ↦
      rw (process_entry, missing)
        (put-IsExclusive k _ s.database h (ask-IsSingle recv _ (wrap-IsSingle _)))
  | inr (w, old) ↦ elim (Bool-cases (w.pdu.seq_no == seq)) [
    | inl even ↦
        rw (process_entry, old, even)
          (put-IsExclusive k _ s.database h (clear_srm-IsSingle recv w (h k w old)))
    | inr odd ↦ elim (Bool-cases (ltb seq w.pdu.seq_no)) [
      | inl less ↦
          rw (process_entry, old, odd, less)
            (put-IsExclusive k _ s.database h (send-IsSingle recv w (h k w old)))
      | inr more ↦
          rw (process_entry, old, odd, more)
            (put-IsExclusive k _ s.database h (ask-IsSingle recv w (h k w old)))
    ]
  ]
]

compare_lsp-IsExclusive :
    (recv : ℕ) (p : LinkStatePdu) (s : Process) → IsExclusive s → IsExclusive (compare_lsp recv p s)
unfolding store install compare_lsp
compare_lsp-IsExclusive recv p s h = elim (Option-cases (get s.database p.lsp_id)) [
  | inl missing ↦
      rw (compare_lsp, missing) (put-IsExclusive _ _ s.database h (adopt-IsSingle s recv p))
  | inr (w, old) ↦ elim (Bool-cases (ltb w.pdu.seq_no p.seq_no)) [
    | inl less ↦
        rw (compare_lsp, old, less) (put-IsExclusive _ _ s.database h (adopt-IsSingle s recv p))
    | inr more ↦ elim (Bool-cases (w.pdu.seq_no == p.seq_no)) [
      | inl even ↦
          rw (compare_lsp, old, more, even)
            (put-IsExclusive _ _ s.database h (acknowledge-IsSingle recv w (h _ w old)))
      | inr odd ↦
          rw (compare_lsp, old, more, odd)
            (put-IsExclusive _ _ s.database h (send-IsSingle recv w (h _ w old)))
    ]
  ]
]

database-put_address :
    (i n : ℕ) (a : Option ℕ) (s : Process) → (put_address i n a s).database ≡ s.database
unfolding put_address
database-put_address i n a s = ground arith

pub database-learn_address :
    (recv : Receiver) (p : LinkStatePdu) (s s' : Process)
    → learn_address recv p s ≡ ok s'
    → s'.database ≡ s.database
unfolding learn_address
database-learn_address recv p s s' e = elim (Option-cases (get s.neighbors p.source_address)) [
  | inl stranger ↦ ap (λ t. t.database) (sym (ok-injective (rw (stranger, learn_address) at e)))
  | inr (i, there) ↦
      let (a, found, e₁) =
        >>=-eq-ok (find_address recv.network (is_tlvs p.tlvs) none) _
          (rw (there, learn_address) at e) in
      ap (λ t. t.database) (sym (ok-injective e₁)) ∙ database-put_address i p.source_address a s
]

-- A link state PDU leaves no interface with both flags of an LSP set, if none had them.
pub process_lsp-IsExclusive :
    (recv : Receiver) (p : LinkStatePdu) (s s' : Process)
    → IsExclusive s
    → process_lsp recv p s ≡ ok s'
    → IsExclusive s'
unfolding process_lsp
process_lsp-IsExclusive recv p s s' h e =
    let (ns, there, e₁) = >>=-eq-ok (or_raise key_error (get s.adjacencies recv.name)) _ e in
    elim (Bool-cases (any_adjacent ns)) [
      | inr idle ↦ subst IsExclusive (ok-injective (rw idle at e₁)) h
      | inl heard ↦
          let (t, learned, e₂) = >>=-eq-ok (learn_address recv p s) _ (rw heard at e₁) in
          let kept : IsExclusive t = rw (database-learn_address recv p s t learned) h in
          subst IsExclusive (ok-injective e₂) (compare_lsp-IsExclusive recv.name p t kept)
    ]

-- Nor does a sequence numbers PDU.
pub process_snp-IsExclusive :
    (recv : ℕ) (entries : List (ℕ × ℕ)) (s : Process)
    → IsExclusive s
    → IsExclusive (process_snp recv entries s)
unfolding process_snp
process_snp-IsExclusive recv [] s h = h
process_snp-IsExclusive recv ((k, seq) ∷ es) s h =
    process_snp-IsExclusive recv es (process_entry recv k seq s)
      (process_entry-IsExclusive recv k seq s h)

-- An interface that was just enabled has no neighbour that is up, so an LSP from there changes nothing.
pub process_lsp-enable_interface :
    (recv : Receiver) (x : Interface) (p : LinkStatePdu) (s : Process)
    → process_lsp recv p (enable_interface recv.name x s) ≡ ok (enable_interface recv.name x s)
unfolding process_lsp enable_interface
process_lsp-enable_interface recv x p s = rw (get-set, beq_refl recv.name) refl
