-- ===== src/Isis/Local/Advertised.antt =====
-- What the LSP that `__refresh_local` of routersim/isis/process.py makes says of the interfaces.
use router_sim.Base.{
  ℕ, ◌+◌, ◌≡◌, refl, sym, ap, ◌∙◌, subst, true, false, List, [], ◌∷◌, some, nat_eq, Dict, get, set,
  get-set, beq_refl, In, inl, inr, Bool-cases,
}
use router_sim.Base.Outcome.{ok, or_raise, >>=-eq-ok, ok-injective, key_error}
use router_sim.Net.{net_eq}
use router_sim.Isis.{ExtendedIpReachability, ip_tlvs}
use router_sim.Isis.Update.{Wrapper, Neighbor, Interface, Process, set_srm}
use router_sim.Isis.Local.{
  Refresh, refresh_neighbors, advertise_prefix, refresh_interfaces, local_wrapper, announce,
  set_srms, refresh_local,
}
use router_sim.Isis.Local.Reachability.{ip_tlvs-refresh_neighbors}
use router_sim.Isis.Local.Prefixes.{
  Advertises, step, ip_tlvs-advertise_prefix, step-Advertises, Advertises-step,
}

-- Interfaces of one network have one metric and state.
abbrev pub Agrees : Interface → Dict ℕ Interface → Type 0
Agrees x m =
    (j : ℕ) (y : Interface)
    → In (j, y) m
    → y.network ≡ x.network
    → (y.metric ≡ x.metric) × (y.state ≡ x.state)

module _ (x : Interface) where
  abbrev Has : List ExtendedIpReachability → Type 0
  Has ps = Advertises x.network x.metric x.state ps

  interface_step :
      (j : ℕ) (y : Interface) (ns : Dict ℕ Neighbor) (r : Refresh)
      → ip_tlvs (advertise_prefix y (refresh_neighbors j y ns r).1).tlvs
        ≡ step y.network y.metric y.state (ip_tlvs r.tlvs)
  interface_step j y ns r =
      ip_tlvs-advertise_prefix y (refresh_neighbors j y ns r).1
      ∙ ap (step y.network y.metric y.state) (ip_tlvs-refresh_neighbors j y ns r)

  refresh_interfaces-keeps :
      (m : Dict ℕ Interface) (a b : Dict ℕ (Dict ℕ Neighbor)) (r r' : Refresh)
      → Agrees x m
      → refresh_interfaces m a r ≡ ok (b, r')
      → Has (ip_tlvs r.tlvs)
      → Has (ip_tlvs r'.tlvs)
  unfolding refresh_interfaces
  refresh_interfaces-keeps [] a b r r' agree e h =
      subst (λ y. Has (ip_tlvs y.1.tlvs)) (ok-injective e) h
  refresh_interfaces-keeps ((j, y) ∷ m) a b r r' agree e h =
      let (ns, _, rest) = >>=-eq-ok (or_raise key_error (get a j)) _ e in
      refresh_interfaces-keeps m (set a j (refresh_neighbors j y ns r).0) b
        (advertise_prefix y (refresh_neighbors j y ns r).1) r' (λ k z i. agree k z (inr i)) rest
        (subst Has (sym (interface_step j y ns r)) (
          Advertises-step x.network y.network x.metric y.metric x.state y.state (ip_tlvs r.tlvs)
            (agree j y (inl refl)) h))

  refresh_interfaces-Has :
      (i : ℕ) (m : Dict ℕ Interface) (a b : Dict ℕ (Dict ℕ Neighbor)) (r r' : Refresh)
      → Agrees x m
      → In (i, x) m
      → refresh_interfaces m a r ≡ ok (b, r')
      → Has (ip_tlvs r'.tlvs)
  unfolding refresh_interfaces
  refresh_interfaces-Has i [] a b r r' agree at e = absurd at
  refresh_interfaces-Has i ((j, y) ∷ m) a b r r' agree at e =
      let (ns, _, rest) = >>=-eq-ok (or_raise key_error (get a j)) _ e in
      let next = advertise_prefix y (refresh_neighbors j y ns r).1 in
      let a' = set a j (refresh_neighbors j y ns r).0 in
      elim at [
        | inl here ↦
            let y_x : y ≡ x = ap (λ z. z.1) here in
            refresh_interfaces-keeps m a' b next r' (λ k z i. agree k z (inr i)) rest
              (subst Has (sym (interface_step j y ns r)) (
                subst
                  (λ z.
                    Advertises z.network z.metric z.state
                      (step y.network y.metric y.state (ip_tlvs r.tlvs)))
                  y_x (step-Advertises y.network y.metric y.state (ip_tlvs r.tlvs))))
        | inr there ↦
            refresh_interfaces-Has i m a' b next r' (λ k z i. agree k z (inr i)) there rest
      ]

pdu-set_srms : (is : List ℕ) (w : Wrapper) → (set_srms is w).pdu ≡ w.pdu
unfolding set_srms set_srm
pdu-set_srms [] w = refl
pdu-set_srms (i ∷ is) w = pdu-set_srms is (set_srm i w)

tlvs-announce :
    (w : Wrapper) (b : Dict ℕ (Dict ℕ Neighbor)) (r : Refresh) (s : Process)
    → (v : Wrapper) × (get (announce w b r s).database s.system_id ≡ some v) × (v.pdu.tlvs ≡ r.tlvs)
unfolding announce
tlvs-announce w b r s = elim (Bool-cases r.changed) [
  | inl new ↦
      let p = record w.pdu { tlvs = r.tlvs } in
      let next : Wrapper = record w { pdu = record p { seq_no = p.seq_no + 1 } } in
      (
        set_srms r.up_interfaces next,
        rw (announce, new, get-set, beq_refl s.system_id) refl,
        ap (λ y. y.tlvs) (pdu-set_srms r.up_interfaces next),
      )
  | inr same ↦ (
    record w { pdu = record w.pdu { tlvs = r.tlvs } },
    rw (announce, same, get-set, beq_refl s.system_id) refl,
    refl,
  )
]

-- Once `__refresh_local` of a process that has started ended without an exception, the process's own
-- LSP has the network of each of its interfaces, with the interface's metric and state alone, where
-- the interfaces of that network agree on these.
pub refresh_local-Advertises :
    (s s' : Process) (i : ℕ) (x : Interface)
    → s.started ≡ true
    → refresh_local s ≡ ok s'
    → In (i, x) s.interfaces
    → Agrees x s.interfaces
    → (v : Wrapper) × (get s'.database s.system_id ≡ some v)
      × Advertises x.network x.metric x.state (ip_tlvs v.pdu.tlvs)
unfolding refresh_local
refresh_local-Advertises s s' i x running ends at agree =
    let (w, _, e₁) = >>=-eq-ok (local_wrapper s) _ (rw (running, refresh_local) at ends) in
    let ((b, r), went, e₂) =
      >>=-eq-ok
        (refresh_interfaces s.interfaces s.adjacencies
          (record { tlvs = w.pdu.tlvs; changed = false; up_interfaces = []; events = s.events }))
        _ e₁ in
    let (v, there, tlvs) = tlvs-announce w b r s in
    (
      v,
      ap (λ y. get y.database s.system_id) (sym (ok-injective e₂)) ∙ there,
      subst (λ ts. Advertises x.network x.metric x.state (ip_tlvs ts)) (sym tlvs)
          (refresh_interfaces-Has x i s.interfaces s.adjacencies b _ r agree at went),
    )
