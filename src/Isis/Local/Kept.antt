-- ===== src/Isis/Local/Kept.antt =====
-- What `__refresh_local` of routersim/isis/process.py leaves of the adjacencies.
use router_sim.Base.{
  ℕ, ◌≡◌, refl, ap, ◌∙◌, true, false, [], ◌∷◌, ◌==◌, nat_eq, Dict, get, set, has, has-set, get-set,
  has-get, arith, In, inl, inr, Bool-cases, Option-cases,
}
use router_sim.Base.Outcome.{ok}
use router_sim.Isis.Update.{Wrapper, Neighbor, Interface, Process}
use router_sim.Isis.Local.{
  Refresh, loopback, mark_down, refresh_neighbor, refresh_neighbors, advertise_prefix,
  refresh_interfaces, local_wrapper, first_wrapper, announce, refresh_local,
}

-- The loopback interface is enabled, each enabled interface has its adjacencies, and interface `i` is up.
pub record IsReady (i : ℕ) (s : Process) : Type 0 where
  pub loopback_enabled : has s.interfaces loopback ≡ true
  pub enabled : (j : ℕ) (x : Interface) → In (j, x) s.interfaces → has s.adjacencies j ≡ true
  pub up : (x : Interface) → In (i, x) s.interfaces → x.is_up ≡ true

-- The neighbours of an interface that is up keep their states.
refresh_neighbors-up :
    (i : ℕ) (x : Interface) (ns : Dict ℕ Neighbor) (r : Refresh)
    → x.is_up ≡ true
    → (refresh_neighbors i x ns r).0 ≡ ns
unfolding refresh_neighbors refresh_neighbor mark_down
refresh_neighbors-up i x [] r on = refl
refresh_neighbors-up i x ((k, n) ∷ ns) r on =
    rw (refresh_neighbors, on, refresh_neighbors-up i x ns _ on) refl

-- What is the same in two tables of adjacencies: those of interface `i`, and which interfaces have any.
abbrev pub Keeps : ℕ → Dict ℕ (Dict ℕ Neighbor) → Dict ℕ (Dict ℕ Neighbor) → Type 0
Keeps i a b = (get b i ≡ get a i) × ((j : ℕ) → has a j ≡ true → has b j ≡ true)

refresh_interfaces-Keeps :
    (i : ℕ) (m : Dict ℕ Interface) (a : Dict ℕ (Dict ℕ Neighbor)) (r : Refresh)
    → ((j : ℕ) (x : Interface) → In (j, x) m → has a j ≡ true)
    → ((x : Interface) → In (i, x) m → x.is_up ≡ true)
    → (b : Dict ℕ (Dict ℕ Neighbor)) × (r' : Refresh) × (refresh_interfaces m a r ≡ ok (b, r'))
      × Keeps i a b
unfolding refresh_interfaces
refresh_interfaces-Keeps i [] a r enabled up = (a, r, refl, (refl, λ j h. h))
refresh_interfaces-Keeps i ((k, x) ∷ m) a r enabled up = elim (Option-cases (get a k)) [
  | inl missing ↦ absurd (ground (arith, has-get a k, enabled k x (inl refl), missing))
  | inr (ns, there) ↦
      let next = set a k (refresh_neighbors k x ns r).0 in
      let (b, r', ends, (same, more)) =
        refresh_interfaces-Keeps i m next (advertise_prefix x (refresh_neighbors k x ns r).1)
          (λ j y at.
            ground (arith, has-set a k j (refresh_neighbors k x ns r).0, enabled j y (inr at)))
          (λ y at. up y (inr at)) in
      let kept : get next i ≡ get a i = elim (Bool-cases (k == i)) [
        | inr away ↦ ground (arith, get-set a k i (refresh_neighbors k x ns r).0, away)
        | inl here ↦
            let k_i : k ≡ i = ground (arith, here) in
            let on : x.is_up ≡ true = up x (inl (ap (λ j. (j, x)) k_i)) in
            ground (
              arith,
              get-set a k i (refresh_neighbors k x ns r).0,
              here,
              k_i,
              there,
              refresh_neighbors-up k x ns r on,
            )
      ] in
      (
        b,
        r',
        rw (refresh_interfaces, there) ends,
        (
          same ∙ kept,
          λ j h. more j (ground (arith, has-set a k j (refresh_neighbors k x ns r).0, h)),
        ),
      )
]

local_wrapper_total : (i : ℕ) (s : Process) → IsReady i s → (w : Wrapper) × (local_wrapper s ≡ ok w)
unfolding local_wrapper
local_wrapper_total i s ready = elim (Option-cases (get s.database s.system_id)) [
  | inr (w, there) ↦ (w, rw (local_wrapper, there) refl)
  | inl missing ↦ elim (Option-cases (get s.interfaces loopback)) [
    | inl never ↦
        absurd (ground (arith, has-get s.interfaces loopback, never, ready.loopback_enabled))
    | inr (lo, there) ↦ (first_wrapper s lo, rw (local_wrapper, missing, there) refl)
  ]
]

-- `__refresh_local` ends without an exception, and keeps the adjacencies of an interface that is up.
pub refresh_local-IsReady :
    (i : ℕ) (s : Process)
    → IsReady i s
    → (s' : Process) × (refresh_local s ≡ ok s')
      × (get s'.adjacencies i ≡ get s.adjacencies i)
      × (s'.system_id ≡ s.system_id)
      × (s'.interfaces ≡ s.interfaces)
      × (s'.area_id ≡ s.area_id)
      × IsReady i s'
unfolding refresh_local announce
refresh_local-IsReady i s ready = elim (Bool-cases s.started) [
  | inr idle ↦ (s, rw (refresh_local, idle) refl, refl, refl, refl, refl, ready)
  | inl running ↦
      let (w, own) = local_wrapper_total i s ready in
      let (b, r, ends, (same, more)) =
        refresh_interfaces-Keeps i s.interfaces s.adjacencies
          (record { tlvs = w.pdu.tlvs; changed = false; up_interfaces = []; events = s.events })
          ready.enabled ready.up in
      (
        announce w b r s,
        rw (refresh_local, running, own, ends) refl,
        same,
        refl,
        refl,
        refl,
        record {
          loopback_enabled = ready.loopback_enabled;
          enabled = λ j x at. more j (ready.enabled j x at);
          up = ready.up;
        },
      )
]
