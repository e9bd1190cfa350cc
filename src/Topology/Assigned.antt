-- ===== src/Topology/Assigned.antt =====
-- routersim/topology.py: the addresses that routers get are all different.
use router_sim.Base.{
  ℕ, suc, ◌+◌, ◌*◌, ◌≤◌, ◌<◌, ◌≡◌, ◌≢◌, refl, ap, subst, Dict, Bool, false, List, [], ◌∷◌, ltb,
  ◌==◌, nat_eq, get, All, All-map, arith, Bool-cases, inl, inr, ◌⊎◌,
}
use router_sim.Base.Outcome.{ok, or_raise, >>=-eq-ok, ok-injective, key_error, attribute_error}
use router_sim.Net.{Network, first_host, host_count}
use router_sim.Isis.Spf.Graph.{mem}
use router_sim.Topology.{
  Topology, Port, mark, next_loopback, point_to_point, pair_count, next_pair, first_free,
  link_router_pair, add_router, new_topology,
}

-- An address that was taken from one of the two networks.
abbrev pub IsTaken : Network → ℕ → ℕ → ℕ → Type 0
IsTaken n l p x =
    ((first_host n ≤ x) × (x < first_host n + l))
    ⊎ ((point_to_point ≤ x) × (x < point_to_point + 2 * p))

abbrev pub IsDistinct : List ℕ → Type 0
IsDistinct [] = Unit
IsDistinct (x ∷ xs) = (mem x xs ≡ false) × IsDistinct xs

-- The loopback network has no address of 100.65.0.0/16.
abbrev pub IsApart : Network → Type 0
IsApart n =
    (first_host n + host_count n ≤ point_to_point)
    ⊎ (point_to_point + 2 * pair_count ≤ first_host n)

pub record IsAssigned (n : Network) (t : Topology) : Type 0 where
  pub network : t.loopback_network ≡ n
  pub few : t.loopbacks ≤ host_count n
  pub pairs_few : t.pairs ≤ pair_count
  pub taken : All (IsTaken n t.loopbacks t.pairs) t.assigned
  pub distinct : IsDistinct t.assigned

unused :
    (P : ℕ → Type 0) (x : ℕ) (xs : List ℕ) → ((y : ℕ) → P y → y ≢ x) → All P xs → mem x xs ≡ false
unused P x [] far all = refl
unused P x (y ∷ ys) far all = elim (Bool-cases (y == x)) [
  | inl same ↦ absurd (far y all.0 (ground (arith, same)))
  | inr other ↦ rw other (unused P x ys far all.1)
]

-- What was taken is neither the next loopback nor one of the next pair.
loopback-ne :
    (n : Network) (l p y x : ℕ)
    → IsApart n
    → l < host_count n
    → p ≤ pair_count
    → IsTaken n l p y
    → x ≡ first_host n + l
    → y ≢ x
loopback-ne n l p y x (inl before) room few (inl (low, high)) at same =
    omega (arith, high, at, same)
loopback-ne n l p y x (inl before) room few (inr (low, high)) at same =
    omega (arith, before, room, low, at, same)
loopback-ne n l p y x (inr after) room few (inl (low, high)) at same = omega (arith, high, at, same)
loopback-ne n l p y x (inr after) room few (inr (low, high)) at same =
    omega (arith, after, few, high, at, same)

pair-ne :
    (n : Network) (l p y x : ℕ)
    → IsApart n
    → l ≤ host_count n
    → p < pair_count
    → IsTaken n l p y
    → (x ≡ point_to_point + 2 * p) ⊎ (x ≡ suc (point_to_point + 2 * p))
    → y ≢ x
pair-ne n l p y x (inl before) few room (inl (low, high)) (inl at) same =
    omega (arith, before, few, high, at, same)
pair-ne n l p y x (inl before) few room (inl (low, high)) (inr at) same =
    omega (arith, before, few, high, at, same)
pair-ne n l p y x (inr after) few room (inl (low, high)) (inl at) same =
    omega (arith, after, room, low, at, same)
pair-ne n l p y x (inr after) few room (inl (low, high)) (inr at) same =
    omega (arith, after, room, low, at, same)
pair-ne n l p y x apart few room (inr (low, high)) (inl at) same = omega (arith, high, at, same)
pair-ne n l p y x apart few room (inr (low, high)) (inr at) same = omega (arith, high, at, same)

add_router-IsAssigned :
    (et1 lo : ℕ) (is_lo : ℕ → Bool) (name : ℕ) (is : List ℕ) (n : Network) (t u : Topology)
    → IsApart n
    → IsAssigned n t
    → add_router et1 lo is_lo name is t ≡ ok u
    → IsAssigned n u
unfolding add_router next_loopback
add_router-IsAssigned et1 lo is_lo name is n t u apart w e =
    elim (Bool-cases (ltb t.loopbacks (host_count t.loopback_network))) [
      | inr full ↦ absurd (cc (rw (add_router, full) at e))
      | inl room ↦
          let same = ok-injective (rw (add_router, room) at e) in
          let count : host_count t.loopback_network ≡ host_count n = ap host_count w.network in
          let first : first_host t.loopback_network ≡ first_host n = ap first_host w.network in
          let below : t.loopbacks < host_count n = ground (arith, room, count) in
          subst (IsAssigned n) same (record {
            network = w.network;
            few = omega (arith, below);
            pairs_few = w.pairs_few;
            taken = (
              inl (omega (arith, first), omega (arith, first)),
              All-map (IsTaken n t.loopbacks t.pairs) (IsTaken n (t.loopbacks + 1) t.pairs)
                  t.assigned
                  (λ x h. elim h [
                    | inl (low, high) ↦ inl (low, omega (arith, high))
                    | inr old ↦ inr old
                  ])
                  w.taken,
            );
            distinct = (
              unused (IsTaken n t.loopbacks t.pairs) (first_host t.loopback_network + t.loopbacks)
                  t.assigned
                  (λ y h.
                    loopback-ne n t.loopbacks t.pairs y
                      (first_host t.loopback_network + t.loopbacks) apart below w.pairs_few h
                      (omega (arith, first)))
                  w.taken,
              w.distinct,
            );
          })
    ]

-- The next pair of addresses is given out.
paired-IsAssigned :
    (n : Network) (t : Topology) (routers : Dict ℕ (Dict ℕ Port))
    → IsApart n
    → IsAssigned n t
    → t.pairs < pair_count
    → let host1 = point_to_point + 2 * t.pairs in
      IsAssigned n (record t {
        pairs = t.pairs + 1;
        routers = routers;
        assigned = suc host1 ∷ host1 ∷ t.assigned;
      })
paired-IsAssigned n t routers apart w room =
    let host1 = point_to_point + 2 * t.pairs in
    let new : (x : ℕ) → (x ≡ host1) ⊎ (x ≡ suc host1) → mem x t.assigned ≡ false = λ x at.
      unused (IsTaken n t.loopbacks t.pairs) x t.assigned
        (λ y h. pair-ne n t.loopbacks t.pairs y x apart w.few room h at) w.taken in
    record {
      network = w.network;
      few = w.few;
      pairs_few = omega (arith, room);
      taken = (
        inr (omega arith, omega arith),
        (
          inr (omega arith, omega arith),
          All-map (IsTaken n t.loopbacks t.pairs) (IsTaken n t.loopbacks (t.pairs + 1)) t.assigned
              (λ x h. elim h [
                | inl old ↦ inl old
                | inr (low, high) ↦ inr (low, omega (arith, high))
              ])
              w.taken,
        ),
      );
      distinct = (ground (arith, new (suc host1) (inr refl)), (new host1 (inl refl), w.distinct));
    }

link_router_pair-IsAssigned :
    (r1 r2 : ℕ) (n : Network) (t u : Topology)
    → IsApart n
    → IsAssigned n t
    → link_router_pair r1 r2 t ≡ ok u
    → IsAssigned n u
unfolding link_router_pair next_pair
link_router_pair-IsAssigned r1 r2 n t u apart w e = elim (Bool-cases (ltb t.pairs pair_count)) [
  | inr full ↦ absurd (cc (rw (link_router_pair, full) at e))
  | inl room ↦
      let (ports1, _, e₁) =
        >>=-eq-ok (or_raise key_error (get t.routers r1)) _ (rw (link_router_pair, room) at e) in
      let (ports2, _, e₂) = >>=-eq-ok (or_raise key_error (get t.routers r2)) _ e₁ in
      let (i1, _, e₃) = >>=-eq-ok (or_raise attribute_error (first_free ports1)) _ e₂ in
      let (i2, _, e₄) = >>=-eq-ok (or_raise attribute_error (first_free ports2)) _ e₃ in
      subst (IsAssigned n) (ok-injective e₄)
        (paired-IsAssigned n t (mark r2 i2 (mark r1 i1 t.routers)) apart w (ground (arith, room)))
]

-- The topologies that additions of routers and links lead to.
pub data Reachable (et1 lo : ℕ) (is_lo : ℕ → Bool) (n : Network) : Topology → Type 0 where
  initial : Reachable et1 lo is_lo n (new_topology n)
  added :
      {t u : Topology} (name : ℕ) (is : List ℕ)
      → Reachable et1 lo is_lo n t
      → add_router et1 lo is_lo name is t ≡ ok u
      → Reachable et1 lo is_lo n u
  linked :
      {t u : Topology} (r1 r2 : ℕ)
      → Reachable et1 lo is_lo n t
      → link_router_pair r1 r2 t ≡ ok u
      → Reachable et1 lo is_lo n u

-- In a topology that routers and links were added to, none of which raised, no address was given to two
-- interfaces, if the loopback network has no address of 100.65.0.0/16; and each address is one of the loopback
-- network's hosts or one of 100.65.0.0/16.
pub Reachable-IsAssigned :
    (et1 lo : ℕ) (is_lo : ℕ → Bool) (n : Network) (t : Topology)
    → IsApart n
    → Reachable et1 lo is_lo n t
    → IsAssigned n t
Reachable-IsAssigned et1 lo is_lo n t apart initial = record {
  network = refl;
  few = omega arith;
  pairs_few = omega arith;
  taken = tt;
  distinct = tt;
}
Reachable-IsAssigned et1 lo is_lo n t apart (added {t = before} name is r step) =
    add_router-IsAssigned et1 lo is_lo name is n before t apart
      (Reachable-IsAssigned et1 lo is_lo n before apart r) step
Reachable-IsAssigned et1 lo is_lo n t apart (linked {t = before} r1 r2 r step) =
    link_router_pair-IsAssigned r1 r2 n before t apart
      (Reachable-IsAssigned et1 lo is_lo n before apart r) step
