-- ===== src/Isis/Local/Reachability.antt =====
-- routersim/isis/process.py: `__refresh_local` changes the IP reachability of the LSP for its
-- interfaces alone, not for its neighbours.
use router_sim.Base.{
  ℕ, ◌≡◌, refl, ap, ◌∙◌, List, [], ◌∷◌, ◌++◌, ◌==◌, nat_eq, Dict, arith, inl, inr, Bool-cases,
}
use router_sim.Net.{net_eq}
use router_sim.Isis.{
  Tlv, is_reachability, ip_reachability, p2p_adjacency, area_address, ip_address, te_router,
  lsp_entry, dynamic_hostname, ip_tlvs, reaches, remove_neighbor,
}
use router_sim.Isis.Update.{Neighbor, Interface}
use router_sim.Isis.Local.{
  Refresh, is_down, update_neighbor, mark_down, withdraw, advertise, refresh_neighbor,
  refresh_neighbors,
}

-- Neighbours are no matter of the IP reachability.
ip_tlvs-update_neighbor :
    (i m : ℕ) (ts : List Tlv) → ip_tlvs (update_neighbor i m ts).0 ≡ ip_tlvs ts
unfolding ip_tlvs update_neighbor
ip_tlvs-update_neighbor i m [] = refl
ip_tlvs-update_neighbor i m (is_reachability r ∷ ts) = elim (Bool-cases (r.system_id == i)) [
  | inl here ↦ rw (update_neighbor, here) (ip_tlvs-update_neighbor i m ts)
  | inr away ↦ rw (update_neighbor, away) (ip_tlvs-update_neighbor i m ts)
]
ip_tlvs-update_neighbor i m (ip_reachability r ∷ ts) =
    ap (λ ps. r ∷ ps) (ip_tlvs-update_neighbor i m ts)
ip_tlvs-update_neighbor i m (p2p_adjacency k st ∷ ts) = ip_tlvs-update_neighbor i m ts
ip_tlvs-update_neighbor i m (area_address a ∷ ts) = ip_tlvs-update_neighbor i m ts
ip_tlvs-update_neighbor i m (ip_address a ∷ ts) = ip_tlvs-update_neighbor i m ts
ip_tlvs-update_neighbor i m (te_router a ∷ ts) = ip_tlvs-update_neighbor i m ts
ip_tlvs-update_neighbor i m (lsp_entry k n ∷ ts) = ip_tlvs-update_neighbor i m ts
ip_tlvs-update_neighbor i m (dynamic_hostname h ∷ ts) = ip_tlvs-update_neighbor i m ts

ip_tlvs-remove_neighbor : (i : ℕ) (ts : List Tlv) → ip_tlvs (remove_neighbor i ts).0 ≡ ip_tlvs ts
unfolding ip_tlvs remove_neighbor reaches
ip_tlvs-remove_neighbor i [] = refl
ip_tlvs-remove_neighbor i (is_reachability r ∷ ts) = elim (Bool-cases (r.system_id == i)) [
  | inl here ↦ rw (remove_neighbor, here) (ip_tlvs-remove_neighbor i ts)
  | inr away ↦ rw (remove_neighbor, away) (ip_tlvs-remove_neighbor i ts)
]
ip_tlvs-remove_neighbor i (ip_reachability r ∷ ts) =
    ap (λ ps. r ∷ ps) (ip_tlvs-remove_neighbor i ts)
ip_tlvs-remove_neighbor i (p2p_adjacency k st ∷ ts) = ip_tlvs-remove_neighbor i ts
ip_tlvs-remove_neighbor i (area_address a ∷ ts) = ip_tlvs-remove_neighbor i ts
ip_tlvs-remove_neighbor i (ip_address a ∷ ts) = ip_tlvs-remove_neighbor i ts
ip_tlvs-remove_neighbor i (te_router a ∷ ts) = ip_tlvs-remove_neighbor i ts
ip_tlvs-remove_neighbor i (lsp_entry k n ∷ ts) = ip_tlvs-remove_neighbor i ts
ip_tlvs-remove_neighbor i (dynamic_hostname h ∷ ts) = ip_tlvs-remove_neighbor i ts

pub ip_tlvs-append : (ts us : List Tlv) → ip_tlvs (ts ++ us) ≡ ip_tlvs ts ++ ip_tlvs us
unfolding ip_tlvs
ip_tlvs-append [] us = refl
ip_tlvs-append (ip_reachability r ∷ ts) us = ap (λ ps. r ∷ ps) (ip_tlvs-append ts us)
ip_tlvs-append (is_reachability r ∷ ts) us = ip_tlvs-append ts us
ip_tlvs-append (p2p_adjacency k st ∷ ts) us = ip_tlvs-append ts us
ip_tlvs-append (area_address a ∷ ts) us = ip_tlvs-append ts us
ip_tlvs-append (ip_address a ∷ ts) us = ip_tlvs-append ts us
ip_tlvs-append (te_router a ∷ ts) us = ip_tlvs-append ts us
ip_tlvs-append (lsp_entry k n ∷ ts) us = ip_tlvs-append ts us
ip_tlvs-append (dynamic_hostname h ∷ ts) us = ip_tlvs-append ts us

nil-append : {A : Type 0} (xs : List A) → xs ++ [] ≡ xs
nil-append [] = refl
nil-append (x ∷ xs) = ap (λ ys. x ∷ ys) (nil-append xs)

tlvs-mark_down :
    (i : ℕ) (x : Interface) (k : ℕ) (n : Neighbor) (r : Refresh)
    → (mark_down i x k n r).1.tlvs ≡ r.tlvs
unfolding mark_down
tlvs-mark_down i x k n r = ground arith

ip_tlvs-advertise :
    (x : Interface) (k : ℕ) (r : Refresh) → ip_tlvs (advertise x k r).tlvs ≡ ip_tlvs r.tlvs
unfolding advertise ip_tlvs
ip_tlvs-advertise x k r = elim (Bool-cases (update_neighbor k x.metric r.tlvs).1.0) [
  | inl found ↦ rw (advertise, found) (ip_tlvs-update_neighbor k x.metric r.tlvs)
  | inr missing ↦ rw (advertise, missing) (ip_tlvs-append r.tlvs _ ∙ nil-append (ip_tlvs r.tlvs))
]

ip_tlvs-refresh_neighbor :
    (i : ℕ) (x : Interface) (k : ℕ) (n : Neighbor) (r : Refresh)
    → ip_tlvs (refresh_neighbor i x k n r).1.tlvs ≡ ip_tlvs r.tlvs
unfolding refresh_neighbor withdraw
ip_tlvs-refresh_neighbor i x k n r =
    let marked : ip_tlvs (mark_down i x k n r).1.tlvs ≡ ip_tlvs r.tlvs =
      ap ip_tlvs (tlvs-mark_down i x k n r) in
    elim (Bool-cases (is_down (mark_down i x k n r).0.state)) [
      | inl gone ↦
          rw (refresh_neighbor, gone)
            (ip_tlvs-remove_neighbor k (mark_down i x k n r).1.tlvs ∙ marked)
      | inr there ↦
          rw (refresh_neighbor, there) (ip_tlvs-advertise x k (mark_down i x k n r).1 ∙ marked)
    ]

pub ip_tlvs-refresh_neighbors :
    (i : ℕ) (x : Interface) (ns : Dict ℕ Neighbor) (r : Refresh)
    → ip_tlvs (refresh_neighbors i x ns r).1.tlvs ≡ ip_tlvs r.tlvs
unfolding refresh_neighbors
ip_tlvs-refresh_neighbors i x [] r = refl
ip_tlvs-refresh_neighbors i x ((k, n) ∷ ns) r =
    ip_tlvs-refresh_neighbors i x ns (refresh_neighbor i x k n r).1
    ∙ ip_tlvs-refresh_neighbor i x k n r
