-- ===== src/Isis/Local/Unannounced.antt =====
-- A new adjacency in `__refresh_local` of routersim/isis/process.py.
use router_sim.Base.{ℕ, zero, suc, ◌≡◌, ◌≢◌, refl, true, false, [], ◌∷◌, ◌++◌, nat_eq, arith}
use router_sim.Net.{first_host, host_count}
use router_sim.Isis.{ExtendedIsReachability, interface_address, is_reachability}
use router_sim.Isis.Update.{Neighbor, Interface}
use router_sim.Isis.Local.{
  Refresh, is_down, other_address, update_neighbor, other_host, mark_down, advertise,
  refresh_neighbor,
}

other_host-first : (k a own : ℕ) → own ≢ a → (other_host k a own).1 ≡ false
unfolding other_host
other_host-first zero a own far = refl
other_host-first (suc k) a own far = ground (arith, far)

-- On an interface that is up and whose own address is not the first host of its network, a neighbour
-- that is not down and that the LSP lacks is added to the LSP, but the LSP does not count as changed
-- for that.
pub refresh_neighbor-unannounced :
    (i : ℕ) (x : Interface) (k : ℕ) (n : Neighbor) (r : Refresh)
    → x.is_up ≡ true
    → is_down n.state ≡ false
    → (update_neighbor k x.metric r.tlvs).1.0 ≡ false
    → x.ip ≢ first_host x.network
    → (t : ExtendedIsReachability) × (t.system_id ≡ k)
      × (t.metric ≡ x.metric)
      × ((refresh_neighbor i x k n r).1.tlvs ≡ r.tlvs ++ is_reachability t ∷ [])
      × ((refresh_neighbor i x k n r).1.changed ≡ r.changed)
unfolding refresh_neighbor mark_down advertise other_address
refresh_neighbor-unannounced i x k n r on alive missing far =
    let quiet = other_host-first (host_count x.network) (first_host x.network) x.ip far in
    let other = other_host (host_count x.network) (first_host x.network) x.ip in
    (
      record {
        system_id = k;
        metric = x.metric;
        tlvs = interface_address x.ip x.state ∷ other_address other.0;
      },
      refl,
      refl,
      rw (refresh_neighbor, mark_down, on, alive, advertise, missing) refl,
      ground (arith, on, alive, missing, quiet),
    )
