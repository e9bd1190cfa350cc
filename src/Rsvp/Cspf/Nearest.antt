-- ===== src/Rsvp/Cspf/Nearest.antt =====
-- `shortest_path` of routersim/rsvp/process.py finds distances of shortest walks around the excluded
-- address, and always ends with an answer.
use router_sim.Base.{
  ℕ, ◌≡◌, refl, sym, ap, ◌∙◌, subst, true, [], map, Option, nat_eq, has, length, All, All_at, arith,
}
use router_sim.Base.Sorting.{All-sort_by}
use router_sim.Isis.{is_tlvs}
use router_sim.Isis.Spf.{
  State, Run, done, unconverged, fault, out_of_fuel, ◌>>=◌, begin, blank, loop, Database,
}
use router_sim.Isis.Spf.Graph.{IsKeyed}
use router_sim.Isis.Spf.Shortest.{IsShortest, Missing, After, Promises, loop-After, After-Promises}
use router_sim.Rsvp.Cspf.{Ted, lsps, dbvalues, distances}
use router_sim.Rsvp.Cspf.Topology.{
  IsNamed, topology-neighbors, All-kept_links, pruned, topology, has-topology, length-topology,
  visit_queue-loop,
}
use router_sim.Rsvp.Cspf.Filed.{
  IsConverged, ted_of, IsFiled, get-IsFiled, ted_of-IsFiled, init_routers_lem, has-ted_of,
  topology-IsKeyed, length-ted_of, empty-IsNew, length-map, has-router_of,
}

module _ (db : Ted) (self : ℕ) (exclude : Option ℕ) (whole : IsConverged db) where
  -- `ted` at the end of its loop
  abbrev pub filed_ted : Ted
  filed_ted = ted_of (dbvalues db) []

  abbrev pub network : Database
  network = topology db self exclude filed_ted

  pub filed : IsFiled (IsNamed db) filed_ted
  unfolding dbvalues
  filed =
      ted_of-IsFiled (IsNamed db) (dbvalues db) []
        (All-sort_by (λ p. p.source_address) (IsNamed db) (lsps db) whole.named) tt

  pub network-IsKeyed : IsKeyed network
  network-IsKeyed = topology-IsKeyed db self exclude (IsNamed db) filed_ted filed

  -- The run up to the paths is the loop of `run_full_dijkstra` on the network.
  abbrev pub searched : Run State
  searched =
      let (s, queue) = begin self (map (pruned db self exclude) (dbvalues db)) in
      loop network (length queue) s queue

  pub distances-searched : distances db self exclude ≡ (searched >>= λ s. done (filed_ted, s))
  unfolding distances begin
  distances-searched = rw (init_routers_lem db self exclude (dbvalues db) [] blank []) (
      ap (λ r. r >>= λ s. done (filed_ted, s))
        (visit_queue-loop db self exclude filed_ted
          (λ v p found. get-IsFiled (IsNamed db) filed_ted v p found filed) _ _ _))

  pub searched-After : After network self [] searched
  unfolding has
  searched-After =
      loop-After network self network-IsKeyed (map (pruned db self exclude) (dbvalues db))
        (λ v. ground (
          arith,
          has-ted_of db self exclude (dbvalues db) [] v,
          has-topology db self exclude filed_ted v,
        ))
        (omega (
          arith,
          length-map (pruned db self exclude) (dbvalues db),
          length-ted_of (dbvalues db) [] whole.distinct (empty-IsNew (dbvalues db)),
          length-topology db self exclude filed_ted,
        ))

  no_gap : ¬ Missing network self
  no_gap (u, v, w, (p, found, n, member, at, _), absent) =
      let (q, there, links) = topology-neighbors db self exclude filed_ted u p found in
      let all : All (λ m. has filed_ted m.system_id ≡ true) (is_tlvs p.tlvs) =
        subst (All (λ m. has filed_ted m.system_id ≡ true)) (sym links) (
          All-kept_links db self exclude (λ i. has filed_ted i ≡ true)
            (has-router_of db self exclude) q.neighbors
            (get-IsFiled (IsNamed db) filed_ted u q there filed)) in
      let known : has filed_ted n.system_id ≡ true =
        All_at (λ m. has filed_ted m.system_id ≡ true) (is_tlvs p.tlvs) n all member in
      absurd (ground (arith, absent, known, at, has-topology db self exclude filed_ted v))

  -- A run that is kept to what it promises has come to its end.
  pub searched-done : (s : State) × (searched ≡ done s)
  searched-done = ended searched searched-After
    where
      ended : (r : Run State) → After network self [] r → (s : State) × (r ≡ done s)
      ended (done s) a = (s, refl)
      ended unconverged a = absurd (no_gap a)
      ended (fault e) a = absurd a
      ended out_of_fuel a = absurd a

-- On a database whose LSPs name only systems with LSPs and have router ids of their own, the search
-- ends without an exception and does not return early; and its distances are the lengths of shortest walks from
-- this router over the links that have the excluded address at neither end.
pub distances-IsShortest :
    (db : Ted) (self : ℕ) (exclude : Option ℕ)
    → IsConverged db
    → (ted : Ted) × (s : State) × (distances db self exclude ≡ done (ted, s))
      × IsShortest (topology db self exclude ted) self s
distances-IsShortest db self exclude whole =
    let (s, ends) = searched-done db self exclude whole in
    (
      filed_ted db self exclude whole,
      s,
      distances-searched db self exclude whole ∙ rw ends refl,
      subst (Promises (network db self exclude whole) self) ends (
          After-Promises (network db self exclude whole) self (searched db self exclude whole)
            (searched-After db self exclude whole)),
    )
