-- ===== src/Rsvp/Cspf/Route.antt =====
-- `shortest_path` of routersim/rsvp/process.py: the addresses that it makes of the shortest path.
use mathlib.Core.List.{reverse}
use router_sim.Base.{
  ℕ, zero, suc, ◌≤◌, ◌<◌, ◌≡◌, ◌≢◌, refl, sym, ap, ◌∙◌, subst, true, List, [], ◌∷◌, map, Option,
  none, some, ◌==◌, nat_eq, Dict, get, has, keys, has-get, length, In, All, arith, Option-cases,
  Bool-cases, inl, inr,
}
use router_sim.Net.{Network, net_eq}
use router_sim.Isis.Spf.{State, done, ◌>>=◌, maxsize, begin, Database}
use router_sim.Isis.Spf.Graph.{dist}
use router_sim.Isis.Spf.Tree.{Tree, parent}
use router_sim.Isis.Spf.Shortest.{Kept, After}
use router_sim.Isis.Paths.{resolve_path, resolve_all}
use router_sim.Isis.Paths.Trail.{Trail, hop, resolve-Linear, resolve_any}
use router_sim.Isis.Paths.Prefixes.{resolve_all_lem, get_of_key, done-injective}
use router_sim.Rsvp.Cspf.{
  Lsp, Ted, dbvalues, distances, router_paths, explicit_route, route_of, shortest_path,
}
use router_sim.Rsvp.Cspf.Topology.{IsNamed, pruned, topology, length-topology, topology-neighbors}
use router_sim.Rsvp.Cspf.Nearest.{
  filed_ted, network, searched, searched-After, searched-done, distances-searched, filed,
}
use router_sim.Rsvp.Cspf.Filed.{IsConverged, get-IsFiled, has-filed, described-filed}
use router_sim.Rsvp.Cspf.Known.{Keeps, loop-Keeps, begin-has, key_of_has}
use router_sim.Rsvp.Cspf.Way.{>>=-done, All-reverse, router_paths_lem, explicit_route_total}

module _ (db : Ted) (self : ℕ) (exclude : Option ℕ) (whole : IsConverged db) where
  abbrev net : Database
  net = network db self exclude whole

  abbrev filed_here : Ted
  filed_here = filed_ted db self exclude whole

  -- what is known of the state at the end of the search
  searched-Kept : (s : State) → searched db self exclude whole ≡ done s → Kept net self s []
  searched-Kept s ends = subst (After net self []) ends (searched-After db self exclude whole)

  prev_known :
      (s : State) (i : ℕ) (q : Lsp)
      → searched db self exclude whole ≡ done s
      → get db i ≡ some q
      → In q.routerid (keys s.prev_system)
  prev_known s i q ends found =
      let start = begin self (map (pruned db self exclude) (dbvalues db)) in
      key_of_has s.prev_system q.routerid (
        subst (Keeps q.routerid) ends (
          loop-Keeps q.routerid net (length start.1) start.0 start.1 (
            begin-has q.routerid self (map (pruned db self exclude) (dbvalues db))
              (described-filed db self exclude i q found))))

  module _ (s : State) (ends : searched db self exclude whole ≡ done s) (order : List ℕ)
      (tree : Tree net self s [] order (length net)) where
    few : length order ≤ length net
    few = omega (arith, tree.bound)

    -- a router with a router after it is known
    before_known : (v p : ℕ) → parent s v ≡ some p → has filed_here p ≡ true
    before_known v p above =
        let (_, w, (x, found, _, _, _, _), _) = tree.parents v p above in
        let (q, there, _) = topology-neighbors db self exclude filed_here p x found in
        ground (arith, has-get filed_here p, there)

    back_known :
        (fuel : ℕ) (o : Option ℕ) (path : List ℕ)
        → ((v : ℕ) → o ≡ some v → has filed_here v ≡ true)
        → resolve_path fuel self s o ≡ done path
        → All (λ v. has filed_here v ≡ true) path
    unfolding resolve_path
    back_known fuel none path known found =
        subst (All (λ v. has filed_here v ≡ true)) (done-injective found) tt
    back_known zero (some v) path known found = absurd (cc found)
    back_known (suc fuel) (some v) path known found =
        let (rest, deeper, made) = >>=-done (resolve_path fuel self s (parent s v)) _ found in
        let all = back_known fuel (parent s v) rest (before_known v) deeper in
        subst (All (λ u. has filed_here u ≡ true)) (done-injective made)
          (elim (Bool-cases (v == self)) [
            | inl mine ↦ rw mine all
            | inr other ↦ rw other (known v refl, all)
          ])

    back_total :
        (v : ℕ)
        → (path : List ℕ) × (resolve_path (suc (length net)) self s (parent s v) ≡ done path)
    unfolding resolve_path
    back_total v = elim (Option-cases (parent s v)) [
      | inl root ↦ ([], rw (root, resolve_path) refl)
      | inr (p, above) ↦
          let (path, found) = resolve_any net self s order (length net) tree p few in
          (path, ap (resolve_path (suc (length net)) self s) above ∙ found)
    ]

    -- The way back from before a router that a walk leads to.
    back-Trail :
        (v : ℕ) (back : List ℕ)
        → dist s.system_distance self ≡ 0
        → resolve_path (suc (length net)) self s (parent s v) ≡ done back
        → v ≢ self
        → dist s.system_distance v < maxsize
        → Trail net self (v ∷ back) v (dist s.system_distance v)
    back-Trail v back origin found other low = elim (Option-cases (parent s v)) [
      | inl root ↦ elim (tree.roots v root) [
        | inl mine ↦ absurd (other mine)
        | inr far ↦ absurd (omega (arith, far, low))
      ]
      | inr (p, above) ↦
          let (left, w, edge, sum) = tree.parents v p above in
          let (path, walked, trail) =
            resolve-Linear net self s order (length net) tree order (suc (length net)) p tree.linear
              (omega (arith, few)) left in
          let same : path ≡ back =
            done-injective
              (sym walked ∙ ap (resolve_path (suc (length net)) self s) (sym above) ∙ found) in
          subst (λ b. Trail net self (v ∷ b) v (dist s.system_distance v)) same
            (hop (trail origin (omega (arith, sum, low))) edge sum)
    ]

shortest_path-made :
    (db : Ted) (self : ℕ) (exclude : Option ℕ) (ted : Ted) (s : State) (fuel dest : ℕ)
    (addresses : Dict Network (List ℕ)) (paths : Dict ℕ (List ℕ)) (path : List ℕ)
    (ero : List (Option ℕ))
    → distances db self exclude ≡ done (ted, s)
    → fuel ≡ length ted
    → resolve_all (suc fuel) self s (keys s.prev) [] ≡ done addresses
    → router_paths db self exclude (suc fuel) s (keys s.prev_system) [] ≡ done paths
    → get paths dest ≡ some path
    → explicit_route db self exclude ted self path dest ≡ done ero
    → shortest_path db self exclude dest ≡ done (some ero)
unfolding shortest_path route_of
shortest_path-made db self exclude ted s fuel dest addresses paths path ero reached same made walked
      at listed =
    let made' =
      subst (λ f. resolve_all (suc f) self s (keys s.prev) [] ≡ done addresses) same made in
    let walked' =
      subst (λ f. router_paths db self exclude (suc f) s (keys s.prev_system) [] ≡ done paths) same
        walked in
    rw (shortest_path, reached, made', walked')
      (ap (route_of db self exclude ted dest) at ∙ ap (λ r. r >>= λ e. done (some e)) listed)

-- The state that the search ends in, with `ted`.
abbrev pub LeavesState : Ted → ℕ → Option ℕ → Ted → State → Type 0
LeavesState db self exclude ted s = distances db self exclude ≡ done (ted, s)

-- On a database whose LSPs name only systems with LSPs and have router ids of their own, with an LSP of
-- this router and one of the destination, `shortest_path` ends without an exception and gives a list of
-- addresses: those of the links along some routers, which are, if the destination is not this router and at a
-- distance below `sys.maxsize`, the routers of a shortest walk around the excluded address.
pub shortest_path-ends :
    (db : Ted) (self : ℕ) (exclude : Option ℕ) (i j : ℕ) (own dest : Lsp)
    → IsConverged db
    → get db i ≡ some own
    → own.routerid ≡ self
    → get db j ≡ some dest
    → (ted : Ted) × (s : State) × (ero : List (Option ℕ)) × (back : List ℕ) × LeavesState db self
        exclude ted s
      × (shortest_path db self exclude dest.routerid ≡ done (some ero))
      × (explicit_route db self exclude ted self (reverse back) dest.routerid ≡ done ero)
      × (dest.routerid ≢ self
          → dist s.system_distance dest.routerid < maxsize
          → Trail
              (topology db self exclude ted)
              self
              (dest.routerid ∷ back)
              dest.routerid
              (dist s.system_distance dest.routerid))
unfolding shortest_path
shortest_path-ends db self exclude i j own dest whole mine is_self there =
    let (s, ends) = searched-done db self exclude whole in
    let t = filed_here db self exclude whole in
    let n = net db self exclude whole in
    let (inv, (order, tree)) = searched-Kept db self exclude whole s ends in
    let reached : LeavesState db self exclude t s =
      distances-searched db self exclude whole ∙ rw ends refl in
    let total = back_total db self exclude whole s ends order tree in
    let same_fuel : length n ≡ length t = length-topology db self exclude t in
    let (addresses, made, _) =
      resolve_all_lem (suc (length n)) self s (keys s.prev) [] (get_of_key s.prev) (λ v.
        resolve_any n self s order (length n) tree v
          (few db self exclude whole s ends order tree)) in
    let (paths, walked, all) =
      router_paths_lem self (suc (length n)) s db exclude (keys s.prev_system) [] total in
    let (back, found) = total dest.routerid in
    let at : get paths dest.routerid ≡ some (reverse back) =
      all dest.routerid (inr (prev_known db self exclude whole s j dest ends there)) in
    let known : has t self ≡ true =
      subst (λ v. has t v ≡ true) is_self (has-filed db self exclude i own mine) in
    let on_way : All (λ v. has t v ≡ true) (reverse back) =
      All-reverse (λ v. has t v ≡ true) back
        (back_known db self exclude whole s ends order tree (suc (length n))
          (parent s dest.routerid) back
          (λ v above. before_known db self exclude whole s ends order tree dest.routerid v above)
          found) in
    let (ero, listed) =
      explicit_route_total db self exclude t
        (λ v p f. get-IsFiled (IsNamed db) t v p f (filed db self exclude whole)) self
        (reverse back) dest.routerid known on_way in
    (
      t,
      s,
      ero,
      back,
      reached,
      shortest_path-made db self exclude t s (length n) dest.routerid addresses paths (reverse back)
          ero reached same_fuel made walked at listed,
      listed,
      back-Trail db self exclude whole s ends order tree dest.routerid back inv.origin found,
    )
