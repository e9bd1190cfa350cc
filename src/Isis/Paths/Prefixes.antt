-- ===== src/Isis/Paths/Prefixes.antt =====
-- The paths to the prefixes, as `run_full_dijkstra` keeps them.
use mathlib.Core.List.{reverse}
use router_sim.Base.{
  ℕ, suc, ◌+◌, ◌≤◌, ◌<◌, ◌≡◌, refl, sym, ◌∙◌, ap, subst, List, [], ◌∷◌, ◌≢◌, List-cases, some, ◌==◌,
  nat_eq, Dict, get, set, get-set, has-get, keys, length, In, arith, Bool-cases, Option-cases, inl,
  inr, ◌⊎◌,
}
use router_sim.Net.{Network, net_eq, net_beq_iff}
use router_sim.Isis.{LinkStatePdu, ExtendedIpReachability, up, ip_tlvs}
use router_sim.Isis.Spf.{
  State, Database, Run, done, unconverged, fault, out_of_fuel, maxsize, shortest_paths,
}
use router_sim.Isis.Spf.Graph.{here, IsKeyed, dist}
use router_sim.Isis.Spf.Tree.{parent}
use router_sim.Isis.Spf.Shortest.{
  shortest_paths-Tree, shortest_paths-Promises, shortest_paths-prefixes, Promises,
}
use router_sim.Isis.Paths.{
  resolve_path, resolve_all, resolve_systems, address_paths, last_lsp, Result, run_full_dijkstra,
}
use router_sim.Isis.Paths.Trail.{Trail, resolve-Linear, resolve_any}

-- What a run over prefixes must give for a prefix: the way back from the prefix's system, reversed.
abbrev pub Resolved : ℕ → ℕ → State → Dict Network (List ℕ) → Network → Type 0
Resolved fuel self s paths n =
    (u : ℕ) × (path : List ℕ) × (get s.prev n ≡ some u)
    × (resolve_path fuel self s (some u) ≡ done path)
    × (get paths n ≡ some (reverse path))

Resolved-set :
    (fuel self : ℕ) (s : State) (paths : Dict Network (List ℕ)) (n m : Network) (u : ℕ)
    (path : List ℕ)
    → get s.prev n ≡ some u
    → resolve_path fuel self s (some u) ≡ done path
    → Resolved fuel self s paths m
    → Resolved fuel self s (set paths n (reverse path)) m
Resolved-set fuel self s paths n m u path at found (v, back, at', found', there) =
    elim (Bool-cases (n == m)) [
      | inl match ↦
          let same : n ≡ m = (net_beq_iff n m).0 match in
          (
            u,
            path,
            ap (get s.prev) (sym same) ∙ at,
            found,
            ground (arith, get-set paths n m (reverse path), match),
          )
      | inr other ↦
          (v, back, at', found', ground (arith, get-set paths n m (reverse path), other, there))
    ]

pub resolve_all_lem :
    (fuel self : ℕ) (s : State) (ns : List Network) (paths : Dict Network (List ℕ))
    → ((n : Network) → In n ns → (u : ℕ) × (get s.prev n ≡ some u))
    → ((v : ℕ) → (path : List ℕ) × (resolve_path fuel self s (some v) ≡ done path))
    → (paths' : Dict Network (List ℕ)) × (resolve_all fuel self s ns paths ≡ done paths')
      × ((n : Network) → (Resolved fuel self s paths n) ⊎ In n ns → Resolved fuel self s paths' n)
unfolding resolve_all
resolve_all_lem fuel self s [] paths known total =
    (paths, refl, λ n h. elim h [ inl r ↦ r | inr i ↦ absurd i ])
resolve_all_lem fuel self s (m ∷ ns) paths known total =
    let (u, at) = known m (inl refl) in
    let (path, found) = total u in
    let now = set paths m (reverse path) in
    let (paths', ends, all) = resolve_all_lem fuel self s ns now (λ n i. known n (inr i)) total in
    (
      paths',
      rw (at, found) ends,
      λ n h. elim h [
        | inl r ↦ all n (inl (Resolved-set fuel self s paths m n u path at found r))
        | inr (inl same) ↦ all n (
            inl (
              u,
              path,
              ap (get s.prev) (sym same) ∙ at,
              found,
              ground (arith, get-set paths m n (reverse path), (net_beq_iff m n).1 same),
            ))
        | inr (inr i) ↦ all n (inr i)
      ],
    )

key_of_get : (m : Dict Network ℕ) (n : Network) (u : ℕ) → get m n ≡ some u → In n (keys m)
unfolding get
key_of_get [] n u g = absurd (cc g)
key_of_get ((j, x) ∷ m) n u g = elim (Bool-cases (j == n)) [
  | inl match ↦ inl ((net_beq_iff j n).0 match)
  | inr other ↦ inr (key_of_get m n u (rw (other, get) at g))
]

pub get_of_key : (m : Dict Network ℕ) (n : Network) → In n (keys m) → (u : ℕ) × (get m n ≡ some u)
unfolding get
get_of_key [] n i = absurd i
get_of_key ((j, x) ∷ m) n i = elim (Bool-cases (j == n)) [
  | inl match ↦ (x, rw (match, get) refl)
  | inr other ↦ elim i [
    | inl same ↦ absurd (cc (other, (net_beq_iff j n).1 same))
    | inr later ↦ let (u, g) = get_of_key m n later in (u, rw (other, get) g)
  ]
]

abbrev done_or : {A : Type 0} → A → Run A → A
done_or d (done x) = x
done_or d r = d

pub done-injective : {A : Type 0} {x y : A} → done x ≡ done y → x ≡ y
done-injective {x} e = ap (done_or x) e

-- After a complete run the paths are made without an exception and within their fuel. A prefix at a
-- distance below `sys.maxsize` has a path along links of the database to a system that has the prefix
-- up, whose length and the prefix's metric there add up to the distance.
pub address_paths_lem :
    (db : Database) (self : ℕ) (s : State)
    → IsKeyed db
    → shortest_paths self db ≡ done s
    → (paths : Dict Network (List ℕ)) × (address_paths self db s ≡ done paths)
      × ((n : Network) (e : ℕ)
          → get s.distance n ≡ some e
          → e < maxsize
          → (u : ℕ) × (path : List ℕ) × (p : LinkStatePdu) × (a : ExtendedIpReachability) × (get
                paths n
              ≡ some (reverse path))
            × Trail db self path u (dist s.system_distance u)
            × (get db u ≡ some p)
            × In a (ip_tlvs p.tlvs)
            × (a.state ≡ up)
            × (a.prefix ≡ n)
            × (e ≡ dist s.system_distance u + a.metric))
unfolding address_paths
address_paths_lem db self s keyed ends =
    let (order, tree) = shortest_paths-Tree db self s keyed ends in
    let few : length order ≤ length db = omega (arith, tree.bound) in
    let (paths, made, all) =
      resolve_all_lem (suc (length db)) self s (keys s.prev) [] (get_of_key s.prev)
        (λ v. resolve_any db self s order (length db) tree v few) in
    let short : Promises db self (done s) =
      subst (Promises db self) ends (shortest_paths-Promises db self keyed) in
    let zero_self : dist s.system_distance self ≡ 0 = omega (arith, (short self).0 0 here) in
    (
      paths,
      made,
      λ n e at low.
          let (u, p, a, (gu, i, au, an, sum, from)) =
            (shortest_paths-prefixes db self s keyed ends).1 n e at in
          let (v, path, at_v, found, there) = all n (inr (key_of_get s.prev n u from)) in
          let v_u : v ≡ u = ground (arith, at_v, from) in
          let left = tree.covers u (ground (arith, has-get db u, gu)) refl in
          let (path', found', trail) =
            resolve-Linear db self s order (length db) tree order (suc (length db)) u tree.linear
              (omega (arith, few)) left in
          let same : path' ≡ path = done-injective (
            sym found'
            ∙ subst (λ y. resolve_path (suc (length db)) self s (some y) ≡ done path) v_u found) in
          (
            u,
            path,
            p,
            a,
            there,
            subst (λ y. Trail db self y u (dist s.system_distance u)) same
                (trail zero_self (omega (arith, low, sum))),
            gu,
            i,
            au,
            an,
            sum,
          ),
    )

resolve_systems_lem :
    (fuel self : ℕ) (s : State) (vs : List ℕ) (paths : Dict ℕ (List ℕ))
    → ((v : ℕ) → (path : List ℕ) × (resolve_path fuel self s (some v) ≡ done path))
    → (paths' : Dict ℕ (List ℕ)) × (resolve_systems fuel self s vs paths ≡ done paths')
unfolding resolve_systems resolve_path
resolve_systems_lem fuel self s [] paths total = (paths, refl)
resolve_systems_lem fuel self s (v ∷ vs) paths total = elim (Option-cases (parent s v)) [
  | inl root ↦
      let (paths', ends) = resolve_systems_lem fuel self s vs (set paths v []) total in
      (paths', rw root ends)
  | inr (p, above) ↦
      let (path, found) = total p in
      let (paths', ends) = resolve_systems_lem fuel self s vs (set paths v path) total in
      (paths', rw (above, found) ends)
]

-- On a database that is not empty and has each LSP under its system's id, the whole function ends
-- within its fuel and without an exception, early or with a result.
pub run_full_dijkstra-ends :
    (self : ℕ) (db : Database)
    → IsKeyed db
    → db ≢ []
    → (run_full_dijkstra self db ≡ unconverged)
      ⊎ ((r : Result) × (run_full_dijkstra self db ≡ done r))
unfolding run_full_dijkstra
run_full_dijkstra-ends self db keyed some_lsp =
    ended (shortest_paths self db) refl (shortest_paths-Promises db self keyed)
  where
    ended :
        (r : Run State)
        → shortest_paths self db ≡ r
        → Promises db self r
        → (run_full_dijkstra self db ≡ unconverged)
          ⊎ ((x : Result) × (run_full_dijkstra self db ≡ done x))
    ended (fault f) e h = absurd h
    ended out_of_fuel e h = absurd h
    ended unconverged e h = inl (rw (run_full_dijkstra, e) refl)
    ended (done s) e h =
        let (order, tree) = shortest_paths-Tree db self s keyed e in
        let few : length order ≤ length db = omega (arith, tree.bound) in
        let (addresses, made, all) = address_paths_lem db self s keyed e in
        let (systems, found) =
          resolve_systems_lem (suc (length db)) self s (keys s.prev_system) []
            (λ v. resolve_any db self s order (length db) tree v few) in
        elim (List-cases db) [
          | inl none_there ↦ absurd (some_lsp none_there)
          | inr (x, more, there) ↦
              let seen : last_lsp db ≡ done tt = rw there refl in
              inr (
                record {
                  address_distances = s.distance;
                  system_paths = systems;
                  address_paths = addresses;
                },
                rw (run_full_dijkstra, e, made, found, seen) refl,
              )
        ]
