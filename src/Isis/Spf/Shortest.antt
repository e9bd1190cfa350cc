-- ===== src/Isis/Spf/Shortest.antt =====
-- `run_full_dijkstra` finds shortest paths: the distances at its end are the lengths of shortest
-- walks, it never raises, and it returns early only if an LSP names a system that has none.
use router_sim.Base.{
  ℕ, zero, suc, ◌+◌, ◌≤◌, ◌<◌, ◌≡◌, refl, sym, ◌∙◌, subst, true, false, ◌||◌, List, [], ◌∷◌, some,
  ◌==◌, nat_eq, Dict, get, has, has-get, length, In, arith, Option-cases, inl, inr,
}
use router_sim.Base.Sorting.{sort_by}
use router_sim.Net.{Network, net_eq}
use router_sim.Isis.{LinkStatePdu, ExtendedIpReachability, ip_tlvs, is_tlvs, up}
use router_sim.Isis.Spf.{
  Run, done, unconverged, fault, out_of_fuel, ◌>>=◌, settle, loop, relax_all, reach_addresses,
  start, begin, values, source_of, shortest_paths, maxsize, Database, State,
}
use router_sim.Isis.Spf.Graph.{Edge, Walk, here, step, dist, IsKeyed, keyed_source, mem}
use router_sim.Isis.Spf.Scan.{Known, Below, take_nearest_lem}
use router_sim.Isis.Spf.Relax.{AfterRelax, relax_all_lem}
use router_sim.Isis.Spf.Address.{AfterAddress, AtMost, reach_addresses_lem}
use router_sim.Isis.Spf.Round.{Inv, next_Inv}
use router_sim.Isis.Spf.Start.{described, described_sorted, begin-Inv}
use router_sim.Isis.Spf.Tree.{Tree, next_Tree, begin-Tree, length_sorted}

-- Some LSP names a neighbour of which the database has no LSP.
abbrev pub Missing : Database → ℕ → Type 0
Missing db self = (u : ℕ) × (v : ℕ) × (w : ℕ) × Edge db u v w × ((self == v || has db v) ≡ false)

-- What holds of the distances and of the predecessors.
abbrev pub Kept : Database → ℕ → State → List ℕ → Type 0
Kept db self s queue =
    Inv db self s queue × ((order : List ℕ) × Tree db self s queue order (length db))

abbrev pub After : Database → ℕ → List ℕ → Run State → Type 0
After db self queue (done s) = Kept db self s queue
After db self queue unconverged = Missing db self
After db self queue (fault e) = ⊥
After db self queue out_of_fuel = ⊥

value_of : {V : Type 0} (m : Dict ℕ V) (v : ℕ) → has m v ≡ true → (x : V) × (get m v ≡ some x)
value_of m v h = elim (has-get m v) [
  | inl (_, found) ↦ found
  | inr (no_key, _) ↦ absurd (cc (sym h ∙ no_key))
]

module _ (db : Database) (self : ℕ) (keyed : IsKeyed db) where
  settle_lem :
      (s : State) (queue rest : List ℕ) (m d : ℕ)
      → Kept db self s queue
      → length queue ≡ suc (length rest)
      → ((v : ℕ) → mem v queue ≡ (m == v || mem v rest))
      → Below s.system_distance d queue
      → get s.system_distance m ≡ some d
      → (pdu : LinkStatePdu) → get db m ≡ some pdu
      → After db self rest (settle db m s)
  unfolding settle
  settle_lem s queue rest m d (inv, (order, tree)) shorter taken least at pdu lsp =
      rw (lsp, keyed_source db m pdu keyed lsp)
        (relaxed (relax_all m m (is_tlvs pdu.tlvs) s) (relax_all_lem m m d (is_tlvs pdu.tlvs) s at))
    where
      relaxed :
          (r : Run State)
          → AfterRelax m d (is_tlvs pdu.tlvs) s r
          → After db self rest (r >>= reach_addresses m m (ip_tlvs pdu.tlvs))
      relaxed (done t) r =
          addressed (reach_addresses m m (ip_tlvs pdu.tlvs) t)
            (reach_addresses_lem m m d (ip_tlvs pdu.tlvs) t (r.settled m (ground (arith, at)) ∙ at))
        where
          addressed :
              (x : Run State) → AfterAddress m d (ip_tlvs pdu.tlvs) t x → After db self rest x
          addressed (done s') a = (
            next_Inv db self s queue rest m d pdu t s' inv taken least at lsp r a,
            (
              m ∷ order,
              next_Tree db self s queue rest m d pdu t s' inv taken least at lsp r a order
                  (length db) tree shorter,
            ),
          )
          addressed unconverged a = absurd a
          addressed (fault e) a = a
          addressed out_of_fuel a = a
      relaxed unconverged (n, i, h) =
          (m, n.system_id, n.metric, (pdu, lsp, n, i, refl, refl), sym (inv.keys n.system_id) ∙ h)
      relaxed (fault e) r = r
      relaxed out_of_fuel r = r

  loop_lem :
      (fuel : ℕ) (s : State) (queue : List ℕ)
      → length queue ≤ fuel
      → Kept db self s queue
      → After db self [] (loop db fuel s queue)
  unfolding loop
  loop_lem fuel s [] l kept = kept
  loop_lem zero s (q ∷ qs) l kept = absurd (omega arith)
  loop_lem (suc fuel) s (q ∷ qs) l (inv, tree) =
      let known : Known s.system_distance (q ∷ qs) =
        λ v h. value_of s.system_distance v (inv.keys v ∙ ground (arith, inv.queued v h)) in
      let (m, r, e, taken, shorter, least) = take_nearest_lem s q qs known inv.cap in
      let queued : mem m (q ∷ qs) ≡ true = taken m ∙ ground arith in
      let (d, at) = known m queued in
      let (pdu, lsp) = value_of db m (inv.queued m queued) in
      let below : Below s.system_distance d (q ∷ qs) = λ v h. ground (arith, least v h, at) in
      rw e (
        go r (omega (arith, shorter)) (settle db m s)
          (settle_lem s (q ∷ qs) r m d (inv, tree) shorter taken below at pdu lsp) (loop_lem fuel))
    where
      go :
          (r : List ℕ)
          → length r ≤ fuel
          → (x : Run State) → After db self r x
          → ((t : State) (rest : List ℕ)
              → length rest ≤ fuel
              → Kept db self t rest
              → After db self [] (loop db fuel t rest))
          → After db self [] (x >>= λ t. loop db fuel t r)
      go r l (done t) inv rest = rest t r l inv
      go r l unconverged miss rest = miss
      go r l (fault e) a rest = a
      go r l out_of_fuel a rest = a

  -- the loop from its beginning, whatever the order of the LSPs
  pub loop-After :
      (ps : List LinkStatePdu)
      → ((v : ℕ) → described v ps ≡ has db v)
      → length ps ≤ length db
      → After db self [] (loop db (length (begin self ps).1) (begin self ps).0 (begin self ps).1)
  loop-After ps all few =
      loop_lem (length (begin self ps).1) (begin self ps).0 (begin self ps).1 (omega arith)
        (begin-Inv self db ps all, ([], begin-Tree self db ps all (length db) few))

  shortest_paths-After : After db self [] (shortest_paths self db)
  unfolding shortest_paths start
  shortest_paths-After =
      loop-After (sort_by source_of (values db)) (described_sorted db keyed)
        (omega (arith, length_sorted db))

Walk-bound :
    (db : Database) (self : ℕ) (s : State)
    → Inv db self s []
    → {v t : ℕ} → Walk db self v t
    → dist s.system_distance v ≤ t
Walk-bound db self s inv here = omega (arith, inv.origin)
Walk-bound db self s inv (step {u} {v} {d} {w} p e sum) =
    omega (arith, Walk-bound db self s inv p, inv.relaxed u v w refl e, sum)

Walk-found :
    (db : Database) (self : ℕ) (s : State)
    → Inv db self s []
    → (v : ℕ) → dist s.system_distance v < maxsize
    → Walk db self v (dist s.system_distance v)
Walk-found db self s inv v low = elim (Option-cases (get s.system_distance v)) [
  | inl none_there ↦ absurd (ground (arith, low, none_there))
  | inr (d, at) ↦ elim (inv.sound v d at) [
    | inl far ↦ absurd (ground (arith, low, at, far))
    | inr walk ↦ rw (at, dist) walk
  ]
]

-- The distances of the systems are those of shortest walks: no walk is shorter, and below
-- `sys.maxsize` there is a walk of that length.
abbrev pub IsShortest : Database → ℕ → State → Type 0
IsShortest db self s =
    (v : ℕ)
    → ((t : ℕ) → Walk db self v t → dist s.system_distance v ≤ t)
      × (dist s.system_distance v < maxsize → Walk db self v (dist s.system_distance v))

-- What the run promises of its outcome.
abbrev pub Promises : Database → ℕ → Run State → Type 0
Promises db self (done s) = IsShortest db self s
Promises db self unconverged = Missing db self
Promises db self (fault e) = ⊥
Promises db self out_of_fuel = ⊥

pub After-Promises :
    (db : Database) (self : ℕ) (r : Run State) → After db self [] r → Promises db self r
After-Promises db self (done s) (inv, tree) =
    λ v. (λ t w. Walk-bound db self s inv w, Walk-found db self s inv v)
After-Promises db self unconverged miss = miss
After-Promises db self (fault e) a = a
After-Promises db self out_of_fuel a = a

-- With each LSP stored under its system's id, the run ends without an exception: either with
-- shortest distances, or early, and then some LSP names a system that has none.
pub shortest_paths-Promises :
    (db : Database) (self : ℕ) → IsKeyed db → Promises db self (shortest_paths self db)
shortest_paths-Promises db self keyed =
    After-Promises db self (shortest_paths self db) (shortest_paths-After db self keyed)

-- The distance of every prefix is the least of what the systems offer: no system that has the
-- prefix up offers less, and one of them offers it, which the path to the prefix ends in.
pub shortest_paths-prefixes :
    (db : Database) (self : ℕ) (s : State)
    → IsKeyed db
    → shortest_paths self db ≡ done s
    → ((u : ℕ) (p : LinkStatePdu) (a : ExtendedIpReachability)
        → get db u ≡ some p
        → In a (ip_tlvs p.tlvs)
        → a.state ≡ up
        → AtMost (dist s.system_distance u + a.metric) (get s.distance a.prefix))
      × ((n : Network) (e : ℕ)
          → get s.distance n ≡ some e
          → (u : ℕ) × (p : LinkStatePdu) × (a : ExtendedIpReachability) × ((get db u ≡ some p)
              × In a (ip_tlvs p.tlvs)
              × (a.state ≡ up)
              × (a.prefix ≡ n)
              × (e ≡ dist s.system_distance u + a.metric)
              × (get s.prev n ≡ some u)))
shortest_paths-prefixes db self s keyed ends =
    let (inv, tree) : Kept db self s [] =
      subst (After db self []) ends (shortest_paths-After db self keyed) in
    (
      λ u p a g i h. inv.offered u p a refl g i h,
      λ n e g.
          let (u, p, a, (c, gu, i, au, ap', sum, from)) = inv.through n e g in
          (u, p, a, (gu, i, au, ap', sum, from)),
    )

-- The predecessors at the end, with the distances that they give.
pub shortest_paths-Tree :
    (db : Database) (self : ℕ) (s : State)
    → IsKeyed db
    → shortest_paths self db ≡ done s
    → (order : List ℕ) × Tree db self s [] order (length db)
shortest_paths-Tree db self s keyed ends =
    let (inv, tree) : Kept db self s [] =
      subst (After db self []) ends (shortest_paths-After db self keyed) in
    tree
