-- ===== src/Rsvp/Cspf/Topology.antt =====
-- The network that `shortest_path` of routersim/rsvp/process.py searches, as a link state database of
-- routers, whose LSPs have neither the links with the excluded address nor those to this router.
use router_sim.Base.{
  ℕ, zero, suc, ◌≡◌, refl, sym, ap, ◌∙◌, Bool, true, false, ◌||◌, List, [], ◌∷◌, ◌++◌, map, Option,
  none, some, if◌then◌else◌, ◌==◌, nat_eq, get, has, has-get, length, All, arith, Option-cases,
  Bool-cases, inl, inr, ◌⊎◌,
}
use router_sim.Isis.{
  ConnectionState, LinkStatePdu, ExtendedIsReachability, ExtendedIpReachability, Tlv,
  is_reachability, ip_reachability, is_tlvs, ip_tlvs, up, down, neighbor_ip, local_ip,
}
use router_sim.Isis.Spf.{
  State, done, ◌>>=◌, relax, relax_all, reach_address, reach_addresses, settle, loop, Database,
  take_nearest,
}
use router_sim.Rsvp.Cspf.{
  Lsp, Ted, is_excluded, avoids, covers_excluded, shorten, visit_neighbor, visit_neighbors,
  visit_address, visit_addresses, visit_router, visit_queue,
}

-- The router that an LSP's neighbour is.
unfoldable pub router_of : Ted → ℕ → ℕ
router_of db i = elim (get db i) [ none ↦ i | some p ↦ p.routerid ]

-- Every neighbour of an LSP has an LSP.
abbrev pub IsNamed : Ted → Lsp → Type 0
IsNamed db p = All (λ n. has db n.system_id ≡ true) p.neighbors

-- Whether a link has the address at one of its two ends.
abbrev pub is_end : ℕ → Option ℕ → Bool
is_end e none = false
is_end e (some a) = a == e

unfoldable pub touches : Option ℕ → ExtendedIsReachability → Bool
touches none n = false
touches (some e) n = is_end e (local_ip n.tlvs) || is_end e (neighbor_ip n.tlvs)

excluded-end : (e : ℕ) (a : Option ℕ) → is_excluded (some e) a ≡ is_end e a
excluded-end e none = refl
excluded-end e (some a) = refl

or_comm : (a b : Bool) → (a || b) ≡ (b || a)
or_comm true true = refl
or_comm true false = refl
or_comm false true = refl
or_comm false false = refl

avoids-touches : (ex : Option ℕ) (n : ExtendedIsReachability) → avoids ex n ≡ touches ex n
unfolding touches
avoids-touches none n = refl
avoids-touches (some e) n =
    ap (λ b. b || is_excluded (some e) (local_ip n.tlvs)) (excluded-end e (neighbor_ip n.tlvs))
    ∙ ap (λ b. is_end e (neighbor_ip n.tlvs) || b) (excluded-end e (local_ip n.tlvs))
    ∙ or_comm (is_end e (neighbor_ip n.tlvs)) (is_end e (local_ip n.tlvs))

state_cases : (c : ConnectionState) → (c ≡ up) ⊎ (c ≡ down)
state_cases up = inl refl
state_cases down = inr refl

module _ (db : Ted) (self : ℕ) (exclude : Option ℕ) where
  unfoldable pub kept_links : List ExtendedIsReachability → List ExtendedIsReachability
  unfolding router_of touches
  kept_links [] = []
  kept_links (n ∷ ns) =
      let rest = kept_links ns in
      if router_of db n.system_id == self || touches exclude n
      then rest
      else record n { system_id = router_of db n.system_id } ∷ rest

  unfoldable pub kept_prefixes : List ExtendedIpReachability → List ExtendedIpReachability
  kept_prefixes [] = []
  kept_prefixes (a ∷ rest) =
      if covers_excluded exclude a.prefix then kept_prefixes rest else a ∷ kept_prefixes rest

  abbrev pub tlvs_of : List ExtendedIsReachability → List ExtendedIpReachability → List Tlv
  tlvs_of ns as' = map is_reachability ns ++ map ip_reachability as'

  unfoldable pub pruned : Lsp → LinkStatePdu
  unfolding kept_links kept_prefixes
  pruned p = record {
    source_address = p.routerid;
    lsp_id = p.routerid;
    seq_no = 0;
    tlvs = tlvs_of (kept_links p.neighbors) (kept_prefixes p.addresses);
  }

  unfoldable pub topology : Ted → Database
  unfolding pruned
  topology [] = []
  topology ((k, p) ∷ m) = (k, pruned p) ∷ topology m

  is_tlvs-tlvs_of :
      (ns : List ExtendedIsReachability) (ps : List ExtendedIpReachability)
      → is_tlvs (tlvs_of ns ps) ≡ ns
  unfolding is_tlvs
  is_tlvs-tlvs_of [] [] = refl
  is_tlvs-tlvs_of [] (a ∷ rest) = is_tlvs-tlvs_of [] rest
  is_tlvs-tlvs_of (n ∷ ns) ps = ap (λ xs. n ∷ xs) (is_tlvs-tlvs_of ns ps)

  ip_tlvs-tlvs_of :
      (ns : List ExtendedIsReachability) (ps : List ExtendedIpReachability)
      → ip_tlvs (tlvs_of ns ps) ≡ ps
  unfolding ip_tlvs
  ip_tlvs-tlvs_of [] [] = refl
  ip_tlvs-tlvs_of [] (a ∷ rest) = ap (λ xs. a ∷ xs) (ip_tlvs-tlvs_of [] rest)
  ip_tlvs-tlvs_of (n ∷ ns) ps = ip_tlvs-tlvs_of ns ps

  visit_neighbors-relax_all :
      (node source : ℕ) (ns : List ExtendedIsReachability) (s : State)
      → All (λ n. has db n.system_id ≡ true) ns
      → visit_neighbors db self exclude node source ns s ≡ relax_all node source (kept_links ns) s
  unfolding visit_neighbors visit_neighbor shorten relax_all relax kept_links
  visit_neighbors-relax_all node source [] s named = refl
  visit_neighbors-relax_all node source (n ∷ ns) s named = elim (has-get db n.system_id) [
    | inr (no_key, _) ↦ absurd (cc (sym named.0 ∙ no_key))
    | inl (_, (p, found)) ↦
        let same : avoids exclude n ≡ touches exclude n = avoids-touches exclude n in
        let of : router_of db n.system_id ≡ p.routerid = rw (router_of, found) refl in
        elim (Bool-cases (p.routerid == self)) [
          | inl mine ↦ rw (found, of, mine) (visit_neighbors-relax_all node source ns s named.1)
          | inr other ↦ elim (Bool-cases (touches exclude n)) [
            | inl avoided ↦
                rw (found, of, other, same, avoided)
                  (visit_neighbors-relax_all node source ns s named.1)
            | inr taken ↦
                rw (found, of, other, same, taken)
                  (ap (λ f. shorten db self exclude node source p.routerid n.metric s >>= f)
                    (λ i t. visit_neighbors-relax_all node source ns t named.1 i))
          ]
        ]
  ]

  visit_address_lem :
      (node source : ℕ) (a : ExtendedIpReachability) (s : State)
      → visit_address db self exclude node source a s
        ≡ (if covers_excluded exclude a.prefix then done s else reach_address node source a s)
  unfolding visit_address reach_address
  visit_address_lem node source a s = elim (Bool-cases (covers_excluded exclude a.prefix)) [
    | inl hidden ↦ elim (state_cases a.state) [
      | inl at ↦ rw (at, hidden) refl
      | inr at ↦ rw (at, hidden) refl
    ]
    | inr seen ↦ elim (state_cases a.state) [
      | inl at ↦ rw (at, seen) refl
      | inr at ↦ rw (at, seen) refl
    ]
  ]

  visit_addresses-reach_addresses :
      (node source : ℕ) (ps : List ExtendedIpReachability) (s : State)
      → visit_addresses db self exclude node source ps s
        ≡ reach_addresses node source (kept_prefixes ps) s
  unfolding visit_addresses reach_addresses kept_prefixes
  visit_addresses-reach_addresses node source [] s = refl
  visit_addresses-reach_addresses node source (a ∷ rest) s =
      let on : (t : State)
          → visit_addresses db self exclude node source rest t
            ≡ reach_addresses node source (kept_prefixes rest) t =
        λ t. visit_addresses-reach_addresses node source rest t in
      ap (λ r. r >>= visit_addresses db self exclude node source rest)
        (visit_address_lem node source a s)
      ∙ elim (Bool-cases (covers_excluded exclude a.prefix)) [
        | inl hidden ↦ rw hidden (on s)
        | inr seen ↦ rw seen (ap (λ f. reach_address node source a s >>= f) (λ i t. on t i))
      ]

  get-topology :
      (m : Ted) (v : ℕ)
      → get (topology m) v ≡ (elim (get m v) [ none ↦ none | some p ↦ some (pruned p) ])
  unfolding topology get
  get-topology [] v = refl
  get-topology ((k, p) ∷ m) v = ground (arith, get-topology m v)

  pub has-topology : (m : Ted) (v : ℕ) → has (topology m) v ≡ has m v
  unfolding topology has
  has-topology [] v = refl
  has-topology ((k, p) ∷ m) v = ground (arith, has-topology m v)

  pub length-topology : (m : Ted) → length (topology m) ≡ length m
  unfolding topology
  length-topology [] = refl
  length-topology ((k, p) ∷ m) = ap suc (length-topology m)

  visit_router-settle :
      (ted : Ted) (node : ℕ) (s : State)
      → ((v : ℕ) (p : Lsp) → get ted v ≡ some p → IsNamed db p)
      → visit_router db self exclude ted node s ≡ settle (topology ted) node s
  unfolding visit_router settle pruned
  visit_router-settle ted node s named = elim (Option-cases (get ted node)) [
    | inl missing ↦ rw (get-topology ted node, missing) refl
    | inr (p, found) ↦
        rw (get-topology ted node, found)
          (rw
            (
              is_tlvs-tlvs_of (kept_links p.neighbors) (kept_prefixes p.addresses),
              ip_tlvs-tlvs_of (kept_links p.neighbors) (kept_prefixes p.addresses),
              visit_neighbors-relax_all node p.routerid p.neighbors s (named node p found),
            )
            (ap (λ f. relax_all node p.routerid (kept_links p.neighbors) s >>= f)
              (λ i t. visit_addresses-reach_addresses node p.routerid p.addresses t i)))
  ]

  -- The loop over the queue is the one of `run_full_dijkstra`, on this network.
  pub visit_queue-loop :
      (ted : Ted)
      → ((v : ℕ) (p : Lsp) → get ted v ≡ some p → IsNamed db p)
      → (fuel : ℕ) (s : State) (queue : List ℕ)
      → visit_queue db self exclude ted fuel s queue ≡ loop (topology ted) fuel s queue
  unfolding visit_queue loop
  visit_queue-loop ted named fuel s [] = refl
  visit_queue-loop ted named zero s (q ∷ qs) = refl
  visit_queue-loop ted named (suc fuel) s (q ∷ qs) =
      let round : (t : ℕ × List ℕ)
          → (visit_router db self exclude ted t.0 s >>= λ s'.
              visit_queue db self exclude ted fuel s' t.1)
            ≡ (settle (topology ted) t.0 s >>= λ s'. loop (topology ted) fuel s' t.1) =
        λ t.
          ap (λ r. r >>= λ s'. visit_queue db self exclude ted fuel s' t.1)
            (visit_router-settle ted t.0 s named)
          ∙ ap (λ f. settle (topology ted) t.0 s >>= f)
              (λ i s'. visit_queue-loop ted named fuel s' t.1 i) in
      ap (λ f. take_nearest s (q ∷ qs) >>= f) (λ i t. round t i)

  -- What the network has of a router, and to whom its links go.
  pub topology-neighbors :
      (m : Ted) (u : ℕ) (p : LinkStatePdu)
      → get (topology m) u ≡ some p
      → (q : Lsp) × (get m u ≡ some q) × (is_tlvs p.tlvs ≡ kept_links q.neighbors)
  unfolding pruned
  topology-neighbors m u p found = elim (Option-cases (get m u)) [
    | inl missing ↦ absurd (cc (rw (get-topology m u, missing) at found))
    | inr (q, there) ↦
        let same : p ≡ pruned q = cc (rw (get-topology m u, there) at found) in
        (
          q,
          there,
          ap (λ x. is_tlvs x.tlvs) same
              ∙ is_tlvs-tlvs_of (kept_links q.neighbors) (kept_prefixes q.addresses),
        )
  ]

  pub All-kept_links :
      (P : ℕ → Type 0)
      → ((i : ℕ) → has db i ≡ true → P (router_of db i))
      → (ns : List ExtendedIsReachability) → All (λ n. has db n.system_id ≡ true) ns
      → All (λ n. P n.system_id) (kept_links ns)
  unfolding kept_links
  All-kept_links P f [] named = tt
  All-kept_links P f (n ∷ ns) named =
      elim (Bool-cases (router_of db n.system_id == self || touches exclude n)) [
        | inl left_out ↦ rw left_out (All-kept_links P f ns named.1)
        | inr kept ↦ rw kept (f n.system_id named.0, All-kept_links P f ns named.1)
      ]
