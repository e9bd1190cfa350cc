-- ===== src/Isis/Spf/Tree.antt =====
-- The predecessors in `prev_system` form a tree: the systems that left the queue, latest first, each
-- with its predecessor among those that left before.
use router_sim.Base.{
  ℕ, suc, ◌+◌, ◌≤◌, ◌≡◌, refl, sym, ◌∙◌, ap, subst, true, false, ◌||◌, List, [], ◌∷◌, ◌++◌, set,
  has, get-set, length-append, Option, none, some, ◌==◌, nat_eq, get, length, arith, Bool-cases,
  inl, inr, ◌⊎◌,
}
use router_sim.Isis.{LinkStatePdu, is_tlvs, ip_tlvs}
use router_sim.Isis.Spf.{maxsize, Database, State, init_systems, values, source_of, begin, blank}
use router_sim.Isis.Spf.Graph.{Edge, dist, mem}
use router_sim.Isis.Spf.Scan.{Below}
use router_sim.Isis.Spf.Relax.{Relaxed}
use router_sim.Isis.Spf.Address.{Addressed}
use router_sim.Isis.Spf.Start.{described, get-begin, begin_queue}
use router_sim.Base.Sorting.{sort_by, insert_by}
use router_sim.Isis.Spf.Round.{Inv, near, stays, at_last, same}

-- `prev_system.get(v)`
abbrev pub joined : Option (Option ℕ) → Option ℕ
joined none = none
joined (some o) = o

abbrev pub parent : State → ℕ → Option ℕ
parent s v = joined (get s.prev_system v)

-- Each system's predecessor comes later in the list.
abbrev pub Linear : State → List ℕ → Type 0
Linear s [] = Unit
Linear s (u ∷ rest) = ((p : ℕ) → parent s u ≡ some p → mem p rest ≡ true) × Linear s rest

pub record Tree (db : Database) (self : ℕ) (s : State) (queue order : List ℕ) (n : ℕ) : Type 0 where
  pub linear : Linear s order
  pub nearer :
      (u q : ℕ)
      → mem u order ≡ true
      → mem q queue ≡ true
      → dist s.system_distance u ≤ dist s.system_distance q
  pub parents :
      (v p : ℕ)
      → parent s v ≡ some p
      → (mem p order ≡ true)
        × (w : ℕ) × Edge db p v w
        × (dist s.system_distance v ≡ dist s.system_distance p + w)
  pub roots : (v : ℕ) → parent s v ≡ none → (v ≡ self) ⊎ (dist s.system_distance v ≡ maxsize)
  pub top : parent s self ≡ none
  pub covers : (u : ℕ) → has db u ≡ true → mem u queue ≡ false → mem u order ≡ true
  pub bound : length order + length queue ≤ n

Linear-same :
    (s s' : State) (order : List ℕ)
    → ((u : ℕ) → mem u order ≡ true → parent s' u ≡ parent s u)
    → Linear s order
    → Linear s' order
Linear-same s s' [] h l = tt
Linear-same s s' (u ∷ rest) h l = (
  λ p k. l.0 p (sym (h u (ground arith)) ∙ k),
  Linear-same s s' rest (λ v k. h v (ground (arith, k))) l.1,
)

module _ (db : Database) (self : ℕ) (s : State) (queue rest : List ℕ) (m d : ℕ) (pdu : LinkStatePdu)
    (t s' : State) (inv : Inv db self s queue)
    (taken : (v : ℕ) → mem v queue ≡ (m == v || mem v rest))
    (least : Below s.system_distance d queue) (at : get s.system_distance m ≡ some d)
    (lsp : get db m ≡ some pdu) (r : Relaxed m d (is_tlvs pdu.tlvs) s t)
    (a : Addressed m d (ip_tlvs pdu.tlvs) t s') (order : List ℕ) (n : ℕ)
    (tree : Tree db self s queue order n) (shorter : length queue ≡ suc (length rest)) where
  parent_after : (v : ℕ) → parent s' v ≡ parent t v
  parent_after v = ap (λ x. joined (get x v)) a.parents

  queued_last : mem m queue ≡ true
  queued_last = taken m ∙ ground arith

  -- no further than the system that leaves
  before : (u : ℕ) → mem u order ≡ true → dist s.system_distance u ≤ d
  before u h = ground (arith, tree.nearer u m h queued_last, at)

  still : (u : ℕ) → mem u order ≡ true → get s'.system_distance u ≡ get s.system_distance u
  still u h = stays db self s queue rest m d pdu t s' inv taken least at lsp r a u (before u h)

  same_parent : (u : ℕ) → dist s.system_distance u ≤ d → parent s' u ≡ parent s u
  same_parent u h = elim (r.origin u) [
    | inl kept ↦ parent_after u ∙ ap joined kept.1
    | inr (x, i, (to, there, from, less)) ↦ absurd (omega (arith, h, less))
  ]

  next_parents :
      (v p : ℕ)
      → parent s' v ≡ some p
      → (mem p (m ∷ order) ≡ true)
        × (w : ℕ) × Edge db p v w
        × (dist s'.system_distance v ≡ dist s'.system_distance p + w)
  next_parents v p g = elim (r.origin v) [
    | inl kept ↦
        let (there, w, e, sum) =
          tree.parents v p (sym (ap joined kept.1) ∙ sym (parent_after v) ∙ g) in
        (
          ground (arith, there),
          w,
          e,
          ground (
            arith,
            sum,
            still p there,
            kept.0,
            same db self s queue rest m d pdu t s' inv taken least at lsp r a v,
          ),
        )
    | inr (x, i, (to, there, from, less)) ↦
        let here : m ≡ p = ground (arith, g, parent_after v, from) in
        let mine = at_last db self s queue rest m d pdu t s' inv taken least at lsp r a in
        let reached : get s'.system_distance v ≡ some (d + x.metric) =
          same db self s queue rest m d pdu t s' inv taken least at lsp r a v ∙ there in
        subst
          (λ y.
            (mem y (m ∷ order) ≡ true)
            × (w : ℕ) × Edge db y v w
            × (dist s'.system_distance v ≡ dist s'.system_distance y + w))
          here (ground arith, x.metric, (pdu, lsp, x, i, to, refl), ground (arith, mine, reached))
  ]

  next_roots : (v : ℕ) → parent s' v ≡ none → (v ≡ self) ⊎ (dist s'.system_distance v ≡ maxsize)
  next_roots v g = elim (r.origin v) [
    | inl kept ↦ elim (tree.roots v (sym (ap joined kept.1) ∙ sym (parent_after v) ∙ g)) [
      | inl e ↦ inl e
      | inr far ↦ inr (
          ground (
            arith,
            far,
            kept.0,
            same db self s queue rest m d pdu t s' inv taken least at lsp r a v,
          ))
    ]
    | inr (x, i, (to, there, from, less)) ↦ absurd (ground (arith, g, parent_after v, from))
  ]

  next_nearer :
      (u q : ℕ)
      → mem u (m ∷ order) ≡ true
      → mem q rest ≡ true
      → dist s'.system_distance u ≤ dist s'.system_distance q
  next_nearer u q h k =
      let far =
        near db self s queue rest m d pdu t s' inv taken least at lsp r a q
          (taken q ∙ ground (arith, k)) in
      let mine = at_last db self s queue rest m d pdu t s' inv taken least at lsp r a in
      elim (Bool-cases (m == u)) [
        | inl e ↦ ground (arith, far, mine, e)
        | inr e ↦
            let old : mem u order ≡ true = ground (arith, h, e) in
            ground (arith, far, still u old, before u old)
      ]

  -- The tree after the round, in which `m` has left the queue.
  pub next_Tree : Tree db self s' rest (m ∷ order) n
  next_Tree = record {
    linear = (
      λ p k. (tree.parents m p (sym (same_parent m (ground (arith, at))) ∙ k)).0,
      Linear-same s s' order (λ u h. same_parent u (before u h)) tree.linear,
    );
    nearer = next_nearer;
    parents = next_parents;
    roots = next_roots;
    top = same_parent self (omega (arith, inv.origin)) ∙ tree.top;
    covers = λ u h k. ground (arith, k, taken u, tree.covers u h);
    bound = omega (arith, tree.bound, shorter);
  }

-- No system has a predecessor before the first round.
module _ where
  init_systems-parent :
      (ps : List LinkStatePdu) (s : State) (queue : List ℕ)
      → ((v : ℕ) → parent s v ≡ none)
      → (v : ℕ) → parent (init_systems ps s queue).0 v ≡ none
  unfolding init_systems
  init_systems-parent [] s queue h = h
  init_systems-parent (p ∷ ps) s queue h =
      init_systems-parent ps
        (record s {
          system_distance = set s.system_distance p.source_address maxsize;
          prev_system = set s.prev_system p.source_address none;
        })
        (queue ++ p.source_address ∷ [])
        (λ v. ground (arith, get-set s.prev_system p.source_address v none, h v))

  length-init_systems :
      (ps : List LinkStatePdu) (s : State) (queue : List ℕ)
      → length (init_systems ps s queue).1 ≡ length queue + length ps
  unfolding init_systems
  length-init_systems [] s queue = omega arith
  length-init_systems (p ∷ ps) s queue =
      length-init_systems ps _ (queue ++ p.source_address ∷ [])
      ∙ omega (arith, length-append queue (p.source_address ∷ []))

  length-insert_by :
      (p : LinkStatePdu) (ps : List LinkStatePdu)
      → length (insert_by source_of p ps) ≡ suc (length ps)
  unfolding insert_by
  length-insert_by p [] = refl
  length-insert_by p (q ∷ ps) = ground (arith, length-insert_by p ps)

  length-sort_by : (ps : List LinkStatePdu) → length (sort_by source_of ps) ≡ length ps
  unfolding sort_by
  length-sort_by [] = refl
  length-sort_by (p ∷ ps) = length-insert_by p (sort_by source_of ps) ∙ ap suc (length-sort_by ps)

  length-values : (db : Database) → length (values db) ≡ length db
  unfolding values
  length-values [] = refl
  length-values ((k, p) ∷ m) = ap suc (length-values m)

  pub length_sorted : (db : Database) → length (sort_by source_of (values db)) ≡ length db
  length_sorted db = length-sort_by (values db) ∙ length-values db

  begin_parent : (self : ℕ) (ps : List LinkStatePdu) (v : ℕ) → parent (begin self ps).0 v ≡ none
  unfolding begin get
  begin_parent self ps = init_systems-parent ps blank [] (λ v. refl)

  pub length-begin : (self : ℕ) (ps : List LinkStatePdu) → length (begin self ps).1 ≡ length ps
  unfolding begin
  length-begin self ps = omega (arith, length-init_systems ps blank [])

  -- The tree before the first round.
  pub begin-Tree :
      (self : ℕ) (db : Database) (ps : List LinkStatePdu)
      → ((v : ℕ) → described v ps ≡ has db v)
      → (n : ℕ) → length ps ≤ n
      → Tree db self (begin self ps).0 (begin self ps).1 [] n
  begin-Tree self db ps all n few = record {
    linear = tt;
    nearer = λ u q h. absurd (cc h);
    parents = λ v p g. absurd (cc (g, begin_parent self ps v));
    roots = λ v g. ground (arith, get-begin self db ps all v);
    top = begin_parent self ps self;
    covers = λ u h k. absurd (cc (h, k, begin_queue self db ps all u));
    bound = omega (arith, length-begin self ps, few);
  }
