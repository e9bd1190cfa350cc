-- ===== src/Isis/Spf/Start.antt =====
-- The state with which the loop begins.
use router_sim.Base.{
  ℕ, ◌≡◌, refl, sym, ◌∙◌, ap, subst, Bool, false, ◌||◌, List, [], ◌∷◌, ◌++◌, none, some,
  if◌then◌else◌, ◌==◌, nat_eq, Dict, get, set, has, has-get, get-set, arith, Bool-cases, inl, inr,
  ◌⊎◌,
}
use router_sim.Base.Sorting.{sort_by, insert_by}
use router_sim.Net.{Network, net_eq}
use router_sim.Isis.{LinkStatePdu}
use router_sim.Isis.Spf.{init_systems, values, source_of, begin, blank, maxsize, Database, State}
use router_sim.Isis.Spf.Graph.{Walk, here, IsKeyed, mem}
use router_sim.Isis.Spf.Round.{Inv}

-- Whether some LSP describes a system.
abbrev pub described : ℕ → List LinkStatePdu → Bool
described v [] = false
described v (p ∷ ps) = p.source_address == v || described v ps

described-insert_by :
    (v : ℕ) (p : LinkStatePdu) (ps : List LinkStatePdu)
    → described v (insert_by source_of p ps) ≡ (p.source_address == v || described v ps)
unfolding insert_by
described-insert_by v p [] = refl
described-insert_by v p (q ∷ ps) = ground (arith, described-insert_by v p ps)

described-sort_by :
    (v : ℕ) (ps : List LinkStatePdu) → described v (sort_by source_of ps) ≡ described v ps
unfolding sort_by
described-sort_by v [] = refl
described-sort_by v (p ∷ ps) =
    described-insert_by v p (sort_by source_of ps)
    ∙ ap (λ b. p.source_address == v || b) (described-sort_by v ps)

described-values : (v : ℕ) (db : Database) → IsKeyed db → described v (values db) ≡ has db v
unfolding values has
described-values v [] k = refl
described-values v ((j, p) ∷ m) k = ground (arith, described-values v m k.1, k.0)

mem-append : (v : ℕ) (xs ys : List ℕ) → mem v (xs ++ ys) ≡ (mem v xs || mem v ys)
mem-append v [] ys = refl
mem-append v (x ∷ xs) ys = ground (arith, mem-append v xs ys)

-- What the first loop has done to one system's distance and to the queue.
record Initialised (ps : List LinkStatePdu) (s : State) (queue : List ℕ) (r : State × List ℕ)
    : Type 0 where
  distances :
      (v : ℕ)
      → get r.0.system_distance v
        ≡ (if described v ps then some maxsize else get s.system_distance v)
  queue_of : (v : ℕ) → mem v r.1 ≡ (mem v queue || described v ps)
  prefixes : r.0.distance ≡ s.distance

init_systems_lem :
    (ps : List LinkStatePdu) (s : State) (queue : List ℕ)
    → Initialised ps s queue (init_systems ps s queue)
unfolding init_systems
init_systems_lem [] s queue = record {
  distances = λ v. refl;
  queue_of = λ v. ground arith;
  prefixes = refl;
}
init_systems_lem (p ∷ ps) s queue =
    let s' = record s {
      system_distance = set s.system_distance p.source_address maxsize;
      prev_system = set s.prev_system p.source_address none;
    } in
    let rest = init_systems_lem ps s' (queue ++ p.source_address ∷ []) in
    record {
      distances = λ v.
          ground (arith, rest.distances v, get-set s.system_distance p.source_address v maxsize);
      queue_of = λ v. ground (arith, rest.queue_of v, mem-append v queue (p.source_address ∷ []));
      prefixes = rest.prefixes;
    }

pub described_sorted :
    (db : Database) → IsKeyed db → (v : ℕ) → described v (sort_by source_of (values db)) ≡ has db v
described_sorted db keyed v = described-sort_by v (values db) ∙ described-values v db keyed

module _ (self : ℕ) (db : Database) (ps : List LinkStatePdu)
    (described_db : (v : ℕ) → described v ps ≡ has db v) where
  initial : Initialised ps blank [] (init_systems ps blank [])
  initial = init_systems_lem ps blank []

  pub get-begin :
      (v : ℕ)
      → get (begin self ps).0.system_distance v
        ≡ (if self == v then some 0 else if has db v then some maxsize else none)
  unfolding begin get
  get-begin v = ground (
    arith,
    get-set (init_systems ps blank []).0.system_distance self v 0,
    initial.distances v,
    described_db v,
  )

  pub begin_queue : (v : ℕ) → mem v (begin self ps).1 ≡ has db v
  unfolding begin
  begin_queue v = initial.queue_of v ∙ described_db v

  begin_prefixes : (begin self ps).0.distance ≡ []
  unfolding begin
  begin_prefixes = initial.prefixes

  begin_sound :
      (v d : ℕ)
      → get (begin self ps).0.system_distance v ≡ some d
      → (d ≡ maxsize) ⊎ Walk db self v d
  begin_sound v d g = elim (Bool-cases (self == v)) [
    | inl e ↦
        let v_self : self ≡ v = ground (arith, e) in
        let zero_d : 0 ≡ d = ground (arith, g, get-begin v, e) in
        inr (subst (λ x. Walk db self x d) v_self (subst (Walk db self self) zero_d here))
    | inr other ↦ inl (ground (arith, g, get-begin v, other))
  ]

  -- The invariant of the loop before its first round.
  pub begin-Inv : Inv db self (begin self ps).0 (begin self ps).1
  unfolding get
  begin-Inv = record {
    keys = λ v. ground (arith, has-get (begin self ps).0.system_distance v, get-begin v);
    queued = λ v h. sym (begin_queue v) ∙ h;
    cap = λ v. ground (arith, get-begin v);
    origin = ground (arith, get-begin self);
    frontier = λ u q h k l. absurd (cc (h, k, begin_queue u));
    relaxed =
        λ u v w k (p, g, n, i, id, mt). absurd (ground (arith, k, begin_queue u, has-get db u, g));
    sound = begin_sound;
    offered = λ u p a k g i h. absurd (ground (arith, k, begin_queue u, has-get db u, g));
    through = λ n e g. absurd (cc (sym g ∙ ap (λ (m : Dict Network ℕ). get m n) begin_prefixes));
  }
