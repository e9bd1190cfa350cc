-- ===== src/Isis/Spf/Round.antt =====
-- One round of the loop keeps what is known of the distances.
use router_sim.Base.{
  ℕ, ◌+◌, ◌≤◌, ◌≡◌, refl, sym, ◌∙◌, ap, subst, true, false, ◌||◌, List, some, ◌==◌, nat_eq, get,
  has, has-get, In, arith, Bool-cases, inl, inr, ◌⊎◌,
}
use router_sim.Net.{Network, net_eq}
use router_sim.Isis.{LinkStatePdu, ExtendedIpReachability, up, is_tlvs, ip_tlvs}
use router_sim.Isis.Spf.{maxsize, Database, State}
use router_sim.Isis.Spf.Graph.{Edge, Walk, step, dist, mem}
use router_sim.Isis.Spf.Scan.{Below}
use router_sim.Isis.Spf.Relax.{Relaxed}
use router_sim.Isis.Spf.Address.{Addressed, AtMost}

-- A system is no further than those of the queue.
abbrev pub IsNearest : State → List ℕ → ℕ → Type 0
IsNearest s queue u =
    (q : ℕ) → mem q queue ≡ true → dist s.system_distance u ≤ dist s.system_distance q

-- The prefix's distance is what some settled system gives.
abbrev pub Through : Database → State → List ℕ → Network → ℕ → Type 0
Through db s queue n e =
    (u : ℕ) × (p : LinkStatePdu) × (a : ExtendedIpReachability) × (IsNearest s queue u
      × (get db u ≡ some p)
      × In a (ip_tlvs p.tlvs)
      × (a.state ≡ up)
      × (a.prefix ≡ n)
      × (e ≡ dist s.system_distance u + a.metric)
      × (get s.prev n ≡ some u))

-- What holds between two rounds; a system is settled once it has left the queue.
pub record Inv (db : Database) (self : ℕ) (s : State) (queue : List ℕ) : Type 0 where
  pub keys : (v : ℕ) → has s.system_distance v ≡ (self == v || has db v)
  pub queued : (v : ℕ) → mem v queue ≡ true → has db v ≡ true
  pub cap : (v : ℕ) → dist s.system_distance v ≤ maxsize
  pub origin : dist s.system_distance self ≡ 0
  pub frontier :
      (u q : ℕ)
      → has db u ≡ true
      → mem u queue ≡ false
      → mem q queue ≡ true
      → dist s.system_distance u ≤ dist s.system_distance q
  pub relaxed :
      (u v w : ℕ)
      → mem u queue ≡ false
      → Edge db u v w
      → dist s.system_distance v ≤ dist s.system_distance u + w
  pub sound : (v d : ℕ) → get s.system_distance v ≡ some d → (d ≡ maxsize) ⊎ Walk db self v d
  pub offered :
      (u : ℕ) (p : LinkStatePdu) (a : ExtendedIpReachability)
      → mem u queue ≡ false
      → get db u ≡ some p
      → In a (ip_tlvs p.tlvs)
      → a.state ≡ up
      → AtMost (dist s.system_distance u + a.metric) (get s.distance a.prefix)
  pub through : (n : Network) (e : ℕ) → get s.distance n ≡ some e → Through db s queue n e

has_of_get : (db : Database) (u : ℕ) (p : LinkStatePdu) → get db u ≡ some p → has db u ≡ true
has_of_get db u p g = ground (arith, has-get db u, g)

module _ (db : Database) (self : ℕ) (s : State) (queue rest : List ℕ) (m d : ℕ) (pdu : LinkStatePdu)
    (t s' : State) (inv : Inv db self s queue)
    (taken : (v : ℕ) → mem v queue ≡ (m == v || mem v rest))
    (least : Below s.system_distance d queue) (at : get s.system_distance m ≡ some d)
    (lsp : get db m ≡ some pdu) (r : Relaxed m d (is_tlvs pdu.tlvs) s t)
    (a : Addressed m d (ip_tlvs pdu.tlvs) t s') where
  one_lsp : (u : ℕ) (p : LinkStatePdu) → m ≡ u → get db u ≡ some p → p ≡ pdu
  one_lsp u p e g = ground (arith, e, g, lsp)

  abbrev pub same : (v : ℕ) → get s'.system_distance v ≡ get t.system_distance v
  same v = ap (λ x. get x v) a.systems

  pub near : (q : ℕ) → mem q queue ≡ true → d ≤ dist s'.system_distance q
  near q h = elim (r.origin q) [
    | inl kept ↦ ground (arith, same q, kept, least q h)
    | inr (n, i, e) ↦ ground (arith, same q, e)
  ]

  pub stays :
      (u : ℕ) → dist s.system_distance u ≤ d → get s'.system_distance u ≡ get s.system_distance u
  stays u h = same u ∙ r.settled u h

  who : (u : ℕ) → mem u rest ≡ false → (m ≡ u) ⊎ (mem u queue ≡ false)
  who u h = elim (Bool-cases (m == u)) [
    | inl e ↦ inl (ground (arith, e))
    | inr e ↦ inr (taken u ∙ ground (arith, e, h))
  ]

  settled_before :
      (u : ℕ)
      → has db u ≡ true
      → mem u queue ≡ false
      → get s'.system_distance u ≡ get s.system_distance u
  settled_before u h k = stays u (ground (arith, inv.frontier u m h k (taken m ∙ ground arith), at))

  pub at_last : get s'.system_distance m ≡ some d
  at_last = same m ∙ r.settled m (ground (arith, at)) ∙ at

  lower : (v : ℕ) → dist s'.system_distance v ≤ dist s.system_distance v
  lower v = ground (arith, same v, r.lower v)

  next_relaxed :
      (u v w : ℕ)
      → mem u rest ≡ false
      → Edge db u v w
      → dist s'.system_distance v ≤ dist s'.system_distance u + w
  next_relaxed u v w k (p, g, n, i, id, mt) = elim (who u k) [
    | inl e ↦
        let j = subst (λ x. In n (is_tlvs x.tlvs)) (one_lsp u p e g) i in
        ground (arith, r.offered n j, same v, at_last, e, id, mt)
    | inr old ↦ ground (
      arith,
      inv.relaxed u v w old (p, g, n, i, id, mt),
      settled_before u (has_of_get db u p g) old,
      lower v,
    )
  ]

  next_frontier :
      (u q : ℕ)
      → has db u ≡ true
      → mem u rest ≡ false
      → mem q rest ≡ true
      → dist s'.system_distance u ≤ dist s'.system_distance q
  next_frontier u q h k l =
      let far = near q (taken q ∙ ground (arith, l)) in
      elim (who u k) [
        | inl e ↦ ground (arith, far, at_last, e)
        | inr old ↦ ground (
          arith,
          far,
          settled_before u h old,
          inv.frontier u m h old (taken m ∙ ground arith),
          at,
        )
      ]

  next_sound : (v e : ℕ) → get s'.system_distance v ≡ some e → (e ≡ maxsize) ⊎ Walk db self v e
  next_sound v e g = elim (r.origin v) [
    | inl kept ↦ inv.sound v e (sym kept.0 ∙ sym (same v) ∙ g)
    | inr (n, i, reached) ↦
        let sum : e ≡ d + n.metric = ground (arith, g, same v, reached.1) in
        elim (inv.sound m d at) [
          | inl far ↦ inl (ground (arith, g, lower v, inv.cap v, sum, far))
          | inr walk ↦ inr (step walk (pdu, lsp, n, i, reached.0, refl) sum)
        ]
  ]

  next_offered :
      (u : ℕ) (p : LinkStatePdu) (x : ExtendedIpReachability)
      → mem u rest ≡ false
      → get db u ≡ some p
      → In x (ip_tlvs p.tlvs)
      → x.state ≡ up
      → AtMost (dist s'.system_distance u + x.metric) (get s'.distance x.prefix)
  next_offered u p x k g i h = elim (who u k) [
    | inl e ↦
        let j = subst (λ y. In x (ip_tlvs y.tlvs)) (one_lsp u p e g) i in
        let here : dist s'.system_distance u ≡ d = ground (arith, at_last, e) in
        rw here (a.offered x j h)
    | inr old ↦
        let before = inv.offered u p x old g i h in
        let same_u : dist s'.system_distance u ≡ dist s.system_distance u =
          ground (arith, settled_before u (has_of_get db u p g) old) in
        rw same_u (
          a.lower x.prefix (dist s.system_distance u + x.metric) (
            subst (λ y. AtMost (dist s.system_distance u + x.metric) (get y x.prefix))
              (sym r.prefixes) before))
  ]

  next-IsNearest : (u : ℕ) → dist s.system_distance u ≤ d → IsNearest s' rest u
  next-IsNearest u h q k = ground (arith, near q (taken q ∙ ground (arith, k)), stays u h)

  next-Through : (n : Network) (e : ℕ) → get s'.distance n ≡ some e → Through db s' rest n e
  next-Through n e g = elim (a.origin n) [
    | inl kept ↦
        let before : get s.distance n ≡ some e =
          ap (λ y. get y n) (sym r.prefixes) ∙ sym kept.0 ∙ g in
        let (u, p, x, (c, gu, i, xu, xp, sum, from)) = inv.through n e before in
        let small : dist s.system_distance u ≤ d =
          ground (arith, c m (taken m ∙ ground arith), at) in
        (
          u,
          p,
          x,
          (
            next-IsNearest u small,
            gu,
            i,
            xu,
            xp,
            ground (arith, sum, stays u small),
            kept.1 ∙ ap (λ y. get y n) r.trace ∙ from,
          ),
        )
    | inr (x, i, (xu, xp, gd, gp)) ↦ (
      m,
      pdu,
      x,
      (next-IsNearest m (ground (arith, at)), lsp, i, xu, xp, ground (arith, g, gd, at_last), gp),
    )
  ]

  -- The invariant after the round.
  pub next_Inv : Inv db self s' rest
  next_Inv = record {
    keys = λ v. ap (λ x. has x v) a.systems ∙ r.same_keys v ∙ inv.keys v;
    queued = λ v h. inv.queued v (taken v ∙ ground (arith, h));
    cap = λ v. omega (arith, lower v, inv.cap v);
    origin = omega (arith, lower self, inv.origin);
    frontier = next_frontier;
    relaxed = next_relaxed;
    sound = next_sound;
    offered = next_offered;
    through = next-Through;
  }
