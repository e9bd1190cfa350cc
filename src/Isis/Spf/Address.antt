-- ===== src/Isis/Spf/Address.antt =====
-- What the loop over an LSP's prefixes does to the distances of the prefixes.
use router_sim.Base.{
  ℕ, ◌+◌, ◌≡◌, refl, sym, ◌∙◌, ap, subst, Bool, true, false, List, [], ◌∷◌, Option, none, some, leb,
  ◌==◌, nat_eq, get, get-set, In, arith, Bool-cases, inl, inr, ◌⊎◌,
}
use router_sim.Net.{Network, net_eq, net_beq_iff}
use router_sim.Isis.{ExtendedIpReachability, ConnectionState, up, down}
use router_sim.Isis.Spf.{
  Run, done, unconverged, fault, out_of_fuel, ◌>>=◌, improves, offer, reach_address,
  reach_addresses, State,
}

-- A prefix's distance and system stay as they were.
abbrev pub KeptPrefix : Network → State → State → Type 0
KeptPrefix p s s' = (get s'.distance p ≡ get s.distance p) × (get s'.prev p ≡ get s.prev p)

-- A prefix is reached as `a` says, by the system `source` at the distance `d`.
abbrev pub ReachedPrefix : ℕ → ℕ → ExtendedIpReachability → Network → State → Type 0
ReachedPrefix source d a p s' =
    (a.state ≡ up)
    × (a.prefix ≡ p)
    × (get s'.distance p ≡ some (d + a.metric))
    × (get s'.prev p ≡ some source)

-- There is a distance, and it is at most `d`.
abbrev pub at_most : ℕ → Option ℕ → Bool
at_most d none = false
at_most d (some e) = leb e d

abbrev pub AtMost : ℕ → Option ℕ → Type 0
AtMost d o = at_most d o ≡ true

pub record Addressed (source d : ℕ) (ns : List ExtendedIpReachability) (s s' : State) : Type 0 where
  pub systems : s'.system_distance ≡ s.system_distance
  pub parents : s'.prev_system ≡ s.prev_system
  pub lower : (p : Network) (b : ℕ) → AtMost b (get s.distance p) → AtMost b (get s'.distance p)
  pub offered :
      (a : ExtendedIpReachability)
      → In a ns
      → a.state ≡ up
      → AtMost (d + a.metric) (get s'.distance a.prefix)
  pub origin :
      (p : Network)
      → KeptPrefix p s s' ⊎ ((a : ExtendedIpReachability) × In a ns × ReachedPrefix source d a p s')

Addressed-nothing : (source d : ℕ) (s : State) → Addressed source d [] s s
Addressed-nothing source d s = record {
  systems = refl;
  parents = refl;
  lower = λ p b h. h;
  offered = λ a i u. elim i [ ];
  origin = λ p. inl (refl, refl);
}

Addressed-down :
    (source d : ℕ) (a : ExtendedIpReachability) (s : State)
    → a.state ≡ down
    → Addressed source d (a ∷ []) s s
Addressed-down source d a s h = record {
  systems = refl;
  parents = refl;
  lower = λ p b h. h;
  offered = λ b i u. absurd (ground (arith, i, u, h));
  origin = λ p. inl (refl, refl);
}

Addressed-offer :
    (source d : ℕ) (a : ExtendedIpReachability) (s : State)
    → a.state ≡ up
    → Addressed source d (a ∷ []) s (offer source (d + a.metric) a.prefix s)
Addressed-offer source d a s h =
    elim (Bool-cases (improves (d + a.metric) (get s.distance a.prefix))) [
      | inl better ↦ rw better (record {
        systems = refl;
        parents = refl;
        lower = λ p b k. ground (
          arith,
          get-set s.distance a.prefix p (d + a.metric),
          net_beq_iff a.prefix p,
          better,
          k,
        );
        offered = λ b i u. ground (
          arith,
          get-set s.distance a.prefix b.prefix (d + a.metric),
          net_beq_iff a.prefix b.prefix,
          i,
        );
        origin = λ p. elim (Bool-cases (a.prefix == p)) [
          | inl same ↦ inr (
            a,
            inl refl,
            (h, (net_beq_iff a.prefix p).0 same, rw (get-set, same) refl, rw (get-set, same) refl),
          )
          | inr other ↦ inl (rw (get-set, other) refl, rw (get-set, other) refl)
        ];
      })
      | inr worse ↦ rw worse (record {
        systems = refl;
        parents = refl;
        lower = λ p b k. k;
        offered = λ b i u. ground (arith, worse, i);
        origin = λ p. inl (refl, refl);
      })
    ]

-- A run over the prefixes ends so.
abbrev pub AfterAddress : ℕ → ℕ → List ExtendedIpReachability → State → Run State → Type 0
AfterAddress source d ns s (done s') = Addressed source d ns s s'
AfterAddress source d ns s unconverged = ⊥
AfterAddress source d ns s (fault e) = ⊥
AfterAddress source d ns s out_of_fuel = ⊥

reach_address_lem :
    (node source d : ℕ) (a : ExtendedIpReachability) (s : State) (c : ConnectionState)
    → a.state ≡ c
    → get s.system_distance node ≡ some d
    → AfterAddress source d (a ∷ []) s (reach_address node source a s)
unfolding reach_address
reach_address_lem node source d a s up h g =
    let e : reach_address node source a s ≡ done (offer source (d + a.metric) a.prefix s) =
      simp (h, reach_address, g) in
    subst (AfterAddress source d (a ∷ []) s) (sym e) (Addressed-offer source d a s h)
reach_address_lem node source d a s down h g =
    let e : reach_address node source a s ≡ done s = simp (h, reach_address) in
    subst (AfterAddress source d (a ∷ []) s) (sym e) (Addressed-down source d a s h)

join :
    (source d : ℕ) (a : ExtendedIpReachability) (ns : List ExtendedIpReachability) (s t u : State)
    → Addressed source d (a ∷ []) s t
    → Addressed source d ns t u
    → Addressed source d (a ∷ ns) s u
join source d a ns s t u x y = record {
  systems = y.systems ∙ x.systems;
  parents = y.parents ∙ x.parents;
  lower = λ p b h. y.lower p b (x.lower p b h);
  offered = offered;
  origin = λ p. elim (y.origin p) [
    | inl kept ↦ elim (x.origin p) [
      | inl before ↦ inl (kept.0 ∙ before.0, kept.1 ∙ before.1)
      | inr (m, i, r) ↦ inr (m, first m i, (r.0, r.1, kept.0 ∙ r.2, kept.1 ∙ r.3))
    ]
    | inr (m, i, r) ↦ inr (m, inr i, r)
  ];
}
  where
    first : (m : ExtendedIpReachability) → In m (a ∷ []) → In m (a ∷ ns)
    first m (inl e) = inl e
    first m (inr i) = absurd i

    offered :
        (m : ExtendedIpReachability)
        → In m (a ∷ ns)
        → m.state ≡ up
        → AtMost (d + m.metric) (get u.distance m.prefix)
    offered m (inl e) h = y.lower m.prefix (d + m.metric) (x.offered m (inl e) h)
    offered m (inr i) h = y.offered m i h

pub reach_addresses_lem :
    (node source d : ℕ) (ns : List ExtendedIpReachability) (s : State)
    → get s.system_distance node ≡ some d
    → AfterAddress source d ns s (reach_addresses node source ns s)
unfolding reach_addresses
reach_addresses_lem node source d [] s g = Addressed-nothing source d s
reach_addresses_lem node source d (a ∷ ns) s g =
    next (reach_address node source a s) (reach_address_lem node source d a s a.state refl g)
      (reach_addresses_lem node source d ns)
  where
    next :
        (r : Run State)
        → AfterAddress source d (a ∷ []) s r
        → ((t : State)
            → get t.system_distance node ≡ some d
            → AfterAddress source d ns t (reach_addresses node source ns t))
        → AfterAddress source d (a ∷ ns) s (r >>= reach_addresses node source ns)
    next (done t) x rest =
        after (reach_addresses node source ns t) (rest t (ap (λ m. get m node) x.systems ∙ g))
      where
        after : (r : Run State) → AfterAddress source d ns t r → AfterAddress source d (a ∷ ns) s r
        after (done u) y = join source d a ns s t u x y
        after unconverged y = y
        after (fault e) y = y
        after out_of_fuel y = y
    next unconverged x rest = x
    next (fault e) x rest = x
    next out_of_fuel x rest = x
