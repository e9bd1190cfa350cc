-- ===== src/Isis/Spf/Relax.antt =====
-- What the loop over an LSP's neighbours does to the distances.
use router_sim.Base.{
  ℕ, ◌+◌, ◌≤◌, ◌<◌, ◌≡◌, refl, sym, ◌∙◌, true, false, List, [], ◌∷◌, some, ltb, ◌==◌, nat_eq, get,
  set, has, has-get, has-set, get-set, In, arith, Bool-cases, inl, inr, ◌⊎◌,
}
use router_sim.Isis.{ExtendedIsReachability}
use router_sim.Isis.Spf.{Run, done, unconverged, fault, out_of_fuel, ◌>>=◌, relax, relax_all, State}
use router_sim.Isis.Spf.Graph.{dist}

-- A system's distance and predecessor stay as they were.
abbrev pub Kept : ℕ → State → State → Type 0
Kept v s s' =
    (get s'.system_distance v ≡ get s.system_distance v)
    × (get s'.prev_system v ≡ get s.prev_system v)

-- A system is reached over `n` from `source`, which stands at the distance `d`, and is nearer so.
abbrev pub Reached : ℕ → ℕ → ExtendedIsReachability → ℕ → State → State → Type 0
Reached source d n v s s' =
    (n.system_id ≡ v)
    × (get s'.system_distance v ≡ some (d + n.metric))
    × (get s'.prev_system v ≡ some (some source))
    × (d + n.metric < dist s.system_distance v)

-- From `s` to `s'` the distances over the neighbours `ns` of a system at the distance `d` are offered.
pub record Relaxed (source d : ℕ) (ns : List ExtendedIsReachability) (s s' : State) : Type 0 where
  pub same_keys : (v : ℕ) → has s'.system_distance v ≡ has s.system_distance v
  pub lower : (v : ℕ) → dist s'.system_distance v ≤ dist s.system_distance v
  pub settled :
      (v : ℕ) → dist s.system_distance v ≤ d → get s'.system_distance v ≡ get s.system_distance v
  pub offered :
      (n : ExtendedIsReachability) → In n ns → dist s'.system_distance n.system_id ≤ d + n.metric
  pub origin :
      (v : ℕ) → Kept v s s' ⊎ ((n : ExtendedIsReachability) × In n ns × Reached source d n v s s')
  pub prefixes : s'.distance ≡ s.distance
  pub trace : s'.prev ≡ s.prev

-- A run over the neighbours ends so, or stops at a neighbour that the database lacks.
abbrev pub AfterRelax : ℕ → ℕ → List ExtendedIsReachability → State → Run State → Type 0
AfterRelax source d ns s (done s') = Relaxed source d ns s s'
AfterRelax source d ns s unconverged =
    (n : ExtendedIsReachability) × In n ns × (has s.system_distance n.system_id ≡ false)
AfterRelax source d ns s (fault e) = ⊥
AfterRelax source d ns s out_of_fuel = ⊥

Relaxed-nothing : (source d : ℕ) (s : State) → Relaxed source d [] s s
Relaxed-nothing source d s = record {
  same_keys = λ v. refl;
  lower = λ v. omega arith;
  settled = λ v h. refl;
  offered = λ n i. elim i [ ];
  origin = λ v. inl (refl, refl);
  prefixes = refl;
  trace = refl;
}

improve :
    (source d old : ℕ) (n : ExtendedIsReachability) (s : State)
    → has s.system_distance n.system_id ≡ true
    → get s.system_distance n.system_id ≡ some old
    → d + n.metric < old
    → Relaxed source d (n ∷ []) s (record s {
      system_distance = set s.system_distance n.system_id (d + n.metric);
      prev_system = set s.prev_system n.system_id (some source);
    })
improve source d old n s h g less = record {
  same_keys = λ v. ground (arith, has-set s.system_distance n.system_id v (d + n.metric), h);
  lower = λ v. ground (arith, get-set s.system_distance n.system_id v (d + n.metric), g);
  settled = λ v k. ground (arith, get-set s.system_distance n.system_id v (d + n.metric), g, k);
  offered =
      λ m i. ground (arith, get-set s.system_distance n.system_id n.system_id (d + n.metric), i);
  origin = λ v. elim (Bool-cases (n.system_id == v)) [
    | inl same ↦ inr (
      n,
      inl refl,
      (
        ground (arith, same),
        ground (arith, get-set s.system_distance n.system_id v (d + n.metric), same),
        ground (arith, get-set s.prev_system n.system_id v (some source), same),
        ground (arith, g, same, less),
      ),
    )
    | inr other ↦ inl (
      ground (arith, get-set s.system_distance n.system_id v (d + n.metric), other),
      ground (arith, get-set s.prev_system n.system_id v (some source), other),
    )
  ];
  prefixes = refl;
  trace = refl;
}

no_better :
    (source d old : ℕ) (n : ExtendedIsReachability) (s : State)
    → get s.system_distance n.system_id ≡ some old
    → old ≤ d + n.metric
    → Relaxed source d (n ∷ []) s s
no_better source d old n s g more = record {
  same_keys = λ v. refl;
  lower = λ v. omega arith;
  settled = λ v h. refl;
  offered = λ m i. ground (arith, g, i);
  origin = λ v. inl (refl, refl);
  prefixes = refl;
  trace = refl;
}

relax_lem :
    (node source d : ℕ) (n : ExtendedIsReachability) (s : State)
    → get s.system_distance node ≡ some d
    → AfterRelax source d (n ∷ []) s (relax node source n s)
unfolding relax
relax_lem node source d n s g = elim (has-get s.system_distance n.system_id) [
  | inr (missing, _) ↦ rw (missing, relax) (n, inl refl, missing)
  | inl (there, (old, e)) ↦ elim (Bool-cases (ltb (d + n.metric) old)) [
    | inl less ↦
        rw (there, relax)
          (rw (g, e) (rw less (improve source d old n s there e (ground (arith, less)))))
    | inr more ↦
        rw (there, relax)
          (rw (g, e) (rw more (no_better source d old n s e (ground (arith, more)))))
  ]
]

join :
    (source d : ℕ) (n : ExtendedIsReachability) (ns : List ExtendedIsReachability) (s t u : State)
    → Relaxed source d (n ∷ []) s t
    → Relaxed source d ns t u
    → Relaxed source d (n ∷ ns) s u
join source d n ns s t u a b = record {
  same_keys = λ v. b.same_keys v ∙ a.same_keys v;
  lower = λ v. omega (arith, a.lower v, b.lower v);
  settled = λ v h. b.settled v (omega (arith, a.lower v, h)) ∙ a.settled v h;
  offered = offered;
  origin = λ v. elim (b.origin v) [
    | inl kept ↦ elim (a.origin v) [
      | inl before ↦ inl (kept.0 ∙ before.0, kept.1 ∙ before.1)
      | inr (m, i, (to, at, from, less)) ↦
          inr (m, first m i, (to, kept.0 ∙ at, kept.1 ∙ from, less))
    ]
    | inr (m, i, (to, at, from, less)) ↦
        inr (m, inr i, (to, at, from, omega (arith, less, a.lower v)))
  ];
  prefixes = b.prefixes ∙ a.prefixes;
  trace = b.trace ∙ a.trace;
}
  where
    first : (m : ExtendedIsReachability) → In m (n ∷ []) → In m (n ∷ ns)
    first m (inl e) = inl e
    first m (inr i) = absurd i

    offered :
        (m : ExtendedIsReachability)
        → In m (n ∷ ns)
        → dist u.system_distance m.system_id ≤ d + m.metric
    offered m (inl e) = omega (arith, a.offered m (inl e), b.lower m.system_id)
    offered m (inr i) = b.offered m i

pub relax_all_lem :
    (node source d : ℕ) (ns : List ExtendedIsReachability) (s : State)
    → get s.system_distance node ≡ some d
    → AfterRelax source d ns s (relax_all node source ns s)
unfolding relax_all
relax_all_lem node source d [] s g = Relaxed-nothing source d s
relax_all_lem node source d (n ∷ ns) s g =
    next (relax node source n s) (relax_lem node source d n s g) (relax_all_lem node source d ns)
  where
    next :
        (r : Run State)
        → AfterRelax source d (n ∷ []) s r
        → ((t : State)
            → get t.system_distance node ≡ some d
            → AfterRelax source d ns t (relax_all node source ns t))
        → AfterRelax source d (n ∷ ns) s (r >>= relax_all node source ns)
    next (done t) a rest =
        after (relax_all node source ns t) (rest t (a.settled node (ground (arith, g)) ∙ g))
      where
        after : (r : Run State) → AfterRelax source d ns t r → AfterRelax source d (n ∷ ns) s r
        after (done u) b = join source d n ns s t u a b
        after unconverged (m, i, h) = (m, inr i, sym (a.same_keys m.system_id) ∙ h)
        after (fault e) b = b
        after out_of_fuel b = b
    next unconverged (m, inl e, h) rest = (m, inl e, h)
    next unconverged (m, inr i, h) rest = elim i [ ]
    next (fault e) a rest = a
    next out_of_fuel a rest = a
