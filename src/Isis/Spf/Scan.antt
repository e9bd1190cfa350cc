-- ===== src/Isis/Spf/Scan.antt =====
-- The scan for the nearest system of the queue finds one at the least distance.
use router_sim.Base.{
  ℕ, zero, suc, ◌+◌, ◌≤◌, ◌≡◌, refl, sym, ◌∙◌, ap, true, ◌||◌, List, [], ◌∷◌, some, ltb, ◌==◌,
  nat_eq, Dict, get, length, get_elem?, arith, Bool-cases, inl, inr, ◌⊎◌,
}
use router_sim.Isis.Spf.{done, maxsize, scan_min, pop_at, take_nearest, State}
use router_sim.Isis.Spf.Graph.{dist, mem}

abbrev pub Below : Dict ℕ ℕ → ℕ → List ℕ → Type 0
Below sd d qs = (v : ℕ) → mem v qs ≡ true → d ≤ dist sd v

-- All systems of the queue have a distance.
abbrev pub Known : Dict ℕ ℕ → List ℕ → Type 0
Known sd qs = (v : ℕ) → mem v qs ≡ true → (d : ℕ) × (get sd v ≡ some d)

-- The entry of the queue that the scan has found, and that it is nearest so far.
abbrev Found : Dict ℕ ℕ → List ℕ → ℕ → ℕ → ℕ → Type 0
Found sd qs i d m = (get_elem? qs i ≡ some m) × (dist sd m ≤ d)

-- The scan over the rest `ys` of the queue `qs`, at the index `i`.
scan_min_lem :
    (sd : Dict ℕ ℕ) (qs ys : List ℕ) (i bi bd m : ℕ)
    → Known sd ys
    → ((k : ℕ) → get_elem? ys k ≡ get_elem? qs (i + k))
    → Found sd qs bi bd m
    → ((v : ℕ) → mem v qs ≡ true → (mem v ys ≡ true) ⊎ (bd ≤ dist sd v))
    → (j : ℕ) × (d : ℕ) × (n : ℕ) × (scan_min sd ys i bi bd ≡ done (j, d))
      × Found sd qs j d n
      × Below sd d qs
unfolding scan_min
scan_min_lem sd qs [] i bi bd m k at f b = (bi, bd, m, refl, f, λ v h. ground (arith, b v h))
scan_min_lem sd qs (y ∷ ys) i bi bd m k at f b =
    let (dy, e) = k y (ground arith) in
    let k' : Known sd ys = λ v h. k v (ground (arith, h)) in
    let at' : (n : ℕ) → get_elem? ys n ≡ get_elem? qs (i + 1 + n) =
      λ n. at (suc n) ∙ ap (get_elem? qs) (omega arith) in
    let here : get_elem? qs i ≡ some y = ap (get_elem? qs) (omega arith) ∙ sym (at 0) in
    elim (Bool-cases (ltb dy bd)) [
      | inl less ↦
          let (j, d, n, r, f', b') =
            scan_min_lem sd qs ys (i + 1) i dy y k' at' (here, ground (arith, e))
              (λ v h. ground (arith, b v h, e, less)) in
          (j, d, n, rw (e, scan_min) (rw less r), f', b')
      | inr more ↦
          let (j, d, n, r, f', b') =
            scan_min_lem sd qs ys (i + 1) bi bd m k' at' f
              (λ v h. ground (arith, b v h, e, more)) in
          (j, d, n, rw (e, scan_min) (rw more r), f', b')
    ]

pub pop_at-mem :
    (i : ℕ) (qs : List ℕ) (m : ℕ)
    → get_elem? qs i ≡ some m
    → (r : List ℕ) × (pop_at i qs ≡ some (m, r))
      × ((v : ℕ) → mem v qs ≡ (m == v || mem v r))
      × (length qs ≡ suc (length r))
unfolding pop_at
pop_at-mem i [] m e = absurd (cc e)
pop_at-mem zero (q ∷ qs) m e = (qs, ground (arith, e), λ v. ground (arith, e), refl)
pop_at-mem (suc i) (q ∷ qs) m e =
    let (r, p, k, l) = pop_at-mem i qs m e in
    (q ∷ r, rw (p, pop_at) refl, λ v. ground (arith, k v), ap suc l)

-- Taking the nearest system never raises: it gives a system at the least distance of all, and the
-- queue without it.
pub take_nearest_lem :
    (s : State) (q : ℕ) (qs : List ℕ)
    → Known s.system_distance (q ∷ qs)
    → ((v : ℕ) → dist s.system_distance v ≤ maxsize)
    → (m : ℕ) × (r : List ℕ) × (take_nearest s (q ∷ qs) ≡ done (m, r))
      × ((v : ℕ) → mem v (q ∷ qs) ≡ (m == v || mem v r))
      × (length (q ∷ qs) ≡ suc (length r))
      × Below s.system_distance (dist s.system_distance m) (q ∷ qs)
unfolding take_nearest
take_nearest_lem s q qs k cap =
    let sd = s.system_distance in
    let (i, d, m, r, f, b) =
      scan_min_lem sd (q ∷ qs) (q ∷ qs) 0 0 maxsize q k (λ n. ap (get_elem? (q ∷ qs)) (omega arith))
        (refl, cap q) (λ v h. inl h) in
    let (rest, p, e, l) = pop_at-mem i (q ∷ qs) m f.0 in
    (m, rest, rw (r, p) refl, e, l, λ v h. omega (arith, b v h, f.1))
