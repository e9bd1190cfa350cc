-- ===== src/Routing/Metric.antt =====
-- routersim/routing.py, `add_route` and `del_route`: each prefix has routes, they are its own, and
-- they stay sorted by metric.
use router_sim.Base.{
  ℕ, ◌≤◌, ◌≡◌, refl, ap, subst, ◌≢◌, Bool, true, false, List, [], ◌∷◌, ◌++◌, some, if◌then◌else◌,
  Hashable, ◌==◌, get, set, delete, get-set, get-delete, All, Bool-cases, Option-cases, inl, inr,
}
use mathlib.Core.Option.{some-injective}
use router_sim.Base.Sorting.{
  sort_by, IsSortedBy, sort_by-IsSortedBy, All-sort_by, sort_by-append-ne-nil,
}
use router_sim.Base.Outcome.{ok, >>=-eq-ok, ok-injective}
use router_sim.Routing.{Route, Table, RouteEvent, remove, put_back, add_route, del_route, route_eq}

-- A route's metric as the sort's key.
abbrev pub metric_of : {P : Type 0} → Route P → ℕ
metric_of r = r.metric

-- The routes of a prefix: some, all of that prefix, the best metric first.
pub record IsRoutes {P : Type 0} (p : P) (rs : List (Route P)) : Type 0 where
  pub some_route : rs ≢ []
  pub own : All (λ r. r.prefix ≡ p) rs
  pub sorted : IsSortedBy metric_of rs

All-append_one {ℓ} :
    {A : Type 0} (Q : A → Type ℓ) (xs : List A) (x : A) → All Q xs → Q x → All Q (xs ++ x ∷ [])
All-append_one Q [] x h q = (q, tt)
All-append_one Q (y ∷ ys) x h q = (h.0, All-append_one Q ys x h.1 q)

module _ {P : Type 0} ⦃e : Hashable P⦄ where
  abbrev pub IsTable : Table P → Type 0
  IsTable t = (p : P) (rs : List (Route P)) → get t p ≡ some rs → IsRoutes p rs

  sorted-IsRoutes :
      (p : P) (rs : List (Route P)) (r : Route P)
      → All (λ x. x.prefix ≡ p) rs
      → r.prefix ≡ p
      → IsRoutes p (sort_by metric_of (rs ++ r ∷ []))
  sorted-IsRoutes p rs r own new = record {
    some_route = sort_by-append-ne-nil metric_of rs r;
    own =
        All-sort_by metric_of (λ x. x.prefix ≡ p) _
          (All-append_one (λ x. x.prefix ≡ p) rs r own new);
    sorted = sort_by-IsSortedBy metric_of (rs ++ r ∷ []);
  }

  set-IsTable :
      (t : Table P) (p : P) (rs : List (Route P)) → IsTable t → IsRoutes p rs → IsTable (set t p rs)
  set-IsTable t p rs w h q qs g = elim (Bool-cases (p == q)) [
    | inl same ↦
        subst (λ x. IsRoutes x qs) ((e.eqv_iff p q).0 same)
          (subst (IsRoutes p) (some-injective _ _ (rw (get-set, same) at g)) h)
    | inr other ↦ w q qs (rw (get-set, other) at g)
  ]

  delete-IsTable : (t : Table P) (p : P) → IsTable t → IsTable (delete t p)
  delete-IsTable t p w q qs g = elim (Bool-cases (p == q)) [
    | inl same ↦ absurd (cc (rw (get-delete, same) at g))
    | inr other ↦ w q qs (rw (get-delete, other) at g)
  ]

  either-IsTable :
      (b : Bool) (t u : Table P) (log : List (RouteEvent P))
      → IsTable t
      → IsTable u
      → IsTable (if◌then◌else◌ {A = Table P × List (RouteEvent P)} b (t, log) (u, log)).0
  either-IsTable true t u log v w = v
  either-IsTable false t u log v w = w

  -- Adding a route keeps every prefix's routes its own and sorted by metric.
  pub add_route-IsTable :
      (is_mpls : Bool) (r : Route P) (t : Table P) (log : List (RouteEvent P))
      → IsTable t
      → IsTable (add_route is_mpls r t log).0
  unfolding add_route
  add_route-IsTable is_mpls r t log w = elim (Option-cases (get t r.prefix)) [
    | inl new ↦
        let one = set-IsTable t r.prefix (r ∷ []) w (sorted-IsRoutes r.prefix [] r tt refl) in
        let two = set-IsTable _ r.prefix _ one (sorted-IsRoutes r.prefix [] r tt refl) in
        rw (new, add_route) (either-IsTable is_mpls _ _ _ one two)
    | inr (rs, old) ↦
        rw (old, add_route)
          (set-IsTable t r.prefix _ w (sorted-IsRoutes r.prefix rs r (w r.prefix rs old).own refl))
  ]

  remove-All {ℓ} :
      (Q : Route P → Type ℓ) (r : Route P) (xs ys : List (Route P))
      → remove r xs ≡ ok ys
      → All Q xs
      → All Q ys
  unfolding remove
  remove-All Q r [] ys h a = cc
  remove-All Q r (x ∷ xs) ys h a = elim (Bool-cases (route_eq x r)) [
    | inl hit ↦ subst (All Q) (ok-injective (rw (hit, remove) at h)) a.1
    | inr miss ↦
        let (zs, found, eq) =
          >>=-eq-ok (remove r xs) (λ zs. ok (x ∷ zs)) (rw (miss, remove) at h) in
        let rest = remove-All Q r xs zs found a.1 in subst (All Q) (ok-injective eq) (a.0, rest)
  ]

  remove-IsSorted :
      (r : Route P) (xs ys : List (Route P))
      → remove r xs ≡ ok ys
      → IsSortedBy metric_of xs
      → IsSortedBy metric_of ys
  unfolding remove
  remove-IsSorted r [] ys h a = cc
  remove-IsSorted r (x ∷ xs) ys h a = elim (Bool-cases (route_eq x r)) [
    | inl hit ↦ subst (IsSortedBy metric_of) (ok-injective (rw (hit, remove) at h)) a.1
    | inr miss ↦
        let (zs, found, eq) =
          >>=-eq-ok (remove r xs) (λ zs. ok (x ∷ zs)) (rw (miss, remove) at h) in
        subst (IsSortedBy metric_of) (ok-injective eq) (
          remove-All (λ y. x.metric ≤ y.metric) r xs zs found a.0,
          remove-IsSorted r xs zs found a.1,
        )
  ]

  put_back-IsTable :
      (p : P) (rs : List (Route P)) (t : Table P)
      → IsTable t
      → All (λ x. x.prefix ≡ p) rs
      → IsSortedBy metric_of rs
      → IsTable (put_back p rs t)
  unfolding put_back
  put_back-IsTable p [] t w own s = delete-IsTable t p w
  put_back-IsTable p (x ∷ xs) t w own s =
      set-IsTable t p (x ∷ xs) w (record { some_route = λ h. cc; own = own; sorted = s })

  -- So does deleting one; the last route of a prefix takes the prefix with it.
  pub del_route-IsTable :
      (r : Route P) (t : Table P) (log : List (RouteEvent P)) {t' : Table P}
      {log' : List (RouteEvent P)}
      → IsTable t
      → del_route r t log ≡ ok (t', log')
      → IsTable t'
  unfolding del_route
  del_route-IsTable r t log {t'} {log'} w h = elim (Option-cases (get t r.prefix)) [
    | inl missing ↦ subst IsTable (ap (λ x. x.0) (ok-injective (rw (missing, del_route) at h))) w
    | inr (rs, old) ↦
        let (left, found, eq) = >>=-eq-ok (remove r rs) _ (rw (old, del_route) at h) in
        let good = w r.prefix rs old in
        subst IsTable (ap (λ x. x.0) (ok-injective eq)) (
          put_back-IsTable r.prefix left t w
            (remove-All (λ x. x.prefix ≡ r.prefix) r rs left found good.own)
            (remove-IsSorted r rs left found good.sorted))
  ]
