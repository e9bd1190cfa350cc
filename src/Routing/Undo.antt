-- ===== src/Routing/Undo.antt =====
-- routersim/routing.py: deleting a route that was added gives the table back, and which changes are
-- announced to the listeners.
use router_sim.Base.{
  ◌≤◌, ◌<◌, ◌≡◌, refl, sym, subst, ◌≢◌, Bool, true, false, List, [], ◌∷◌, ◌++◌, Option, none, some,
  if◌then◌else◌, arith, Hashable, ◌==◌, nat_eq, get, set, delete, get-set, get-delete, beq_refl,
  All, Bool-cases, Option-cases, inl, inr,
}
use router_sim.Base.Sorting.{insert_by, sort_by, IsSortedBy}
use router_sim.Base.Outcome.{ok, >>=-eq-ok, ok-injective}
use router_sim.Routing.{
  Route, Table, RouteEvent, added, deleted, remove, put_back, add_route, del_route, route_eq,
  is_member, routes_of, type_beq_iff, option_beq_iff,
}
use router_sim.Routing.Metric.{metric_of, IsRoutes, IsTable}

module _ {P : Type 0} ⦃e : Hashable P⦄ where
  pub route_eq_refl : (r : Route P) → route_eq r r ≡ true
  unfolding route_eq
  route_eq_refl r =
      rw
        (
          beq_refl r.prefix,
          (type_beq_iff r.type r.type).1 refl,
          (option_beq_iff r.interface r.interface).1 refl,
        )
        (beq_refl r.metric)

  insert_by-below :
      (x : Route P) (xs : List (Route P))
      → All (λ y. x.metric ≤ y.metric) xs
      → insert_by metric_of x xs ≡ x ∷ xs
  unfolding insert_by
  insert_by-below x [] a = refl
  insert_by-below x (y ∷ ys) a = ground (arith, a.0)

  remove-insert_by :
      (r x : Route P) (s xs : List (Route P))
      → remove r s ≡ ok xs
      → All (λ y. x.metric ≤ y.metric) xs
      → route_eq x r ≡ false
      → remove r (insert_by metric_of x s) ≡ ok (x ∷ xs)
  unfolding insert_by remove
  remove-insert_by r x [] xs h a n = cc
  remove-insert_by r x (y ∷ ys) xs h a n = elim (Bool-cases (route_eq y r)) [
    | inl hit ↦ ground (arith, rw (hit, remove) at h, insert_by-below x xs a, n, hit)
    | inr miss ↦
        let (zs, found, eq) =
          >>=-eq-ok (remove r ys) (λ zs. ok (y ∷ zs)) (rw (miss, remove) at h) in
        let same : y ∷ zs ≡ xs = ok-injective eq in
        let below : All (λ z. x.metric ≤ z.metric) (y ∷ zs) =
          subst (All (λ z. x.metric ≤ z.metric)) (sym same) a in
        ground (arith, below.0, n, miss, found, same)
  ]

  remove-sort :
      (r : Route P) (rs : List (Route P))
      → IsSortedBy metric_of rs
      → is_member r rs ≡ false
      → remove r (sort_by metric_of (rs ++ r ∷ [])) ≡ ok rs
  unfolding sort_by is_member remove
  remove-sort r [] s n = rw (route_eq_refl r, remove) refl
  remove-sort r (x ∷ rs) s n = elim (Bool-cases (route_eq x r)) [
    | inl hit ↦ absurd (cc (rw (hit, is_member) at n))
    | inr miss ↦
        remove-insert_by r x (sort_by metric_of (rs ++ r ∷ [])) rs
          (remove-sort r rs s.1 (rw (miss, is_member) at n)) s.0 miss
  ]

  restore :
      (t u : Table P) (p : P) (o : Option (List (Route P)))
      → ((q : P) → get u q ≡ (if p == q then o else get t q))
      → get t p ≡ o
      → (q : P) → get u q ≡ get t q
  restore t u p o h k q = ground (arith, h q, e.eqv_iff p q, k)

  get-put_back :
      (p : P) (rs : List (Route P)) (t : Table P) (q : P)
      → rs ≢ []
      → get (put_back p rs t) q ≡ (if p == q then some rs else get t q)
  unfolding put_back
  get-put_back p [] t q h = absurd (h refl)
  get-put_back p (x ∷ xs) t q h = get-set t p q (x ∷ xs)

  undo_new :
      (is_mpls : Bool) (r : Route P) (t : Table P) (log : List (RouteEvent P))
      → get t r.prefix ≡ none
      → (t' : Table P) × (log' : List (RouteEvent P)) × (del_route r
            (add_route is_mpls r t log).0
            (add_route is_mpls r t log).1
          ≡ ok (t', log'))
        × ((q : P) → get t' q ≡ get t q)
  unfolding add_route del_route sort_by
  undo_new true r t log new = (
    delete (set t r.prefix (r ∷ [])) r.prefix,
    (log ++ added r ∷ []) ++ deleted r ∷ [],
    rw (new, add_route)
        (rw (get-set, beq_refl r.prefix, del_route) (rw (route_eq_refl r, remove) refl)),
    restore t _ r.prefix none
        (λ q.
          ground
            (arith, get-delete (set t r.prefix (r ∷ [])) r.prefix q, get-set t r.prefix q (r ∷ [])))
        new,
  )
  undo_new false r t log new = (
    delete (set (set t r.prefix (r ∷ [])) r.prefix (r ∷ [])) r.prefix,
    (log ++ added r ∷ []) ++ deleted r ∷ [],
    rw (new, add_route)
        (rw (get-set, beq_refl r.prefix, del_route) (rw (route_eq_refl r, remove) refl)),
    restore t _ r.prefix none
        (λ q. ground (
          arith,
          get-delete (set (set t r.prefix (r ∷ [])) r.prefix (r ∷ [])) r.prefix q,
          get-set (set t r.prefix (r ∷ [])) r.prefix q (r ∷ []),
          get-set t r.prefix q (r ∷ []),
        ))
        new,
  )

  undo_old :
      (is_mpls : Bool) (r : Route P) (t : Table P) (log : List (RouteEvent P)) (rs : List (Route P))
      → get t r.prefix ≡ some rs
      → IsRoutes r.prefix rs
      → is_member r rs ≡ false
      → (t' : Table P) × (log' : List (RouteEvent P)) × (del_route r
            (add_route is_mpls r t log).0
            (add_route is_mpls r t log).1
          ≡ ok (t', log'))
        × ((q : P) → get t' q ≡ get t q)
  unfolding add_route del_route
  undo_old is_mpls r t log rs old good n = (
    put_back r.prefix rs (set t r.prefix sorted),
    log ++ deleted r ∷ [],
    rw (old, add_route)
        (rw (get-set, beq_refl r.prefix, del_route) (rw (remove-sort r rs good.sorted n) refl)),
    restore t _ r.prefix (some rs)
        (λ q. ground (
          arith,
          get-put_back r.prefix rs (set t r.prefix sorted) q good.some_route,
          get-set t r.prefix q sorted,
        ))
        old,
  )
    where
      sorted : List (Route P)
      sorted = sort_by metric_of (rs ++ r ∷ [])

  -- Adding a route of which the table has no equal, and deleting it again, changes no prefix.
  pub del_route-add_route :
      (is_mpls : Bool) (r : Route P) (t : Table P) (log : List (RouteEvent P))
      → IsTable t
      → is_member r (routes_of t r.prefix) ≡ false
      → (t' : Table P) × (log' : List (RouteEvent P)) × (del_route r
            (add_route is_mpls r t log).0
            (add_route is_mpls r t log).1
          ≡ ok (t', log'))
        × ((q : P) → get t' q ≡ get t q)
  del_route-add_route is_mpls r t log w n = elim (Option-cases (get t r.prefix)) [
    | inl new ↦ undo_new is_mpls r t log new
    | inr (rs, old) ↦ undo_old is_mpls r t log rs old (w r.prefix rs old) (rw (old, routes_of) at n)
  ]

  sort-best :
      (r : Route P) (xs : List (Route P))
      → All (λ x. r.metric < x.metric) xs
      → IsSortedBy metric_of xs
      → sort_by metric_of (xs ++ r ∷ []) ≡ r ∷ xs
  unfolding sort_by
  sort-best r [] a s = refl
  sort-best r (x ∷ xs) a s =
      rw (sort-best r xs a.1 s.1) (ground (arith, a.0, insert_by-below x xs s.0))

  -- A route that is better than all of a known prefix becomes its first, and no listener is told.
  pub better_route_unannounced :
      (is_mpls : Bool) (r : Route P) (t : Table P) (log : List (RouteEvent P)) (rs : List (Route P))
      → IsTable t
      → get t r.prefix ≡ some rs
      → All (λ x. r.metric < x.metric) rs
      → (get (add_route is_mpls r t log).0 r.prefix ≡ some (r ∷ rs))
        × ((add_route is_mpls r t log).1 ≡ log)
  unfolding add_route
  better_route_unannounced is_mpls r t log rs w old better =
      rw (old, add_route)
        (
          rw (get-set, beq_refl r.prefix, sort-best r rs better (w r.prefix rs old).sorted) refl,
          refl,
        )
