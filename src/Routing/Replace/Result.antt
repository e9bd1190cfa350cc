-- ===== src/Routing/Replace/Result.antt =====
-- What `set_routes` leaves in the table: for each prefix one route, the last of those in the list
-- that differ from the route before them.
use router_sim.Base.{
  ◌≡◌, refl, ap, subst, ◌∙◌, Bool, true, false, List, [], ◌∷◌, ◌++◌, Option, none, some,
  if◌then◌else◌, arith, Hashable, ◌==◌, get, set, delete, has, keys, has-get, get-set, get-delete,
  beq_refl, Bool-cases, Option-cases, inl, inr, ◌⊎◌, In, All,
}
use router_sim.Base.Sorting.{sort_by}
use router_sim.Base.Outcome.{ok}
use router_sim.Routing.{
  Route, Table, RouteEvent, deleted, is_member, remove, add_route, del_route, route_eq,
}
use router_sim.Routing.Undo.{route_eq_refl}
use router_sim.Routing.Replace.{
  del_routes_live, visit, visit_all, is_visited, delete_unvisited, set_routes,
}

module _ {P : Type 0} ⦃e : Hashable P⦄ where
  -- the route that stays of a prefix's present route and one more
  abbrev pub choose : Option (Route P) → Route P → Route P
  choose none r = r
  choose (some c) r = if route_eq c r then c else r

  -- the route that a prefix ends with, from the one it has
  unfoldable pub winner : P → List (Route P) → Option (Route P) → Option (Route P)
  winner p [] c = c
  winner p (r ∷ rs) c = winner p rs (if r.prefix == p then some (choose c r) else c)

  abbrev pub single : Option (Route P) → Option (List (Route P))
  single none = none
  single (some r) = some (r ∷ [])

  -- The table has for each prefix the one route that `w` says, or none.
  record Tracks (w : P → Option (Route P)) (t : Table P) : Type 0 where
    entry : (p : P) → get t p ≡ single (w p)
    own : (p : P) (c : Route P) → w p ≡ some c → c.prefix ≡ p

  abbrev chosen : Route P → (P → Option (Route P)) → P → Option (Route P)
  chosen r w p = if r.prefix == p then some (choose (w p) r) else w p

  add_route_new :
      (b : Bool) (r : Route P) (t : Table P) (log : List (RouteEvent P))
      → get t r.prefix ≡ none
      → (p : P) → get (add_route b r t log).0 p ≡ (if r.prefix == p then some (r ∷ []) else get t p)
  unfolding add_route sort_by
  add_route_new true r t log n p = rw (n, add_route) (get-set t r.prefix p (r ∷ []))
  add_route_new false r t log n p =
      rw (n, add_route)
        (ground (
          arith,
          get-set (set t r.prefix (r ∷ [])) r.prefix p (r ∷ []),
          get-set t r.prefix p (r ∷ []),
        ))

  put_Tracks :
      (r c : Route P) (w : P → Option (Route P)) (t u : Table P)
      → Tracks w t
      → ((p : P) → get u p ≡ (if r.prefix == p then some (c ∷ []) else get t p))
      → choose (w r.prefix) r ≡ c
      → c.prefix ≡ r.prefix
      → Tracks (chosen r w) u
  put_Tracks r c w t u h put best own = record {
    entry = λ p. ground (arith, put p, h.entry p, e.eqv_iff r.prefix p, best);
    own = λ p d k. ground (arith, h.own p d, e.eqv_iff r.prefix p, best, own, k);
  }

  -- The one route of a prefix is deleted, and with it the prefix.
  delete_own :
      (c : Route P) (t : Table P) (log : List (RouteEvent P))
      → get t c.prefix ≡ some (c ∷ [])
      → del_routes_live 1 0 c.prefix t log ≡ ok (delete t c.prefix, log ++ deleted c ∷ [])
  unfolding del_routes_live del_route remove
  delete_own c t log h =
      rw (h, del_routes_live) (rw (h, del_route) (rw (route_eq_refl c, remove) refl))

  delete_only :
      (c : Route P) (p : P) (t : Table P) (log : List (RouteEvent P))
      → c.prefix ≡ p
      → get t p ≡ some (c ∷ [])
      → del_routes_live 1 0 p t log ≡ ok (delete t p, log ++ deleted c ∷ [])
  delete_only c p t log own =
      subst
        (λ q.
          get t q ≡ some (c ∷ [])
          → del_routes_live 1 0 q t log ≡ ok (delete t q, log ++ deleted c ∷ []))
        own (delete_own c t log)

  replace_Tracks :
      (b : Bool) (r c : Route P) (w : P → Option (Route P)) (t : Table P)
      (log : List (RouteEvent P))
      → Tracks w t
      → w r.prefix ≡ some c
      → route_eq c r ≡ false
      → Tracks (chosen r w) (add_route b r (delete t r.prefix) (log ++ deleted c ∷ [])).0
  replace_Tracks b r c w t log h old differ =
      let gone : get (delete t r.prefix) r.prefix ≡ none =
        rw (get-delete, beq_refl r.prefix) refl in
      put_Tracks r r w t _ h
        (λ p. ground (
          arith,
          add_route_new b r (delete t r.prefix) (log ++ deleted c ∷ []) gone p,
          get-delete t r.prefix p,
        ))
        (rw (old, differ) refl) refl

  visit-Tracks :
      (b : Bool) (r : Route P) (w : P → Option (Route P)) (t : Table P) (log : List (RouteEvent P))
      → Tracks w t
      → (t' : Table P) × (log' : List (RouteEvent P)) × (visit b r t log ≡ ok (t', log'))
        × Tracks (chosen r w) t'
  unfolding visit is_member
  visit-Tracks b r w t log h = elim (Option-cases (w r.prefix)) [
    | inl new ↦
        let absent = h.entry r.prefix ∙ ap single new in
        (
          (add_route b r t log).0,
          (add_route b r t log).1,
          rw (absent, visit) refl,
          put_Tracks r r w t _ h (add_route_new b r t log absent) (rw new refl) refl,
        )
    | inr (c, old) ↦
        let present = h.entry r.prefix ∙ ap single old in
        let mine = h.own r.prefix c old in
        elim (Bool-cases (route_eq c r)) [
          | inl same ↦ (
            t,
            log,
            rw (present, visit) (rw (same, is_member) refl),
            put_Tracks r c w t t h (λ p. ground (arith, h.entry p, old, e.eqv_iff r.prefix p))
                (rw (old, same) refl) mine,
          )
          | inr differ ↦
              let only = delete_only c r.prefix t log mine present in
              (
                (add_route b r (delete t r.prefix) (log ++ deleted c ∷ [])).0,
                (add_route b r (delete t r.prefix) (log ++ deleted c ∷ [])).1,
                rw (present, visit) (rw (differ, is_member) (rw only refl)),
                replace_Tracks b r c w t log h old differ,
              )
        ]
  ]

  visit_all-Tracks :
      (b : Bool) (rs : List (Route P)) (w : P → Option (Route P)) (t : Table P)
      (log : List (RouteEvent P))
      → Tracks w t
      → (t' : Table P) × (log' : List (RouteEvent P)) × (visit_all b rs t log ≡ ok (t', log'))
        × Tracks (λ p. winner p rs (w p)) t'
  unfolding visit_all winner
  visit_all-Tracks b [] w t log h = (t, log, refl, h)
  visit_all-Tracks b (r ∷ rs) w t log h =
      let (t', log', step, h') = visit-Tracks b r w t log h in
      let (u, log'', rest, h'') = visit_all-Tracks b rs (chosen r w) t' log' h' in
      (u, log'', rw (step, visit_all) rest, h'')

  In-keys : (m : Table P) (k : P) → In k (keys m) → has m k ≡ true
  unfolding has
  In-keys [] k h = elim h [ ]
  In-keys ((j, v) ∷ m) k (inl same) = rw ((e.eqv_iff j k).1 same) refl
  In-keys ((j, v) ∷ m) k (inr later) = ground (arith, In-keys m k later)

  winner-visited :
      (p : P) (rs : List (Route P)) (c : Option (Route P)) {r : Route P}
      → winner p rs c ≡ some r
      → (is_visited p rs ≡ true) ⊎ (c ≡ some r)
  unfolding winner is_visited
  winner-visited p [] c h = inr h
  winner-visited p (x ∷ rs) c h =
      ground (arith, winner-visited p rs (if x.prefix == p then some (choose c x) else c) h)

  delete_unvisited_idle :
      (ps : List P) (rs : List (Route P)) (t : Table P) (log : List (RouteEvent P))
      → All (λ p. is_visited p rs ≡ true) ps
      → delete_unvisited ps rs t log ≡ ok (t, log)
  unfolding delete_unvisited
  delete_unvisited_idle [] rs t log a = refl
  delete_unvisited_idle (p ∷ ps) rs t log a =
      rw (a.0, delete_unvisited) (delete_unvisited_idle ps rs t log a.1)

  all_visited :
      (ps : List P) (rs : List (Route P)) (t : Table P)
      → Tracks (λ p. winner p rs none) t
      → ((k : P) → In k ps → has t k ≡ true)
      → All (λ p. is_visited p rs ≡ true) ps
  all_visited [] rs t h m = tt
  all_visited (p ∷ ps) rs t h m = (
    elim (has-get t p) [
      | inl (there, (v, found)) ↦ elim (Option-cases (winner p rs none)) [
        | inl lost ↦ absurd (cc (found, h.entry p, lost))
        | inr (r, won) ↦ elim (winner-visited p rs none won) [
          | inl seen ↦ seen
          | inr never ↦ absurd (cc never)
        ]
      ]
      | inr (missing, _) ↦ absurd (cc (m p (inl refl), missing))
    ],
    all_visited ps rs t h (λ k i. m k (inr i)),
  )

  -- `set_routes` never raises. Whatever the table held, each prefix ends with one route, the last of
  -- its routes in the list that differs from the one before it, and a prefix with none is not there.
  pub set_routes_result :
      (is_mpls : Bool) (routes : List (Route P)) (t : Table P) (log : List (RouteEvent P))
      → (t' : Table P) × (log' : List (RouteEvent P)) × (set_routes is_mpls routes t log
          ≡ ok (t', log'))
        × ((p : P) → get t' p ≡ single (winner p routes none))
  unfolding set_routes get
  set_routes_result is_mpls routes t log =
      let empty : Tracks (λ p. none) [] = record { entry = λ p. refl; own = λ p c h. cc } in
      let (t', log', done, h) = visit_all-Tracks is_mpls routes (λ p. none) [] log empty in
      (
        t',
        log',
        rw (done, set_routes)
            (delete_unvisited_idle (keys t') routes t' log'
              (all_visited (keys t') routes t' h (λ k i. In-keys t' k i))),
        h.entry,
      )
