-- ===== src/Host/Updates.antt =====
-- What `RouteTableUpdater` of routersim/server.py does to the `direct` table.
use router_sim.Base.{
  ℕ, ◌≡◌, ◌≢◌, refl, sym, ap, ◌∙◌, true, false, List, [], ◌∷◌, ◌++◌, Option, none, some,
  if◌then◌else◌, ◌==◌, nat_eq, Hashable, get, set, get-set, get-delete, beq_refl, arith,
  Option-cases, Bool-cases, inl, inr,
}
use router_sim.Base.Outcome.{ok, >>=-eq-ok, ok-injective}
use router_sim.Base.Sorting.{sort_by}
use router_sim.Net.{Network, net_eq, net_beq_iff, host}
use router_sim.Routing.{
  Route, RouteEvent, Table, deleted, is_member, routes_of, remove, put_back, add_route, del_route,
}
use router_sim.Routing.Metric.{IsTable}
use router_sim.Routing.Undo.{del_route-add_route}
use router_sim.Host.{
  Address, Logical, logical, Host, add_direct, del_direct, connected_route, local_route,
  add_connected_route, del_connected_route, update_routes, set_state,
}

module _ {P : Type 0} ⦃e : Hashable P⦄ where
  -- the routes of a prefix with one more
  abbrev pub joined : Route P → Option (List (Route P)) → List (Route P)
  joined r none = r ∷ []
  joined r (some rs) = sort_by (λ x. x.metric) (rs ++ r ∷ [])

  pub get-add_route :
      (r : Route P) (t : Table P) (log : List (RouteEvent P)) (q : P)
      → get (add_route false r t log).0 q
        ≡ (if r.prefix == q then some (joined r (get t r.prefix)) else get t q)
  unfolding add_route sort_by
  get-add_route r t log q = elim (Option-cases (get t r.prefix)) [
    | inl new ↦
        rw (add_route, new)
          (get-set (set t r.prefix (r ∷ [])) r.prefix q (r ∷ [])
            ∙ ground (arith, get-set t r.prefix q (r ∷ [])))
    | inr (rs, old) ↦
        rw (add_route, old) (get-set t r.prefix q (sort_by (λ x. x.metric) (rs ++ r ∷ [])))
  ]

  abbrev pub kept : List (Route P) → Option (List (Route P))
  kept [] = none
  kept (x ∷ xs) = some (x ∷ xs)

  pub get-put_back :
      (p : P) (left : List (Route P)) (t : Table P) (q : P)
      → get (put_back p left t) q ≡ (if p == q then kept left else get t q)
  unfolding put_back
  get-put_back p [] t q = get-delete t p q
  get-put_back p (x ∷ xs) t q = get-set t p q (x ∷ xs)

  -- Deleting a route depends on the routes of its prefix, and changes no other.
  get-del_route :
      (r : Route P) (t u t' : Table P) (log log' log'' : List (RouteEvent P))
      → get t r.prefix ≡ get u r.prefix
      → del_route r t log ≡ ok (t', log')
      → (u' : Table P) × (out : List (RouteEvent P)) × (del_route r u log'' ≡ ok (u', out))
        × ((q : P) → get u' q ≡ (if r.prefix == q then get t' r.prefix else get u q))
  unfolding del_route
  get-del_route r t u t' log log' log'' same ends = elim (Option-cases (get t r.prefix)) [
    | inl none_there ↦
        let none_here : get u r.prefix ≡ none = sym same ∙ none_there in
        let t_t' : t ≡ t' = ap (λ x. x.0) (ok-injective (rw (none_there, del_route) at ends)) in
        (
          u,
          log'',
          rw (del_route, none_here) refl,
          λ q. elim (Bool-cases (r.prefix == q)) [
            | inr away ↦ rw away refl
            | inl at ↦ rw at (
                ap (get u) (sym ((e.eqv_iff r.prefix q).0 at))
                ∙ none_here
                ∙ sym (ap (λ x. get x r.prefix) (sym t_t') ∙ none_there))
          ],
        )
    | inr (rs, there) ↦
        let here : get u r.prefix ≡ some rs = sym same ∙ there in
        let (left, removed, rest) = >>=-eq-ok (remove r rs) _ (rw (there, del_route) at ends) in
        let after : get t' r.prefix ≡ kept left =
          ap (λ x. get x.0 r.prefix) (sym (ok-injective rest))
          ∙ get-put_back r.prefix left t r.prefix
          ∙ rw (beq_refl r.prefix) refl in
        (
          put_back r.prefix left u,
          log'' ++ deleted r ∷ [],
          rw (del_route, here, removed) refl,
          λ q.
              get-put_back r.prefix left u q
              ∙ ap (λ o. if r.prefix == q then o else get u q) (sym after),
        )
  ]

pub get-add_route-own :
    (r : Route Network) (t : Table Network) (log : List (RouteEvent Network))
    → get (add_route false r t log).0 r.prefix ≡ some (joined r (get t r.prefix))
get-add_route-own r t log = get-add_route r t log r.prefix ∙ rw (beq_refl r.prefix) refl

pub beq_flip : (a b : Network) → (a == b) ≡ false → (b == a) ≡ false
beq_flip a b apart = ground (arith, apart)

pub beq_apart : (a b : Network) → a ≢ b → (a == b) ≡ false
beq_apart a b far = elim (Bool-cases (a == b)) [
  | inl same ↦ absurd (far ((net_beq_iff a b).0 same))
  | inr apart ↦ apart
]

get_equal : (t : Table Network) (a b : Network) → (a == b) ≡ true → get t a ≡ get t b
get_equal t a b same = ap (get t) ((net_beq_iff a b).0 same)

-- The routes of two prefixes are added one after the other, and deleted in the same order.
undo_both :
    (a b : Route Network) (t : Table Network) (log log' log'' : List (RouteEvent Network))
    → IsTable t
    → is_member a (routes_of t a.prefix) ≡ false
    → is_member b (routes_of t b.prefix) ≡ false
    → (a.prefix == b.prefix) ≡ false
    → let u = (add_route false b (add_route false a t log).0 log').0 in
      (t' : Table Network) × (out : List (RouteEvent Network)) × (del_route a u log''
        ≡ ok (t', out))
      × (t'' : Table Network) × (end : List (RouteEvent Network)) × (del_route b t' out
          ≡ ok (t'', end))
      × ((q : Network) → get t'' q ≡ get t q)
undo_both a b t log log' log'' w new_a new_b apart =
    let t₁ = (add_route false a t log).0 in
    let u = (add_route false b t₁ log').0 in
    let flipped : (b.prefix == a.prefix) ≡ false = beq_flip a.prefix b.prefix apart in
    let (s, _, undone_a, same_a) = del_route-add_route false a t log w new_a in
    let (r, _, undone_b, same_b) = del_route-add_route false b t log w new_b in
    let at_a : get t₁ a.prefix ≡ get u a.prefix =
      sym (get-add_route b t₁ log' a.prefix ∙ rw flipped refl) in
    let (t', out, del_a, gets_a) = get-del_route a t₁ u s _ _ log'' at_a undone_a in
    let t₁_b : get t₁ b.prefix ≡ get t b.prefix = get-add_route a t log b.prefix ∙ rw apart refl in
    let at_b : get (add_route false b t log).0 b.prefix ≡ get t' b.prefix =
      get-add_route-own b t log
      ∙ ap (λ o. some (joined b o)) (sym t₁_b)
      ∙ sym (get-add_route-own b t₁ log')
      ∙ sym (gets_a b.prefix ∙ rw apart refl) in
    let (t'', end, del_b, gets_b) =
      get-del_route b (add_route false b t log).0 t' r _ _ out at_b undone_b in
    (
      t',
      out,
      del_a,
      t'',
      end,
      del_b,
      λ q. gets_b q ∙ elim (Bool-cases (b.prefix == q)) [
        | inl own ↦ rw own (same_b b.prefix ∙ get_equal t b.prefix q own)
        | inr far ↦ rw far (
            gets_a q ∙ elim (Bool-cases (a.prefix == q)) [
              | inl first ↦ rw first (same_a a.prefix ∙ get_equal t a.prefix q first)
              | inr rest ↦
                  rw rest
                    (get-add_route b t₁ log' q ∙ rw far (get-add_route a t log q ∙ rw rest refl))
            ])
      ],
    )

pub update_routes-up :
    (name parent hw : ℕ) (face : Option Address) (a : Address) (h : Host)
    → face ≡ some a
    → update_routes
        (logical
          (record { name = name; parent = parent; hw_address = hw; is_up = true; address = face }))
        h
      ≡ ok (add_connected_route name a h)
unfolding update_routes
update_routes-up name parent hw face a h at = rw (at, update_routes) refl

pub update_routes-down :
    (name parent hw : ℕ) (face : Option Address) (a : Address) (h : Host)
    → face ≡ some a
    → update_routes
        (logical
          (record { name = name; parent = parent; hw_address = hw; is_up = false; address = face }))
        h
      ≡ del_connected_route name a h
unfolding update_routes
update_routes-down name parent hw face a h at = rw (at, update_routes) refl

-- A logical interface with an address, in a network of more than the address alone, comes up, and goes down
-- again: if the `direct` table is well-formed and had no equals of its two routes, nothing is raised, and
-- the table has the same routes for every prefix as before.
pub set_state-set_state :
    (l : Logical) (a : Address) (h : Host)
    → l.address ≡ some a
    → IsTable h.routing.direct
    → is_member (connected_route l.name a) (routes_of h.routing.direct a.network) ≡ false
    → is_member (local_route l.name a) (routes_of h.routing.direct (host a.ip)) ≡ false
    → a.network ≢ host a.ip
    → (g g' : Host) × (set_state true l h ≡ ok g)
      × (set_state false l g ≡ ok g')
      × ((q : Network) → get g'.routing.direct q ≡ get h.routing.direct q)
unfolding set_state add_connected_route del_connected_route add_direct del_direct connected_route
    local_route
set_state-set_state l a h at w new_c new_l wide =
    let c = connected_route l.name a in
    let r = local_route l.name a in
    let apart : (a.network == host a.ip) ≡ false = beq_apart a.network (host a.ip) wide in
    let first = add_route false c h.routing.direct h.route_log in
    let second = add_route false r first.0 first.1 in
    let (t', out, del_c, t'', end, del_r, same) =
      undo_both c r h.routing.direct h.route_log first.1 second.1 w new_c new_l apart in
    let up = record h {
      interfaces = set h.interfaces l.name (logical (record l { is_up = true }));
    } in
    let g = add_connected_route l.name a up in
    let down = record g {
      interfaces = set g.interfaces l.name (logical (record l { is_up = false }));
    } in
    (
      g,
      record down { routing = record h.routing { direct = t'' }; route_log = end },
      update_routes-up l.name l.parent l.hw_address l.address a up at,
      update_routes-down l.name l.parent l.hw_address l.address a down at
          ∙ rw (del_connected_route, del_direct, del_c, del_r) refl,
      same,
    )
