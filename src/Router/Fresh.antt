-- ===== src/Router/Fresh.antt =====
-- routersim/router.py: the forwarding table once an interface went up or down.
use router_sim.Base.{
  ℕ, ◌≡◌, ◌≢◌, refl, sym, ap, ◌∙◌, subst, Bool, true, false, List, [], none, some, ◌==◌, nat_eq,
  Dict, get, set, has, has-get, keys, All, Bool-cases, inl, inr,
}
use router_sim.Base.Outcome.{ok, >>=-eq-ok, ok-injective}
use router_sim.Net.{Network, net_eq, host, IsNetwork}
use router_sim.Routing.{Route, add_route}
use router_sim.Routing.Order.{all_prefixes}
use router_sim.Routing.Select.{ForwardingTables, forwarding_table, inet}
use router_sim.Forwarding.{lookup_ip}
use router_sim.Forwarding.Match.{LongestMatch, lookup_ip-LongestMatch}
use router_sim.Host.{Address, connected_route, local_route}
use router_sim.Host.Updates.{get-add_route, beq_apart}
use router_sim.Router.{
  Router, working, with_direct, install, add_direct, del_direct, update_routes, set_link,
}

-- The installed forwarding table is the one that the route tables give.
abbrev pub IsFresh : Router → Type 0
IsFresh s =
    (f : ForwardingTables) × (s.fib ≡ some f) × (forwarding_table s.routing (working s) ≡ ok f)

install-IsFresh : (s t : Router) → install s ≡ ok t → IsFresh t
unfolding install
install-IsFresh s t e =
    let (f, made, rest) = >>=-eq-ok (forwarding_table s.routing (working s)) _ e in
    subst IsFresh (ok-injective rest) (f, refl, made)

install-routing : (s t : Router) → install s ≡ ok t → t.routing ≡ s.routing
unfolding install
install-routing s t e =
    let (f, made, rest) = >>=-eq-ok (forwarding_table s.routing (working s)) _ e in
    ap (λ x. x.routing) (sym (ok-injective rest))

-- A route of a prefix that the table lacks is announced.
add_direct-IsFresh :
    (r : Route Network) (s t : Router)
    → has s.routing.direct r.prefix ≡ false
    → add_direct r s ≡ ok t
    → IsFresh t
unfolding add_direct
add_direct-IsFresh r s t new e =
    install-IsFresh (with_direct (add_route false r s.routing.direct s.route_log) s) t
      (rw (add_direct, new) at e)

has-none :
    (t : Dict Network (List (Route Network))) (p : Network) → get t p ≡ none → has t p ≡ false
has-none t p h = elim (has-get t p) [
  | inl (_, (rs, found)) ↦ absurd (cc (sym found ∙ h))
  | inr (missing, _) ↦ missing
]

-- What adding a route does to another prefix.
add_direct-apart :
    (r : Route Network) (s t : Router) (q : Network)
    → (r.prefix == q) ≡ false
    → get s.routing.direct q ≡ none
    → add_direct r s ≡ ok t
    → get t.routing.direct q ≡ none
unfolding add_direct install
add_direct-apart r s t q apart new e =
    let same : get (add_route false r s.routing.direct s.route_log).0 q ≡ none =
      get-add_route r s.routing.direct s.route_log q ∙ rw apart new in
    let s' = with_direct (add_route false r s.routing.direct s.route_log) s in
    elim (Bool-cases (has s.routing.direct r.prefix)) [
      | inl old ↦
          let kept : s' ≡ t = ok-injective (rw (add_direct, old) at e) in
          subst (λ x. get x.routing.direct q ≡ none) kept same
      | inr first ↦
          let kept : t.routing ≡ s'.routing = install-routing s' t (rw (add_direct, first) at e) in
          ap (λ x. get x.direct q) kept ∙ same
    ]

-- An interface with an address goes up or down without an exception; if it goes up, the `direct` table has no
-- routes of the address alone, which is not the whole of its network. Then the forwarding table is the one that
-- the route tables give, and, where their prefixes are networks, the lookup of an address in it finds
-- the entry of the longest prefix that holds the address, and nothing only if none does.
pub set_link-LongestMatch :
    (i : ℕ) (up : Bool) (a : Address) (s t : Router)
    → set_link i up (some a) s ≡ ok t
    → (up ≡ true → (get s.routing.direct (host a.ip) ≡ none) × (a.network ≢ host a.ip))
    → (f : ForwardingTables) × (t.fib ≡ some f)
      × (forwarding_table t.routing (working t) ≡ ok f)
      × ((d : ℕ)
          → All IsNetwork (all_prefixes [] (inet t.routing))
          → LongestMatch d (keys f.ipv4) (lookup_ip t.fib d))
unfolding set_link update_routes connected_route local_route
set_link-LongestMatch i up a s t e first =
    let (f, here, made) = fresh up e first in
    (
      f,
      here,
      made,
      λ d nets.
          subst (λ o. LongestMatch d (keys f.ipv4) (lookup_ip o d)) (sym here)
            (lookup_ip-LongestMatch t.routing (working t) f d nets made),
    )
  where
    fresh :
        (b : Bool)
        → set_link i b (some a) s ≡ ok t
        → (b ≡ true → (get s.routing.direct (host a.ip) ≡ none) × (a.network ≢ host a.ip))
        → IsFresh t
    fresh true e first =
        let s' = record s { states = set s.states i true } in
        let (new, wide) = first refl in
        let (u, added, rest) = >>=-eq-ok (add_direct (connected_route i a) s') _ e in
        let still : get u.routing.direct (host a.ip) ≡ none =
          add_direct-apart (connected_route i a) s' u (host a.ip)
            (beq_apart a.network (host a.ip) wide) new added in
        add_direct-IsFresh (local_route i a) u t (has-none u.routing.direct (host a.ip) still) rest
    fresh false e first =
        let s' = record s { states = set s.states i false } in
        let (u, _, e₁) = >>=-eq-ok (del_direct (connected_route i a) s') _ e in
        let (v, _, e₂) = >>=-eq-ok (del_direct (local_route i a) u) _ e₁ in install-IsFresh v t e₂
