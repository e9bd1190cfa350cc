-- ===== src/Isis/Routes/FirstHop.antt =====
-- The routes that routersim/isis/process.py installs lead over the first hop of a shortest path.
use mathlib.Core.List.{reverse}
use router_sim.Base.{
  In-append, ℕ, ◌+◌, ◌<◌, ◌≡◌, sym, ◌∙◌, ap, subst, false, List, [], ◌∷◌, Option, none, some,
  if◌then◌else◌, ◌==◌, nat_eq, Dict, get, keys, In, arith, Bool-cases, Option-cases, inl, inr, ◌⊎◌,
}
use router_sim.Base.Outcome.{ok, or_raise, >>=-eq-ok, ok-injective, key_error, attribute_error}
use router_sim.Net.{Network, net_eq, net_beq_iff}
use router_sim.Routing.{Route, Table, RouteEvent, new_route, route_eq}
use router_sim.Routing.Replace.Result.{choose, winner, single, set_routes_result}
use router_sim.Isis.{LinkStatePdu, ExtendedIpReachability, up, ip_tlvs}
use router_sim.Isis.Spf.{State, Database, done, maxsize, shortest_paths}
use router_sim.Isis.Spf.Graph.{Edge, IsKeyed, dist}
use router_sim.Isis.Paths.{address_paths}
use router_sim.Isis.Paths.Trail.{Trail, first_hop}
use router_sim.Isis.Paths.Prefixes.{done-injective, address_paths_lem}
use router_sim.Isis.Routes.{Adjacent, Surroundings, route_to, routes_to, update_routing_table}

-- A route to a prefix over the adjacency with the first system of the path to it.
abbrev pub OverFirstHop : Surroundings → Dict Network (List ℕ) → Network → Route Network → Type 0
OverFirstHop x paths n r =
    (hop : ℕ) × (rest : List ℕ) × (a : Adjacent) × (get paths n ≡ some (hop ∷ rest))
    × (get x.neighbors hop ≡ some a)
    × (r.prefix ≡ n)
    × (r.interface ≡ some a.interface_name)
    × (r.next_hop_ip ≡ a.iface_address)

route_to-OverFirstHop :
    (x : Surroundings) (distances : Dict Network ℕ) (paths : Dict Network (List ℕ)) (n : Network)
    (path : List ℕ) (rs : List (Route Network))
    → get paths n ≡ some path
    → route_to x distances n path ≡ ok rs
    → (r : Route Network) → In r rs
    → OverFirstHop x paths n r
unfolding route_to new_route
route_to-OverFirstHop x distances paths n [] rs at e r i =
    absurd (subst (λ l. In r l) (sym (ok-injective e)) i)
route_to-OverFirstHop x distances paths n (hop ∷ path) rs at e r i =
    elim (Option-cases (get x.neighbors hop)) [
      | inl stranger ↦
          absurd (subst (λ l. In r l) (sym (ok-injective (rw (route_to, stranger) at e))) i)
      | inr (a, there) ↦
          let (l, _, e₁) =
            >>=-eq-ok (or_raise key_error (get x.known hop)) _ (rw (route_to, there) at e) in
          let (b, _, e₂) = >>=-eq-ok (or_raise attribute_error a.address) _ e₁ in
          let (m, _, e₃) = >>=-eq-ok (or_raise key_error (get distances n)) _ e₂ in
          let (u, _, e₄) =
            >>=-eq-ok (or_raise key_error (get x.interfaces a.interface_name)) _ e₃ in
          elim (subst (λ l. In r l) (sym (ok-injective e₄)) i) [
            | inl same ↦ (
              hop,
              path,
              a,
              at,
              there,
              ap (λ y. y.prefix) (sym same),
              ap (λ y. y.interface) (sym same),
              ap (λ y. y.next_hop_ip) (sym same),
            )
            | inr more ↦ absurd more
          ]
    ]

routes_to-OverFirstHop :
    (x : Surroundings) (distances : Dict Network ℕ) (paths : Dict Network (List ℕ))
    (ns : List Network) (rs : List (Route Network))
    → routes_to x distances paths ns ≡ ok rs
    → (r : Route Network) → In r rs
    → OverFirstHop x paths r.prefix r
unfolding routes_to
routes_to-OverFirstHop x distances paths [] rs e r i =
    absurd (subst (λ l. In r l) (sym (ok-injective e)) i)
routes_to-OverFirstHop x distances paths (n ∷ ns) rs e r i =
    let (path, at, e₁) = >>=-eq-ok (or_raise key_error (get paths n)) _ e in
    let (one, made, e₂) = >>=-eq-ok (route_to x distances n path) _ e₁ in
    let (rest, others, e₃) = >>=-eq-ok (routes_to x distances paths ns) _ e₂ in
    let found : get paths n ≡ some path = ground (arith, at) in
    elim (In-append r one rest (subst (λ l. In r l) (sym (ok-injective e₃)) i)) [
      | inl j ↦
          let (hop, more, a, there, known, own, face, next) =
            route_to-OverFirstHop x distances paths n path one found made r j in
          subst (λ m. OverFirstHop x paths m r) (sym own)
            (hop, more, a, there, known, own, face, next)
      | inr j ↦ routes_to-OverFirstHop x distances paths ns rest others r j
    ]

-- The route that a prefix ends with is one of those given, or the one it had.
winner_from :
    (p : Network) (rs : List (Route Network)) (c : Option (Route Network)) (r : Route Network)
    → winner p rs c ≡ some r
    → (In r rs × (r.prefix ≡ p)) ⊎ (c ≡ some r)
unfolding winner
winner_from p [] c r e = inr e
winner_from p (x ∷ rs) c r e =
    elim (winner_from p rs (if x.prefix == p then some (choose c x) else c) r e) [
      | inl (i, own) ↦ inl (inr i, own)
      | inr now ↦ elim (Bool-cases (x.prefix == p)) [
        | inr other ↦ inr (rw other at now)
        | inl match ↦ picked c (rw match at now) ((net_beq_iff x.prefix p).0 match)
      ]
    ]
  where
    picked :
        (c : Option (Route Network))
        → some (choose c x) ≡ some r
        → x.prefix ≡ p
        → (In r (x ∷ rs) × (r.prefix ≡ p)) ⊎ (c ≡ some r)
    picked none e own =
        let same : x ≡ r = ground (arith, e) in inl (inl same, ap (λ y. y.prefix) (sym same) ∙ own)
    picked (some c) e own = elim (Bool-cases (route_eq c x)) [
      | inl like ↦ inr (rw like at e)
      | inr unlike ↦
          let same : x ≡ r = ground (arith, rw unlike at e) in
          inl (inl same, ap (λ y. y.prefix) (sym same) ∙ own)
    ]

-- Where `update_routing_table` ends without an exception, the table has for a prefix no route or one,
-- and that one goes over the adjacency with the first system of the path to the prefix.
pub update_routing_table-OverFirstHop :
    (x : Surroundings) (distances : Dict Network ℕ) (paths : Dict Network (List ℕ))
    (t t' : Table Network) (log log' : List (RouteEvent Network))
    → update_routing_table x distances (some paths) t log ≡ ok (t', log')
    → (n : Network)
    → (get t' n ≡ none)
      ⊎ ((r : Route Network) × (get t' n ≡ some (r ∷ [])) × OverFirstHop x paths n r)
unfolding update_routing_table
update_routing_table-OverFirstHop x distances paths t t' log log' e n =
    let (routes, made, e₁) = >>=-eq-ok (routes_to x distances paths (keys paths)) _ e in
    let (t'', log'', ends, all) = set_routes_result false routes t log in
    let same : t'' ≡ t' = ap (λ y. y.0) (ok-injective (sym ends ∙ e₁)) in
    let entry : get t' n ≡ single (winner n routes none) = ap (λ y. get y n) (sym same) ∙ all n in
    elim (Option-cases (winner n routes none)) [
      | inl nothing ↦ inl (entry ∙ ap single nothing)
      | inr (r, won) ↦ elim (winner_from n routes none r won) [
        | inl (i, own) ↦ inr (
          r,
          entry ∙ ap single won,
          subst (λ m. OverFirstHop x paths m r) own
              (routes_to-OverFirstHop x distances paths (keys paths) routes made r i),
        )
        | inr never ↦ absurd (cc never)
      ]
    ]

-- After a complete run of the shortest paths and the update of the table, the route of a prefix at a
-- distance below `sys.maxsize` goes over the adjacency with a neighbour that this system's LSP names,
-- the first on a path to a system that has the prefix, of the prefix's distance less the metric there.
pub routes_on_shortest_paths :
    (x : Surroundings) (db : Database) (self : ℕ) (s : State) (paths : Dict Network (List ℕ))
    (t t' : Table Network) (log log' : List (RouteEvent Network)) (n : Network) (e : ℕ)
    (r : Route Network) (rs : List (Route Network))
    → IsKeyed db
    → shortest_paths self db ≡ done s
    → address_paths self db s ≡ done paths
    → update_routing_table x s.distance (some paths) t log ≡ ok (t', log')
    → get s.distance n ≡ some e
    → e < maxsize
    → get t' n ≡ some (r ∷ rs)
    → (hop : ℕ) × (a : Adjacent) × (w : ℕ) × (u : ℕ) × (back rest : List ℕ) × (p : LinkStatePdu)
      × (z : ExtendedIpReachability) × (get x.neighbors hop ≡ some a)
      × (r.interface ≡ some a.interface_name)
      × (r.next_hop_ip ≡ a.iface_address)
      × Edge db self hop w
      × (reverse back ≡ hop ∷ rest)
      × Trail db self back u (dist s.system_distance u)
      × (get db u ≡ some p)
      × In z (ip_tlvs p.tlvs)
      × (z.state ≡ up)
      × (z.prefix ≡ n)
      × (e ≡ dist s.system_distance u + z.metric)
routes_on_shortest_paths x db self s paths t t' log log' n e r rs keyed ends made updated at low
      there =
    elim (update_routing_table-OverFirstHop x s.distance paths t t' log log' updated n) [
      | inl nothing ↦ absurd (cc (nothing, there))
      | inr (r', held, (hop, rest, a, path, known, own, face, next)) ↦
          let same : r' ≡ r = ground (arith, held, there) in
          let (paths', made', all) = address_paths_lem db self s keyed ends in
          let (u, back, p, z, path', trail, gu, i, zu, zn, sum) = all n e at low in
          let one : paths' ≡ paths = done-injective (sym made' ∙ made) in
          let way : reverse back ≡ hop ∷ rest =
            ground (arith, sym (ap (λ y. get y n) one) ∙ path', path) in
          let (w, edge) = first_hop db self back u (dist s.system_distance u) hop rest trail way in
          (
            hop,
            a,
            w,
            u,
            back,
            rest,
            p,
            z,
            known,
            ap (λ y. y.interface) (sym same) ∙ face,
            ap (λ y. y.next_hop_ip) (sym same) ∙ next,
            edge,
            way,
            trail,
            gu,
            i,
            zu,
            zn,
            sum,
          )
    ]
