-- ===== src/Routing.antt =====
-- routersim/routing.py: routes, the route tables and what changes them. A table is a dictionary from
-- a prefix to its routes; the `mpls` table has labels for prefixes, the others networks, so the
-- operations are generic in the prefix. Interfaces are numbered.
pub mod Order
pub mod Metric
pub mod Undo
pub mod Replace
pub mod Select
use router_sim.Base.{
  ℕ, ◌≡◌, ◌↔◌, Bool, true, false, ◌&&◌, List, [], ◌∷◌, ◌++◌, Option, none, some, if◌then◌else◌, leb,
  arith, Hashable, ◌==◌, nat_eq, Dict, get, set, delete, has,
}
use router_sim.Base.Outcome.{Outcome, ok, err, or_raise, ◌>>=◌, value_error, attribute_error}
use router_sim.Base.Sorting.{sort_by}
use router_sim.Mpls.{Action, forward}

-- `named` is the text that the IS-IS process passes as a type, which equals no member of the enum.
pub data RouteType : Type 0 where
  local connected static rsvp isis bgp named : RouteType

-- the members' values; a text has none
abbrev pub value : RouteType → Option ℕ
value local = some 1
value connected = some 2
value static = some 5
value rsvp = some 7
value isis = some 15
value bgp = some 170
value named = none

abbrev pub type_beq : RouteType → RouteType → Bool
type_beq local local = true
type_beq connected connected = true
type_beq static static = true
type_beq rsvp rsvp = true
type_beq isis isis = true
type_beq bgp bgp = true
type_beq named named = true
type_beq _ _ = false

pub type_beq_iff : (a b : RouteType) → (type_beq a b ≡ true) ↔ (a ≡ b)
type_beq_iff a b = ground arith

abbrev pub option_beq : Option ℕ → Option ℕ → Bool
option_beq none none = true
option_beq (some a) (some b) = a == b
option_beq _ _ = false

pub option_beq_iff : (a b : Option ℕ) → (option_beq a b ≡ true) ↔ (a ≡ b)
option_beq_iff a b = ground arith

-- The detour of a protected LSP's route: the interface and action of the bypass route.
pub record Bypass : Type 0 where
  pub interface : ℕ
  pub action : Action

-- `recursive` is the interface of the route that the field refers to. `protocol_next_hop` is that of
-- `BGPRoute`.
pub record Route (P : Type 0) : Type 0 where
  pub prefix : P
  pub type : RouteType
  pub interface : Option ℕ
  pub next_hop_ip : Option ℕ
  pub metric : ℕ
  pub recursive : Option ℕ
  pub bypass : Option Bypass
  pub action : Action
  pub protocol_next_hop : Option ℕ

-- `Route(prefix, route_type, interface, next_hop_address, metric)`: without a metric it takes the
-- type's value, which a text lacks.
unfoldable pub new_route :
    {P : Type 0} → P → RouteType → Option ℕ → Option ℕ → Option ℕ → Outcome (Route P)
new_route prefix type interface next_hop metric = do
  m ← elim metric [ some m ↦ ok m | none ↦ or_raise attribute_error (value type) ]
  ok (record {
    prefix = prefix;
    type = type;
    interface = interface;
    next_hop_ip = next_hop;
    metric = m;
    recursive = none;
    bypass = none;
    action = forward;
    protocol_next_hop = none;
  })

-- The routes of a prefix, and a table.
abbrev pub Table : Type 0 → Type 0
Table P = Dict P (List (Route P))

-- `EventType.ROUTE_CHANGE`
pub data RouteEvent (P : Type 0) : Type 0 where
  added deleted : Route P → RouteEvent P

module _ {P : Type 0} ⦃e : Hashable P⦄ where
  -- `Route.__eq__`
  unfoldable pub route_eq : Route P → Route P → Bool
  route_eq a b =
      a.prefix == b.prefix
      && (type_beq a.type b.type && (option_beq a.interface b.interface && a.metric == b.metric))

  -- `route in routes`
  unfoldable pub is_member : Route P → List (Route P) → Bool
  unfolding route_eq
  is_member r [] = false
  is_member r (x ∷ xs) = if route_eq x r then true else is_member r xs

  -- `routes.remove(route)`: the first equal route goes; with none it raises
  unfoldable pub remove : Route P → List (Route P) → Outcome (List (Route P))
  unfolding route_eq
  remove r [] = err value_error
  remove r (x ∷ xs) =
      let rest = remove r xs in if route_eq x r then ok xs else rest >>= λ ys. ok (x ∷ ys)

  -- `add_route` on a table that exists. The `mpls` table returns early for a new prefix.
  unfoldable pub add_route :
      Bool → Route P → Table P → List (RouteEvent P) → Table P × List (RouteEvent P)
  unfolding sort_by
  add_route is_mpls r t log = elim (get t r.prefix) [
    | none ↦
        let t' = set t r.prefix (r ∷ []) in
        let log' = log ++ added r ∷ [] in
        if is_mpls then (t', log') else (set t' r.prefix (sort_by (λ x. x.metric) (r ∷ [])), log')
    | some routes ↦ (set t r.prefix (sort_by (λ x. x.metric) (routes ++ r ∷ [])), log)
  ]

  -- `table[p]`, and no routes where the prefix is missing
  abbrev pub routes_of : Table P → P → List (Route P)
  routes_of t p = elim (get t p) [ none ↦ [] | some rs ↦ rs ]

  -- What `del_route` leaves of a table when `routes` remain of a prefix.
  unfoldable pub put_back : P → List (Route P) → Table P → Table P
  put_back p [] t = delete t p
  put_back p (x ∷ xs) t = set t p (x ∷ xs)

  unfoldable pub del_route :
      Route P → Table P → List (RouteEvent P) → Outcome (Table P × List (RouteEvent P))
  unfolding remove put_back
  del_route r t log = elim (get t r.prefix) [
    | none ↦ ok (t, log)
    | some routes ↦ do left ← remove r routes; ok (put_back r.prefix left t, log ++ deleted r ∷ [])
  ]
