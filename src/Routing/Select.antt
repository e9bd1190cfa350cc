-- ===== src/Routing/Select.antt =====
-- routersim/routing.py: the chains of tables, `lookup_ip` and `forwarding_table`.
pub mod Chain
use router_sim.Base.{
  ℕ, Bool, true, false, not, ◌&&◌, ◌||◌, List, [], ◌∷◌, ◌++◌, Option, none, some, if◌then◌else◌,
  Hashable, ◌==◌, Dict, get, set, keys, nat_eq,
}
use router_sim.Base.Outcome.{
  Outcome, ok, err, or_raise, ◌>>=◌, key_error, index_error, type_error, attribute_error,
  value_error,
}
use router_sim.Mpls.{Action, forward, control, reject, combined, nil, cons}
use router_sim.Net.{Network, net_eq, host, default_network}
use router_sim.Routing.{Table, Route, RouteType, local, bgp, Bypass}
use router_sim.Routing.Order.{all_prefixes, search_order, first_overlap, contains_net}

pub record RoutingTables : Type 0 where
  pub direct : Table Network
  pub static : Table Network
  pub isis : Table Network
  pub bgp_table : Table Network
  pub rsvp_table : Table Network
  pub mpls_table : Table ℕ

-- The `ChainMap`s: an earlier table hides a later one.
abbrev pub inet : RoutingTables → List (Table Network)
inet ts = ts.direct ∷ ts.static ∷ ts.isis ∷ ts.bgp_table ∷ []

abbrev pub recursive_chain : RoutingTables → List (Table Network)
recursive_chain ts = ts.rsvp_table ∷ ts.direct ∷ ts.static ∷ ts.isis ∷ []

unfoldable pub chain_get : List (Table Network) → Network → Option (List (Route Network))
chain_get [] p = none
chain_get (t ∷ ts) p = elim (get t p) [ some rs ↦ some rs | none ↦ chain_get ts p ]

abbrev pub head? {ℓ} : {A : Type ℓ} → List A → Option A
head? [] = none
head? (x ∷ xs) = some x

-- The copy that `lookup_ip` returns: a recursive route sends on what it was resolved to.
abbrev pub resolved : Route Network → Route Network
resolved r = elim r.recursive [ none ↦ r | some i ↦ record r { interface = some i } ]

unfoldable pub lookup_ip : List (Table Network) → ℕ → Outcome (Option (Route Network))
lookup_ip chain a = elim (first_overlap (host a) (search_order (all_prefixes [] chain))) [
  | none ↦ ok none
  | some p ↦ do
    routes ← or_raise key_error (chain_get chain p)
    r ← or_raise index_error (head? routes)
    ok (some (resolved r))
]

pub record ForwardingEntry (P : Type 0) : Type 0 where
  pub prefix : P
  pub interface : Option ℕ
  pub action : Action
  pub next_hop_ip : Option ℕ

-- `fib[FrameType.IPV4]` and `fib[FrameType.MPLSU]`
pub record ForwardingTables : Type 0 where
  pub ipv4 : Dict Network (ForwardingEntry Network)
  pub mplsu : Dict ℕ (ForwardingEntry ℕ)

-- `interface.is_up()`, of which `up` says the interfaces' present states
abbrev pub is_up : (ℕ → Bool) → Option ℕ → Outcome Bool
is_up up none = err attribute_error
is_up up (some i) = ok (up i)

abbrev pub entry : {P : Type 0} → P → Option ℕ → Action → Option ℕ → ForwardingEntry P
entry p i a nh = record { prefix = p; interface = i; action = a; next_hop_ip = nh }

-- The detour's entry: both actions in turn, on the bypass's interface.
abbrev pub detour : {P : Type 0} → P → Action → Bypass → ForwardingEntry P
detour p a b = entry p (some b.interface) (combined (cons a (cons b.action nil))) none

-- `ipfib[prefix] = …`, if a route applied
unfoldable pub put_entry :
    Network
    → Option (ForwardingEntry Network)
    → Dict Network (ForwardingEntry Network)
    → Dict Network (ForwardingEntry Network)
put_entry p none fib = fib
put_entry p (some f) fib = set fib p f

-- `for label in self.mpls`
unfoldable pub label_entry : (ℕ → Bool) → ℕ → List (Route ℕ) → Outcome (ForwardingEntry ℕ)
label_entry up l routes = do
  r ← or_raise index_error (head? routes)
  working ← is_up up r.interface
  elim r.bypass [
    | none ↦ ok (entry l r.interface r.action none)
    | some b ↦ ok (if working then entry l r.interface r.action none else detour l r.action b)
  ]

unfoldable pub mpls_fib :
    (ℕ → Bool) → Table ℕ → Dict ℕ (ForwardingEntry ℕ) → Outcome (Dict ℕ (ForwardingEntry ℕ))
unfolding label_entry
mpls_fib up [] fib = ok fib
mpls_fib up ((l, routes) ∷ m) fib = do f ← label_entry up l routes; mpls_fib up m (set fib l f)

module _ (ts : RoutingTables) (up : ℕ → Bool) where
  -- What one BGP route gives: the entry, and whether the loop over the routes goes on.
  unfoldable pub install_bgp :
      Network
      → Route Network
      → Option (ForwardingEntry Network)
      → Outcome (Option (ForwardingEntry Network) × Bool)
  unfolding lookup_ip
  install_bgp p r found = do
    pnh ← or_raise value_error r.protocol_next_hop
    via ← lookup_ip (recursive_chain ts) pnh
    elim via [
      | none ↦ ok (found, true)
      | some rr ↦ do
        working ← is_up up rr.interface
        if working
            then ok (some (entry p rr.interface rr.action rr.next_hop_ip), false)
            else elim rr.bypass [
              | none ↦ ok (found, true)
              | some b ↦ ok ((if up b.interface then some (detour p rr.action b) else found), true)
            ]
    ]

  -- `for route in self.inet.get(prefix)`, up to the route that applies
  unfoldable pub install :
      Network
      → List (Route Network)
      → Option (ForwardingEntry Network)
      → Outcome (Option (ForwardingEntry Network))
  unfolding install_bgp
  install p [] found = ok found
  install p (r ∷ rs) found = elim r.type [
    | local ↦ ok (some (entry p r.interface control none))
    | bgp ↦ install_bgp p r found >>= λ s. elim s.1 [ true ↦ install p rs s.0 | false ↦ ok s.0 ]
    | _ ↦ ok (some (entry p r.interface forward r.next_hop_ip))
  ]

  -- `for prefix in prefixes`
  unfoldable pub fill :
      List Network
      → Dict Network (ForwardingEntry Network)
      → Outcome (Dict Network (ForwardingEntry Network))
  unfolding install put_entry
  fill [] fib = ok fib
  fill (p ∷ ps) fib = do
    routes ← or_raise type_error (chain_get (inet ts) p)
    found ← install p routes none
    fill ps (put_entry p found fib)

  unfoldable pub ip_fib : Outcome (Dict Network (ForwardingEntry Network))
  unfolding fill
  ip_fib =
      let prefixes = search_order (all_prefixes [] (inet ts)) in
      fill prefixes [] >>= λ fib. ok (
        if contains_net default_network prefixes
        then fib
        else set fib default_network (entry default_network none reject none))

  unfoldable pub forwarding_table : Outcome ForwardingTables
  unfolding ip_fib mpls_fib
  forwarding_table = do
    ipv4 ← ip_fib
    mplsu ← mpls_fib up ts.mpls_table []
    ok (record { ipv4 = ipv4; mplsu = mplsu })
