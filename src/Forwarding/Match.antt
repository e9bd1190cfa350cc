-- ===== src/Forwarding/Match.antt =====
-- A lookup in the forwarding table that the route tables give is a longest prefix match.
use router_sim.Base.{
  ℕ, ◌≤◌, ◌<◌, ◌^◌, ◌≡◌, ◌≢◌, refl, subst, ap, sym, ◌∙◌, Bool, true, false, List, [], ◌∷◌, Option,
  none, some, ◌==◌, get, set, keys, get-set, In, All, All_at, Bool-cases, Option-cases, inl, inr,
  ◌⊎◌, arith, nat_eq,
}
use router_sim.Base.Outcome.{ok, or_raise, >>=-eq-ok, ok-injective, type_error, value_error}
use router_sim.Mpls.{reject}
use router_sim.Net.{Network, net_eq, net_beq_iff, default_network, IsNetwork, contains, host}
use router_sim.Routing.{Route, RouteType, local, connected, static, rsvp, isis, bgp, named}
use router_sim.Routing.Order.{all_prefixes, search_order, first_overlap, contains_net}
use router_sim.Routing.Order.Longest.{Longest, first_overlap-Longest}
use router_sim.Routing.Select.{
  RoutingTables, inet, recursive_chain, ForwardingEntry, ForwardingTables, entry, put_entry, fill,
  ip_fib, forwarding_table, install, install_bgp, chain_get, mpls_fib, lookup_ip as route_lookup,
}
use router_sim.Routing.Select.Chain.{Fib, ip_fib-IsFib}
use router_sim.Forwarding.{find_entry, lookup_ip}

-- An entry that a prefix may have: one that names the prefix.
abbrev IsOf : Network → Option (ForwardingEntry Network) → Type 0
IsOf p o = (f : ForwardingEntry Network) → o ≡ some f → f.prefix ≡ p

install_bgp-IsOf :
    (ts : RoutingTables) (up : ℕ → Bool) (p : Network) (r : Route Network)
    (found : Option (ForwardingEntry Network)) {s : Option (ForwardingEntry Network) × Bool}
    → IsOf p found
    → install_bgp ts up p r found ≡ ok s
    → IsOf p s.0
unfolding install_bgp
install_bgp-IsOf ts up p r found {s} h e f k =
    let (pnh, _, e₁) = >>=-eq-ok (or_raise value_error r.protocol_next_hop) _ e in
    let (via, _, e₂) = >>=-eq-ok (route_lookup (recursive_chain ts) pnh) _ e₁ in
    ground (arith, e₂, k, h f)

bgp_or_not : (t : RouteType) → (t ≡ bgp) ⊎ (t ≢ bgp)
bgp_or_not bgp = inl refl
bgp_or_not local = inr (λ h. cc)
bgp_or_not connected = inr (λ h. cc)
bgp_or_not static = inr (λ h. cc)
bgp_or_not rsvp = inr (λ h. cc)
bgp_or_not isis = inr (λ h. cc)
bgp_or_not named = inr (λ h. cc)

install-IsOf :
    (ts : RoutingTables) (up : ℕ → Bool) (p : Network) (rs : List (Route Network))
    (found : Option (ForwardingEntry Network)) {o : Option (ForwardingEntry Network)}
    → IsOf p found
    → install ts up p rs found ≡ ok o
    → IsOf p o
unfolding install
install-IsOf ts up p [] found {o} h e = subst (IsOf p) (ok-injective e) h
install-IsOf ts up p (r ∷ rs) found {o} h e = elim (bgp_or_not r.type) [
  | inl b ↦
      let (s, once, next) = >>=-eq-ok (install_bgp ts up p r found) _ (rw (b, install) at e) in
      let h' = install_bgp-IsOf ts up p r found h once in
      elim (Bool-cases s.1) [
        | inl more ↦ install-IsOf ts up p rs s.0 h' (rw more at next)
        | inr done ↦ subst (IsOf p) (ok-injective (rw done at next)) h'
      ]
  | inr other ↦ λ f k. ground (arith, e, k, other)
]

-- Every entry stands under its own prefix.
abbrev IsOwn : Fib → Type 0
IsOwn m = (p : Network) → IsOf p (get m p)

set-IsOwn :
    (m : Fib) (p : Network) (f : ForwardingEntry Network)
    → IsOwn m
    → f.prefix ≡ p
    → IsOwn (set m p f)
set-IsOwn m p f h e q g k = ground (arith, get-set m p q f, net_beq_iff p q, k, h q g, e)

put_entry-IsOwn :
    (m : Fib) (p : Network) (o : Option (ForwardingEntry Network))
    → IsOwn m
    → IsOf p o
    → IsOwn (put_entry p o m)
unfolding put_entry
put_entry-IsOwn m p none h e = h
put_entry-IsOwn m p (some f) h e = set-IsOwn m p f h (e f refl)

fill-IsOwn :
    (ts : RoutingTables) (up : ℕ → Bool) (ps : List Network) (m m' : Fib)
    → IsOwn m
    → fill ts up ps m ≡ ok m'
    → IsOwn m'
unfolding fill
fill-IsOwn ts up [] m m' h e = subst IsOwn (ok-injective e) h
fill-IsOwn ts up (p ∷ ps) m m' h e =
    let (routes, _, e₁) = >>=-eq-ok (or_raise type_error (chain_get (inet ts) p)) _ e in
    let (found, one, e₂) = >>=-eq-ok (install ts up p routes none) _ e₁ in
    let mine = install-IsOf ts up p routes none (λ f k. absurd (cc k)) one in
    fill-IsOwn ts up ps (put_entry p found m) m' (put_entry-IsOwn m p found h mine) e₂

ip_fib-IsOwn : (ts : RoutingTables) (up : ℕ → Bool) (m : Fib) → ip_fib ts up ≡ ok m → IsOwn m
unfolding ip_fib get
ip_fib-IsOwn ts up m e =
    let ps = search_order (all_prefixes [] (inet ts)) in
    let (fib, filled, last) = >>=-eq-ok (fill ts up ps []) _ e in
    let h = fill-IsOwn ts up ps [] fib (λ p f k. absurd (cc k)) filled in
    let h' = set-IsOwn fib default_network (entry default_network none reject none) h refl in
    elim (Bool-cases (contains_net default_network ps)) [
      | inl there ↦ subst IsOwn (ok-injective (rw there at last)) h
      | inr missing ↦ subst IsOwn (ok-injective (rw missing at last)) h'
    ]

ip_fib-part :
    (ts : RoutingTables) (up : ℕ → Bool) (fib : ForwardingTables)
    → forwarding_table ts up ≡ ok fib
    → ip_fib ts up ≡ ok fib.ipv4
unfolding forwarding_table
ip_fib-part ts up fib e =
    let (ipv4, one, e₁) = >>=-eq-ok (ip_fib ts up) _ e in
    let (mplsu, two, e₂) = >>=-eq-ok (mpls_fib up ts.mpls_table []) _ e₁ in
    one ∙ ap ok (ap (λ t. t.ipv4) (ok-injective e₂))

get-keys :
    (m : Fib) (p : Network) → In p (keys m) → (f : ForwardingEntry Network) × (get m p ≡ some f)
unfolding get
get-keys [] p i = elim i [ ]
get-keys ((q, g) ∷ m) p (inl e) = (g, rw ((net_beq_iff q p).1 e) refl)
get-keys ((q, g) ∷ m) p (inr i) = elim (Bool-cases (q == p)) [
  | inl here ↦ (g, rw (here, get) refl)
  | inr later ↦ let (f, e) = get-keys m p i in (f, rw (later, get) e)
]

-- What a lookup among entries finds: nothing if no key holds the address, and else the entry of the
-- longest key that does.
abbrev pub LongestMatch : ℕ → List Network → Option (ForwardingEntry Network) → Type 0
LongestMatch a ks none = All (λ q. contains q a ≡ false) ks
LongestMatch a ks (some f) =
    In f.prefix ks
    × (contains f.prefix a ≡ true)
    × ((q : Network) → In q ks → contains q a ≡ true → q.prefixlen ≤ f.prefix.prefixlen)

match_found :
    (a : ℕ) (m : Fib) (o : Option Network)
    → IsOwn m
    → first_overlap (host a) (keys m) ≡ o
    → Longest a (keys m) o
    → LongestMatch a (keys m) (find_entry m a)
unfolding find_entry
match_found a m none own e l =
    let found : find_entry m a ≡ none = rw (e, find_entry) refl in
    subst (LongestMatch a (keys m)) (sym found) l
match_found a m (some p) own e l =
    let (f, g) = get-keys m p l.0 in
    let found : find_entry m a ≡ some f = rw (e, find_entry) g in
    subst (LongestMatch a (keys m)) (sym found)
      (subst (λ q. Longest a (keys m) (some q)) (sym (own p f g)) l)

-- With the forwarding table that the route tables give installed, a lookup of an address finds the
-- entry of the longest prefix in the table that holds the address, and nothing only if none does.
pub lookup_ip-LongestMatch :
    (ts : RoutingTables) (up : ℕ → Bool) (fib : ForwardingTables) (a : ℕ)
    → All IsNetwork (all_prefixes [] (inet ts))
    → forwarding_table ts up ≡ ok fib
    → LongestMatch a (keys fib.ipv4) (lookup_ip (some fib) a)
unfolding lookup_ip
lookup_ip-LongestMatch ts up fib a w e =
    let part = ip_fib-part ts up fib e in
    let good = ip_fib-IsFib ts up fib.ipv4 w part in
    match_found a fib.ipv4 (first_overlap (host a) (keys fib.ipv4))
      (ip_fib-IsOwn ts up fib.ipv4 part) refl
      (first_overlap-Longest a (keys fib.ipv4) good.networks good.order)

In-keys-set : (m : Fib) (p : Network) (f : ForwardingEntry Network) → In p (keys (set m p f))
unfolding set
In-keys-set [] p f = inl refl
In-keys-set ((q, g) ∷ m) p f = elim (Bool-cases (q == p)) [
  | inl here ↦ rw (here, set) (inl ((net_beq_iff q p).0 here))
  | inr later ↦ rw (later, set) (inr (In-keys-set m p f))
]

default-In :
    (ts : RoutingTables) (up : ℕ → Bool) (m : Fib)
    → contains_net default_network (search_order (all_prefixes [] (inet ts))) ≡ false
    → ip_fib ts up ≡ ok m
    → In default_network (keys m)
unfolding ip_fib
default-In ts up m missing e =
    let ps = search_order (all_prefixes [] (inet ts)) in
    let (fib, filled, last) = >>=-eq-ok (fill ts up ps []) _ e in
    subst (λ x. In default_network (keys x)) (ok-injective (rw missing at last))
      (In-keys-set fib default_network (entry default_network none reject none))

default_holds : (a : ℕ) → a < 2 ^ 32 → contains default_network a ≡ true
unfolding default_network
default_holds a h = ground arith

-- So a table with no default route of its own, and thus with the rejecting one, has an entry for
-- every address.
pub lookup_ip_total :
    (ts : RoutingTables) (up : ℕ → Bool) (fib : ForwardingTables) (a : ℕ)
    → All IsNetwork (all_prefixes [] (inet ts))
    → forwarding_table ts up ≡ ok fib
    → contains_net default_network (search_order (all_prefixes [] (inet ts))) ≡ false
    → a < 2 ^ 32
    → (f : ForwardingEntry Network) × (lookup_ip (some fib) a ≡ some f)
lookup_ip_total ts up fib a w e missing low = elim (Option-cases (lookup_ip (some fib) a)) [
  | inl lost ↦
      let none_holds : LongestMatch a (keys fib.ipv4) none =
        subst (LongestMatch a (keys fib.ipv4)) lost (lookup_ip-LongestMatch ts up fib a w e) in
      let default_key = default-In ts up fib.ipv4 missing (ip_fib-part ts up fib e) in
      absurd (
        cc (
          default_holds a low,
          All_at (λ q. contains q a ≡ false) (keys fib.ipv4) default_network none_holds default_key,
        ))
  | inr found ↦ found
]
