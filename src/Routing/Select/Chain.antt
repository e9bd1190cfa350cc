-- ===== src/Routing/Select/Chain.antt =====
-- The keys of the IPv4 forwarding table: networks of the route tables and the default, in the order
-- that makes the first hit the longest.
use router_sim.Base.{
  ℕ, ◌≡◌, refl, subst, sym, Bool, List, [], ◌∷◌, ◌++◌, Option, none, some, Dict, set, keys, All,
  Bool-cases, inl, inr, ◌⊎◌, arith, nat_eq,
}
use router_sim.Base.Outcome.{ok, or_raise, type_error, >>=-eq-ok, ok-injective}
use router_sim.Base.Sorting.{Precedes}
use router_sim.Net.{Network, net_eq, default_network, IsNetwork}
use router_sim.Routing.Order.{search_order, by_address, by_length, contains_net, all_prefixes}
use router_sim.Routing.Order.Longest.{
  IsDescending, append-IsDescending, search_order-IsDescending, All-search_order,
}
use router_sim.Routing.Select.{
  RoutingTables, inet, ForwardingEntry, put_entry, fill, ip_fib, install, chain_get,
}

abbrev pub Fib : Type 0
Fib = Dict Network (ForwardingEntry Network)

-- A new key goes to the end; an old one keeps its place.
keys-set :
    (m : Fib) (p : Network) (f : ForwardingEntry Network)
    → (keys (set m p f) ≡ keys m) ⊎ (keys (set m p f) ≡ keys m ++ p ∷ [])
unfolding set
keys-set [] p f = inr refl
keys-set ((q, g) ∷ m) p f = ground (arith, keys-set m p f)

-- The keys are networks in descending order, and those still to come go after them.
abbrev pub Before : Network → Network → Type 0
Before p y = Precedes by_address by_length p y

pub record IsFib (rest ks : List Network) : Type 0 where
  pub order : IsDescending ks
  pub networks : All IsNetwork ks
  pub after : All (λ p. All (Before p) ks) rest

All-one {ℓ} :
    (Q : Network → Type ℓ) (xs : List Network) (p : Network) → All Q xs → Q p → All Q (xs ++ p ∷ [])
All-one Q [] p a q = (q, tt)
All-one Q (x ∷ xs) p a q = (a.0, All-one Q xs p a.1 q)

All-both :
    (ps : List Network) (p : Network) (ks : List Network)
    → All (λ q. All (Before q) ks) ps
    → All (λ q. Before q p) ps
    → All (λ q. All (Before q) (ks ++ p ∷ [])) ps
All-both [] p ks a b = tt
All-both (q ∷ ps) p ks a b = (All-one (Before q) ks p a.0 b.0, All-both ps p ks a.1 b.1)

add-IsFib :
    (p : Network) (ps ks : List Network)
    → IsNetwork p
    → All (λ q. Before q p) ps
    → IsFib (p ∷ ps) ks
    → IsFib ps (ks ++ p ∷ [])
add-IsFib p ps ks n b h = record {
  order = append-IsDescending ks p h.order h.after.0;
  networks = All-one IsNetwork ks p h.networks n;
  after = All-both ps p ks h.after.1 b;
}

skip-IsFib : {p : Network} {ps ks : List Network} → IsFib (p ∷ ps) ks → IsFib ps ks
skip-IsFib h = record { order = h.order; networks = h.networks; after = h.after.1 }

set-IsFib :
    (p : Network) (ps : List Network) (m : Fib) (f : ForwardingEntry Network)
    → IsNetwork p
    → All (λ q. Before q p) ps
    → IsFib (p ∷ ps) (keys m)
    → IsFib ps (keys (set m p f))
set-IsFib p ps m f n b h = elim (keys-set m p f) [
  | inl same ↦ subst (IsFib ps) (sym same) (skip-IsFib h)
  | inr more ↦ subst (IsFib ps) (sym more) (add-IsFib p ps (keys m) n b h)
]

put_entry-IsFib :
    (p : Network) (ps : List Network) (o : Option (ForwardingEntry Network)) (m : Fib)
    → IsNetwork p
    → All (λ q. Before q p) ps
    → IsFib (p ∷ ps) (keys m)
    → IsFib ps (keys (put_entry p o m))
unfolding put_entry
put_entry-IsFib p ps none m n b h = skip-IsFib h
put_entry-IsFib p ps (some f) m n b h = set-IsFib p ps m f n b h

fill-IsFib :
    (ts : RoutingTables) (up : ℕ → Bool) (ps : List Network) (m m' : Fib)
    → All IsNetwork ps
    → IsDescending ps
    → IsFib ps (keys m)
    → fill ts up ps m ≡ ok m'
    → IsFib [] (keys m')
unfolding fill
fill-IsFib ts up [] m m' w d h e = subst (λ x. IsFib [] (keys x)) (ok-injective e) h
fill-IsFib ts up (p ∷ ps) m m' w d h e =
    let (routes, _, e₁) = >>=-eq-ok (or_raise type_error (chain_get (inet ts) p)) _ e in
    let (found, _, e₂) = >>=-eq-ok (install ts up p routes none) _ e₁ in
    fill-IsFib ts up ps (put_entry p found m) m' w.1 d.1 (put_entry-IsFib p ps found m w.0 d.0 h) e₂

-- The default network comes last of all.
default_last : (ks : List Network) → All (Before default_network) ks
unfolding default_network
default_last [] = tt
default_last (k ∷ ks) = (omega arith, default_last ks)

default-IsNetwork : IsNetwork default_network
unfolding default_network
default-IsNetwork = record { short = omega arith; aligned = refl }

pub ip_fib-IsFib :
    (ts : RoutingTables) (up : ℕ → Bool) (m : Fib)
    → All IsNetwork (all_prefixes [] (inet ts))
    → ip_fib ts up ≡ ok m
    → IsFib [] (keys m)
unfolding ip_fib
ip_fib-IsFib ts up m w e =
    let ps = search_order (all_prefixes [] (inet ts)) in
    let (fib, filled, last) = >>=-eq-ok (fill ts up ps []) _ e in
    let start : IsFib ps [] = record { order = tt; networks = tt; after = nothing ps } in
    let h =
      fill-IsFib ts up ps [] fib (All-search_order IsNetwork _ w)
        (search_order-IsDescending (all_prefixes [] (inet ts))) start filled in
    elim (Bool-cases (contains_net default_network ps)) [
      | inl there ↦ subst (λ x. IsFib [] (keys x)) (ok-injective (rw there at last)) h
      | inr missing ↦
          subst (λ x. IsFib [] (keys x)) (ok-injective (rw missing at last))
            (set-IsFib default_network [] fib _ default-IsNetwork tt (record {
              order = h.order;
              networks = h.networks;
              after = (default_last (keys fib), tt);
            }))
    ]
  where
    nothing : (ps : List Network) → All (λ p. All (Before p) []) ps
    nothing [] = tt
    nothing (p ∷ ps) = (tt, nothing ps)
