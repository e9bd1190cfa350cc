-- ===== src/Routing/Order.antt =====
-- routersim/routing.py: the order in which `lookup_ip` and `forwarding_table` go through the
-- prefixes: two stable sorts and a reversal of the union of some tables' keys.
pub mod Longest
use mathlib.Core.List.{reverse}
use router_sim.Base.{
  ℕ, Bool, true, false, ◌||◌, List, [], ◌∷◌, ◌++◌, Option, none, some, if◌then◌else◌, Hashable,
  ◌==◌, keys,
}
use router_sim.Base.Sorting.{sort_by}
use router_sim.Net.{Network, net_eq, overlaps}
use router_sim.Routing.{Table}

unfoldable pub contains_net : Network → List Network → Bool
contains_net n [] = false
contains_net n (m ∷ ms) = m == n || contains_net n ms

-- `prefixes.update(…)`: a set holds a network once
unfoldable pub update : List Network → List Network → List Network
unfolding contains_net
update s [] = s
update s (n ∷ ns) = update (if contains_net n s then s else s ++ n ∷ []) ns

-- the union of the keys of a chain's tables
unfoldable pub all_prefixes : List Network → List (Table Network) → List Network
unfolding update
all_prefixes s [] = s
all_prefixes s (t ∷ ts) = all_prefixes (update s (keys t)) ts

abbrev pub by_length : Network → ℕ
by_length n = n.prefixlen

abbrev pub by_address : Network → ℕ
by_address n = n.network_address

-- `sorted(sorted(prefixes, key=prefixlen), key=network_address)`, reversed
unfoldable pub search_order : List Network → List Network
unfolding sort_by
search_order prefixes = reverse (sort_by by_address (sort_by by_length prefixes))

-- `for prefix in prefixes: if as_network.overlaps(prefix): … return`
unfoldable pub first_overlap : Network → List Network → Option Network
unfolding overlaps
first_overlap n [] = none
first_overlap n (p ∷ ps) = if overlaps n p then some p else first_overlap n ps
