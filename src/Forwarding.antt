-- ===== src/Forwarding.antt =====
-- routersim/forwarding.py: `ForwardingTable`, the forwarding plane's view of the routes.
pub mod Match
pub mod Engine
use router_sim.Base.{ℕ, Option, none, some, List, Dict, get, keys, nat_eq}
use router_sim.Base.Outcome.{Outcome, ok, err, or_raise, ◌>>=◌, key_error}
use router_sim.Net.{Network, net_eq, host}
use router_sim.Routing.Order.{first_overlap}
use router_sim.Routing.Select.{ForwardingEntry, ForwardingTables}

-- `set_fib` replaces the whole table; before the first there is none.
abbrev pub ForwardingTable : Type 0
ForwardingTable = Option ForwardingTables

-- `lookup_ip`: the entry of the first prefix, in the table's order, that overlaps the address
unfoldable pub find_entry :
    Dict Network (ForwardingEntry Network) → ℕ → Option (ForwardingEntry Network)
find_entry fib a = elim (first_overlap (host a) (keys fib)) [ none ↦ none | some p ↦ get fib p ]

unfoldable pub lookup_ip : ForwardingTable → ℕ → Option (ForwardingEntry Network)
unfolding find_entry
lookup_ip none a = none
lookup_ip (some fib) a = find_entry fib.ipv4 a

-- `lookup_label`: an unknown label raises
unfoldable pub lookup_label : ForwardingTable → ℕ → Outcome (Option (ForwardingEntry ℕ))
lookup_label none l = ok none
lookup_label (some fib) l = do f ← or_raise key_error (get fib.mplsu l); ok (some f)
