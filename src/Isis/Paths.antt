-- ===== src/Isis/Paths.antt =====
-- routersim/isis/process.py: the paths that `run_full_dijkstra` makes of the predecessors.
pub mod Trail
pub mod Prefixes
use mathlib.Core.List.{reverse}
use router_sim.Base.{
  ℕ, zero, suc, ◌+◌, Bool, true, false, List, [], ◌∷◌, Option, none, some, if◌then◌else◌, ◌==◌,
  nat_eq, Dict, get, set, keys, length,
}
use router_sim.Base.Outcome.{key_error, raised}
use router_sim.Net.{Network, net_eq}
use router_sim.Isis.Spf.{
  State, Database, Run, done, unconverged, fault, out_of_fuel, ◌>>=◌, subscript, shortest_paths,
}
use router_sim.Isis.Spf.Tree.{parent}

-- `resolve_path`: the systems from `cur_elem` back to where there is no predecessor, this one left out
unfoldable pub resolve_path : ℕ → ℕ → State → Option ℕ → Run (List ℕ)
resolve_path fuel self s none = done []
resolve_path zero self s (some v) = out_of_fuel
resolve_path (suc fuel) self s (some v) = do
  rest ← resolve_path fuel self s (parent s v)
  done (if v == self then rest else v ∷ rest)

-- `for address in prev`: the path to each prefix, in the order of travel
unfoldable pub resolve_all :
    ℕ → ℕ → State → List Network → Dict Network (List ℕ) → Run (Dict Network (List ℕ))
unfolding resolve_path
resolve_all fuel self s [] paths = done paths
resolve_all fuel self s (n ∷ ns) paths = do
  u ← subscript key_error (get s.prev n)
  path ← resolve_path fuel self s (some u)
  resolve_all fuel self s ns (set paths n (reverse path))

-- The paths of a state: the way from a system back has no more steps than there are LSPs and one.
unfoldable pub address_paths : ℕ → Database → State → Run (Dict Network (List ℕ))
unfolding resolve_all
address_paths self db s = resolve_all (suc (length db)) self s (keys s.prev) []

-- `for systemid in prev_system`: the way back from before each system
unfoldable pub resolve_systems : ℕ → ℕ → State → List ℕ → Dict ℕ (List ℕ) → Run (Dict ℕ (List ℕ))
unfolding resolve_path
resolve_systems fuel self s [] paths = done paths
resolve_systems fuel self s (v ∷ vs) paths = do
  path ← resolve_path fuel self s (parent s v)
  resolve_systems fuel self s vs (set paths v path)

-- What the process keeps of a run.
pub record Result : Type 0 where
  pub address_distances : Dict Network ℕ
  pub system_paths : Dict ℕ (List ℕ)
  pub address_paths : Dict Network (List ℕ)

-- The event at the end has the last LSP as its object, a variable that no round has set where the
-- database is empty.
abbrev pub last_lsp : Database → Run (Unit {0})
last_lsp [] = fault raised
last_lsp (e ∷ db) = done tt

unfoldable pub run_full_dijkstra : ℕ → Database → Run Result
unfolding shortest_paths address_paths resolve_systems
run_full_dijkstra self db = do
  s ← shortest_paths self db
  addresses ← address_paths self db s
  systems ← resolve_systems (suc (length db)) self s (keys s.prev_system) []
  event ← last_lsp db
  done
      (record { address_distances = s.distance; system_paths = systems; address_paths = addresses })
