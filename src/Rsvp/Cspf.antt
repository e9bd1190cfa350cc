-- ===== src/Rsvp/Cspf.antt =====
-- routersim/rsvp/process.py, `shortest_path`: a shortest path to a router around an excluded address.
-- Its loops keep the dictionaries of `run_full_dijkstra` under the same names, so its state is `State`
-- of Isis.Spf; its systems are named by their router ids.
pub mod Topology
pub mod Filed
pub mod Nearest
pub mod Known
pub mod Way
pub mod Route
use mathlib.Core.List.{reverse}
use router_sim.Base.{
  ℕ, zero, suc, ◌+◌, Bool, true, false, ◌||◌, List, [], ◌∷◌, ◌++◌, Option, none, some,
  if◌then◌else◌, ltb, ◌==◌, nat_eq, Dict, get, set, has, keys, length,
}
use router_sim.Base.Outcome.{key_error}
use router_sim.Base.Sorting.{sort_by}
use router_sim.Net.{Network, net_eq, host, overlaps}
use router_sim.Isis.{
  ExtendedIsReachability, ExtendedIpReachability, ConnectionState, up, down, neighbor_ip, local_ip,
}
use router_sim.Isis.Spf.{
  State, Run, done, unconverged, fault, out_of_fuel, ◌>>=◌, subscript, maxsize, take_nearest, offer,
  blank,
}
use router_sim.Isis.Spf.Tree.{parent}
use router_sim.Isis.Paths.{resolve_path, resolve_all}

-- What the function reads of an LSP, which `__refresh_local` gives a router id when it is made.
pub record Lsp : Type 0 where
  pub source_address : ℕ
  pub routerid : ℕ
  pub neighbors : List ExtendedIsReachability
  pub addresses : List ExtendedIpReachability

-- `originaldb`, by system id, and `ted`, by router id
abbrev pub Ted : Type 0
Ted = Dict ℕ Lsp

unfoldable pub lsps : Ted → List Lsp
lsps [] = []
lsps ((k, p) ∷ m) = p ∷ lsps m

-- `dbvalues`
unfoldable pub dbvalues : Ted → List Lsp
unfolding lsps sort_by
dbvalues db = sort_by (λ p. p.source_address) (lsps db)

-- `for wrapper in dbvalues`
unfoldable pub init_routers : List Lsp → Ted → State → List ℕ → Ted × (State × List ℕ)
init_routers [] ted s queue = (ted, (s, queue))
init_routers (p ∷ ps) ted s queue =
    init_routers ps (set ted p.routerid p)
      (record s {
        system_distance = set s.system_distance p.routerid maxsize;
        prev_system = set s.prev_system p.routerid none;
      })
      (queue ++ p.routerid ∷ [])

-- `exclude_ip is not None and … == exclude_ip`
abbrev pub is_excluded : Option ℕ → Option ℕ → Bool
is_excluded none a = false
is_excluded (some e) none = false
is_excluded (some e) (some a) = a == e

abbrev pub avoids : Option ℕ → ExtendedIsReachability → Bool
avoids ex n = is_excluded ex (neighbor_ip n.tlvs) || is_excluded ex (local_ip n.tlvs)

-- `exclude_ip is not None and address.overlaps(ip_network(exclude_ip))`
abbrev pub covers_excluded : Option ℕ → Network → Bool
covers_excluded none n = false
covers_excluded (some e) n = overlaps n (host e)

module _ (db : Ted) (self : ℕ) (exclude : Option ℕ) where
  -- The end of the loop's body, for a neighbour that is neither left out nor this router.
  unfoldable pub shorten : ℕ → ℕ → ℕ → ℕ → State → Run State
  shorten node source neigh_id metric s = elim (has s.system_distance neigh_id) [
    | false ↦ unconverged
    | true ↦ do
      d ← subscript key_error (get s.system_distance node)
      old ← subscript key_error (get s.system_distance neigh_id)
      done (
          if ltb (d + metric) old
          then record s {
            system_distance = set s.system_distance neigh_id (d + metric);
            prev_system = set s.prev_system neigh_id (some source);
          }
          else s)
  ]

  -- the body of `for neigh in neighbors`
  unfoldable pub visit_neighbor : ℕ → ℕ → ExtendedIsReachability → State → Run State
  unfolding shorten
  visit_neighbor node source n s = do
    p ← subscript key_error (get db n.system_id)
    if p.routerid == self
        then done s
        else (if avoids exclude n then done s else shorten node source p.routerid n.metric s)

  unfoldable pub visit_neighbors : ℕ → ℕ → List ExtendedIsReachability → State → Run State
  unfolding visit_neighbor
  visit_neighbors node source [] s = done s
  visit_neighbors node source (n ∷ ns) s =
      visit_neighbor node source n s >>= visit_neighbors node source ns

  -- the body of `for network in lsp.addresses`
  unfoldable pub visit_address : ℕ → ℕ → ExtendedIpReachability → State → Run State
  visit_address node source a s = elim a.state [
    | down ↦ done s
    | up ↦ if covers_excluded exclude a.prefix then done s else (do
      d ← subscript key_error (get s.system_distance node)
      done (offer source (d + a.metric) a.prefix s))
  ]

  unfoldable pub visit_addresses : ℕ → ℕ → List ExtendedIpReachability → State → Run State
  unfolding visit_address
  visit_addresses node source [] s = done s
  visit_addresses node source (a ∷ rest) s =
      visit_address node source a s >>= visit_addresses node source rest

  unfoldable pub visit_router : Ted → ℕ → State → Run State
  unfolding visit_neighbors visit_addresses
  visit_router ted node s = do
    lsp ← subscript key_error (get ted node)
    s' ← visit_neighbors node lsp.routerid lsp.neighbors s
    visit_addresses node lsp.routerid lsp.addresses s'

  -- `while len(queue) > 0`; a round takes one router from the queue, so its length is enough fuel
  unfoldable pub visit_queue : Ted → ℕ → State → List ℕ → Run State
  unfolding take_nearest visit_router
  visit_queue ted fuel s [] = done s
  visit_queue ted zero s (q ∷ qs) = out_of_fuel
  visit_queue ted (suc fuel) s (q ∷ qs) =
      take_nearest s (q ∷ qs) >>= λ t. visit_router ted t.0 s >>= λ s'. visit_queue ted fuel s' t.1

  -- the function up to where the paths are made
  unfoldable pub distances : Run (Ted × State)
  unfolding init_routers dbvalues visit_queue
  distances =
      let (ted, (s, queue)) = init_routers (dbvalues db) [] blank [] in
      visit_queue ted (length queue) (record s { system_distance = set s.system_distance self 0 })
        queue
      >>= λ s'. done (ted, s')

  -- `for loopbackip in prev_system`: the way to before each router, in the order of travel
  unfoldable pub router_paths : ℕ → State → List ℕ → Dict ℕ (List ℕ) → Run (Dict ℕ (List ℕ))
  unfolding resolve_path
  router_paths fuel s [] paths = done paths
  router_paths fuel s (v ∷ vs) paths = do
    path ← resolve_path fuel self s (parent s v)
    router_paths fuel s vs (set paths v (reverse path))

  -- `for neighbor in from_lsp.neighbors`: the addresses of the links to a router
  unfoldable pub hops_to : ℕ → List ExtendedIsReachability → Run (List (Option ℕ))
  hops_to v [] = done []
  hops_to v (n ∷ ns) = do
    p ← subscript key_error (get db n.system_id)
    rest ← hops_to v ns
    done (if p.routerid == v then neighbor_ip n.tlvs ∷ rest else rest)

  -- the loop over the path, and the same once more for the destination
  unfoldable pub explicit_route : Ted → ℕ → List ℕ → ℕ → Run (List (Option ℕ))
  unfolding hops_to
  explicit_route ted from [] dest = do
    lsp ← subscript key_error (get ted from)
    hops_to dest lsp.neighbors
  explicit_route ted from (v ∷ path) dest = do
    lsp ← subscript key_error (get ted from)
    hops ← hops_to v lsp.neighbors
    rest ← explicit_route ted v path dest
    done (hops ++ rest)

  -- nothing, if the destination has no path
  unfoldable pub route_of : Ted → ℕ → Option (List ℕ) → Run (Option (List (Option ℕ)))
  unfolding explicit_route
  route_of ted dest none = done none
  route_of ted dest (some path) = explicit_route ted self path dest >>= λ ero. done (some ero)

  -- `shortest_path`; a way back has no more steps than there are routers and one
  unfoldable pub shortest_path : ℕ → Run (Option (List (Option ℕ)))
  unfolding distances resolve_all router_paths route_of
  shortest_path dest = elim distances [
    | unconverged ↦ done none
    | fault e ↦ fault e
    | out_of_fuel ↦ out_of_fuel
    | done (ted, s) ↦ do
      addresses ← resolve_all (suc (length ted)) self s (keys s.prev) []
      paths ← router_paths (suc (length ted)) s (keys s.prev_system) []
      route_of ted dest (get paths dest)
  ]
