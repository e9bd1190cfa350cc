-- ===== src/Host/Duplicates.antt =====
-- `add_ip_address` of routersim/netdevice.py on a port that is up.
use router_sim.Base.{
  ℕ, ◌≡◌, ◌≢◌, refl, ◌∙◌, true, false, List, [], ◌∷◌, ◌++◌, none, some, ◌==◌, nat_eq, get, set,
  beq_refl,
}
use router_sim.Base.Outcome.{ok}
use router_sim.Base.Sorting.{sort_by}
use router_sim.Net.{Network, net_eq, host}
use router_sim.Routing.{
  Route, RouteEvent, Table, deleted, route_eq, remove, put_back, add_route, del_route,
}
use router_sim.Host.{
  Address, Logical, port, logical, Host, add_direct, del_direct, connected_route, local_route,
  add_connected_route, del_connected_route, update_routes, set_state, add_logical_interface,
  add_ip_address,
}
use router_sim.Routing.Undo.{route_eq_refl}
use router_sim.Host.Updates.{
  get-put_back, get-add_route, get-add_route-own, beq_apart, beq_flip, update_routes-down,
}

-- The first of a prefix's routes goes when it is the one deleted.
del_route-first :
    (r : Route Network) (rs : List (Route Network)) (t : Table Network)
    (log : List (RouteEvent Network))
    → get t r.prefix ≡ some (r ∷ rs)
    → del_route r t log ≡ ok (put_back r.prefix rs t, log ++ deleted r ∷ [])
unfolding del_route remove
del_route-first r rs t log at =
    let same : route_eq r r ≡ true = route_eq_refl r in rw (del_route, at, remove, same) refl

-- Two routes of different prefixes, each added twice in turn.
add_twice :
    (c r : Route Network) (t : Table Network) (log : List (RouteEvent Network))
    → (c.prefix == r.prefix) ≡ false
    → get t c.prefix ≡ none
    → get t r.prefix ≡ none
    → let a = add_route false c t log in
      let b = add_route false r a.0 a.1 in
      let d = add_route false c b.0 b.1 in
      let e = add_route false r d.0 d.1 in
      (get e.0 c.prefix ≡ some (sort_by (λ x. x.metric) (c ∷ c ∷ [])))
      × (get e.0 r.prefix ≡ some (sort_by (λ x. x.metric) (r ∷ r ∷ [])))
add_twice c r t log apart new_c new_r =
    let a = add_route false c t log in
    let b = add_route false r a.0 a.1 in
    let d = add_route false c b.0 b.1 in
    let flipped = beq_flip c.prefix r.prefix apart in
    let c₁ : get a.0 c.prefix ≡ some (c ∷ []) = get-add_route-own c t log ∙ rw new_c refl in
    let c₂ : get b.0 c.prefix ≡ some (c ∷ []) = get-add_route r a.0 a.1 c.prefix ∙ rw flipped c₁ in
    let c₃ : get d.0 c.prefix ≡ some (sort_by (λ x. x.metric) (c ∷ c ∷ [])) =
      get-add_route-own c b.0 b.1 ∙ rw c₂ refl in
    let r₁ : get a.0 r.prefix ≡ none = get-add_route c t log r.prefix ∙ rw apart new_r in
    let r₂ : get b.0 r.prefix ≡ some (r ∷ []) = get-add_route-own r a.0 a.1 ∙ rw r₁ refl in
    let r₃ : get d.0 r.prefix ≡ some (r ∷ []) = get-add_route c b.0 b.1 r.prefix ∙ rw apart r₂ in
    (get-add_route r d.0 d.1 c.prefix ∙ rw flipped c₃, get-add_route-own r d.0 d.1 ∙ rw r₃ refl)

add_connected_route-twice :
    (i : ℕ) (a : Address) (h : Host)
    → (a.network == host a.ip) ≡ false
    → get h.routing.direct a.network ≡ none
    → get h.routing.direct (host a.ip) ≡ none
    → let g = add_connected_route i a (add_connected_route i a h) in
      (get g.routing.direct a.network ≡ some (connected_route i a ∷ connected_route i a ∷ []))
      × (get g.routing.direct (host a.ip) ≡ some (local_route i a ∷ local_route i a ∷ []))
unfolding add_connected_route add_direct connected_route local_route sort_by
add_connected_route-twice i a h apart new_c new_l =
    add_twice (connected_route i a) (local_route i a) h.routing.direct h.route_log apart new_c new_l

del_connected_route-twice :
    (i : ℕ) (a : Address) (h : Host)
    → (a.network == host a.ip) ≡ false
    → get h.routing.direct a.network ≡ some (connected_route i a ∷ connected_route i a ∷ [])
    → get h.routing.direct (host a.ip) ≡ some (local_route i a ∷ local_route i a ∷ [])
    → (g : Host) × (del_connected_route i a h ≡ ok g)
      × (get g.routing.direct a.network ≡ some (connected_route i a ∷ []))
      × (get g.routing.direct (host a.ip) ≡ some (local_route i a ∷ []))
unfolding del_connected_route del_direct connected_route local_route
del_connected_route-twice i a h apart at_c at_l =
    let c = connected_route i a in
    let r = local_route i a in
    let flipped = beq_flip a.network (host a.ip) apart in
    let t = put_back a.network (c ∷ []) h.routing.direct in
    let log = h.route_log ++ deleted c ∷ [] in
    let t_l : get t (host a.ip) ≡ some (r ∷ r ∷ []) =
      get-put_back a.network (c ∷ []) h.routing.direct (host a.ip) ∙ rw apart at_l in
    let t_c : get t a.network ≡ some (c ∷ []) =
      get-put_back a.network (c ∷ []) h.routing.direct a.network ∙ rw (beq_refl a.network) refl in
    let t' = put_back (host a.ip) (r ∷ []) t in
    (
      record h { routing = record h.routing { direct = t' }; route_log = log ++ deleted r ∷ [] },
      rw
          (
            del_connected_route,
            del_direct,
            del_route-first c (c ∷ []) h.routing.direct h.route_log at_c,
            del_route-first r (r ∷ []) t log t_l,
          )
          refl,
      get-put_back (host a.ip) (r ∷ []) t a.network ∙ rw flipped t_c,
      get-put_back (host a.ip) (r ∷ []) t (host a.ip) ∙ rw (beq_refl (host a.ip)) refl,
    )

pub add_ip_address-port :
    (dot_zero : ℕ → ℕ) (p hw : ℕ) (a : Address) (h : Host)
    → get h.interfaces p ≡ some (port hw true)
    → get h.interfaces (dot_zero p) ≡ none
    → let l : Logical = record {
      name = dot_zero p;
      parent = p;
      hw_address = hw;
      is_up = true;
      address = some a;
    } in
      add_ip_address dot_zero p a h
      ≡ ok (
          add_connected_route (dot_zero p) a (
            add_connected_route
              (dot_zero p)
              a
              (record h { interfaces = set h.interfaces (dot_zero p) (logical l) })))
unfolding add_ip_address add_logical_interface
add_ip_address-port dot_zero p hw a h at new =
    rw (add_ip_address, at, new, add_logical_interface, update_routes) refl

-- An address is given to a port that is up and has no logical interface yet, and the table has no
-- route for the address and its network, which differ. Both events add the two routes, so each is
-- there twice; and when the new interface goes down one of each stays.
pub add_ip_address-set_state :
    (dot_zero : ℕ → ℕ) (p hw : ℕ) (a : Address) (h : Host)
    → get h.interfaces p ≡ some (port hw true)
    → get h.interfaces (dot_zero p) ≡ none
    → get h.routing.direct a.network ≡ none
    → get h.routing.direct (host a.ip) ≡ none
    → a.network ≢ host a.ip
    → let c = connected_route (dot_zero p) a in
      let r = local_route (dot_zero p) a in
      let l : Logical = record {
        name = dot_zero p;
        parent = p;
        hw_address = hw;
        is_up = true;
        address = some a;
      } in
      (g g' : Host) × (add_ip_address dot_zero p a h ≡ ok g)
      × (get g.routing.direct a.network ≡ some (c ∷ c ∷ []))
      × (get g.routing.direct (host a.ip) ≡ some (r ∷ r ∷ []))
      × (set_state false l g ≡ ok g')
      × (get g'.routing.direct a.network ≡ some (c ∷ []))
      × (get g'.routing.direct (host a.ip) ≡ some (r ∷ []))
unfolding set_state add_connected_route add_direct
add_ip_address-set_state dot_zero p hw a h at new new_c new_l wide =
    let l : Logical = record {
      name = dot_zero p;
      parent = p;
      hw_address = hw;
      is_up = true;
      address = some a;
    } in
    let h' = record h { interfaces = set h.interfaces (dot_zero p) (logical l) } in
    let apart = beq_apart a.network (host a.ip) wide in
    let g = add_connected_route (dot_zero p) a (add_connected_route (dot_zero p) a h') in
    let (twice_c, twice_l) = add_connected_route-twice (dot_zero p) a h' apart new_c new_l in
    let down = record g {
      interfaces = set g.interfaces (dot_zero p) (logical (record l { is_up = false }));
    } in
    let (g', gone, one_c, one_l) =
      del_connected_route-twice (dot_zero p) a down apart twice_c twice_l in
    (
      g,
      g',
      add_ip_address-port dot_zero p hw a h at new,
      twice_c,
      twice_l,
      update_routes-down (dot_zero p) p hw (some a) a down refl ∙ gone,
      one_c,
      one_l,
    )
