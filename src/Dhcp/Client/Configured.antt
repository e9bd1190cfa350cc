-- ===== src/Dhcp/Client/Configured.antt =====
-- routersim/dhcp.py: a client and a server together, from the discovery to the configured host.
use router_sim.Base.{
  ℕ, ◌≡◌, refl, ap, ◌∙◌, true, false, [], ◌∷◌, ◌++◌, none, some, nat_eq, get, set, get-set,
  beq_refl,
}
use router_sim.Base.Outcome.{ok}
use router_sim.Net.{Network, net_eq, default_network}
use router_sim.Arp.{lookup, ask}
use router_sim.Routing.{Route, new_route, add_route}
use router_sim.Dhcp.{
  subnet_mask, router, other, Subnet, Hold, offered, acked, Server, Iface, subnet_of, find_address,
  known_options, process_msg,
}
use router_sim.Dhcp.Client.{
  Check, Client, discover_message, start_discover, request_message, do_request, probe,
  check_and_request, run_check, ip_interface, apply_config, hear_types, process_reply,
}
use router_sim.Host.Updates.{get-add_route-own}
use router_sim.Host.{
  Address, Logical, Interface, Host, add_direct, port, logical, add_connected_route, static_route,
}
use router_sim.Host.Duplicates.{add_ip_address-port}
use router_sim.Host.Sending.{arp_face, listen_udp}
use router_sim.Dhcp.Client.Answers.{
  masks_of, routers_of, answer_reply, blank, both, gateway_route, discover_served, request_served,
}

check_and_request-unknown :
    (x : ℕ) (k : Check) (c : Client)
    → lookup k.offered_address c.host.arp ≡ none
    → check_and_request x k c ≡ do_request x k.offered_address k.iface c
unfolding check_and_request
check_and_request-unknown x k c unknown = rw (check_and_request, unknown) refl

-- The offer is checked, and the address requested if nobody answers for it.
offer_requested :
    (x y a : ℕ) (l : Logical) (i : Iface) (sn : Subnet) (c : Client)
    → c.queue ≡ []
    → lookup a c.host.arp ≡ none
    → let r = answer_reply sn (offered l.hw_address x a i.address both) in
      (dot_zero : ℕ → ℕ)
      → (d : Client) × (process_reply dot_zero l r c ≡ ok d)
        × ((run_check y d).sent ≡ c.sent ++ (l.name, request_message y a l) ∷ [])
        × ((run_check y d).queue ≡ [])
        × ((run_check y d).host ≡ record c.host { arp = ask a (arp_face l) c.host.arp })
unfolding process_reply hear_types probe run_check do_request answer_reply lookup ask
offer_requested x y a l i sn c idle unknown dot_zero =
    let r = answer_reply sn (offered l.hw_address x a i.address both) in
    let k : Check = record { offered_address = a; iface = l; siaddr = i.address } in
    let d = probe l r c in
    let waiting : d ≡ record d { queue = k ∷ [] } =
      ap (λ q. record d { queue = q ++ k ∷ [] }) idle in
    let runs : run_check y d ≡ do_request y a l (record d { queue = [] }) =
      ap (run_check y) waiting ∙ check_and_request-unknown y k (record d { queue = [] }) unknown in
    (
      d,
      rw (beq_refl l.hw_address) refl,
      ap (λ c'. c'.sent) runs,
      ap (λ c'. c'.queue) runs,
      ap (λ c'. c'.host) runs,
    )

-- Adding a route where the prefix had none.
add_route-first :
    (r : Route Network) (h : Host)
    → get h.routing.static r.prefix ≡ none
    → get (add_route false r h.routing.static h.route_log).0 r.prefix ≡ some (r ∷ [])
add_route-first r h new = get-add_route-own r h.routing.static h.route_log ∙ rw new refl

static_route-first :
    (i gw : ℕ) (face : Interface) (h : Host)
    → get h.interfaces i ≡ some face
    → get h.routing.static default_network ≡ none
    → (g : Host) × (static_route default_network (some gw) i h ≡ ok g)
      × (g.interfaces ≡ h.interfaces)
      × (get g.routing.static default_network ≡ some (gateway_route i gw ∷ []))
unfolding static_route new_route
static_route-first i gw face h at new =
    let r = gateway_route i gw in
    let added = add_route false r h.routing.static h.route_log in
    (
      record h { routing = record h.routing { static = added.0 }; route_log = added.1 },
      rw (static_route, at) refl,
      refl,
      add_route-first r h new,
    )

module _ (dot_zero : ℕ → ℕ) (p hw a : ℕ) (sn : Subnet) where
  abbrev taken : Address
  taken = ip_interface a sn.network.prefixlen

  -- The acknowledged address and the gateway are taken.
  ack_applied :
      (x : ℕ) (i : Iface) (c : Client)
      → get c.host.interfaces p ≡ some (port hw true)
      → get c.host.interfaces (dot_zero p) ≡ none
      → get c.host.routing.static default_network ≡ none
      → (d : Client) × (process_reply dot_zero
            (blank dot_zero p hw)
            (answer_reply sn (acked hw x a i.address both))
            c
          ≡ ok d)
        × (get d.host.interfaces (dot_zero p)
            ≡ some (logical (record (blank dot_zero p hw) { address = some taken })))
        × (get d.host.routing.static default_network ≡ some (gateway_route (dot_zero p) sn.gw ∷ []))
  unfolding process_reply hear_types apply_config answer_reply add_connected_route add_direct
      masks_of routers_of
  ack_applied x i c at new no_default =
      let face = logical (record (blank dot_zero p hw) { address = some taken }) in
      let h = record c.host { interfaces = set c.host.interfaces (dot_zero p) face } in
      let g = add_connected_route (dot_zero p) taken (add_connected_route (dot_zero p) taken h) in
      let there : get g.interfaces (dot_zero p) ≡ some face =
        get-set c.host.interfaces (dot_zero p) (dot_zero p) face
        ∙ rw (beq_refl (dot_zero p)) refl in
      let (e, routed, same, default) =
        static_route-first (dot_zero p) sn.gw face g there no_default in
      (
        record c { host = e },
        rw
            (
              beq_refl hw,
              apply_config,
              add_ip_address-port dot_zero p hw taken c.host at new,
              routed,
            )
            refl,
        ap (λ m. get m (dot_zero p)) same ∙ there,
        default,
      )

  -- A port that is up and has no address discovers a server that has an address for it. If nobody is known
  -- at that address and the client and its host are unconfigured, then the server answers the discovery with an
  -- offer and the client's request with an acknowledgement, the client handles both, and nothing
  -- raises: in the end the server has leased the address to the client, the client's logical interface has
  -- the address with the subnet's prefix length, and its default route goes to the subnet's gateway.
  pub client_configured :
      (listener x y : ℕ) (i : Iface) (s : Server) (c : Client)
      → sn ≡ s.subnet
      → subnet_of i s ≡ some s.subnet
      → find_address hw s ≡ some a
      → c.queue ≡ []
      → lookup a c.host.arp ≡ none
      → get c.host.interfaces p ≡ some (port hw true)
      → get c.host.interfaces (dot_zero p) ≡ none
      → get c.host.routing.static default_network ≡ none
      → let l = blank dot_zero p hw in
        (offering serving : Server) × (checking done : Client) × (process_msg i
            (discover_message x l)
            s
          ≡ ok (offering, true))
        × (offering.sent ≡ s.sent ++ offered hw x a i.address both ∷ [])
        × (process_reply dot_zero l
              (answer_reply sn (offered hw x a i.address both))
              (start_discover listener x l c)
            ≡ ok checking)
        × ((run_check y checking).sent
            ≡ (start_discover listener x l c).sent ++ (l.name, request_message y a l) ∷ [])
        × (process_msg i (request_message y a l) offering ≡ ok (serving, true))
        × (serving.sent ≡ offering.sent ++ acked hw x a i.address both ∷ [])
        × (get serving.leases hw ≡ some a)
        × (process_reply dot_zero l
              (answer_reply sn (acked hw x a i.address both))
              (run_check y checking)
            ≡ ok done)
        × (get done.host.interfaces l.name ≡ some (logical (record l { address = some taken })))
        × (get done.host.routing.static default_network ≡ some (gateway_route l.name sn.gw ∷ []))
  unfolding start_discover listen_udp known_options
  client_configured listener x y i s c subnet here found idle unknown at new no_default =
      let l = blank dot_zero p hw in
      let c₁ = start_discover listener x l c in
      let (s₁, offers, offer_sent, _, held, hold) = discover_served x a l i s here found in
      let h : Hold = record {
        offer = a;
        param_req_list = subnet_mask ∷ router ∷ other ∷ other ∷ other ∷ [];
        xid = x;
      } in
      let (s₂, acks, ack_sent, leased) = request_served y a l i h s₁ hold held refl in
      let (c₂, checks, requested, _, same) =
        offer_requested x y a l i sn c₁ idle unknown dot_zero in
      let c₃ = run_check y c₂ in
      let (c₄, applies, face, default) =
        ack_applied x i c₃ (ap (λ z. get z.interfaces p) same ∙ at)
          (ap (λ z. get z.interfaces (dot_zero p)) same ∙ new)
          (ap (λ z. get z.routing.static default_network) same ∙ no_default) in
      (
        s₁, s₂, c₂, c₄, offers, offer_sent, checks, requested, acks, ack_sent, leased, applies,
        face, default,
      )
