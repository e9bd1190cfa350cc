-- ===== src/Host/Sending/Resolved.antt =====
-- A packet that `send_ip` of routersim/server.py sends before the hardware address is known.
use router_sim.Base.{
  ℕ, ◌≡◌, refl, sym, ap, ◌∙◌, true, ◌||◌, [], ◌∷◌, ◌++◌, Option, none, some, ◌==◌, nat_eq, get,
  arith,
}
use router_sim.Base.Outcome.{ok}
use router_sim.Mpls.{IpPacket}
use router_sim.Arp.{
  ArpHandler, ArpPacket, asked, released, lookup, enqueue, ask, release, answers, process,
}
use router_sim.Arp.Waiting.{process-enqueue_all}
use router_sim.Routing.{Route}
use router_sim.Net.{Network}
use router_sim.Routing.Select.{inet, lookup_ip}
use router_sim.Host.{Address, Logical, Host, sent}
use router_sim.Host.Sending.{
  Payload, arp_packet, arp_face, address_ip, logical_of, lookup_addr, given_or, send_to, send_ip,
  process_frame,
}

-- What `send_ip` does once the route and the interface are found.
send_ip-found :
    (none_text : ℕ) (source : Option ℕ) (p : IpPacket) (h : Host) (r : Route Network) (l : Logical)
    (a : Address)
    → lookup_ip (inet h.routing) p.dst ≡ ok (some r)
    → logical_of (given_or source r.interface) h ≡ ok l
    → l.address ≡ some a
    → send_ip none_text source p h ≡ ok (send_to (lookup_addr none_text a.network r p.dst) l p h)
unfolding send_ip
send_ip-found none_text source p h r l a route face at = rw (send_ip, route, face, at) refl

-- The ARP handler's state is no matter of the interfaces.
logical_of-arp :
    (o : Option ℕ) (h : Host) (s : ArpHandler)
    → logical_of o (record h { arp = s }) ≡ logical_of o h
unfolding logical_of
logical_of-arp none h s = refl
logical_of-arp (some i) h s = refl

queue-process :
    (now : ℕ) (p : IpPacket) (q : ArpPacket) (l m : Logical) (s : ArpHandler)
    → get s.send_q q.psrc ≡ none
    → let t =
        process now q (arp_face m) (ask q.psrc (arp_face l) (enqueue q.psrc p (arp_face l) s)) in
      (t.sent
        ≡ ((ask q.psrc (arp_face l) s).sent ++ answers q (arp_face m))
          ++ released l.name q.hwsrc p ∷ [])
      × (lookup q.psrc t ≡ some q.hwsrc)
unfolding ask enqueue release
queue-process now p q l m s idle =
    let (all, _, known) =
      process-enqueue_all now q (arp_face m) ((p, arp_face l) ∷ []) (ask q.psrc (arp_face l) s)
        idle in
    (all, known)

-- A host sends a packet by a route over an interface with an address, where the hardware address of the
-- packet's next stop is not known and nothing waits for it. The packet is not sent; the next stop is
-- asked for; and once an ARP packet from there is processed, from a frame to the receiving interface,
-- the packet goes out to the hardware address that it names, and a further packet by the route goes
-- there at once.
pub send_ip-process_frame :
    (none_text : ℕ) (payload_of : ℕ → Payload) (reply_to : ℕ → ℕ) (broadcast now : ℕ)
    (source : Option ℕ) (p : IpPacket) (h : Host) (r : Route Network) (l m : Logical) (a : Address)
    (q : ArpPacket)
    → lookup_ip (inet h.routing) p.dst ≡ ok (some r)
    → logical_of (given_or source r.interface) h ≡ ok l
    → l.address ≡ some a
    → q.psrc ≡ lookup_addr none_text a.network r p.dst
    → lookup q.psrc h.arp ≡ none
    → get h.arp.send_q q.psrc ≡ none
    → (g g' : Host) × (send_ip none_text source p h ≡ ok g)
      × (g.done ≡ h.done)
      × (process_frame none_text payload_of reply_to broadcast m.hw_address (arp_packet q) m now g
          ≡ ok g')
      × (g'.arp.sent
          ≡ ((h.arp.sent
                ++ asked l.name q.psrc (elim (address_ip l.address) [ none ↦ 0 | some b ↦ b ]) ∷ [])
              ++ answers q (arp_face m))
            ++ released l.name q.hwsrc p ∷ [])
      × (send_ip none_text source p g'
          ≡ ok (record g' { done = g'.done ++ sent l.name q.hwsrc p ∷ [] }))
unfolding process_frame send_to ask enqueue
send_ip-process_frame none_text payload_of reply_to broadcast now source p h r l m a q route face at
      from unknown idle =
    let g = record h { arp = ask q.psrc (arp_face l) (enqueue q.psrc p (arp_face l) h.arp) } in
    let g' = record g { arp = process now q (arp_face m) g.arp } in
    let (all, known) = queue-process now p q l m h.arp idle in
    let heard : (m.hw_address == broadcast || m.hw_address == m.hw_address) ≡ true = ground arith in
    (
      g,
      g',
      send_ip-found none_text source p h r l a route face at
          ∙ ap (λ x. ok (send_to x l p h)) (sym from)
          ∙ rw (send_to, unknown) refl,
      refl,
      rw (process_frame, heard) refl,
      all,
      send_ip-found none_text source p g' r l a route
            (logical_of-arp (given_or source r.interface) h g'.arp ∙ face) at
          ∙ ap (λ x. ok (send_to x l p g')) (sym from)
          ∙ rw (send_to, known) refl,
    )
