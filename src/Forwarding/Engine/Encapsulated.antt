-- ===== src/Forwarding/Engine/Encapsulated.antt =====
-- What `send_encapsulated` and `process_ip` of routersim/forwarding.py send once an entry is found.
use router_sim.Base.{
  ℕ, ◌≡◌, refl, sym, ap, ◌∙◌, subst, Bool, true, List, [], ◌∷◌, Option, none, some, ◌⊎◌, inl, inr,
  In, nat_eq, get, arith, Bool-cases, Option-cases,
}
use router_sim.Base.Outcome.{Outcome, ok, err, or_raise, >>=-eq-ok, ok-injective, attribute_error}
use router_sim.Mpls.{
  IpPacket, Pdu, ip, mpls, nothing, Action, forward, control, reject, no_op, replace, push, pop,
  combined, LabelEvent, Log, apply,
}
use router_sim.Net.{Network, host, overlaps}
use router_sim.Arp.{lookup}
use router_sim.Routing.Select.{ForwardingEntry}
use router_sim.Forwarding.Engine.{
  Effect, send, observe_all, Engine, send_to, send_encapsulated, or_else, push_labels, forward_ip,
}

-- The address that a packet goes to next: the entry's next hop, or else its own destination, in the
-- network of the interface.
abbrev pub IsNextHop : Engine → Option ℕ → IpPacket → ℕ → ℕ → Type 0
IsNextHop e next_hop p i a =
    (next_hop ≡ some a)
    ⊎ ((next_hop ≡ none)
        × (a ≡ p.dst)
        × (net : Network) × (get e.networks i ≡ some net)
        × (overlaps net (host p.dst) ≡ true))

send_to-send :
    (e : Engine) (a : ℕ) (p : IpPacket) (j i hw : ℕ) (q : IpPacket)
    → In (send i hw q) (send_to e a p j)
    → (q ≡ p) × (j ≡ i) × (lookup a e.arp_handler ≡ some hw)
unfolding send_to
send_to-send e a p j i hw q at = elim (Option-cases (lookup a e.arp_handler)) [
  | inl unknown ↦ absurd (ground (arith, rw (unknown, send_to) at at))
  | inr (h, known) ↦ elim (rw (known, send_to) at at) [
    | inl same ↦ (cc same, cc same, known ∙ cc same)
    | inr more ↦ absurd more
  ]
]

send_encapsulated-send :
    (e : Engine) (next_hop : Option ℕ) (p : IpPacket) (out : Option ℕ) (es : List Effect) (i hw : ℕ)
    (q : IpPacket)
    → send_encapsulated e next_hop p out ≡ ok es
    → In (send i hw q) es
    → (a : ℕ) × (q ≡ p)
      × (out ≡ some i)
      × IsNextHop e next_hop p i a
      × (lookup a e.arp_handler ≡ some hw)
unfolding send_encapsulated
send_encapsulated-send e next_hop p none es i hw q ends at = cc ends
send_encapsulated-send e (some a) p (some j) es i hw q ends at =
    let (own, face, known) =
      send_to-send e a p j i hw q (subst (In (send i hw q)) (sym (ok-injective ends)) at) in
    (a, own, ap some face, inl refl, known)
send_encapsulated-send e none p (some j) es i hw q ends at =
    let (net, there, rest) = >>=-eq-ok (or_raise attribute_error (get e.networks j)) _ ends in
    let found : get e.networks j ≡ some net = ground (arith, there) in
    elim (Bool-cases (overlaps net (host p.dst))) [
      | inr outside ↦ cc (rw outside at rest)
      | inl inside ↦
          let sent = ok-injective (rw inside at rest) in
          let (own, face, known) =
            send_to-send e p.dst p j i hw q (subst (In (send i hw q)) (sym sent) at) in
          (
            p.dst,
            own,
            ap some face,
            inr (refl, refl, net, ap (get e.networks) (sym face) ∙ found, inside),
            known,
          )
    ]

pub In-observe_all :
    (i hw : ℕ) (q : IpPacket) (log : List LabelEvent) → ¬ In (send i hw q) (observe_all log)
unfolding observe_all
In-observe_all i hw q [] at = at
In-observe_all i hw q (x ∷ log) (inl same) = cc same
In-observe_all i hw q (x ∷ log) (inr at) = In-observe_all i hw q log at

push_labels-send :
    (a : Action) (p : IpPacket) (es : List Effect) (i hw : ℕ) (q : IpPacket)
    → push_labels a p ≡ ok es
    → ¬ In (send i hw q) es
unfolding push_labels
push_labels-send a p es i hw q ends at =
    let ((r, log), _, rest) = >>=-eq-ok (apply a (ip p) []) _ ends in left r log rest
  where
    left :
        (r : Pdu) (log : Log)
        → (elim r as (λ x. Outcome (List Effect)) [
          | mpls m ↦ err attribute_error
          | _ ↦ ok (observe_all log)
        ])
          ≡ ok es
        → ⊥
    left nothing log rest =
        In-observe_all i hw q log (subst (In (send i hw q)) (sym (ok-injective rest)) at)
    left (mpls m) log rest = cc rest
    left (ip s) log rest =
        In-observe_all i hw q log (subst (In (send i hw q)) (sym (ok-injective rest)) at)

pub forward_ip-send :
    (e : Engine) (source : Option ℕ) (from_self : Bool) (dest : Option ℕ)
    (f : ForwardingEntry Network) (p : IpPacket) (es : List Effect) (i hw : ℕ) (q : IpPacket)
    → forward_ip e source from_self dest f p ≡ ok es
    → In (send i hw q) es
    → (a : ℕ) × (q ≡ p)
      × (or_else dest f.interface ≡ some i)
      × IsNextHop e f.next_hop_ip p i a
      × (lookup a e.arp_handler ≡ some hw)
unfolding forward_ip
forward_ip-send e source from_self dest f p es i hw q ends at =
    by_action f.action refl dest source ends
  where
    stated : Option ℕ → Type 0
    stated d =
        (a : ℕ) × (q ≡ p)
        × (or_else d f.interface ≡ some i)
        × IsNextHop e f.next_hop_ip p i a
        × (lookup a e.arp_handler ≡ some hw)

    by_action :
        (x : Action)
        → f.action ≡ x
        → (d o : Option ℕ) → forward_ip e o from_self d f p ≡ ok es
        → stated d
    by_action forward act d o done =
        send_encapsulated-send e f.next_hop_ip p (or_else d f.interface) es i hw q (rw act at done)
          at
    by_action control act (some d) o done =
        send_encapsulated-send e f.next_hop_ip p (some d) es i hw q (rw act at done) at
    by_action control act none o done = elim (Bool-cases from_self) [
      | inl own ↦ cc (rw (act, own) at done)
      | inr other ↦
          elim (subst (In (send i hw q)) (sym (ok-injective (rw (act, other) at done))) at) [
            | inl same ↦ cc same
            | inr more ↦ absurd more
          ]
    ]
    by_action reject act (some d) o done =
        send_encapsulated-send e f.next_hop_ip p (some d) es i hw q (rw act at done) at
    by_action reject act none none done =
        absurd (subst (In (send i hw q)) (sym (ok-injective (rw act at done))) at)
    by_action reject act none (some j) done = cc (rw act at done)
    by_action no_op act d o done = absurd (push_labels-send no_op p es i hw q (rw act at done) at)
    by_action (replace l) act d o done =
        absurd (push_labels-send (replace l) p es i hw q (rw act at done) at)
    by_action (push l) act d o done =
        absurd (push_labels-send (push l) p es i hw q (rw act at done) at)
    by_action pop act d o done = absurd (push_labels-send pop p es i hw q (rw act at done) at)
    by_action (combined xs) act d o done =
        absurd (push_labels-send (combined xs) p es i hw q (rw act at done) at)
