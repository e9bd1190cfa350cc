-- ===== src/Forwarding/Engine/Sent.antt =====
-- What `PacketForwardingEngine` of routersim/forwarding.py sends.
use router_sim.Base.{
  ℕ, ◌≡◌, refl, sym, subst, Bool, not, ◌&&◌, List, [], ◌++◌, Option, none, some, inl, inr, In,
  In-append, ◌==◌, nat_eq, Bool-cases, Option-cases,
}
use router_sim.Base.Outcome.{
  Outcome, ok, err, Fault, ◌>>=◌, >>=-eq-ok, ok-injective, Outcome-err, attribute_error,
  index_error,
}
use router_sim.Mpls.{
  pred, IpPacket, MplsPacket, Pdu, ip, mpls, nothing, pop, Log, pop_label, pop_last, apply,
}
use router_sim.Mpls.Carried.{apply_carries}
use router_sim.Net.{Network}
use router_sim.Arp.{lookup}
use router_sim.Routing.Select.{ForwardingEntry}
use router_sim.Forwarding.{lookup_ip, lookup_label}
use router_sim.Forwarding.Engine.{
  Frame, ipv4, arp, clns, mplsu, ether, Effect, send, observe_all, Engine, or_else, process_ip,
  bottom_label, find_label, explicit_null, switch_label, process_mpls, process_frame,
}
use router_sim.Forwarding.Engine.Encapsulated.{IsNextHop, In-observe_all, forward_ip-send}

-- What a sent packet is: the packet that came in, its time to live one less, on the way of its entry
-- or the given interface, to the hardware address of the next hop.
abbrev pub IsForwarded : Engine → Option ℕ → IpPacket → ℕ → ℕ → IpPacket → Type 0
IsForwarded e dest p i hw q =
    (f : ForwardingEntry Network) × (a : ℕ) × (lookup_ip e.forwarding p.dst ≡ some f)
    × (q ≡ record p { ttl = pred p.ttl })
    × (or_else dest f.interface ≡ some i)
    × IsNextHop e f.next_hop_ip p i a
    × (lookup a e.arp_handler ≡ some hw)

process_ip-send :
    (e : Engine) (source : Option ℕ) (from_self : Bool) (dest : Option ℕ) (p : IpPacket)
    (es : List Effect) (i hw : ℕ) (q : IpPacket)
    → process_ip e source from_self dest p ≡ ok es
    → In (send i hw q) es
    → IsForwarded e dest p i hw q
unfolding process_ip
process_ip-send e source from_self dest p es i hw q ends at =
    elim (Bool-cases (p.alert && not from_self)) [
      | inl alerted ↦ elim (subst (In (send i hw q)) (sym (ok-injective (rw alerted at ends))) at) [
        | inl same ↦ cc same
        | inr more ↦ absurd more
      ]
      | inr usual ↦ elim (Option-cases (lookup_ip e.forwarding p.dst)) [
        | inl lost ↦
            absurd (subst (In (send i hw q)) (sym (ok-injective (rw (usual, lost) at ends))) at)
        | inr (f, found) ↦
            let (a, own, out, next, known) =
              forward_ip-send e source from_self dest f (record p { ttl = pred p.ttl }) es i hw q
                (rw (usual, found) at ends) at in
            (f, a, found, own, out, next, known)
      ]
    ]

-- the IP packet in a frame
abbrev pub carried : Frame → Option IpPacket
carried (ipv4 p) = some p
carried (mplsu m) = m.encapsulated
carried f = none

-- The operation of a label's entry ends without an exception only where nothing is carried.
switch_label-idle :
    (f : ForwardingEntry ℕ) (m : MplsPacket) (es : List Effect)
    → switch_label f m ≡ ok es
    → (m.encapsulated ≡ none) × (log : Log) × (es ≡ observe_all log)
unfolding switch_label
switch_label-idle f m es ends =
    let ((r, log), applied, rest) = >>=-eq-ok (apply f.action (mpls m) []) _ ends in
    left r log applied rest
  where
    left :
        (r : Pdu) (log : Log)
        → apply f.action (mpls m) [] ≡ ok (r, log)
        → (elim r as (λ x. Outcome (List Effect)) [
          | mpls n ↦ err attribute_error
          | ip p ↦ err attribute_error
          | nothing ↦ ok (observe_all log)
        ])
          ≡ ok es
        → (m.encapsulated ≡ none) × (log : Log) × (es ≡ observe_all log)
    left (mpls n) log applied rest = cc rest
    left (ip p) log applied rest = cc rest
    left nothing log applied rest =
        (sym (apply_carries f.action (mpls m) [] applied).0, log, sym (ok-injective rest))

pop_label-ip :
    (m : MplsPacket) (r : IpPacket) (log : Log)
    → pop_label (mpls m) [] ≡ ok (ip r, log)
    → m.encapsulated ≡ some r
unfolding apply
pop_label-ip m r log ends =
    let applied : apply pop (mpls m) [] ≡ ok (ip r, log) = ends in
    sym (apply_carries pop (mpls m) [] applied).0

explicit_null-send :
    (e : Engine) (source : Option ℕ) (from_self : Bool) (m : MplsPacket) (es : List Effect)
    (i hw : ℕ) (q : IpPacket)
    → explicit_null e source from_self m ≡ ok es
    → In (send i hw q) es
    → (p : IpPacket) × (m.encapsulated ≡ some p) × IsForwarded e none p i hw q
unfolding explicit_null
explicit_null-send e source from_self m es i hw q ends at =
    let (l, _, rest) = >>=-eq-ok (bottom_label m) _ ends in
    elim (Bool-cases (l == 3)) [
      | inr other ↦ absurd (subst (In (send i hw q)) (sym (ok-injective (rw other at rest))) at)
      | inl null ↦
          let ((r, log), popped, rest₂) = >>=-eq-ok (pop_label (mpls m) []) _ (rw null at rest) in
          left r log popped rest₂
    ]
  where
    left :
        (r : Pdu) (log : Log)
        → pop_label (mpls m) [] ≡ ok (r, log)
        → (elim r as (λ x. Outcome (List Effect)) [
          | mpls n ↦ ok (observe_all log)
          | ip p ↦ process_ip e source from_self none p >>= λ more. ok (observe_all log ++ more)
          | nothing ↦ err index_error
        ])
          ≡ ok es
        → (p : IpPacket) × (m.encapsulated ≡ some p) × IsForwarded e none p i hw q
    left nothing log popped rest = cc rest
    left (mpls n) log popped rest =
        absurd (In-observe_all i hw q log (subst (In (send i hw q)) (sym (ok-injective rest)) at))
    left (ip p) log popped rest =
        let (more, sent, rest₂) = >>=-eq-ok (process_ip e source from_self none p) _ rest in
        elim (In-append (send i hw q) (observe_all log) more
          (subst (In (send i hw q)) (sym (ok-injective rest₂)) at)) [
            | inl early ↦ absurd (In-observe_all i hw q log early)
            | inr late ↦ (
              p,
              pop_label-ip m p log popped,
              process_ip-send e source from_self none p more i hw q sent late,
            )
          ]

-- The interface that is given for a frame; a label's packet has none.
abbrev pub given : Option ℕ → Frame → Option ℕ
given dest (ipv4 p) = dest
given dest f = none

process_mpls-send :
    (e : Engine) (source : Option ℕ) (from_self : Bool) (m : MplsPacket) (es : List Effect)
    (i hw : ℕ) (q : IpPacket)
    → process_mpls e source from_self m ≡ ok es
    → In (send i hw q) es
    → (p : IpPacket) × (m.encapsulated ≡ some p) × IsForwarded e none p i hw q
unfolding process_mpls
process_mpls-send e source from_self m es i hw q ends at = elim (Option-cases (find_label e m)) [
  | inl unknown ↦
      explicit_null-send e source from_self m es i hw q (rw (unknown, process_mpls) at ends) at
  | inr (none, missing) ↦
      let (l, _, rest) = >>=-eq-ok (bottom_label m) _ (rw (missing, process_mpls) at ends) in
      absurd (subst (In (send i hw q)) (sym (ok-injective rest)) at)
  | inr (some f, known) ↦
      let (_, log, same) = switch_label-idle f m es (rw (known, process_mpls) at ends) in
      absurd (In-observe_all i hw q log (subst (In (send i hw q)) same at))
]

-- Whatever the engine's tables, and whoever the frame is from: if its handling raises nothing, then
-- every packet that is sent on an interface is the IP packet in the frame with a time to live one less,
-- whatever that was, goes out on the given interface or that of the entry found for its destination,
-- and goes to the cached hardware address of that entry's next hop, or without one of the destination
-- itself in the interface's network.
pub process_frame-send :
    (e : Engine) (source : Option ℕ) (from_self : Bool) (dest : Option ℕ) (frame : Frame)
    (es : List Effect) (i hw : ℕ) (q : IpPacket)
    → process_frame e source from_self dest frame ≡ ok es
    → In (send i hw q) es
    → (p : IpPacket) × (carried frame ≡ some p) × IsForwarded e (given dest frame) p i hw q
unfolding process_frame
process_frame-send e source from_self dest (ipv4 p) es i hw q ends at =
    (p, refl, process_ip-send e source from_self dest p es i hw q ends at)
process_frame-send e source from_self dest (arp p) es i hw q ends at =
    elim (subst (In (send i hw q)) (sym (ok-injective ends)) at) [
      | inl same ↦ cc same
      | inr more ↦ absurd more
    ]
process_frame-send e source from_self dest (clns p) es i hw q ends at =
    elim (subst (In (send i hw q)) (sym (ok-injective ends)) at) [
      | inl same ↦ cc same
      | inr more ↦ absurd more
    ]
process_frame-send e source from_self dest (mplsu m) es i hw q ends at =
    process_mpls-send e source from_self m es i hw q ends at
process_frame-send e source from_self dest ether es i hw q ends at = cc ends

-- An MPLS frame that carries an IP packet and whose top label has an entry in the forwarding table ends in
-- an exception, whatever the entry's action, labels that are swapped, pushed and popped included: the
-- packet goes nowhere.
pub process_frame-label :
    (e : Engine) (source : Option ℕ) (from_self : Bool) (dest : Option ℕ) (m : MplsPacket)
    (p : IpPacket) (rest : List ℕ) (l : ℕ) (f : ForwardingEntry ℕ)
    → m.encapsulated ≡ some p
    → pop_last m.label_stack ≡ some (rest, l)
    → lookup_label e.forwarding l ≡ ok (some f)
    → (x : Fault) × (process_frame e source from_self dest (mplsu m) ≡ err x)
unfolding process_frame process_mpls find_label
process_frame-label e source from_self dest m p rest l f carries top entry =
    let found : find_label e m ≡ some (some f) = rw (find_label, top, entry) refl in
    elim (Outcome-err (switch_label f m)) [
      | inl (es, ends) ↦ cc (carries, (switch_label-idle f m es ends).0)
      | inr (x, raises) ↦ (x, rw (process_mpls, found) raises)
    ]
