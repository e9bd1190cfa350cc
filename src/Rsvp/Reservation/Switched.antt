-- ===== src/Rsvp/Reservation/Switched.antt =====
-- routersim/rsvp/process.py with routersim/mpls.py: a packet on the path whose labels were reserved.
use router_sim.Base.{ℕ, ◌≡◌, refl, ap, ◌∙◌, false, some, List, [], ◌∷◌, ◌++◌, ◌==◌, nat_eq, All}
use router_sim.Base.Outcome.{ok}
use mathlib.Core.List.{append_assoc}
use router_sim.Mpls.{
  ℤ, IpPacket, Actions, nil, cons, push, swapped, pushed, popped, unwrap, replace_label, Log, ip,
  mpls, pop_last, apply, apply_all,
}
use router_sim.Rsvp.Reservation.{label_action}

-- What the routers after the first do, each with the label that its reservation came with.
unfoldable pub transit_actions : List ℕ → Actions
transit_actions [] = nil
transit_actions (l ∷ ls) = cons (label_action l) (transit_actions ls)

-- What they observe: each swaps the label that it gave out, and the last one pops its own.
abbrev pub seen : ℕ → List ℕ → Log
seen top [] = popped top ∷ []
seen top (l ∷ ls) = swapped top l ∷ seen l ls

transit_carries :
    (p : IpPacket) (ttl : ℤ) (top : ℕ) (ls : List ℕ) (log : Log)
    → All (λ l. (l == 3) ≡ false) ls
    → apply_all
        (transit_actions (ls ++ 3 ∷ []))
        (mpls (record { encapsulated = some p; label_stack = top ∷ []; ttl = ttl }))
        log
      ≡ ok (ip p, log ++ seen top ls)
unfolding apply transit_actions pop_last unwrap replace_label
transit_carries p ttl top [] log proper = refl
transit_carries p ttl top (l ∷ ls) log proper = rw proper.0 (
    transit_carries p ttl l ls (log ++ swapped top l ∷ []) proper.1
    ∙ ap (λ x. ok (ip p, x)) (append_assoc log (swapped top l ∷ []) (seen l ls)))

-- Along a path the routers after the first have the reserved labels, of which the last alone is the implicit
-- null label. The first router's push, and then the operations of those labels in turn, give back the
-- IP packet: each sees the label that was put on before it and swaps it, and the last one pops it.
pub reserved_path_carries :
    (p : IpPacket) (top : ℕ) (ls : List ℕ) (log : Log)
    → All (λ l. (l == 3) ≡ false) ls
    → apply_all (cons (push top) (transit_actions (ls ++ 3 ∷ []))) (ip p) log
      ≡ ok (ip p, (log ++ pushed top ∷ []) ++ seen top ls)
unfolding apply
reserved_path_carries p top ls log proper =
    transit_carries p p.ttl top ls (log ++ pushed top ∷ []) proper
