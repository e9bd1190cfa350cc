-- ===== src/Tests/Labels.antt =====
-- routersim/mpls.py on a packet with two labels.
use router_sim.Base.{◌+◌, ◌≡◌, refl, false, [], ◌∷◌, some}
use router_sim.Base.Outcome.{ok}
use router_sim.Mpls.{
  pos, IpPacket, MplsPacket, mpls, Action, replace, push, combined, nil, cons, swapped, pushed,
  apply, pop_last,
}
use router_sim.Mpls.Carried.{inner, pushes, pops, apply_carries}

abbrev packet : IpPacket
packet = record { dst = 7; src = 9; ttl = pos 64; alert = false; payload = 0 }

abbrev labelled : MplsPacket
labelled = record { encapsulated = some packet; label_stack = 100 ∷ 200 ∷ []; ttl = pos 64 }

abbrev protect : Action
protect = combined (cons (replace 300) (cons (push 17) nil))

protect_runs :
    apply protect (mpls labelled) []
    ≡ ok (
      mpls (record labelled { label_stack = 100 ∷ 300 ∷ 17 ∷ [] }),
      swapped 200 300 ∷ pushed 17 ∷ [],
    )
unfolding apply pop_last
protect_runs = refl

swap_runs :
    apply (replace 300) (mpls labelled) []
    ≡ ok (mpls (record labelled { label_stack = 100 ∷ 300 ∷ [] }), swapped 200 300 ∷ [])
unfolding apply pop_last
swap_runs = refl

apply_carries_example :
    (inner (mpls (record labelled { label_stack = 100 ∷ 300 ∷ 17 ∷ [] })) ≡ some packet)
    × (3 + pops protect ≡ 2 + pushes protect)
apply_carries_example = apply_carries protect (mpls labelled) [] protect_runs
