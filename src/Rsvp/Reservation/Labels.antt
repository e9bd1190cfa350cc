-- ===== src/Rsvp/Reservation/Labels.antt =====
-- The labels that `_process_resv` of routersim/rsvp/process.py gives out.
use router_sim.Base.{
  ℕ, ◌+◌, ◌<◌, ◌⊎◌, ◌≡◌, ◌≢◌, refl, sym, ap, ◌∙◌, Bool, true, false, [], ◌∷◌, Option, none, some,
  if◌then◌else◌, ◌==◌, nat_eq, get, set, has, get-set, has-set, has-get, arith, Bool-cases,
  Option-cases, inl, inr,
}
use router_sim.Base.Outcome.{Ended, ok, err, Outcome-err, raised, attribute_error}
use router_sim.Net.{net_eq}
use router_sim.Mpls.{push}
use router_sim.Routing.{Route, Table, Bypass, add_route}
use router_sim.Rsvp.Reservation.{
  PathState, Resv, RsvpProcess, find_path, address_ip, rsvp_route, protect_table, bypass_of,
  reserve_ingress, reserve_transit, label_action, owns_address, queue_bypass, forward_resv, reserve,
  way_back, process_resv,
}

-- The labels in the `mpls` table lie below the one that comes next.
abbrev pub IsLabelled : RsvpProcess → Type 0
IsLabelled s = (l : ℕ) → has s.routing.mpls_table l ≡ true → l < s.current_label

-- The route that a router on the way adds.
abbrev pub transit_route : ℕ → Resv → RsvpProcess → Route ℕ
transit_route i r s =
    rsvp_route s.current_label i r.hop (label_action r.label) 7 (bypass_of r.hop s.path_state none)

-- Both give the same labels, and the same label next.
abbrev SameLabels : RsvpProcess → RsvpProcess → Type 0
SameLabels s t =
    (t.current_label ≡ s.current_label)
    × ((l : ℕ) → has t.routing.mpls_table l ≡ has s.routing.mpls_table l)

queue_bypass-same :
    (b : Bool) (hop : ℕ) (s : RsvpProcess)
    → ((queue_bypass b hop s).0.current_label ≡ s.current_label)
      × ((queue_bypass b hop s).0.routing ≡ s.routing)
unfolding queue_bypass
queue_bypass-same false hop s = (refl, refl)
queue_bypass-same true hop s = elim (Outcome-err (owns_address hop s.interfaces)) [
  | inr (e, raises) ↦ rw (queue_bypass, raises) (refl, refl)
  | inl (own, asked) ↦ elim (Bool-cases own) [
    | inl mine ↦ rw (queue_bypass, asked, mine) (refl, refl)
    | inr other ↦ rw (queue_bypass, asked, other) (refl, refl)
  ]
]

has-protect_table :
    (a : Option ℕ) (b : Bypass) (t : Table ℕ) (l : ℕ) → has (protect_table a b t) l ≡ has t l
unfolding protect_table has
has-protect_table a b [] l = refl
has-protect_table a b ((p, rs) ∷ t) l = ground (arith, has-protect_table a b t l)

reserve_ingress-SameLabels :
    (i : ℕ) (r : Resv) (k : ℕ) (p : PathState) (s : RsvpProcess)
    → SameLabels s (reserve_ingress i r k p s)
unfolding reserve_ingress
reserve_ingress-SameLabels i r k p s = elim (Bool-cases p.is_standard) [
  | inl standard ↦ rw (standard, reserve_ingress) (refl, λ l. refl)
  | inr around ↦
      rw (around, reserve_ingress)
        (
          refl,
          λ l.
              has-protect_table p.bypassed (record { interface = i; action = push r.label })
                s.routing.mpls_table l,
        )
]

unlabelled : (s : RsvpProcess) → IsLabelled s → get s.routing.mpls_table s.current_label ≡ none
unlabelled s w = elim (has-get s.routing.mpls_table s.current_label) [
  | inl (there, _) ↦ absurd (omega (arith, w s.current_label there))
  | inr (_, missing) ↦ missing
]

-- A router on the way adds its route under a label that the table lacks.
reserve_transit-table :
    (i : ℕ) (r : Resv) (s : RsvpProcess)
    → IsLabelled s
    → (reserve_transit i r s).routing.mpls_table
      ≡ set s.routing.mpls_table s.current_label (transit_route i r s ∷ [])
unfolding reserve_transit add_route rsvp_route
reserve_transit-table i r s w = rw (add_route, unlabelled s w) refl

reserve_transit-IsLabelled :
    (i : ℕ) (r : Resv) (s : RsvpProcess) → IsLabelled s → IsLabelled (reserve_transit i r s)
unfolding reserve_transit
reserve_transit-IsLabelled i r s w l h =
    let there : has (set s.routing.mpls_table s.current_label (transit_route i r s ∷ [])) l ≡ true =
      ap (λ t. has t l) (sym (reserve_transit-table i r s w)) ∙ h in
    ground
      (arith, there, has-set s.routing.mpls_table s.current_label l (transit_route i r s ∷ []), w l)

same-IsLabelled : (s t : RsvpProcess) → SameLabels s t → IsLabelled s → IsLabelled t
same-IsLabelled s t (label, table) w l h = ground (arith, label, w l (sym (table l) ∙ h))

-- What a reservation does to the labels: it gives none out; or this router is not where the path began,
-- and the table has the route of the next label, which it lacked, and is as it was at the others.
abbrev pub Labelled : ℕ → Resv → RsvpProcess → RsvpProcess × Ended → Type 0
Labelled i r s (t, o) =
    SameLabels s t
    ⊎ ((r.filter_address ≢ s.source_ip)
        × (t.current_label ≡ s.current_label + 10)
        × (get s.routing.mpls_table s.current_label ≡ none)
        × ((b : Option Bypass) × (get t.routing.mpls_table s.current_label
              ≡ some (rsvp_route s.current_label i r.hop (label_action r.label) 7 b ∷ [])))
        × ((l : ℕ) → l ≢ s.current_label → get t.routing.mpls_table l ≡ get s.routing.mpls_table l)
        × (o ≡ err attribute_error))

abbrev Result : ℕ → Resv → RsvpProcess → RsvpProcess × Ended → Type 0
Result i r s x = IsLabelled x.0 × Labelled i r s x

same-Result :
    (i : ℕ) (r : Resv) (s : RsvpProcess) (x : RsvpProcess × Ended)
    → IsLabelled s
    → SameLabels s x.0
    → Result i r s x
same-Result i r s x w same = (same-IsLabelled s x.0 same w, inl same)

transit-Result :
    (i : ℕ) (r : Resv) (s : RsvpProcess)
    → IsLabelled s
    → r.filter_address ≢ s.source_ip
    → Result i r s (reserve_transit i r s, err attribute_error)
unfolding reserve_transit
transit-Result i r s w other =
    let table = reserve_transit-table i r s w in
    let new_table = set s.routing.mpls_table s.current_label (transit_route i r s ∷ []) in
    (
      reserve_transit-IsLabelled i r s w,
      inr (
        other,
        refl,
        unlabelled s w,
        (
          bypass_of r.hop s.path_state none,
          ap (λ x. get x s.current_label) table
              ∙ ground (
                arith,
                get-set s.routing.mpls_table s.current_label s.current_label
                    (transit_route i r s ∷ []),
              ),
        ),
        λ l away.
            ap (λ x. get x l) table
            ∙ ground (
              arith,
              get-set s.routing.mpls_table s.current_label l (transit_route i r s ∷ []),
              away,
            ),
        refl,
      ),
    )

ingress-Result :
    (i : ℕ) (r : Resv) (k : ℕ) (p : PathState) (s : RsvpProcess) (b : Bool) (hop : ℕ)
    → IsLabelled s
    → Result i r s (queue_bypass b hop (reserve_ingress i r k p s))
ingress-Result i r k p s b hop w =
    let u = reserve_ingress i r k p s in
    let (label, routing) = queue_bypass-same b hop u in
    let (first, table) = reserve_ingress-SameLabels i r k p s in
    same-Result i r s (queue_bypass b hop u) w
      (label ∙ first, λ l. ap (λ x. has x.mpls_table l) routing ∙ table l)

reserve-Result :
    (i : ℕ) (r : Resv) (k : ℕ) (p : PathState) (rsb_hop : ℕ) (back : Option ℕ) (our_ip here : ℕ)
    (s : RsvpProcess)
    → IsLabelled s
    → Result i r s (reserve i r k p rsb_hop back our_ip here s)
unfolding reserve forward_resv
reserve-Result i r k p rsb_hop back our_ip here s w =
    elim (Bool-cases (r.filter_address == s.source_ip)) [
      | inl mine ↦ rw (reserve, mine) (ingress-Result i r k p s p.local_repair rsb_hop w)
      | inr other ↦ elim (Bool-cases (our_ip == p.hop)) [
        | inl looped ↦
            rw (reserve, other, looped) (same-Result i r s (s, err raised) w (refl, λ l. refl))
        | inr sent ↦
            rw (reserve, other, sent) (transit-Result i r s w (λ same. ground (arith, other, same)))
      ]
    ]

-- In a process whose labels lie below the next one, they do so after a reservation was processed,
-- an exception or not. Either no label was given out, and the `mpls` table has the labels that it had; or the
-- path began elsewhere, and the label that comes next was given out, which the table lacked, and under which
-- it now has one route, over the interface and to the router that the reservation came from, which swaps the
-- top label for the one that came or pops at the implicit null label, the other labels' routes as they
-- were. In the second case the function ends in an exception: the label is told to nobody.
pub process_resv-IsLabelled :
    (i : ℕ) (r : Resv) (s : RsvpProcess)
    → IsLabelled s
    → IsLabelled (process_resv i r s).0 × Labelled i r s (process_resv i r s)
unfolding process_resv
process_resv-IsLabelled i r s w =
    let known = if has s.resv_state r.key then s.resv_state else set s.resv_state r.key r.hop in
    elim (Option-cases (find_path r s.path_state)) [
      | inl missing ↦
          rw (missing, process_resv)
            (same-Result i r s (record s { resv_state = known }, ok tt) w (refl, λ l. refl))
      | inr ((k, p), at) ↦ elim (Outcome-err (address_ip (some i) s)) [
        | inr (e, raises) ↦
            rw (at, raises, process_resv)
              (same-Result i r s (record s { resv_state = known }, err e) w (refl, λ l. refl))
        | inl (here, reads) ↦
            let q = record p { label = some r.label } in
            let u = record s { resv_state = known; path_state = set s.path_state k q } in
            elim (Outcome-err (way_back r q known s)) [
              | inr (e, raises) ↦
                  rw (at, reads, raises, process_resv)
                    (same-Result i r s (u, err e) w (refl, λ l. refl))
              | inl ((back, our_ip, rsb_hop), found) ↦
                  rw (at, reads, found, process_resv)
                    (reserve-Result i r k q rsb_hop back our_ip here u w)
            ]
      ]
    ]
