-- ===== src/Isis/Adjacency/Heard.antt =====
-- routersim/isis/process.py: hellos that come in and show that this system was heard bring the
-- adjacency up.
use router_sim.Base.{ℕ, ◌≡◌, refl, ◌⊎◌, inl, inr, [], ◌∷◌, Option, none, some, true, nat_eq, subst}
use router_sim.Base.Outcome.{ok}
use router_sim.Isis.{
  NeighborState, new, initializing, adjacent, down, p2p_adjacency, area_address, ip_address,
}
use router_sim.Isis.Update.{Process}
use router_sim.Isis.Adjacency.{Hello, process_hello}
use router_sim.Isis.Adjacency.End.{IsEnd, react, heard}
use router_sim.Isis.Adjacency.Hearing.{process_hello-IsEnd}

-- the hello of system `k`, which has system `me` in the state `st`
abbrev pub hello_from : (k me area a : ℕ) → NeighborState → Hello
hello_from k me area a st = record {
  source_address = k;
  tlvs = area_address area ∷ ip_address a ∷ p2p_adjacency me st ∷ [];
}

-- The other side heard this one.
abbrev pub Hears : NeighborState → Type 0
Hears st = (st ≡ initializing) ⊎ (st ≡ adjacent)

Hears-heard : (st : NeighborState) → Hears st → heard (some st) ≡ true
Hears-heard st (inl at) = rw at refl
Hears-heard st (inr at) = rw at refl

react_twice : (q : Option NeighborState) → react true (some (react true q)) ≡ adjacent
react_twice none = refl
react_twice (some new) = refl
react_twice (some initializing) = refl
react_twice (some adjacent) = refl
react_twice (some down) = refl

-- Whatever the state in which a system that is ready on an interface has its one neighbour there, an
-- unknown neighbour included: two hellos that come in from that neighbour and list this system as
-- initializing or up are handled in turn without an exception, and then the neighbour is up.
pub process_hello-ends :
    (me i k area a b : ℕ) (p q : NeighborState) (st : Option NeighborState) (s : Process)
    → Hears p
    → Hears q
    → IsEnd me i k st s
    → (t u : Process) × (process_hello i (hello_from k me area a p) s ≡ ok t)
      × (process_hello i (hello_from k me area b q) t ≡ ok u)
      × IsEnd me i k (some adjacent) u
process_hello-ends me i k area a b p q st s hears_p hears_q e =
    let (t, first, e₁) = process_hello-IsEnd me i k area a (some p) st s e in
    let (u, second, e₂) = process_hello-IsEnd me i k area b (some q) _ t e₁ in
    let now : react (heard (some q)) (some (react (heard (some p)) st)) ≡ adjacent =
      rw (Hears-heard p hears_p, Hears-heard q hears_q) (react_twice st) in
    (t, u, first, second, subst (λ z. IsEnd me i k (some z) u) now e₂)
