-- ===== src/Isis/Adjacency/Hearing.antt =====
-- One end of a link in routersim/isis/process.py, as it hears hellos.
use router_sim.Base.{
  ℕ, ◌≡◌, refl, sym, ap, ◌∙◌, Bool, true, false, [], ◌∷◌, Option, none, some, ◌==◌, nat_eq, set,
  arith, In, inl, inr, ◌⊎◌, ◌++◌, Bool-cases, subst,
}
use router_sim.Base.Outcome.{ok, ◌>>=◌}
use router_sim.Isis.{NeighborState, new, initializing, adjacent, down, area_address, ip_address}
use router_sim.Isis.Update.{Neighbor, Process, adj_change}
use router_sim.Isis.Local.{refresh_local}
use router_sim.Isis.Local.Kept.{refresh_local-IsReady}
use router_sim.Isis.Adjacency.{
  put_neighbor, last_address, has_heard, advance, hear_tlvs, process_hello,
}
use router_sim.Isis.Adjacency.End.{
  IsEnd, react, heard, says, put_neighbor-IsEnd, known, neighbor_of-IsEnd,
}

IsEnd-refresh_local :
    (me i k : ℕ) (st : Option NeighborState) (s : Process)
    → IsEnd me i k st s
    → (u : Process) × (refresh_local s ≡ ok u) × IsEnd me i k st u
IsEnd-refresh_local me i k st s e =
    let (u, ends, same, own, faces, area, ready) = refresh_local-IsReady i s e.ready in
    (
      u,
      ends,
      record {
        own = own ∙ e.own;
        ready = ready;
        neighbor = e.neighbor;
        adjacencies = same ∙ e.adjacencies;
        state = e.state;
      },
    )

-- what is not among the adjacencies, the id and the interfaces
IsEnd-other :
    (me i k : ℕ) (st : Option NeighborState) (s t : Process)
    → t.system_id ≡ s.system_id
    → t.interfaces ≡ s.interfaces
    → t.adjacencies ≡ s.adjacencies
    → IsEnd me i k st s
    → IsEnd me i k st t
IsEnd-other me i k st s t own faces table e = record {
  own = own ∙ e.own;
  ready = record {
    loopback_enabled = rw faces e.ready.loopback_enabled;
    enabled = λ j y at. rw table (e.ready.enabled j y (subst (λ m. In (j, y) m) faces at));
    up = λ y at. e.ready.up y (subst (λ m. In (i, y) m) faces at);
  };
  neighbor = e.neighbor;
  adjacencies = rw table e.adjacencies;
  state = e.state;
}

-- the process as a neighbour comes up, before its LSP is refreshed
abbrev coming_up : ℕ → ℕ → Neighbor → Process → Process
coming_up i k n s =
    let t = put_neighbor i k (record n { state = adjacent }) s in
    record t { neighbors = set t.neighbors k i; events = t.events ++ adj_change k adjacent ∷ [] }

advance_up :
    (i k : ℕ) (n : Neighbor) (s : Process)
    → (n.state ≡ initializing) ⊎ (n.state ≡ down)
    → advance i k n s
      ≡ (refresh_local (coming_up i k n s) >>= λ u. ok (record u { csnps = u.csnps ++ i ∷ [] }))
unfolding advance
advance_up i k n s (inl at) = rw (advance, at) refl
advance_up i k n s (inr at) = rw (advance, at) refl

raise_up :
    (me i k : ℕ) (q : NeighborState) (n : Neighbor) (s : Process)
    → (n.state ≡ initializing) ⊎ (n.state ≡ down)
    → IsEnd me i k (some q) s
    → (u : Process) × (advance i k n s ≡ ok u) × IsEnd me i k (some adjacent) u
raise_up me i k q n s at e =
    let (u, ends, up) = IsEnd-refresh_local me i k (some adjacent) (coming_up i k n s) (
      IsEnd-other me i k (some adjacent) (put_neighbor i k (record n { state = adjacent }) s)
        (coming_up i k n s) refl refl refl
        (put_neighbor-IsEnd me i k (some q) (record n { state = adjacent }) s e)) in
    (
      record u { csnps = u.csnps ++ i ∷ [] },
      advance_up i k n s at ∙ rw ends refl,
      IsEnd-other me i k (some adjacent) u _ refl refl refl up,
    )

-- An adjacency TLV with this system in a state that shows it was heard.
advance-IsEnd :
    (me i k : ℕ) (q : NeighborState) (n : Neighbor) (s : Process)
    → n.state ≡ q
    → IsEnd me i k (some q) s
    → (u : Process) × (advance i k n s ≡ ok u) × IsEnd me i k (some (react true (some q))) u
unfolding advance
advance-IsEnd me i k adjacent n s at e = (s, rw (advance, at) refl, e)
advance-IsEnd me i k new n s at e =
    let t = put_neighbor i k (record n { state = initializing }) s in
    (
      record t { events = t.events ++ adj_change k initializing ∷ [] },
      rw (advance, at) refl,
      IsEnd-other me i k (some initializing)
          (put_neighbor i k (record n { state = initializing }) s) _ refl refl refl
          (put_neighbor-IsEnd me i k (some new) (record n { state = initializing }) s e),
    )
advance-IsEnd me i k initializing n s at e = raise_up me i k initializing n s (inl at) e
advance-IsEnd me i k down n s at e = raise_up me i k down n s (inr at) e

hear_tlvs-IsEnd :
    (me i k : ℕ) (p : Option NeighborState) (q : NeighborState) (s : Process)
    → IsEnd me i k (some q) s
    → (u : Process) × (hear_tlvs i k (says me p) s ≡ ok u)
      × IsEnd me i k (some (react (heard p) (some q))) u
unfolding hear_tlvs
hear_tlvs-IsEnd me i k none q s e = (s, refl, e)
hear_tlvs-IsEnd me i k (some st) q s e =
    let mine : (me == s.system_id) ≡ true = ground (arith, e.own) in
    elim (Bool-cases (has_heard st)) [
      | inr deaf ↦ (
        s,
        rw (hear_tlvs, mine, deaf) refl,
        subst (λ b. IsEnd me i k (some (react b (some q))) s) (sym deaf) e,
      )
      | inl hears ↦
          let (n, t, found, now, e₁) = neighbor_of-IsEnd me i k (some q) s e in
          let (u, ends, e₂) =
            advance-IsEnd me i k q n t now (subst (λ st. IsEnd me i k (some st) t) now e₁) in
          (
            u,
            rw (hear_tlvs, mine, hears, found, ends) refl,
            subst (λ b. IsEnd me i k (some (react b (some q))) u) (sym hears) e₂,
          )
    ]

last_address-says :
    (k : ℕ) (p : Option NeighborState) (a : ℕ) → last_address (says k p) (some a) ≡ some a
unfolding last_address
last_address-says k none a = refl
last_address-says k (some st) a = refl

react_known : (b : Bool) (st : Option NeighborState) → react b (some (known st)) ≡ react b st
react_known true none = refl
react_known true (some new) = refl
react_known true (some initializing) = refl
react_known true (some adjacent) = refl
react_known true (some down) = refl
react_known false none = refl
react_known false (some st) = refl

pub process_hello-IsEnd :
    (me i k area a : ℕ) (p st : Option NeighborState) (s : Process)
    → IsEnd me i k st s
    → (u : Process) × (process_hello i
          (record { source_address = k; tlvs = area_address area ∷ ip_address a ∷ says me p })
          s
        ≡ ok u)
      × IsEnd me i k (some (react (heard p) st)) u
unfolding process_hello hear_tlvs
process_hello-IsEnd me i k area a p st s e =
    let (n, t, found, now, e₁) = neighbor_of-IsEnd me i k st s e in
    let m = record n { address = some a } in
    let (u, ends, e₂) =
      hear_tlvs-IsEnd me i k p n.state (put_neighbor i k m t)
        (put_neighbor-IsEnd me i k (some n.state) m t e₁) in
    (
      u,
      rw (process_hello, found, last_address-says me p a, ends) refl,
      subst (λ q. IsEnd me i k (some q) u)
          (ap (λ q. react (heard p) (some q)) now ∙ react_known (heard p) st) e₂,
    )
