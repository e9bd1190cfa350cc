-- ===== src/Isis/Adjacency/End.antt =====
-- One end of a link in routersim/isis/process.py, as it hears hellos.
use router_sim.Base.{
  ℕ, ◌≡◌, refl, sym, ap, ◌∙◌, Bool, true, false, List, [], ◌∷◌, Option, none, some, nat_eq, Dict,
  get, set, get-set, has-set, beq_refl, arith, In, inl, inr, Option-cases, subst,
}
use router_sim.Isis.{NeighborState, new, initializing, adjacent, Tlv, p2p_adjacency}
use router_sim.Isis.Update.{Neighbor, Process}
use router_sim.Isis.Local.Kept.{IsReady}
use router_sim.Isis.Adjacency.{new_neighbor, put_neighbor, neighbor_of, has_heard}

-- The adjacencies of an interface with at most one neighbour.
abbrev pub alone : ℕ → Option Neighbor → Dict ℕ Neighbor
alone k none = []
alone k (some n) = (k, n) ∷ []

abbrev pub status : Option Neighbor → Option NeighborState
status none = none
status (some n) = some n.state

-- System `me` is ready on interface `i` and has there no neighbour but `k`, in the state `st`.
pub record IsEnd (me i k : ℕ) (st : Option NeighborState) (s : Process) : Type 0 where
  pub own : s.system_id ≡ me
  pub ready : IsReady i s
  pub neighbor : Option Neighbor
  pub adjacencies : get s.adjacencies i ≡ some (alone k neighbor)
  pub state : status neighbor ≡ st

-- the state after a hello came in that has the other side's state
abbrev pub react : Bool → Option NeighborState → NeighborState
react true none = initializing
react true (some new) = initializing
react true (some st) = adjacent
react false none = new
react false (some st) = st

abbrev pub heard : Option NeighborState → Bool
heard none = false
heard (some st) = has_heard st

-- the adjacency TLVs of a hello to `k`
abbrev pub says : ℕ → Option NeighborState → List Tlv
says k none = []
says k (some st) = p2p_adjacency k st ∷ []

-- Only the adjacencies, the id and the interfaces count.
IsEnd-set :
    (me i k : ℕ) (st : Option NeighborState) (p : Option Neighbor) (s t : Process)
    → t.system_id ≡ s.system_id
    → t.interfaces ≡ s.interfaces
    → t.adjacencies ≡ set s.adjacencies i (alone k p)
    → IsEnd me i k st s
    → IsEnd me i k (status p) t
IsEnd-set me i k st p s t own faces table e = record {
  own = own ∙ e.own;
  ready = record {
    loopback_enabled = rw faces e.ready.loopback_enabled;
    enabled = λ j y at. rw table (
        ground (
          arith,
          has-set s.adjacencies i j (alone k p),
          e.ready.enabled j y (subst (λ m. In (j, y) m) faces at),
        ));
    up = λ y at. e.ready.up y (subst (λ m. In (i, y) m) faces at);
  };
  neighbor = p;
  adjacencies = rw (table, get-set, beq_refl i) refl;
  state = refl;
}

set-alone : (k : ℕ) (o : Option Neighbor) (n : Neighbor) → set (alone k o) k n ≡ alone k (some n)
unfolding set
set-alone k none n = refl
set-alone k (some m) n = rw (beq_refl k) refl

adjacencies-put_neighbor :
    (i k : ℕ) (o : Option Neighbor) (n : Neighbor) (s : Process)
    → get s.adjacencies i ≡ some (alone k o)
    → (put_neighbor i k n s).adjacencies ≡ set s.adjacencies i (alone k (some n))
unfolding put_neighbor
adjacencies-put_neighbor i k o n s at = rw (put_neighbor, at, set-alone k o n) refl

kept-put_neighbor :
    (i k : ℕ) (n : Neighbor) (s : Process)
    → ((put_neighbor i k n s).system_id ≡ s.system_id)
      × ((put_neighbor i k n s).interfaces ≡ s.interfaces)
unfolding put_neighbor
kept-put_neighbor i k n s = ground arith

-- A change to the one neighbour.
pub put_neighbor-IsEnd :
    (me i k : ℕ) (st : Option NeighborState) (n : Neighbor) (s : Process)
    → IsEnd me i k st s
    → IsEnd me i k (some n.state) (put_neighbor i k n s)
put_neighbor-IsEnd me i k st n s e =
    let (own, faces) = kept-put_neighbor i k n s in
    IsEnd-set me i k st (some n) s (put_neighbor i k n s) own faces
      (adjacencies-put_neighbor i k e.neighbor n s e.adjacencies) e

-- the state of the neighbour whose hello comes in
abbrev pub known : Option NeighborState → NeighborState
known none = new
known (some st) = st

pub neighbor_of-IsEnd :
    (me i k : ℕ) (st : Option NeighborState) (s : Process)
    → IsEnd me i k st s
    → (n : Neighbor) × (t : Process) × (neighbor_of i k s ≡ some (n, t))
      × (n.state ≡ known st)
      × IsEnd me i k (some n.state) t
unfolding neighbor_of get
neighbor_of-IsEnd me i k st s e = elim (Option-cases e.neighbor) [
  | inl alone_here ↦
      let at : get s.adjacencies i ≡ some [] = rw alone_here at e.adjacencies in
      let (own, faces) = kept-put_neighbor i k new_neighbor s in
      (
        new_neighbor,
        record (put_neighbor i k new_neighbor s) { neighbors = set s.neighbors k i },
        rw (neighbor_of, at) refl,
        ap known (sym (ap status alone_here) ∙ e.state),
        IsEnd-set me i k st (some new_neighbor) s _ own faces
            (adjacencies-put_neighbor i k none new_neighbor s at) e,
      )
  | inr (n, there) ↦
      let at : get s.adjacencies i ≡ some ((k, n) ∷ []) = rw there at e.adjacencies in
      let now : some n.state ≡ st = sym (ap status there) ∙ e.state in
      (
        n,
        s,
        rw (neighbor_of, at, beq_refl k) refl,
        ap known now,
        subst (λ q. IsEnd me i k q s) (sym now) e,
      )
]
