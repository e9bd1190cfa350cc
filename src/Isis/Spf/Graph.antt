-- ===== src/Isis/Spf/Graph.antt =====
-- The graph that a link state database describes, and distances read from a dictionary.
use router_sim.Base.{
  ℕ, ◌+◌, ◌≡◌, Bool, false, ◌||◌, List, [], ◌∷◌, none, some, ◌==◌, nat_eq, Dict, get, In, arith,
}
use router_sim.Isis.{LinkStatePdu, ExtendedIsReachability, is_tlvs}
use router_sim.Isis.Spf.{Database, maxsize}

-- The LSP of `u` lists `v` as a neighbour at the metric `w`.
abbrev pub Edge : Database → ℕ → ℕ → ℕ → Type 0
Edge db u v w =
    (p : LinkStatePdu) × (get db u ≡ some p)
    × (n : ExtendedIsReachability) × In n (is_tlvs p.tlvs)
    × (n.system_id ≡ v)
    × (n.metric ≡ w)

-- The walks from `source`, with their lengths.
pub data Walk (db : Database) (source : ℕ) : ℕ → ℕ → Type 0 where
  here : Walk db source source 0
  step : {u v d w t : ℕ} → Walk db source u d → Edge db u v w → t ≡ d + w → Walk db source v t

-- A system that the run has no distance for stands at the distance of no path.
abbrev pub dist : Dict ℕ ℕ → ℕ → ℕ
dist sd v = elim (get sd v) [ none ↦ maxsize | some d ↦ d ]

-- Each LSP is stored under the id of the system that it describes.
abbrev pub IsKeyed : Database → Type 0
IsKeyed [] = Unit
IsKeyed ((k, p) ∷ m) = (p.source_address ≡ k) × IsKeyed m

pub keyed_source :
    (db : Database) (u : ℕ) (p : LinkStatePdu)
    → IsKeyed db
    → get db u ≡ some p
    → p.source_address ≡ u
unfolding get
keyed_source [] u p k g = absurd (cc g)
keyed_source ((j, q) ∷ m) u p k g = ground (arith, keyed_source m u p k.1)

abbrev pub mem : ℕ → List ℕ → Bool
mem v [] = false
mem v (q ∷ qs) = q == v || mem v qs
