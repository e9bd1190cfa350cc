-- ===== src/Events.antt =====
-- routersim/observers.py, `EventManager`: who is told of an event. Observers are numbers, and the types
-- of events are the values of `EventType`; 0 stands for the text `*`, which asks for all of them.
pub mod Listening
use router_sim.Base.{
  ℕ, Bool, true, false, List, [], ◌∷◌, ◌++◌, Option, none, some, if◌then◌else◌, ◌==◌, nat_eq, Dict,
  get, set,
}

abbrev pub Listeners : Type 0
Listeners = Dict ℕ (List ℕ)

abbrev pub star : ℕ
star = 0

-- The listeners of a type, none if the type has no entry.
unfoldable pub listeners_of : Listeners → ℕ → List ℕ
listeners_of m t = elim (get m t) [ none ↦ [] | some os ↦ os ]

-- `observe`: the observers in the order in which they are called
unfoldable pub observe : ℕ → Listeners → List ℕ
unfolding listeners_of
observe t m = listeners_of m star ++ listeners_of m t

unfoldable pub listen : ℕ → ℕ → Listeners → Listeners
unfolding listeners_of
listen t o m = set m t (listeners_of m t ++ o ∷ [])

-- the first that equals the observer goes
unfoldable pub remove_first : ℕ → List ℕ → List ℕ
remove_first o [] = []
remove_first o (x ∷ xs) = let rest = remove_first o xs in if x == o then xs else x ∷ rest

unfoldable pub stop_listening : ℕ → ℕ → Listeners → Listeners
unfolding remove_first
stop_listening t o m = elim (get m t) [ none ↦ m | some os ↦ set m t (remove_first o os) ]
