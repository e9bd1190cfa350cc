-- ===== src/Mpls.antt =====
-- routersim/mpls.py: label stack operations. A label is the number that the source writes as a
-- decimal text, and a stack is the source's list, whose top is at its end. An operation returns the
-- packet that it would have mutated, with the events that it observes added to the log.
pub mod Stack
pub mod Carried
use router_sim.Base.{
  ℕ, zero, suc, ◌≡◌, Bool, List, [], ◌∷◌, ◌++◌, Option, none, some, if◌then◌else◌, Hashable, ◌==◌,
  nat_eq, arith,
}
use router_sim.Base.Outcome.{Outcome, ok, err, or_raise, ◌>>=◌, attribute_error, index_error}

-- Python's integers. A time to live is one less after each router, and nothing stops it at 0.
pub data ℤ : Type 0 where
  pos : ℕ → ℤ
  negsuc : ℕ → ℤ

abbrev pub pred : ℤ → ℤ
pred (pos zero) = negsuc 0
pred (pos (suc n)) = pos n
pred (negsuc n) = negsuc (suc n)

-- What the program reads of scapy's `IP` packets: `alert` is the router alert option.
pub record IpPacket : Type 0 where
  pub dst : ℕ
  pub src : ℕ
  pub ttl : ℤ
  pub alert : Bool
  pub payload : ℕ

-- What an MPLS packet carries: nothing is `None`, which the constructor of the source gives it.
pub record MplsPacket : Type 0 where
  pub encapsulated : Option IpPacket
  pub label_stack : List ℕ
  pub ttl : ℤ

pub data Pdu : Type 0 where
  ip : IpPacket → Pdu
  mpls : MplsPacket → Pdu
  nothing : Pdu

-- The action of a route or of a forwarding entry: a text or a label stack operation.
mutual
  pub data Action : Type 0 where
    forward control reject : Action
    no_op : Action
    replace : ℕ → Action
    push : ℕ → Action
    pop : Action
    combined : Actions → Action

  pub data Actions : Type 0 where
    nil : Actions
    cons : Action → Actions → Actions

-- The observed events: labels swapped (old, new), pushed and popped.
pub data LabelEvent : Type 0 where
  swapped : ℕ → ℕ → LabelEvent
  pushed popped : ℕ → LabelEvent

abbrev pub Log : Type 0
Log = List LabelEvent

-- `list.pop()`: the list without its last element, and that element.
unfoldable pub pop_last : List ℕ → Option (List ℕ × ℕ)
pop_last [] = none
pop_last (x ∷ []) = some ([], x)
pop_last (x ∷ y ∷ xs) = elim (pop_last (y ∷ xs)) [ none ↦ none | some (r, l) ↦ some (x ∷ r, l) ]

unfoldable pub replace_label : ℕ → Pdu → Log → Outcome (Pdu × Log)
replace_label l (ip p) log = err attribute_error
replace_label l nothing log = err attribute_error
replace_label l (mpls p) log = do
  (rest, old) ← or_raise index_error (pop_last p.label_stack)
  ok (mpls (record p { label_stack = rest ++ l ∷ [] }), log ++ swapped old l ∷ [])

-- The packet that a push works on: an IP packet is first put into a new MPLS packet. `None` has no
-- time to live.
unfoldable pub as_mpls : Pdu → Outcome MplsPacket
as_mpls (ip p) = ok (record { encapsulated = some p; label_stack = []; ttl = p.ttl })
as_mpls (mpls p) = ok p
as_mpls nothing = err attribute_error

unfoldable pub push_label : ℕ → Pdu → Log → Outcome (Pdu × Log)
unfolding as_mpls
push_label l p log = do
  m ← as_mpls p
  ok (mpls (record m { label_stack = m.label_stack ++ l ∷ [] }), log ++ pushed l ∷ [])

abbrev pub carried_pdu : Option IpPacket → Pdu
carried_pdu none = nothing
carried_pdu (some p) = ip p

-- What a pop returns: with the stack empty, the carried packet.
unfoldable pub unwrap : MplsPacket → Pdu
unwrap m = elim m.label_stack [ [] ↦ carried_pdu m.encapsulated | _ ∷ _ ↦ mpls m ]

unfoldable pub pop_label : Pdu → Log → Outcome (Pdu × Log)
unfolding unwrap
pop_label (ip p) log = err attribute_error
pop_label nothing log = err attribute_error
pop_label (mpls p) log = do
  (rest, old) ← or_raise index_error (pop_last p.label_stack)
  ok (unwrap (record p { label_stack = rest }), log ++ popped old ∷ [])

-- `action.apply(pdu, router, event_manager)`. A text has no `apply`.
unfoldable mutual
  unfolding replace_label push_label pop_label

  pub apply : Action → Pdu → Log → Outcome (Pdu × Log)
  apply forward p log = err attribute_error
  apply control p log = err attribute_error
  apply reject p log = err attribute_error
  apply no_op p log = ok (p, log)
  apply (replace l) p log = replace_label l p log
  apply (push l) p log = push_label l p log
  apply pop p log = pop_label p log
  apply (combined actions) p log = apply_all actions p log

  -- the loop of `CombinedAction.apply`
  pub apply_all : Actions → Pdu → Log → Outcome (Pdu × Log)
  apply_all nil p log = ok (p, log)
  apply_all (cons a rest) p log = do (q, log') ← apply a p log; apply_all rest q log'
