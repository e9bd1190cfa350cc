-- ===== src/Mpls/Carried.antt =====
-- What every operation, however combined, does to the carried packet and to the stack's depth.
use router_sim.Base.{
  ℕ, suc, ◌+◌, ◌≡◌, List, [], ◌∷◌, some, arith, length, length-append, Option, none, refl,
  List-cases, Option-cases, inl, inr,
}
use router_sim.Base.Outcome.{ok, >>=-eq-ok}
use router_sim.Mpls.{
  IpPacket, MplsPacket, Pdu, ip, mpls, nothing, carried_pdu, Action, Actions, forward, control,
  reject, no_op, replace, push, pop, combined, nil, cons, Log, pop_last, replace_label, push_label,
  unwrap, pop_label, apply, apply_all,
}

-- The IP packet that a packet is or carries, if any, and the number of its labels.
abbrev pub inner : Pdu → Option IpPacket
inner (ip p) = some p
inner nothing = none
inner (mpls m) = m.encapsulated

abbrev pub depth : Pdu → ℕ
depth (ip p) = 0
depth nothing = 0
depth (mpls m) = length m.label_stack

-- How many labels an action pushes and pops.
abbrev mutual
  pub pushes : Action → ℕ
  pushes forward = 0
  pushes control = 0
  pushes reject = 0
  pushes no_op = 0
  pushes (replace l) = 0
  pushes (push l) = 1
  pushes pop = 0
  pushes (combined actions) = pushes_all actions

  pub pushes_all : Actions → ℕ
  pushes_all nil = 0
  pushes_all (cons a rest) = pushes a + pushes_all rest

abbrev mutual
  pub pops : Action → ℕ
  pops forward = 0
  pops control = 0
  pops reject = 0
  pops no_op = 0
  pops (replace l) = 0
  pops (push l) = 0
  pops pop = 1
  pops (combined actions) = pops_all actions

  pub pops_all : Actions → ℕ
  pops_all nil = 0
  pops_all (cons a rest) = pops a + pops_all rest

length-pop_last : (s r : List ℕ) (x : ℕ) → pop_last s ≡ some (r, x) → length s ≡ suc (length r)
unfolding pop_last
length-pop_last [] r x h = cc
length-pop_last (y ∷ []) r x h = ground arith
length-pop_last (y ∷ z ∷ s) r x h = elim (Option-cases (pop_last (z ∷ s))) [
  | inl e ↦ absurd (ground (arith, e, h))
  | inr ((r', x'), e) ↦ ground (arith, e, h, length-pop_last (z ∷ s) r' x' e)
]

replace-Keeps :
    (l : ℕ) (p : Pdu) (log : Log) {q : Pdu} {log' : Log}
    → replace_label l p log ≡ ok (q, log')
    → (inner q ≡ inner p) × (depth q ≡ depth p)
unfolding replace_label
replace-Keeps l (ip p) log h = cc
replace-Keeps l nothing log h = cc
replace-Keeps l (mpls m) log {q} {log'} h = elim (Option-cases (pop_last m.label_stack)) [
  | inl e ↦ absurd (ground (arith, e, h))
  | inr ((r, x), e) ↦
      ground (arith, rw e at h, length-pop_last m.label_stack r x e, length-append r (l ∷ []))
]

push-Keeps :
    (l : ℕ) (p : Pdu) (log : Log) {q : Pdu} {log' : Log}
    → push_label l p log ≡ ok (q, log')
    → (inner q ≡ inner p) × (depth q ≡ depth p + 1)
unfolding push_label
push-Keeps l (ip p) log h = ground arith
push-Keeps l nothing log h = cc
push-Keeps l (mpls m) log h = ground (arith, length-append m.label_stack (l ∷ []))

carried_pdu-Keeps :
    (o : Option IpPacket) → (inner (carried_pdu o) ≡ o) × (depth (carried_pdu o) ≡ 0)
carried_pdu-Keeps none = (refl, refl)
carried_pdu-Keeps (some p) = (refl, refl)

unwrap-Keeps :
    (m : MplsPacket)
    → (inner (unwrap m) ≡ m.encapsulated) × (depth (unwrap m) ≡ length m.label_stack)
unfolding unwrap
unwrap-Keeps m = elim (List-cases m.label_stack) [
  | inl empty ↦ rw (unwrap, empty) (carried_pdu-Keeps m.encapsulated)
  | inr (l, ls, more) ↦ rw (unwrap, more) (refl, rw more refl)
]

pop-Keeps :
    (p : Pdu) (log : Log) {q : Pdu} {log' : Log}
    → pop_label p log ≡ ok (q, log')
    → (inner q ≡ inner p) × (depth q + 1 ≡ depth p)
unfolding pop_label
pop-Keeps (ip p) log h = cc
pop-Keeps nothing log h = cc
pop-Keeps (mpls m) log {q} {log'} h = elim (Option-cases (pop_last m.label_stack)) [
  | inl e ↦ absurd (ground (arith, e, h))
  | inr ((r, x), e) ↦ ground (
    arith,
    rw e at h,
    length-pop_last m.label_stack r x e,
    unwrap-Keeps (record m { label_stack = r }),
  )
]

mutual
  unfolding apply

  apply_keeps :
      (a : Action) (p : Pdu) (log : Log) {q : Pdu} {log' : Log}
      → apply a p log ≡ ok (q, log')
      → (inner q ≡ inner p) × (depth q + pops a ≡ depth p + pushes a)
  apply_keeps forward p log h = cc
  apply_keeps control p log h = cc
  apply_keeps reject p log h = cc
  apply_keeps no_op p log h = ground arith
  apply_keeps (replace l) p log h = ground (arith, replace-Keeps l p log h)
  apply_keeps (push l) p log h = ground (arith, push-Keeps l p log h)
  apply_keeps pop p log h = ground (arith, pop-Keeps p log h)
  apply_keeps (combined actions) p log h = apply_all_keeps actions p log h

  apply_all_keeps :
      (actions : Actions) (p : Pdu) (log : Log) {q : Pdu} {log' : Log}
      → apply_all actions p log ≡ ok (q, log')
      → (inner q ≡ inner p) × (depth q + pops_all actions ≡ depth p + pushes_all actions)
  apply_all_keeps nil p log h = ground arith
  apply_all_keeps (cons a rest) p log {q} {log'} h =
      let ((q', log''), e, r) = >>=-eq-ok (apply a p log) _ h in
      ground (arith, apply_keeps a p log e, apply_all_keeps rest q' log'' r)

-- Whatever an action does without an exception, what is carried, an IP packet or nothing, stays as it
-- was, and the stack grows by the labels that it pushes less those that it pops.
pub apply_carries :
    (a : Action) (p : Pdu) (log : Log) {q : Pdu} {log' : Log}
    → apply a p log ≡ ok (q, log')
    → (inner q ≡ inner p) × (depth q + pops a ≡ depth p + pushes a)
apply_carries a p log h = apply_keeps a p log h
