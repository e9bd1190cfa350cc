-- ===== src/Mpls/Stack.antt =====
-- What the operations do to the label stack, and how they undo one another.
use router_sim.Base.{
  ℕ, ◌≡◌, refl, ◌≢◌, List, [], ◌∷◌, ◌++◌, some, arith, List-cases, Option-cases, inl, inr,
}
use router_sim.Base.Outcome.{ok}
use router_sim.Mpls.{
  IpPacket, MplsPacket, Pdu, ip, mpls, replace, push, pop, combined, nil, cons, pushed, popped, Log,
  pop_last, unwrap, apply, apply_all,
}

pub pop_last-append : (xs : List ℕ) (x : ℕ) → pop_last (xs ++ x ∷ []) ≡ some (xs, x)
unfolding pop_last
pop_last-append [] x = refl
pop_last-append (y ∷ []) x = refl
pop_last-append (y ∷ z ∷ xs) x = rw (pop_last-append (z ∷ xs) x, pop_last)

pub unwrap-mpls : (m : MplsPacket) → m.label_stack ≢ [] → unwrap m ≡ mpls m
unfolding unwrap
unwrap-mpls m h = elim (List-cases m.label_stack) [ inl e ↦ absurd (h e) | inr (x, rest, e) ↦ rw e ]

append-ne-nil : (xs : List ℕ) (x : ℕ) → xs ++ x ∷ [] ≢ []
append-ne-nil [] x h = cc
append-ne-nil (y ∷ xs) x h = cc

-- Popping what was just pushed gives back the packet, an MPLS packet only if it had a label.
pub pop-push :
    (l : ℕ) (p : IpPacket) (m : MplsPacket) (log : Log)
    → (apply_all (cons (push l) (cons pop nil)) (ip p) log
        ≡ ok (ip p, (log ++ pushed l ∷ []) ++ popped l ∷ []))
      × (m.label_stack ≢ []
          → apply_all (cons (push l) (cons pop nil)) (mpls m) log
            ≡ ok (mpls m, (log ++ pushed l ∷ []) ++ popped l ∷ []))
unfolding apply pop_last
pop-push l p m log = (refl, λ h. rw (pop_last-append m.label_stack l, unwrap-mpls m h) refl)

-- The stack that the top of the stack was swapped in, protected by a bypass label, comes out of the
-- bypass as the swap alone would have left it.
pub bypass_transparent :
    (l b : ℕ) (m : MplsPacket) (log : Log) {q : Pdu} {log' : Log}
    → apply (replace l) (mpls m) log ≡ ok (q, log')
    → apply_all (cons (combined (cons (replace l) (cons (push b) nil))) (cons pop nil)) (mpls m) log
      ≡ ok (q, (log' ++ pushed b ∷ []) ++ popped b ∷ [])
unfolding apply
bypass_transparent l b m log {q} {log'} h = elim (Option-cases (pop_last m.label_stack)) [
  | inl e ↦ absurd (ground (arith, h, e))
  | inr ((r, old), e) ↦
      let swap = rw e at h in
      rw (e, pop_last-append (r ++ l ∷ []) b)
        (rw (unwrap-mpls (record m { label_stack = r ++ l ∷ [] }) (append-ne-nil r l)) (cc swap))
]
