-- ===== src/Isis/Adjacency/Greeting.antt =====
-- routersim/isis/process.py: what becomes of the hellos that `__send_hello` should send.
use router_sim.Base.{
  ℕ, ◌≡◌, refl, ap, ◌∙◌, true, false, ◌&&◌, [], ◌∷◌, ◌⊎◌, inl, inr, In, Dict, get, nat_eq,
  Bool-cases, Option-cases, arith,
}
use router_sim.Base.Outcome.{Ended, ok, err, Fault, key_error, name_error}
use router_sim.Isis.Update.{Interface, Process}
use router_sim.Isis.Local.{loopback}
use router_sim.Isis.Adjacency.{greet, send_hello}

-- A hello is due on the interface.
abbrev pub IsDue : Interface → Type 0
IsDue x = (x.active ≡ true) × (x.is_up ≡ true) × (x.point_to_point ≡ true)

greet-due :
    (i : ℕ) (x : Interface) (s : Process)
    → ((x.active && (x.is_up && x.point_to_point)) ≡ true)
    → (e : Fault) × ((greet i x s).1 ≡ err e)
unfolding greet
greet-due i x s due = elim (Option-cases (get s.interfaces loopback)) [
  | inl never ↦ (key_error, rw (greet, due, never) refl)
  | inr (lo, there) ↦ elim (Option-cases (get s.adjacencies i)) [
    | inl off ↦ (key_error, rw (greet, due, there, off) refl)
    | inr (ns, on) ↦ (name_error, rw (greet, due, there, on) refl)
  ]
]

greet-idle :
    (i : ℕ) (x : Interface) (s : Process)
    → ((x.active && (x.is_up && x.point_to_point)) ≡ false)
    → greet i x s ≡ (s, ok tt)
unfolding greet
greet-idle i x s idle = rw (greet, idle) refl

IsDue_lem : (x : Interface) → (x.active && (x.is_up && x.point_to_point)) ≡ true → IsDue x
IsDue_lem x due = ground (arith, due)

send_hello-idle :
    (i : ℕ) (x : Interface) (m : Dict ℕ Interface) (s : Process)
    → greet i x s ≡ (s, ok tt)
    → send_hello ((i, x) ∷ m) s ≡ send_hello m s
unfolding send_hello
send_hello-idle i x m s idle =
    ap (λ f. elim f.1 as (λ y. Process × Ended) [ ok u ↦ send_hello m f.0 | err e ↦ (f.0, err e) ])
      idle

-- No hello is ever sent. Either none is due, on an interface that is active, up and point-to-point,
-- and `__send_hello` ends without a change; or one is due and it ends in an exception.
pub send_hello-raises :
    (m : Dict ℕ Interface) (s : Process)
    → (((i : ℕ) (x : Interface) → In (i, x) m → ¬ IsDue x) × (send_hello m s ≡ (s, ok tt)))
      ⊎ ((i : ℕ) × (x : Interface) × In (i, x) m
          × IsDue x
          × (e : Fault) × ((send_hello m s).1 ≡ err e))
unfolding send_hello
send_hello-raises [] s = inl (λ i x at. absurd at, refl)
send_hello-raises ((i, x) ∷ m) s = elim (Bool-cases (x.active && (x.is_up && x.point_to_point))) [
  | inl due ↦
      let (e, raises) = greet-due i x s due in
      inr (i, x, inl refl, IsDue_lem x due, e, rw (send_hello, raises) refl)
  | inr idle ↦ elim (send_hello-raises m s) [
    | inl (none_due, ends) ↦ inl (
      λ j y at. elim at [ inl here ↦ ground (arith, idle, here) | inr there ↦ none_due j y there ],
      send_hello-idle i x m s (greet-idle i x s idle) ∙ ends,
    )
    | inr (j, y, at, due, e, raises) ↦ inr (
      j,
      y,
      inr at,
      due,
      e,
      ap (λ y. y.1) (send_hello-idle i x m s (greet-idle i x s idle)) ∙ raises,
    )
  ]
]
