-- ===== src/Links/Delivery.antt =====
-- Frames over a link of routersim/interface.py, whatever the order in which the scheduler runs tasks.
use router_sim.Base.{
  In-append, ℕ, ◌*◌, ◌≡◌, refl, sym, ◌∙◌, ap, ◌&&◌, List, [], ◌∷◌, ◌++◌, In, inl, inr, Bool-cases,
  subst, arith,
}
use router_sim.Isis.{ConnectionState}
use router_sim.Links.{
  Link, Physical, Side, one, two, opposite, Job, change, report, receive, endpoint, is_up,
  is_state_up, set_link, connect, send_frame, run,
}

-- One step: an endpoint sends, the link goes up or down, or a task of the queue runs.
pub data Step : Link → Link → Type 0 where
  sends : {c : Link} (s : Side) (f : ℕ) → Step c (send_frame s f c)
  goes : {c : Link} (st : ConnectionState) → Step c (set_link st c)
  runs :
      {c : Link} (before after : List (ℕ × Job)) (d : ℕ) (j : Job)
      → c.queue ≡ before ++ (d, j) ∷ after
      → Step c (run j (record c { queue = before ++ after }))

pub data Reachable (a b : Physical) (latency : ℕ) : Link → Type 0 where
  initial : Reachable a b latency (connect a b latency)
  next : {c d : Link} → Reachable a b latency c → Step c d → Reachable a b latency d

In-left : {A : Type 0} (x : A) (xs ys : List A) → In x xs → In x (xs ++ ys)
In-left x [] ys i = elim i [ ]
In-left x (y ∷ xs) ys (inl e) = inl e
In-left x (y ∷ xs) ys (inr i) = inr (In-left x xs ys i)

In-right : {A : Type 0} (x : A) (xs ys : List A) → In x ys → In x (xs ++ ys)
In-right x [] ys i = i
In-right x (y ∷ xs) ys i = inr (In-right x xs ys i)

In-without : {A : Type 0} (x y : A) (xs ys : List A) → In x (xs ++ ys) → In x (xs ++ y ∷ ys)
In-without x y xs ys i = elim (In-append x xs ys i) [
  | inl j ↦ In-left x xs (y ∷ ys) j
  | inr j ↦ In-right x xs (y ∷ ys) (inr j)
]

-- Whatever arrived or is to arrive at an endpoint, the link took from the other one.
record IsFaithful (c : Link) : Type 0 where
  coming : (d : ℕ) (s : Side) (f : ℕ) → In (d, receive s f) c.queue → In (opposite s, f) c.taken
  arrived : (s : Side) (f : ℕ) → In (s, f) c.received → In (opposite s, f) c.taken

opposite_twice : (s : Side) → opposite (opposite s) ≡ s
opposite_twice one = refl
opposite_twice two = refl

set_link-IsFaithful : (st : ConnectionState) (c : Link) → IsFaithful c → IsFaithful (set_link st c)
unfolding set_link
set_link-IsFaithful st c w = record {
  coming = λ d s f i. elim (In-append (d, receive s f) c.queue _ i) [
    | inl j ↦ w.coming d s f j
    | inr j ↦ absurd (ground (arith, j))
  ];
  arrived = w.arrived;
}

send_frame-IsFaithful : (s : Side) (f : ℕ) (c : Link) → IsFaithful c → IsFaithful (send_frame s f c)
unfolding send_frame
send_frame-IsFaithful s f c w = elim (Bool-cases (is_up (endpoint s c) && is_state_up c.state)) [
  | inr off ↦ rw (send_frame, off) w
  | inl on ↦
      rw (send_frame, on)
        (record {
          coming = λ d t g i. elim (In-append (d, receive t g) c.queue _ i) [
            | inl j ↦ In-left (opposite t, g) c.taken _ (w.coming d t g j)
            | inr j ↦ newcomer d t g j
          ];
          arrived = λ t g i. In-left (opposite t, g) c.taken _ (w.arrived t g i);
        })
]
  where
    taken_of : Job → Side × ℕ
    taken_of (receive t g) = (opposite t, g)
    taken_of _ = (s, f)

    newcomer :
        (d : ℕ) (t : Side) (g : ℕ)
        → In {A = ℕ × Job}
            (d, receive t g)
            ((0, report s f) ∷ (2 * c.latency, receive (opposite s) f) ∷ [])
        → In (opposite t, g) (c.taken ++ (s, f) ∷ [])
    newcomer d t g (inl other) = absurd (ground (arith, other))
    newcomer d t g (inr (inl same)) =
        let back : (opposite (opposite s), f) ≡ (opposite t, g) = ap (λ x. taken_of x.1) same in
        let mine : (s, f) ≡ (opposite t, g) = sym (ap (λ x. (x, f)) (opposite_twice s)) ∙ back in
        In-right (opposite t, g) c.taken _ (inl mine)
    newcomer d t g (inr (inr nothing)) = elim nothing [ ]

dequeue-IsFaithful :
    (before after : List (ℕ × Job)) (d : ℕ) (j : Job) (c : Link)
    → c.queue ≡ before ++ (d, j) ∷ after
    → IsFaithful c
    → IsFaithful (record c { queue = before ++ after })
dequeue-IsFaithful before after d j c e w = record {
  coming = λ d' s f i. w.coming d' s f (
      subst (λ q. In (d', receive s f) q) (sym e)
        (In-without (d', receive s f) (d, j) before after i));
  arrived = w.arrived;
}

receive-IsFaithful :
    (s : Side) (f : ℕ) (c : Link)
    → In (opposite s, f) c.taken
    → IsFaithful c
    → IsFaithful (run (receive s f) c)
unfolding run
receive-IsFaithful s f c sent w = elim (Bool-cases (is_up (endpoint s c))) [
  | inr off ↦ rw (run, off) w
  | inl on ↦
      rw (run, on)
        (record {
          coming = w.coming;
          arrived = λ t g i. elim (In-append (t, g) c.received _ i) [
            | inl j ↦ w.arrived t g j
            | inr (inl same) ↦ subst (λ x. In (opposite x.0, x.1) c.taken) same sent
            | inr (inr nothing) ↦ absurd nothing
          ];
        })
]

run-IsFaithful :
    (before after : List (ℕ × Job)) (d : ℕ) (j : Job) (c : Link)
    → c.queue ≡ before ++ (d, j) ∷ after
    → IsFaithful c
    → IsFaithful (run j (record c { queue = before ++ after }))
unfolding run
run-IsFaithful before after d (change one st) c e w =
    let v = dequeue-IsFaithful before after d _ c e w in
    record { coming = v.coming; arrived = v.arrived }
run-IsFaithful before after d (change two st) c e w =
    let v = dequeue-IsFaithful before after d _ c e w in
    record { coming = v.coming; arrived = v.arrived }
run-IsFaithful before after d (report s f) c e w =
    let v = dequeue-IsFaithful before after d _ c e w in
    record { coming = v.coming; arrived = v.arrived }
run-IsFaithful before after d (receive s f) c e w =
    let queued : In (d, receive s f) c.queue =
      subst (λ q. In (d, receive s f) q) (sym e) (In-right (d, receive s f) before _ (inl refl)) in
    receive-IsFaithful s f (record c { queue = before ++ after }) (w.coming d s f queued)
      (dequeue-IsFaithful before after d _ c e w)

Step-IsFaithful : {c d : Link} → IsFaithful c → Step c d → IsFaithful d
Step-IsFaithful {c} {d} w (sends s f) = send_frame-IsFaithful s f c w
Step-IsFaithful {c} {d} w (goes st) = set_link-IsFaithful st c w
Step-IsFaithful {c} {d} w (runs before after n j e) = run-IsFaithful before after n j c e w

connect-IsFaithful : (a b : Physical) (latency : ℕ) → IsFaithful (connect a b latency)
unfolding connect set_link
connect-IsFaithful a b latency = record {
  coming = λ d s f i. absurd (ground (arith, i));
  arrived = λ s f i. absurd i;
}

Reachable-IsFaithful :
    {a b : Physical} {latency : ℕ} {c : Link} → Reachable a b latency c → IsFaithful c
Reachable-IsFaithful {a} {b} {latency} {c} initial = connect-IsFaithful a b latency
Reachable-IsFaithful {a} {b} {latency} {c} (next r step) =
    Step-IsFaithful (Reachable-IsFaithful r) step

-- A frame that an endpoint received was taken by the link from the other endpoint, after any sequence
-- of sends, changes of the link and tasks in any order.
pub received_was_taken :
    (a b : Physical) (latency : ℕ) (c : Link) (s : Side) (f : ℕ)
    → Reachable a b latency c
    → In (s, f) c.received
    → In (opposite s, f) c.taken
received_was_taken a b latency c s f r i = let w = Reachable-IsFaithful r in w.arrived s f i
