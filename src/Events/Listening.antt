-- ===== src/Events/Listening.antt =====
-- Listening and ceasing to listen in routersim/observers.py.
use router_sim.Base.{
  ℕ, ◌≡◌, ◌≢◌, refl, sym, ◌∙◌, ap, Bool, false, ◌||◌, List, [], ◌∷◌, ◌++◌, some, if◌then◌else◌,
  ◌==◌, nat_eq, get, set, get-set, beq_refl, arith,
}
use router_sim.Events.{Listeners, star, listeners_of, observe, listen, remove_first, stop_listening}

append_assoc : (xs ys zs : List ℕ) → (xs ++ ys) ++ zs ≡ xs ++ (ys ++ zs)
append_assoc [] ys zs = refl
append_assoc (x ∷ xs) ys zs = ap (λ l. x ∷ l) (append_assoc xs ys zs)

listeners_of-listen :
    (t o u : ℕ) (m : Listeners)
    → listeners_of (listen t o m) u
      ≡ (if t == u then listeners_of m t ++ o ∷ [] else listeners_of m u)
unfolding listeners_of listen
listeners_of-listen t o u m = ground (arith, get-set m t u (listeners_of m t ++ o ∷ []))

-- One who listens to a type is told last of its events, after those who were told before, and the
-- events of the other types are told to whom they were.
pub observe-listen :
    (t o : ℕ) (m : Listeners)
    → t ≢ star
    → (observe t (listen t o m) ≡ observe t m ++ o ∷ [])
      × ((u : ℕ) → u ≢ t → observe u (listen t o m) ≡ observe u m)
observe-listen t o m proper =
    let all_same : listeners_of (listen t o m) star ≡ listeners_of m star =
      ground (arith, listeners_of-listen t o star m, proper) in
    (
      unfold observe in
          rw (all_same, listeners_of-listen, beq_refl t)
            (sym (append_assoc (listeners_of m star) (listeners_of m t) (o ∷ []))),
      λ u other.
          let same : listeners_of (listen t o m) u ≡ listeners_of m u =
            ground (arith, listeners_of-listen t o u m, other) in
          unfold observe in rw (all_same, same) refl,
    )

-- Whether an observer is among some.
abbrev pub is_listed : ℕ → List ℕ → Bool
is_listed o [] = false
is_listed o (x ∷ xs) = x == o || is_listed o xs

remove_first-append :
    (o : ℕ) (xs : List ℕ) → is_listed o xs ≡ false → remove_first o (xs ++ o ∷ []) ≡ xs
unfolding remove_first
remove_first-append o [] h = rw (beq_refl o) refl
remove_first-append o (x ∷ xs) h = ground (arith, h, remove_first-append o xs)

stop_listening-put :
    (t o : ℕ) (m : Listeners) (os : List ℕ)
    → get m t ≡ some (os ++ o ∷ [])
    → is_listed o os ≡ false
    → stop_listening t o m ≡ set m t os
unfolding stop_listening
stop_listening-put t o m os at fresh = rw (stop_listening, at, remove_first-append o os fresh) refl

-- An observer that did not listen to a type, listens and then stops leaves the listeners of every
-- type as they were.
pub stop_listening-listen :
    (t o : ℕ) (m : Listeners)
    → is_listed o (listeners_of m t) ≡ false
    → (u : ℕ) → listeners_of (stop_listening t o (listen t o m)) u ≡ listeners_of m u
unfolding listen
stop_listening-listen t o m fresh u =
    let more = listeners_of m t ++ o ∷ [] in
    let added : get (listen t o m) t ≡ some more = rw (get-set, beq_refl t) refl in
    let back = stop_listening-put t o (listen t o m) (listeners_of m t) added fresh in
    ap (λ x. listeners_of x u) back
    ∙ ground (arith, get-set (listen t o m) t u (listeners_of m t), get-set m t u more)
