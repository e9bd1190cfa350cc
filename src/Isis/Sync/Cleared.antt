-- ===== src/Isis/Sync/Cleared.antt =====
-- The flags of LSPs after partial sequence numbers, of routersim/isis/process.py.
use router_sim.Base.{
  ℕ, ◌≡◌, refl, sym, ap, ◌∙◌, subst, true, List, [], ◌∷◌, none, some, if◌then◌else◌, nat_eq, Dict,
  get, In, ◌⊎◌, inl, inr, Bool-cases, Option-cases, List-cases,
}
use router_sim.Base.Outcome.{Ended, ok, err, Fault, or_raise, ◌>>=◌, key_error, name_error}
use router_sim.Isis.Update.{Neighbor, Interface, Process, any_adjacent}
use router_sim.Isis.Adjacency.{send_clns}
use router_sim.Isis.Sync.{asked, clear_asked, send_partial, send_partials, send_partial_snps}
use router_sim.Isis.Sync.Asked.{
  IsClear, clear_asked-IsClear, IsClear-clear_asked, asked-nil, IsAsked, IsAsked-cases,
  IsAsked-clear_asked,
}

-- Why a request for LSPs is lost: its interface is not enabled, or it is up.
abbrev pub IsLost : ℕ → Process → Type 0
IsLost i s =
    (get s.interfaces i ≡ none)
    ⊎ ((x : Interface) × (get s.interfaces i ≡ some x) × (x.is_up ≡ true))

-- `send_partial` with nothing to ask for, or with the flags cleared and a request that ends somehow.
abbrev Partial : ℕ → Process → Process × Ended → Type 0
Partial i s r =
    ((r ≡ (s, ok tt)) × IsClear i s.database)
    ⊎ (IsAsked i s.database
        × (r.0 ≡ record s { database = clear_asked i s.database })
        × ((r.1 ≡ ok tt) ⊎ (IsLost i s × (e : Fault) × (r.1 ≡ err e))))

request_ends :
    (i : ℕ) (s : Process) (es : List (ℕ × ℕ))
    → let o =
        or_raise key_error (get s.interfaces i) >>= λ x. if x.is_up then send_clns es else ok tt in
      (o ≡ ok tt) ⊎ (IsLost i s × (e : Fault) × (o ≡ err e))
unfolding send_clns
request_ends i s es = elim (Option-cases (get s.interfaces i)) [
  | inl off ↦ inr (inl off, key_error, rw off refl)
  | inr (x, on) ↦ elim (Bool-cases x.is_up) [
    | inl up ↦ inr (inr (x, on, up), name_error, rw (on, up) refl)
    | inr down ↦ inl (rw (on, down) refl)
  ]
]

send_partial-Partial : (i : ℕ) (s : Process) → Partial i s (send_partial i s)
unfolding send_partial
send_partial-Partial i s = elim (List-cases (asked i s.database [])) [
  | inl idle ↦ inl (rw (send_partial, idle) refl, (asked-nil i s.database [] idle).1)
  | inr (x, es, some_asked) ↦ elim (IsAsked-cases i s.database) [
    | inr idle ↦ cc (idle [], some_asked)
    | inl is_asked ↦ inr (
      is_asked,
      rw (send_partial, some_asked) refl,
      rw (send_partial, some_asked) (request_ends i s (x ∷ es)),
    )
  ]
]

-- What the loop over some interfaces leaves.
abbrev Settled : Dict ℕ (Dict ℕ Neighbor) → Process → Process × Ended → Type 0
Settled m s r =
    ((j : ℕ) → IsClear j s.database → IsClear j r.0.database)
    × (((r.1 ≡ ok tt)
          × ((i : ℕ) (ns : Dict ℕ Neighbor)
              → In (i, ns) m
              → any_adjacent ns ≡ true
              → IsClear i r.0.database))
        ⊎ ((i : ℕ) × (ns : Dict ℕ Neighbor) × In (i, ns) m
            × (any_adjacent ns ≡ true)
            × IsAsked i s.database
            × IsLost i s
            × IsClear i r.0.database
            × (e : Fault) × (r.1 ≡ err e)))

send_partials-first :
    (k : ℕ) (ns : Dict ℕ Neighbor) (m : Dict ℕ (Dict ℕ Neighbor)) (s t : Process) (o : Ended)
    → (if any_adjacent ns then send_partial k s else (s, ok tt)) ≡ (t, o)
    → send_partials ((k, ns) ∷ m) s
      ≡ elim o as (λ y. Process × Ended) [ ok u ↦ send_partials m t | err e ↦ (t, err e) ]
unfolding send_partials
send_partials-first k ns m s t o first =
    ap
      (λ f. elim f.1 as (λ y. Process × Ended) [
        | ok u ↦ send_partials m f.0
        | err e ↦ (f.0, err e)
      ])
      first

-- an interface with nothing to ask for, before the others
skip-Settled :
    (k : ℕ) (ns : Dict ℕ Neighbor) (m : Dict ℕ (Dict ℕ Neighbor)) (s : Process)
    (r : Process × Ended)
    → (any_adjacent ns ≡ true → IsClear k s.database)
    → Settled m s r
    → Settled ((k, ns) ∷ m) s r
skip-Settled k ns m s r clear (kept, inl (ends, all_clear)) = (kept, inl (ends, step))
  where
    step :
        (i : ℕ) (xs : Dict ℕ Neighbor)
        → In (i, xs) ((k, ns) ∷ m)
        → any_adjacent xs ≡ true
        → IsClear i r.0.database
    step i xs (inl here) heard = kept i (
        subst (λ j. IsClear j s.database) (ap (λ y. y.0) here)
          (clear (ap (λ y. any_adjacent y.1) here ∙ heard)))
    step i xs (inr there) heard = all_clear i xs there heard
skip-Settled k ns m s r clear (kept, inr (i, xs, at, heard, is_asked, lost, now, e, raises)) =
    (kept, inr (i, xs, inr at, heard, is_asked, lost, now, e, raises))

-- an interface whose request ended without an exception, before the others
next-Settled :
    (k : ℕ) (ns : Dict ℕ Neighbor) (m : Dict ℕ (Dict ℕ Neighbor)) (s : Process)
    (r : Process × Ended)
    → Settled m (record s { database = clear_asked k s.database }) r
    → Settled ((k, ns) ∷ m) s r
next-Settled k ns m s r whole =
    let t = record s { database = clear_asked k s.database } in
    let (kept, left) = skip-Settled k ns m t r (λ h. clear_asked-IsClear k s.database) whole in
    (
      λ j clear. kept j (IsClear-clear_asked j k s.database clear),
      elim left [
        | inl ends ↦ inl ends
        | inr (i, xs, at, heard, is_asked, lost, clear, e, raises) ↦
            inr (
              i,
              xs,
              at,
              heard,
              IsAsked-clear_asked i k s.database is_asked,
              lost,
              clear,
              e,
              raises,
            )
      ],
    )

send_partials-Settled :
    (m : Dict ℕ (Dict ℕ Neighbor)) (s : Process) → Settled m s (send_partials m s)
unfolding send_partials
send_partials-Settled [] s = (λ j clear. clear, inl (refl, λ i ns at heard. absurd at))
send_partials-Settled ((k, ns) ∷ m) s = elim (Bool-cases (any_adjacent ns)) [
  | inr idle ↦
      subst (Settled ((k, ns) ∷ m) s) (sym (send_partials-first k ns m s s (ok tt) (rw idle refl)))
        (skip-Settled k ns m s (send_partials m s) (λ h. cc (h, idle)) (send_partials-Settled m s))
  | inl heard ↦ elim (send_partial-Partial k s) [
    | inl (quiet, clear) ↦
        subst (Settled ((k, ns) ∷ m) s)
          (sym (send_partials-first k ns m s s (ok tt) (rw heard quiet)))
          (skip-Settled k ns m s (send_partials m s) (λ h. clear) (send_partials-Settled m s))
    | inr (is_asked, state, inl ends) ↦
        let t = record s { database = clear_asked k s.database } in
        subst (Settled ((k, ns) ∷ m) s)
          (sym (send_partials-first k ns m s t (ok tt) (rw heard (cc (state, ends)))))
          (next-Settled k ns m s (send_partials m t) (send_partials-Settled m t))
    | inr (is_asked, state, inr (lost, e, raises)) ↦
        let t = record s { database = clear_asked k s.database } in
        subst (Settled ((k, ns) ∷ m) s)
          (sym (send_partials-first k ns m s t (err e) (rw heard (cc (state, raises)))))
          (
            λ j clear. IsClear-clear_asked j k s.database clear,
            inr (k, ns, inl refl, heard, is_asked, lost, clear_asked-IsClear k s.database, e, refl),
          )
  ]
]

-- `__send_partial_snps` either ends without an exception, and then no LSP is to be asked for any more on an
-- interface that has a neighbour which is up; or it ends in an exception, and then there was an LSP to be
-- asked for on such an interface, which is up or not enabled, and nothing is to be asked for there any
-- more, although the request never went out.
pub send_partial_snps-IsClear :
    (s : Process)
    → (((send_partial_snps s).1 ≡ ok tt)
        × ((i : ℕ) (ns : Dict ℕ Neighbor)
            → In (i, ns) s.adjacencies
            → any_adjacent ns ≡ true
            → IsClear i (send_partial_snps s).0.database))
      ⊎ ((i : ℕ) × (ns : Dict ℕ Neighbor) × In (i, ns) s.adjacencies
          × (any_adjacent ns ≡ true)
          × IsAsked i s.database
          × IsLost i s
          × IsClear i (send_partial_snps s).0.database
          × (e : Fault) × ((send_partial_snps s).1 ≡ err e))
unfolding send_partial_snps
send_partial_snps-IsClear s = (send_partials-Settled s.adjacencies s).1
