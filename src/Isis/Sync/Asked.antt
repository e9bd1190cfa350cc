-- ===== src/Isis/Sync/Asked.antt =====
-- The flags of LSPs that are to be asked for, in routersim/isis/process.py.
use router_sim.Base.{
  ℕ, ◌≡◌, ◌≢◌, refl, sym, ap, ◌∙◌, true, false, List, [], ◌∷◌, some, if◌then◌else◌, ◌==◌, nat_eq,
  Dict, get, has, has-delete, beq_refl, arith, In, ◌⊎◌, inl, inr, Bool-cases,
}
use router_sim.Base.Sorting.{sort_by-append-ne-nil}
use router_sim.Isis.Update.{Wrapper, clear_ssn}
use router_sim.Isis.Sync.{entry, by_id, add_entry, asked, clear_asked}

-- No LSP is to be asked for on an interface.
abbrev pub IsClear : ℕ → Dict ℕ Wrapper → Type 0
IsClear i m = (k : ℕ) (w : Wrapper) → get m k ≡ some w → has w.ssns i ≡ false

get-clear_asked :
    (i : ℕ) (m : Dict ℕ Wrapper) (k : ℕ) (w : Wrapper)
    → get (clear_asked i m) k ≡ some w
    → (v : Wrapper) × (get m k ≡ some v) × (w ≡ (if has v.ssns i then clear_ssn i v else v))
unfolding clear_asked get
get-clear_asked i [] k w at = cc at
get-clear_asked i ((j, v) ∷ m) k w at = elim (Bool-cases (j == k)) [
  | inl here ↦ (v, rw here refl, ground (arith, rw here at at))
  | inr away ↦
      let (x, there, same) = get-clear_asked i m k w (rw away at at) in (x, rw away there, same)
]

pub clear_asked-IsClear : (i : ℕ) (m : Dict ℕ Wrapper) → IsClear i (clear_asked i m)
unfolding clear_ssn
clear_asked-IsClear i m k w at =
    let (v, there, same) = get-clear_asked i m k w at in
    elim (Bool-cases (has v.ssns i)) [
      | inl on ↦
          let cleared : w ≡ clear_ssn i v = rw on at same in
          ap (λ x. has x.ssns i) cleared ∙ rw (has-delete, beq_refl i) refl
      | inr off ↦ let plain : w ≡ v = rw off at same in ap (λ x. has x.ssns i) plain ∙ off
    ]

pub IsClear-clear_asked : (j i : ℕ) (m : Dict ℕ Wrapper) → IsClear j m → IsClear j (clear_asked i m)
unfolding clear_ssn
IsClear-clear_asked j i m clear k w at =
    let (v, there, same) = get-clear_asked i m k w at in
    let was : has v.ssns j ≡ false = clear k v there in
    elim (Bool-cases (has v.ssns i)) [
      | inl on ↦
          let cleared : w ≡ clear_ssn i v = rw on at same in
          ap (λ x. has x.ssns j) cleared ∙ ground (arith, has-delete v.ssns i j, was)
      | inr off ↦ let plain : w ≡ v = rw off at same in ap (λ x. has x.ssns j) plain ∙ was
    ]

add_entry-ne-nil : (es : List (ℕ × ℕ)) (w : Wrapper) → add_entry es w ≢ []
unfolding add_entry
add_entry-ne-nil es w h = sort_by-append-ne-nil by_id es (entry w) h

pub asked-nil :
    (i : ℕ) (m : Dict ℕ Wrapper) (es : List (ℕ × ℕ)) → asked i m es ≡ [] → (es ≡ []) × IsClear i m
unfolding asked get
asked-nil i [] es h = (h, λ k w at. cc at)
asked-nil i ((j, v) ∷ m) es h =
    let (empty, clear) = asked-nil i m (if has v.ssns i then add_entry es v else es) h in
    elim (Bool-cases (has v.ssns i)) [
      | inl on ↦ absurd (add_entry-ne-nil es v (rw on at empty))
      | inr off ↦ (
        rw off at empty,
        λ k w at. elim (Bool-cases (j == k)) [
          | inl here ↦
              let same : v ≡ w = ground (arith, rw here at at) in
              ap (λ x. has x.ssns i) (sym same) ∙ off
          | inr away ↦ clear k w (rw away at at)
        ],
      )
    ]

-- An LSP is to be asked for on the interface.
abbrev pub IsAsked : ℕ → Dict ℕ Wrapper → Type 0
IsAsked i m = (k : ℕ) × (w : Wrapper) × In (k, w) m × (has w.ssns i ≡ true)

pub IsAsked-cases :
    (i : ℕ) (m : Dict ℕ Wrapper) → IsAsked i m ⊎ ((es : List (ℕ × ℕ)) → asked i m es ≡ es)
unfolding asked
IsAsked-cases i [] = inr (λ es. refl)
IsAsked-cases i ((j, v) ∷ m) = elim (Bool-cases (has v.ssns i)) [
  | inl on ↦ inl (j, v, inl refl, on)
  | inr off ↦ elim (IsAsked-cases i m) [
    | inl (k, w, at, on) ↦ inl (k, w, inr at, on)
    | inr idle ↦ inr (λ es. rw off (idle es))
  ]
]

pub IsAsked-clear_asked : (i j : ℕ) (m : Dict ℕ Wrapper) → IsAsked i (clear_asked j m) → IsAsked i m
unfolding clear_asked clear_ssn
IsAsked-clear_asked i j [] (k, w, at, on) = absurd at
IsAsked-clear_asked i j ((q, v) ∷ m) (k, w, inr there, on) =
    let (l, x, at, was) = IsAsked-clear_asked i j m (k, w, there, on) in (l, x, inr at, was)
IsAsked-clear_asked i j ((q, v) ∷ m) (k, w, inl here, on) =
    let same : w ≡ (if has v.ssns j then clear_ssn j v else v) = sym (ap (λ y. y.1) here) in
    elim (Bool-cases (has v.ssns j)) [
      | inl cleared ↦
          let now : w ≡ clear_ssn j v = rw cleared at same in
          let left : has (clear_ssn j v).ssns i ≡ true = ap (λ y. has y.ssns i) (sym now) ∙ on in
          (q, v, inl refl, ground (arith, has-delete v.ssns j i, left))
      | inr plain ↦
          let now : w ≡ v = rw plain at same in
          (q, v, inl refl, ap (λ y. has y.ssns i) (sym now) ∙ on)
    ]
