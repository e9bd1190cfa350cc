-- ===== src/Isis/Paths/Trail.antt =====
-- The paths are shortest: each follows the predecessors from a system back to this one.
use mathlib.Core.List.{reverse, reverse-append}
use router_sim.Base.{
  ℕ, zero, suc, ◌+◌, ◌≤◌, ◌<◌, ◌≡◌, refl, sym, ◌∙◌, ap, subst, true, false, List, [], ◌∷◌, ◌++◌,
  ◌≢◌, List-cases, some, if◌then◌else◌, ◌==◌, nat_eq, length, arith, Bool-cases, Option-cases, inl,
  inr,
}
use router_sim.Net.{net_eq}
use router_sim.Isis.Spf.{State, Database, done, maxsize}
use router_sim.Isis.Spf.Graph.{Edge, dist, mem}
use router_sim.Isis.Spf.Tree.{parent, Linear, Tree}
use router_sim.Isis.Paths.{resolve_path}

-- The systems of a walk from `self` to a system, that one first and `self` left out, and its length.
pub data Trail (db : Database) (self : ℕ) : List ℕ → ℕ → ℕ → Type 0 where
  start : Trail db self [] self 0
  hop :
      {path : List ℕ} {u v d w t : ℕ}
      → Trail db self path u d
      → Edge db u v w
      → t ≡ d + w
      → Trail db self (v ∷ path) v t

module _ (db : Database) (self : ℕ) (s : State) (whole : List ℕ) (n : ℕ)
    (tree : Tree db self s [] whole n) where
  -- Whatever order the systems left the queue in, a way back ends within that many steps.
  pub resolve-Linear :
      (order : List ℕ) (fuel v : ℕ)
      → Linear s order
      → length order ≤ fuel
      → mem v order ≡ true
      → (path : List ℕ) × (resolve_path fuel self s (some v) ≡ done path)
        × (dist s.system_distance self ≡ 0
            → dist s.system_distance v < maxsize
            → Trail db self path v (dist s.system_distance v))
  unfolding resolve_path
  resolve-Linear [] fuel v l e h = absurd (cc h)
  resolve-Linear (u ∷ rest) zero v l e h = absurd (omega arith)
  resolve-Linear (u ∷ rest) (suc fuel) v l e h = elim (Bool-cases (u == v)) [
    | inr other ↦ resolve-Linear rest (suc fuel) v l.1 (omega (arith, e)) (ground (arith, h, other))
    | inl match ↦ elim (Option-cases (parent s v)) [
      | inl root ↦ elim (Bool-cases (v == self)) [
        | inl mine ↦ (
          [],
          rw (root, mine) refl,
          λ zero_self low.
              let v_self : self ≡ v = ground (arith, mine) in
              let none_far : 0 ≡ dist s.system_distance v = ground (arith, zero_self, mine) in
              subst (λ y. Trail db self [] y (dist s.system_distance v)) v_self
                (subst (λ y. Trail db self [] self y) none_far start),
        )
        | inr away ↦ (
          v ∷ [],
          rw (root, away) refl,
          λ zero_self low. absurd (ground (arith, tree.roots v root, low, away)),
        )
      ]
      | inr (p, above) ↦
          let same : u ≡ v = ground (arith, match) in
          let below : mem p rest ≡ true = l.0 p (ap (parent s) same ∙ above) in
          let (path, found, trail) = resolve-Linear rest fuel p l.1 (omega (arith, e)) below in
          let (_, w, edge, sum) = tree.parents v p above in
          let away : (v == self) ≡ false = elim (Bool-cases (v == self)) [
            | inl mine ↦ absurd (ground (arith, mine, above, tree.top))
            | inr a ↦ a
          ] in
          (
            v ∷ path,
            rw (above, found, away) refl,
            λ zero_self low. hop (trail zero_self (omega (arith, sum, low))) edge sum,
          )
    ]
  ]

  -- So does the way back from any system.
  pub resolve_any :
      (v : ℕ)
      → length whole ≤ n
      → (path : List ℕ) × (resolve_path (suc n) self s (some v) ≡ done path)
  unfolding resolve_path
  resolve_any v e = elim (Option-cases (parent s v)) [
    | inl root ↦ ((if v == self then [] else v ∷ []), rw root refl)
    | inr (p, above) ↦
        let (path, found, trail) =
          resolve-Linear whole n p tree.linear e (tree.parents v p above).0 in
        ((if v == self then path else v ∷ path), rw (above, found) refl)
  ]

append_one-ne-nil : (xs : List ℕ) (x : ℕ) → xs ++ x ∷ [] ≢ []
append_one-ne-nil [] x h = cc
append_one-ne-nil (y ∷ ys) x h = cc

nil_of_reverse : (xs : List ℕ) → reverse xs ≡ [] → xs ≡ []
nil_of_reverse [] e = refl
nil_of_reverse (x ∷ xs) e =
    absurd (append_one-ne-nil (reverse xs) x (sym (reverse-append (x ∷ []) xs) ∙ e))

self_of_nil :
    (db : Database) (self : ℕ) (path : List ℕ) (v t : ℕ)
    → Trail db self path v t
    → path ≡ []
    → self ≡ v
self_of_nil db self path v t start e = refl
self_of_nil db self path v t (hop trail edge sum) e = absurd (cc e)

-- The first system on the way there is one that this system's LSP names.
pub first_hop :
    (db : Database) (self : ℕ) (path : List ℕ) (v t h : ℕ) (rest : List ℕ)
    → Trail db self path v t
    → reverse path ≡ h ∷ rest
    → (w : ℕ) × Edge db self h w
first_hop db self path v t h rest start e = absurd (cc e)
first_hop db self path v t h rest (hop {path = back} {u = u} {d = d} {w = w} trail edge sum) e =
    let split : reverse back ++ v ∷ [] ≡ h ∷ rest = sym (reverse-append (v ∷ []) back) ∙ e in
    elim (List-cases (reverse back)) [
      | inl none_left ↦
          let from : self ≡ u =
            self_of_nil db self back u d trail (nil_of_reverse back none_left) in
          let last : v ≡ h = ground (arith, rw none_left at split) in
          (w, subst (λ y. Edge db self y w) last (subst (λ y. Edge db y v w) (sym from) edge))
      | inr (x, more, before) ↦
          let first : x ≡ h = ground (arith, rw before at split) in
          first_hop db self back u d h more trail (before ∙ ap (λ y. y ∷ more) first)
    ]
