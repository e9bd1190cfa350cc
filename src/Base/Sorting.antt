-- ===== src/Base/Sorting.antt =====
-- Python's stable `sort(key=…)` and `sorted(…, key=…)`, as insertion from the right, and what it
-- keeps: the elements, the order of the keys and, among equal keys, the order that was there.
use Prim.Native.Nat.{ℕ, ◌≤◌}
use mathlib.Core.Path.{◌≡◌}
use mathlib.Core.Logic.{◌≢◌, ◌⊎◌, inl, inr}
use mathlib.Core.List.{List, [], ◌∷◌, ◌++◌}
use native.Mathlib.Omega.{arith}
use router_sim.Base.Tests.{leb, if◌then◌else◌, Bool-cases}
use router_sim.Base.Lists.{In, All, All-map}

module _ {A : Type 0} (key : A → ℕ) where
  unfoldable pub insert_by : A → List A → List A
  insert_by x [] = x ∷ []
  insert_by x (y ∷ ys) =
      let rest = insert_by x ys in if leb (key x) (key y) then x ∷ y ∷ ys else y ∷ rest

  unfoldable pub sort_by : List A → List A
  unfolding insert_by
  sort_by [] = []
  sort_by (x ∷ xs) = insert_by x (sort_by xs)

  abbrev pub IsSortedBy : List A → Type 0
  IsSortedBy [] = Unit
  IsSortedBy (x ∷ xs) = All (λ y. key x ≤ key y) xs × IsSortedBy xs

  insert_by-ne-nil : (x : A) (xs : List A) → insert_by x xs ≢ []
  unfolding insert_by
  insert_by-ne-nil x [] h = cc
  insert_by-ne-nil x (y ∷ ys) h = ground arith

  pub sort_by-append-ne-nil : (xs : List A) (x : A) → sort_by (xs ++ x ∷ []) ≢ []
  unfolding sort_by
  sort_by-append-ne-nil [] x = insert_by-ne-nil x []
  sort_by-append-ne-nil (y ∷ ys) x = insert_by-ne-nil y (sort_by (ys ++ x ∷ []))

  pub All-insert_by {ℓ} :
      (P : A → Type ℓ) (x : A) (xs : List A) → P x → All P xs → All P (insert_by x xs)
  unfolding insert_by
  All-insert_by P x [] p h = (p, tt)
  All-insert_by P x (y ∷ ys) p h = elim (Bool-cases (leb (key x) (key y))) [
    | inl e ↦ rw e (p, h)
    | inr e ↦ rw e (h.0, All-insert_by P x ys p h.1)
  ]

  pub All-sort_by {ℓ} : (P : A → Type ℓ) (xs : List A) → All P xs → All P (sort_by xs)
  unfolding sort_by
  All-sort_by P [] h = tt
  All-sort_by P (x ∷ xs) h = All-insert_by P x (sort_by xs) h.0 (All-sort_by P xs h.1)

  pub insert_by-IsSortedBy : (x : A) (xs : List A) → IsSortedBy xs → IsSortedBy (insert_by x xs)
  unfolding insert_by
  insert_by-IsSortedBy x [] h = (tt, tt)
  insert_by-IsSortedBy x (y ∷ ys) h = elim (Bool-cases (leb (key x) (key y))) [
    | inl e ↦ rw e (
      (
        ground (arith, e),
        All-map (λ z. key y ≤ key z) (λ z. key x ≤ key z) ys (λ z l. ground (arith, e, l)) h.0,
      ),
      h,
    )
    | inr e ↦ rw e (
      All-insert_by (λ z. key y ≤ key z) x ys (ground (arith, e)) h.0,
      insert_by-IsSortedBy x ys h.1,
    )
  ]

  pub sort_by-IsSortedBy : (xs : List A) → IsSortedBy (sort_by xs)
  unfolding sort_by
  sort_by-IsSortedBy [] = tt
  sort_by-IsSortedBy (x ∷ xs) = insert_by-IsSortedBy x (sort_by xs) (sort_by-IsSortedBy xs)

  pub In-insert_by : (a x : A) (xs : List A) → (x ≡ a) ⊎ In a xs → In a (insert_by x xs)
  unfolding insert_by
  In-insert_by a x [] h = h
  In-insert_by a x (y ∷ ys) h = ground (arith, In-insert_by a x ys)

  pub In-sort_by : (a : A) (xs : List A) → In a xs → In a (sort_by xs)
  unfolding sort_by
  In-sort_by a (x ∷ xs) (inl e) = In-insert_by a x (sort_by xs) (inl e)
  In-sort_by a (x ∷ xs) (inr m) = In-insert_by a x (sort_by xs) (inr (In-sort_by a xs m))
  In-sort_by a [] m = elim m [ ]

-- Sorted by the first key and, where that is equal, by the second.
module _ {A : Type 0} (key minor : A → ℕ) where
  abbrev pub Precedes : A → A → Type 0
  Precedes x y = (key x ≤ key y) × (key x ≡ key y → minor x ≤ minor y)

  abbrev pub IsLexSorted : List A → Type 0
  IsLexSorted [] = Unit
  IsLexSorted (x ∷ xs) = All (Precedes x) xs × IsLexSorted xs

  insert_by-IsLexSorted :
      (x : A) (xs : List A)
      → All (λ y. minor x ≤ minor y) xs
      → IsLexSorted xs
      → IsLexSorted (insert_by key x xs)
  unfolding insert_by
  insert_by-IsLexSorted x [] m h = (tt, tt)
  insert_by-IsLexSorted x (y ∷ ys) m h = elim (Bool-cases (leb (key x) (key y))) [
    | inl e ↦ rw e ((ground (arith, e), first ys m.1 h.0 (ground (arith, e))), h)
    | inr e ↦ rw e (
      All-insert_by key (Precedes y) x ys (ground (arith, e)) h.0,
      insert_by-IsLexSorted x ys m.1 h.1,
    )
  ]
    where
      first :
          (zs : List A)
          → All (λ z. minor x ≤ minor z) zs
          → All (Precedes y) zs
          → key x ≤ key y
          → All (Precedes x) zs
      first [] m h l = tt
      first (z ∷ zs) m h l = ((omega (arith, h.0.0), λ _. m.0), first zs m.1 h.1 l)

  -- A stable sort by the first key of what is sorted by the second.
  pub sort_by-IsLexSorted : (xs : List A) → IsSortedBy minor xs → IsLexSorted (sort_by key xs)
  unfolding sort_by
  sort_by-IsLexSorted [] h = tt
  sort_by-IsLexSorted (x ∷ xs) h =
      insert_by-IsLexSorted x (sort_by key xs) (All-sort_by key (λ y. minor x ≤ minor y) xs h.0)
        (sort_by-IsLexSorted xs h.1)
