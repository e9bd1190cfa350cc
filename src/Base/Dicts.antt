-- ===== src/Base/Dicts.antt =====
-- Python's `dict`: an association list in insertion order. Writing an old key keeps its place, a
-- new key goes to the end, and iteration follows the list. Keys have an equality test.
use Prim.Native.Nat.{ℕ, compare, Ordering}
use mathlib.Core.Path.{◌≡◌, refl}
use mathlib.Core.Logic.{◌↔◌, ◌⊎◌, inr}
use mathlib.Core.Bool.{Bool, true, false, ◌||◌}
use mathlib.Core.Option.{Option, none, some}
use mathlib.Core.List.{List, [], ◌∷◌}
use native.Mathlib.Omega.{arith}
use router_sim.Base.Tests.{if◌then◌else◌}

-- A type that keys are taken from: `__eq__`, which says whether two keys are the same.
pub record Hashable {ℓ} (K : Type ℓ) : Type ℓ where
  pub eqv : K → K → Bool
  pub eqv_iff : (j k : K) → (eqv j k ≡ true) ↔ (j ≡ k)

module _ {ℓ} {A : Type ℓ} ⦃h : Hashable A⦄ where
  infix 50 ◌==◌
  abbrev pub ◌==◌ : A → A → Bool
  j == k = h.eqv j k

abbrev pub nat_beq : ℕ → ℕ → Bool
nat_beq a b = elim (compare a b) [ Ordering.eq ↦ true | _ ↦ false ]

pub nat_beq_iff : (a b : ℕ) → (nat_beq a b ≡ true) ↔ (a ≡ b)
nat_beq_iff a b = ground arith

instance abbrev pub nat_eq : Hashable ℕ
nat_eq = record { eqv = nat_beq; eqv_iff = nat_beq_iff }

abbrev pub Dict {ℓ κ} : Type ℓ → Type κ → Type (ℓ ⊔ κ)
Dict K V = List (K × V)

module _ {ℓ κ} {K : Type ℓ} {V : Type κ} where
  abbrev pub keys : Dict K V → List K
  keys [] = []
  keys ((j, v) ∷ m) = j ∷ keys m

module _ {ℓ κ} {K : Type ℓ} {V : Type κ} ⦃e : Hashable K⦄ where
  -- `m.get(k)`
  unfoldable pub get : Dict K V → K → Option V
  get [] k = none
  get ((j, v) ∷ m) k = if j == k then some v else get m k

  -- `m[k] = v`
  unfoldable pub set : Dict K V → K → V → Dict K V
  set [] k v = (k, v) ∷ []
  set ((j, w) ∷ m) k v = if j == k then (j, v) ∷ m else (j, w) ∷ set m k v

  -- `del m[k]`, and `m.pop(k, None)`: a dictionary has one entry for a key
  unfoldable pub delete : Dict K V → K → Dict K V
  delete [] k = []
  delete ((j, w) ∷ m) k = let rest = delete m k in if j == k then rest else (j, w) ∷ rest

  -- `k in m`
  unfoldable pub has : Dict K V → K → Bool
  has [] k = false
  has ((j, w) ∷ m) k = j == k || has m k

  pub get-set :
      (m : Dict K V) (k j : K) (v : V) → get (set m k v) j ≡ (if k == j then some v else get m j)
  unfolding get set
  get-set [] k j v = refl
  get-set ((i, w) ∷ m) k j v =
      ground (arith, e.eqv_iff k j, e.eqv_iff i k, e.eqv_iff i j, get-set m k j v)

  pub get-delete :
      (m : Dict K V) (k j : K) → get (delete m k) j ≡ (if k == j then none else get m j)
  unfolding get delete
  get-delete [] k j = ground arith
  get-delete ((i, w) ∷ m) k j =
      ground (arith, e.eqv_iff k j, e.eqv_iff i k, e.eqv_iff i j, get-delete m k j)

  pub has-set : (m : Dict K V) (k j : K) (v : V) → has (set m k v) j ≡ (k == j || has m j)
  unfolding has set
  has-set [] k j v = refl
  has-set ((i, w) ∷ m) k j v =
      ground (arith, e.eqv_iff k j, e.eqv_iff i k, e.eqv_iff i j, has-set m k j v)

  pub has-delete :
      (m : Dict K V) (k j : K) → has (delete m k) j ≡ (if k == j then false else has m j)
  unfolding has delete
  has-delete [] k j = ground arith
  has-delete ((i, w) ∷ m) k j =
      ground (arith, e.eqv_iff k j, e.eqv_iff i k, e.eqv_iff i j, has-delete m k j)

  pub has-get :
      (m : Dict K V) (k : K)
      → (has m k ≡ true) × ((v : V) × (get m k ≡ some v)) ⊎ (has m k ≡ false) × (get m k ≡ none)
  unfolding has get
  has-get [] k = inr (refl, refl)
  has-get ((i, w) ∷ m) k = ground (arith, has-get m k)

pub beq_refl {ℓ} : {A : Type ℓ} ⦃e : Hashable A⦄ (a : A) → (a == a) ≡ true
beq_refl ⦃e⦄ a = (e.eqv_iff a a).1 refl
