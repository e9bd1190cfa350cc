-- ===== src/Rsvp/Cspf/Filed.antt =====
-- routersim/rsvp/process.py, `shortest_path`: the LSPs of the database, by their router ids.
use router_sim.Base.{
  ℕ, suc, ◌+◌, ◌≡◌, refl, sym, ap, ◌∙◌, subst, true, false, ◌||◌, List, [], ◌∷◌, ◌++◌, map, Option,
  none, some, ◌==◌, nat_eq, get, set, has, has-set, has-get, length, All, arith, Bool-cases, inl,
  inr,
}
use router_sim.Base.Sorting.{insert_by, sort_by}
use router_sim.Isis.Spf.{State, init_systems, maxsize}
use router_sim.Isis.Spf.Graph.{IsKeyed, mem}
use router_sim.Isis.Spf.Start.{described}
use router_sim.Rsvp.Cspf.{Lsp, Ted, lsps, dbvalues, init_routers}
use router_sim.Rsvp.Cspf.Topology.{IsNamed, router_of, pruned, topology}

-- No two LSPs have the same router id.
abbrev pub IsDistinct : List Lsp → Type 0
IsDistinct [] = Unit
IsDistinct (p ∷ ps) = (mem p.routerid (map (λ q. q.routerid) ps) ≡ false) × IsDistinct ps

-- The database's LSPs name only systems that have LSPs, and have router ids of their own.
pub record IsConverged (db : Ted) : Type 0 where
  pub named : All (IsNamed db) (lsps db)
  pub distinct : IsDistinct (dbvalues db)

-- what becomes of `ted`
abbrev pub ted_of : List Lsp → Ted → Ted
ted_of [] ted = ted
ted_of (p ∷ ps) ted = ted_of ps (set ted p.routerid p)

-- Each LSP of `ted` stands under its router id, and has a property.
abbrev pub IsFiled : (Lsp → Type 0) → Ted → Type 0
IsFiled P [] = Unit
IsFiled P ((k, p) ∷ m) = ((p.routerid ≡ k) × P p) × IsFiled P m

pub set-IsFiled :
    (P : Lsp → Type 0) (ted : Ted) (p : Lsp)
    → P p
    → IsFiled P ted
    → IsFiled P (set ted p.routerid p)
unfolding set
set-IsFiled P [] p holds filed = ((refl, holds), tt)
set-IsFiled P ((k, q) ∷ m) p holds filed = elim (Bool-cases (k == p.routerid)) [
  | inl match ↦ rw match ((ground (arith, match), holds), filed.1)
  | inr other ↦ rw other (filed.0, set-IsFiled P m p holds filed.1)
]

pub get-IsFiled :
    (P : Lsp → Type 0) (ted : Ted) (v : ℕ) (p : Lsp) → get ted v ≡ some p → IsFiled P ted → P p
unfolding get
get-IsFiled P [] v p found filed = absurd (cc found)
get-IsFiled P ((k, q) ∷ m) v p found filed = elim (Bool-cases (k == v)) [
  | inl match ↦
      let same : q ≡ p = ground (arith, rw (match, get) at found) in subst P same filed.0.1
  | inr other ↦ get-IsFiled P m v p (rw (other, get) at found) filed.1
]

pub ted_of-IsFiled :
    (P : Lsp → Type 0) (ps : List Lsp) (ted : Ted)
    → All P ps
    → IsFiled P ted
    → IsFiled P (ted_of ps ted)
ted_of-IsFiled P [] ted all filed = filed
ted_of-IsFiled P (p ∷ ps) ted all filed =
    ted_of-IsFiled P ps (set ted p.routerid p) all.1 (set-IsFiled P ted p all.0 filed)

module _ (db : Ted) (self : ℕ) (exclude : Option ℕ) where
  pub init_routers_lem :
      (ps : List Lsp) (ted : Ted) (s : State) (queue : List ℕ)
      → init_routers ps ted s queue
        ≡ (ted_of ps ted, init_systems (map (pruned db self exclude) ps) s queue)
  unfolding init_routers init_systems pruned
  init_routers_lem [] ted s queue = refl
  init_routers_lem (p ∷ ps) ted s queue =
      init_routers_lem ps (set ted p.routerid p)
        (record s {
          system_distance = set s.system_distance p.routerid maxsize;
          prev_system = set s.prev_system p.routerid none;
        })
        (queue ++ p.routerid ∷ [])

  pub has-ted_of :
      (ps : List Lsp) (ted : Ted) (v : ℕ)
      → has (ted_of ps ted) v ≡ (described v (map (pruned db self exclude) ps) || has ted v)
  unfolding pruned
  has-ted_of [] ted v = refl
  has-ted_of (p ∷ ps) ted v =
      ground (arith, has-ted_of ps (set ted p.routerid p) v, has-set ted p.routerid v p)

  pub topology-IsKeyed :
      (P : Lsp → Type 0) (ted : Ted) → IsFiled P ted → IsKeyed (topology db self exclude ted)
  unfolding topology pruned
  topology-IsKeyed P [] filed = tt
  topology-IsKeyed P ((k, p) ∷ m) filed = (filed.0.0, topology-IsKeyed P m filed.1)

pub length-set :
    (ted : Ted) (v : ℕ) (p : Lsp) → has ted v ≡ false → length (set ted v p) ≡ suc (length ted)
unfolding set has
length-set [] v p new = refl
length-set ((k, q) ∷ m) v p new = ground (arith, new, length-set m v p)

-- Whether some LSP has a router id.
pub IsNew : Ted → List Lsp → Type 0
IsNew ted ps = All (λ p. has ted p.routerid ≡ false) ps

pub set-IsNew :
    (ted : Ted) (p : Lsp) (ps : List Lsp)
    → mem p.routerid (map (λ q. q.routerid) ps) ≡ false
    → IsNew ted ps
    → IsNew (set ted p.routerid p) ps
unfolding IsNew
set-IsNew ted p [] apart new = tt
set-IsNew ted p (q ∷ ps) apart new = (
  ground (arith, has-set ted p.routerid q.routerid p, apart, new.0),
  set-IsNew ted p ps (ground (arith, apart)) new.1,
)

pub length-ted_of :
    (ps : List Lsp) (ted : Ted)
    → IsDistinct ps
    → IsNew ted ps
    → length (ted_of ps ted) ≡ length ps + length ted
unfolding IsNew
length-ted_of [] ted apart new = omega arith
length-ted_of (p ∷ ps) ted apart new =
    length-ted_of ps (set ted p.routerid p) apart.1 (set-IsNew ted p ps apart.0 new.1)
    ∙ omega (arith, length-set ted p.routerid p new.0)

pub empty-IsNew : (ps : List Lsp) → IsNew [] ps
unfolding IsNew has
empty-IsNew [] = tt
empty-IsNew (p ∷ ps) = (refl, empty-IsNew ps)

pub length-map : {A B : Type 0} (f : A → B) (xs : List A) → length (map f xs) ≡ length xs
length-map f [] = refl
length-map f (x ∷ xs) = ap suc (length-map f xs)

module _ (db : Ted) (self : ℕ) (exclude : Option ℕ) where
  pub described-insert_by :
      (v : ℕ) (p : Lsp) (ps : List Lsp)
      → described v (map (pruned db self exclude) (insert_by (λ q. q.source_address) p ps))
        ≡ (p.routerid == v || described v (map (pruned db self exclude) ps))
  unfolding insert_by pruned
  described-insert_by v p [] = refl
  described-insert_by v p (q ∷ ps) = ground (arith, described-insert_by v p ps)

  pub described-sort_by :
      (v : ℕ) (ps : List Lsp)
      → described v (map (pruned db self exclude) (sort_by (λ q. q.source_address) ps))
        ≡ described v (map (pruned db self exclude) ps)
  unfolding sort_by pruned
  described-sort_by v [] = refl
  described-sort_by v (p ∷ ps) =
      described-insert_by v p (sort_by (λ q. q.source_address) ps)
      ∙ ap (λ b. p.routerid == v || b) (described-sort_by v ps)

  pub described-get :
      (m : Ted) (i : ℕ) (q : Lsp)
      → get m i ≡ some q
      → described q.routerid (map (pruned db self exclude) (lsps m)) ≡ true
  unfolding get lsps pruned
  described-get [] i q found = absurd (cc found)
  described-get ((k, p) ∷ m) i q found = elim (Bool-cases (k == i)) [
    | inl match ↦ ground (arith, rw (match, get) at found)
    | inr other ↦ ground (arith, described-get m i q (rw (other, get) at found))
  ]

  -- Every router that has an LSP is among those that the search begins with, and in `ted`.
  pub described-filed :
      (i : ℕ) (q : Lsp)
      → get db i ≡ some q
      → described q.routerid (map (pruned db self exclude) (dbvalues db)) ≡ true
  unfolding dbvalues
  described-filed i q found = described-sort_by q.routerid (lsps db) ∙ described-get db i q found

  pub has-filed :
      (i : ℕ) (q : Lsp) → get db i ≡ some q → has (ted_of (dbvalues db) []) q.routerid ≡ true
  unfolding has
  has-filed i q found =
      has-ted_of db self exclude (dbvalues db) [] q.routerid
      ∙ ground (arith, described-filed i q found)

  pub has-router_of :
      (i : ℕ) → has db i ≡ true → has (ted_of (dbvalues db) []) (router_of db i) ≡ true
  unfolding router_of
  has-router_of i h = elim (has-get db i) [
    | inr (no_key, _) ↦ absurd (cc (sym h ∙ no_key))
    | inl (_, (q, found)) ↦ rw (router_of, found) (has-filed i q found)
  ]
