-- ===== src/Rsvp/Cspf/Way.antt =====
-- routersim/rsvp/process.py, `shortest_path`: the loops that make the paths and their addresses end.
use mathlib.Core.List.{reverse, reverse-append}
use router_sim.Base.{
  ℕ, ◌≡◌, refl, sym, ap, ◌∙◌, subst, true, List, [], ◌∷◌, ◌++◌, Option, some, if◌then◌else◌, ◌==◌,
  nat_eq, Dict, get, set, has, get-set, has-get, In, All, arith, Bool-cases, inl, inr, ◌⊎◌,
}
use router_sim.Net.{net_eq}
use router_sim.Isis.{ExtendedIsReachability, neighbor_ip}
use router_sim.Isis.Spf.{State, Run, done, unconverged, fault, out_of_fuel, ◌>>=◌}
use router_sim.Isis.Spf.Tree.{parent}
use router_sim.Isis.Paths.{resolve_path}
use router_sim.Rsvp.Cspf.{Lsp, Ted, router_paths, hops_to, explicit_route}
use router_sim.Rsvp.Cspf.Topology.{IsNamed}

pub >>=-done :
    {A B : Type 0} (r : Run A) (f : A → Run B) {y : B}
    → r >>= f ≡ done y
    → (x : A) × (r ≡ done x) × (f x ≡ done y)
>>=-done (done x) f e = (x, refl, e)
>>=-done unconverged f e = absurd (cc e)
>>=-done (fault x) f e = absurd (cc e)
>>=-done out_of_fuel f e = absurd (cc e)

pub All-append_one : (P : ℕ → Type 0) (xs : List ℕ) (x : ℕ) → All P xs → P x → All P (xs ++ x ∷ [])
All-append_one P [] x all h = (h, tt)
All-append_one P (y ∷ ys) x all h = (all.0, All-append_one P ys x all.1 h)

pub All-reverse : (P : ℕ → Type 0) (xs : List ℕ) → All P xs → All P (reverse xs)
All-reverse P [] all = tt
All-reverse P (x ∷ xs) all =
    subst (All P) (sym (reverse-append (x ∷ []) xs))
      (All-append_one P (reverse xs) x (All-reverse P xs all.1) all.0)

pub router_paths_lem :
    (self fuel : ℕ) (s : State) (db : Ted) (ex : Option ℕ) (vs : List ℕ) (paths : Dict ℕ (List ℕ))
    (total : (v : ℕ) → (path : List ℕ) × (resolve_path fuel self s (parent s v) ≡ done path))
    → (paths' : Dict ℕ (List ℕ)) × (router_paths db self ex fuel s vs paths ≡ done paths')
      × ((v : ℕ)
          → (get paths v ≡ some (reverse (total v).0)) ⊎ In v vs
          → get paths' v ≡ some (reverse (total v).0))
unfolding router_paths
router_paths_lem self fuel s db ex [] paths total =
    (paths, refl, λ v h. elim h [ inl g ↦ g | inr i ↦ absurd i ])
router_paths_lem self fuel s db ex (u ∷ vs) paths total =
    let (path, found) = total u in
    let now = set paths u (reverse path) in
    let (paths', ends, all) = router_paths_lem self fuel s db ex vs now total in
    (
      paths',
      rw found ends,
      λ v h. elim h [
        | inl old ↦ elim (Bool-cases (u == v)) [
          | inl match ↦
              let same : u ≡ v = ground (arith, match) in
              all v (
                inl (
                  get-set paths u v (reverse path)
                  ∙ rw match (ap (λ x. some (reverse (total x).0)) same)))
          | inr other ↦ all v (inl (get-set paths u v (reverse path) ∙ rw other old))
        ]
        | inr (inl same) ↦ all v (
            inl (
              get-set paths u v (reverse path)
              ∙ ground (arith, same, ap (λ x. some (reverse (total x).0)) same)))
        | inr (inr later) ↦ all v (inr later)
      ],
    )

pub hops_to_total :
    (db : Ted) (self : ℕ) (ex : Option ℕ) (v : ℕ) (ns : List ExtendedIsReachability)
    → All (λ n. has db n.system_id ≡ true) ns
    → (hs : List (Option ℕ)) × (hops_to db self ex v ns ≡ done hs)
unfolding hops_to
hops_to_total db self ex v [] named = ([], refl)
hops_to_total db self ex v (n ∷ ns) named = elim (has-get db n.system_id) [
  | inr (no_key, _) ↦ absurd (cc (sym named.0 ∙ no_key))
  | inl (_, (p, found)) ↦
      let (rest, ends) = hops_to_total db self ex v ns named.1 in
      ((if p.routerid == v then neighbor_ip n.tlvs ∷ rest else rest), rw (found, ends) refl)
]

module _ (db : Ted) (self : ℕ) (exclude : Option ℕ) (ted : Ted)
    (named : (v : ℕ) (p : Lsp) → get ted v ≡ some p → IsNamed db p) where
  pub explicit_route_total :
      (from : ℕ) (path : List ℕ) (dest : ℕ)
      → has ted from ≡ true
      → All (λ v. has ted v ≡ true) path
      → (hs : List (Option ℕ)) × (explicit_route db self exclude ted from path dest ≡ done hs)
  unfolding explicit_route
  explicit_route_total from [] dest known all = elim (has-get ted from) [
    | inr (no_key, _) ↦ absurd (cc (sym known ∙ no_key))
    | inl (_, (p, found)) ↦
        let (hs, ends) = hops_to_total db self exclude dest p.neighbors (named from p found) in
        (hs, rw (found, ends) refl)
  ]
  explicit_route_total from (v ∷ path) dest known all = elim (has-get ted from) [
    | inr (no_key, _) ↦ absurd (cc (sym known ∙ no_key))
    | inl (_, (p, found)) ↦
        let (hs, ends) = hops_to_total db self exclude v p.neighbors (named from p found) in
        let (rest, others) = explicit_route_total v path dest all.0 all.1 in
        (hs ++ rest, rw (found, ends, others) refl)
  ]
